-- ===== src/Lib.antt =====
-- The wire protocol of the chat program and its JSON mode, its packet framing, the server's database,
-- request handlers and connections, and the client's session and windows.
--
-- The client and the server exchange packets: a header of four bytes and a payload. A client
-- serializes a request (`serialize_msg`), the server takes one packet off its socket for each signal
-- that there is something to read, decodes it by the operation of the header and hands it to the
-- handler of its type. The handlers work on one database of four tables, which all connections share,
-- write responses to their client, and make users emit signals. A connection that is logged in hears
-- the signals of its user and writes a response for each. The client's socket is read in a loop that
-- decodes one response after the other and hands it to a handler, which changes the session and emits
-- signals to the windows. The windows show the session, and the actions of the user in them write
-- requests.
--
-- Prelude         shared names, the Boolean tests and list functions on the native numbers, bits
-- Wire            buffers and offsets of `deserialize`, texts with a length byte, integers
-- Uuid            src/models/uuid.cpp
-- Header          src/message/header.cpp, include/message/header.hpp, include/constants.hpp
-- Models          src/models/user.cpp, message.cpp, channel.cpp
-- Requests        src/message: register_account, login, delete_account, list_accounts, send_message,
--                 create_channel, delete_message, and the server's switch on the operation
-- Responses       src/message: the seven *_response.cpp, and the client's switch on the operation
-- Json            to_json and from_json of src/models and src/message, which the JSON mode sends and
--                 the custom mode logs
-- Dispatch        include/models/message_handler.hpp; Server/Registry and Client/Registry: its use by
--                 the two message_handlers.cpp
-- Framing         on_read_data of src/bin/server/model/client_handler.cpp and onReadyRead of
--                 src/bin/client/model/tcp_client.cpp
-- Database        src/bin/server/db and include/server/db
-- Server          src/bin/server/model/message_handlers.cpp; Server/Connections: client_handler.cpp and
--                 tcp_server.cpp of the same folder
-- Client          src/bin/client/model/session.cpp; Client/Handlers: message_handlers.cpp,
--                 Client/Receiving and Client/Requests: tcp_client.cpp of the same folder;
--                 Client/Windows and Client/Events: src/bin/client/gui and src/bin/client/main.cpp;
--                 Client/Shown, Client/Settled and Client/Reappearing: what the windows show, where
--                 they throw, and how deleted messages come back
-- Replica         what the sessions of the clients show next to what the server keeps
-- Snowflake       src/models/snowflake.cpp, include/models/snowflake.hpp
-- Tests           concrete runs of all of them
--
-- A `serialize` is the bytes that it appends (`put_...`), a `deserialize` is a reader of a buffer at an
-- offset (`get_...`), which answers `none` where the code would read outside the buffer, and a `size`
-- keeps its name (`..._size`). Bytes and texts are lists of numbers. A machine integer is a number with
-- the wrap-around of its type written out where the code narrows (`u8`, `u16`, `u64`), and what does not
-- fit its length byte is excluded by the hypotheses of the round trips (`Fits`, `IsUuid`, `IsRequest`,
-- `IsResponse`).
--
-- A socket is the bytes in its buffer and the chunks on their way, which only the event loop of its
-- thread puts into the buffer, so that none arrives while a slot sleeps. The wait for a payload has the
-- 100 retries of the code. The line that logs a message before its dispatch throws where `to_json` does
-- (`logged`), by the parameter `Library` below. The `while (true)` of onReadyRead runs on fuel;
-- it ends after fewer rounds than there are unread bytes and one more, since each round that goes on
-- takes a header off the socket.
--
-- A table is a list of entries in the order in which the code would iterate. The random bytes of a new
-- identifier and of a salt, the next snowflake and the clock are arguments of what draws them (`Draws`);
-- Server/Generated takes the snowflakes from the generator, and Server/Drawing has the exception of
-- `nextId` and those of the lines that log the responses; elsewhere the handlers start from a snowflake
-- that was issued, and what they and the slots of the connections log is taken to be UTF-8.
-- The digest of OpenSSL is the parameter `evp_sha256`, of which nothing is assumed, and the regular
-- expressions of the standard library are the argument `Regex`, whose matching is taken to complete. A
-- table's mutex is held for one operation; the handlers are modelled one after the other, but for two
-- registrations at once in Server/Races. An exception that leaves a handler is `none`. A `World` is the database and the
-- connections, each with the user that it is subscribed to and the responses that were written to it.
-- The slots of the connection whose request is handled run where the signal is emitted, before the
-- response is written; the slots of the others are queued by Qt, and run before the next request.
--
-- A session's channels are positions in a list of objects, since the map of the channels and the open
-- channel share them; a message carries the number of its object, since `remove_message` compares
-- pointers. A handler that throws or follows a null pointer is `none`. A channel that a client is to see
-- (`visible`) is one that lists the user, with the messages of its snowflakes that are in the message
-- table.
--
-- The generator of message identifiers takes the readings of its clock from a list. Its wait for the
-- next millisecond runs over the readings and answers `still_waiting` when they are used up, so that it
-- needs no fuel. An identifier is its 64 bits read as a `uint64_t`, which is how a message keeps it.
--
-- In JSON mode nlohmann/json is the parameter `Library`, values and calls, with the laws `IsLawful`
-- that its documentation states: keys and values of objects, conversions, and a text for every value
-- whose strings are UTF-8, which parses to that value. `none` is an exception of the library. The header
-- and the framing are those of the custom protocol: their version number is 1, and 2 in JSON mode.
--
-- The table of handlers is a function from the classes of messages, and a pointer to a message without
-- its type is the class with the object. A cast to another class than the object's is `none`.
--
-- A window is its inputs, lists and flags, and a widget in a list is what it shows. The slots of a
-- signal run at the session that the handler leaves, since the handlers emit after their changes. Qt's
-- validators are the parameter `Validators`, and a step of the client is a response, a signal of its
-- socket or an action of its user.
--
-- Not modelled: the library that the JSON mode uses; layout, styles and animations of the windows; the
-- server's command line; Qt's event loop and threads; interleavings of the handlers of the server other
-- than two registrations.
pub mod Prelude
pub mod Wire
pub mod Uuid
pub mod Header
pub mod Json
pub mod Models
pub mod Requests
pub mod Responses
pub mod Framing
pub mod Database
pub mod Dispatch
pub mod Server
pub mod Snowflake
pub mod Client
pub mod Replica
pub mod Tests
