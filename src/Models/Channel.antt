-- ===== src/Models/Channel.antt =====
-- src/models/channel.cpp, include/models/channel.hpp. A message's snowflake is pushed into the
-- byte buffer as one element, so that only its lowest byte travels.
use wire_protocols.Prelude.{
  ℕ, ◌+◌, ◌≡◌, refl, List, [], ◌∷◌, ◌++◌, map, arith, length, length-append, All, remove_all,
  ℕ_discrete,
}
use wire_protocols.Wire.{
  Bytes, Reader, ◌>>=◌, pure, get_byte, get_times, get_string, put_string, Fits, u8,
}
use wire_protocols.Wire.Reads.{Reads, byte_then, >>=-Reads, >>=-pure-Reads, string_then, pure-Reads}
use wire_protocols.Uuid.{
  Uuid, IsUuid, uuid_discrete, put_uuid, get_uuid, uuid_size, uuid_then, put_uuids, get_uuids,
  get_uuids-Reads, uuids_size, length-put_uuids,
}

pub record Channel : Type 0 where
  pub uid : Uuid
  pub name : Bytes
  pub user_uids : List Uuid
  pub message_snowflakes : List ℕ

-- `Channel(name, user_uids)`, with the identifier that `UUID()` draws.
unfoldable pub new_channel : Bytes → List Uuid → Uuid → Channel
new_channel name user_uids uid = record {
  uid = uid;
  name = name;
  user_uids = user_uids;
  message_snowflakes = [];
}

-- `Channel()`: the identifier that it draws is overwritten by whatever reads into the object.
unfoldable pub blank_channel : Channel
blank_channel = record {
  uid = record { value = [] };
  name = [];
  user_uids = [];
  message_snowflakes = [];
}

-- The count of the snowflakes, and `push_back` of each: a conversion to `uint8_t`.
unfoldable pub put_snowflakes : List ℕ → Bytes
put_snowflakes ns = u8 (length ns) ∷ map (λ n. u8 n) ns

unfoldable pub get_snowflakes : Reader (List ℕ)
unfolding get_byte get_times
get_snowflakes = do n ← get_byte; get_times n get_byte

-- `Channel::serialize`: what it appends to the buffer.
unfoldable pub put_channel : Channel → Bytes
unfolding put_uuid put_string put_uuids put_snowflakes
put_channel c =
    put_uuid c.uid
    ++ (put_string c.name ++ (put_uuids c.user_uids ++ put_snowflakes c.message_snowflakes))

-- `Channel::deserialize` into the object `old`: the two lists are appended to, not replaced.
unfoldable pub get_channel : Channel → Reader Channel
unfolding get_uuid get_string get_uuids get_snowflakes
get_channel old = do
  uid ← get_uuid
  name ← get_string
  user_uids ← get_uuids
  message_snowflakes ← get_snowflakes
  pure (record {
    uid = uid;
    name = name;
    user_uids = old.user_uids ++ user_uids;
    message_snowflakes = old.message_snowflakes ++ message_snowflakes;
  })

-- `Channel::size`
unfoldable pub channel_size : Channel → ℕ
unfolding uuid_size uuids_size
channel_size c =
    uuid_size c.uid
    + 1
    + length c.name
    + 1
    + uuids_size c.user_uids
    + 1
    + length c.message_snowflakes

unfoldable pub set_name : Bytes → Channel → Channel
set_name name c = record c { name = name }

-- `Channel::add_user` and `Channel::add_message`: `push_back`.
unfoldable pub add_user : Uuid → Channel → Channel
add_user user c = record c { user_uids = c.user_uids ++ (user ∷ []) }

unfoldable pub add_message : ℕ → Channel → Channel
add_message snowflake c = record c { message_snowflakes = c.message_snowflakes ++ (snowflake ∷ []) }

unfoldable pub remove_user : Uuid → Channel → Channel
unfolding remove_all
remove_user user c = record c { user_uids = remove_all uuid_discrete user c.user_uids }

unfoldable pub remove_message : ℕ → Channel → Channel
unfolding remove_all
remove_message snowflake c = record c {
  message_snowflakes = remove_all ℕ_discrete snowflake c.message_snowflakes;
}

-- A channel whose name and lists fit their length bytes.
pub record IsChannel (c : Channel) : Type 0 where
  pub uid_valid : IsUuid c.uid
  pub name_fits : Fits c.name
  pub users_fit : Fits c.user_uids
  pub users_valid : All IsUuid c.user_uids
  pub snowflakes_fit : Fits c.message_snowflakes

-- What `old` becomes when it receives `c`.
abbrev pub received_channel : Channel → Channel → Channel
received_channel old c = record {
  uid = c.uid;
  name = c.name;
  user_uids = old.user_uids ++ c.user_uids;
  message_snowflakes = old.message_snowflakes ++ map (λ n. u8 n) c.message_snowflakes;
}

get_low_bytes-Reads :
    (ns : List ℕ) → Reads (get_times (length ns) get_byte) (map (λ n. u8 n) ns) (map (λ n. u8 n) ns)
unfolding get_times
get_low_bytes-Reads [] = pure-Reads []
get_low_bytes-Reads (n ∷ ns) = byte_then (u8 n) _ (map (λ n. u8 n) ns) (
    >>=-pure-Reads (get_times (length ns) get_byte) (λ rest. u8 n ∷ rest) (map (λ n. u8 n) ns)
      (map (λ n. u8 n) ns) (get_low_bytes-Reads ns))

get_snowflakes-Reads :
    (ns : List ℕ) → Fits ns → Reads get_snowflakes (put_snowflakes ns) (map (λ n. u8 n) ns)
unfolding get_snowflakes put_snowflakes
get_snowflakes-Reads ns fits =
    let kept : u8 (length ns) ≡ length ns = omega arith in
    rw kept (byte_then (length ns) _ (map (λ n. u8 n) ns) (get_low_bytes-Reads ns))

-- `deserialize` behind `serialize`, into an object `old`, of a channel whose name and lists fit: the
-- name and the identifier come back, the members come behind those that the object had, and each
-- snowflake comes as its lowest byte, behind the snowflakes that the object had.
pub get_channel-Reads :
    (old c : Channel)
    → IsChannel c
    → Reads (get_channel old) (put_channel c) (received_channel old c)
unfolding put_channel get_channel
get_channel-Reads old c h = uuid_then c.uid _ _ h.uid_valid (
    string_then c.name _ _ h.name_fits (
      >>=-Reads get_uuids _ c.user_uids (received_channel old c) (put_uuids c.user_uids)
        (put_snowflakes c.message_snowflakes)
        (get_uuids-Reads c.user_uids h.users_fit h.users_valid)
        (>>=-pure-Reads get_snowflakes
          (λ ns. record (received_channel old c) {
            message_snowflakes = old.message_snowflakes ++ ns;
          })
          (map (λ n. u8 n) c.message_snowflakes) (put_snowflakes c.message_snowflakes)
          (get_snowflakes-Reads c.message_snowflakes h.snowflakes_fit))))

length-map : (f : ℕ → ℕ) (ns : List ℕ) → length (map f ns) ≡ length ns
length-map f [] = refl
length-map f (n ∷ ns) = omega (arith, length-map f ns)

-- `size` is the number of bytes that `serialize` appends, for every channel.
pub channel_size-put_channel : (c : Channel) → length (put_channel c) ≡ channel_size c
unfolding put_channel channel_size put_snowflakes
channel_size-put_channel c = omega (
  arith,
  length-append c.uid.value
      (put_string c.name ++ (put_uuids c.user_uids ++ put_snowflakes c.message_snowflakes)),
  length-append c.name (put_uuids c.user_uids ++ put_snowflakes c.message_snowflakes),
  length-append (put_uuids c.user_uids) (put_snowflakes c.message_snowflakes),
  length-put_uuids c.user_uids,
  length-map (λ n. u8 n) c.message_snowflakes,
)
