-- ===== src/Server/Registry.antt =====
-- `init_message_handlers` of src/bin/server/model/message_handlers.cpp, and the calls of `dispatch`
-- in the `switch` of `ClientHandler::on_read_data`.
use wire_protocols.Prelude.{ℕ, zero, suc, ◌≡◌, refl, false, Option, some}
use wire_protocols.Wire.{Bytes}
use wire_protocols.Uuid.{Uuid}
use wire_protocols.Requests.{
  Request, register, login, list_accounts, delete_account, send_message, delete_message,
  create_channel, RegisterAccountMessage, LoginMessage, ListAccountsMessage, DeleteAccountMessage,
  SendMessageMessage, DeleteMessageMessage, CreateChannelMessage,
}
use wire_protocols.Database.{Database}
use wire_protocols.Server.{
  Step, Draws, Regex, on_register_account, on_login, on_list_accounts, on_delete_account,
  on_send_message, on_delete_message, on_create_channel, handle_request,
}
use wire_protocols.Dispatch.{
  Dispatched, called, Handlers, MessageHandler, new_instance, get_instance, register_handler,
  dispatch, dispatch-stored, stored,
}

-- The classes of the messages.
pub data RequestClass : Type 0 where
  register_class login_class list_class delete_account_class : RequestClass
  send_class delete_message_class create_class : RequestClass

-- `typeid` tells them apart.
unfoldable pub class_discrete : Discrete RequestClass
class_discrete = hlevel

abbrev pub RequestOf : RequestClass → Type 0
RequestOf register_class = RegisterAccountMessage
RequestOf login_class = LoginMessage
RequestOf list_class = ListAccountsMessage
RequestOf delete_account_class = DeleteAccountMessage
RequestOf send_class = SendMessageMessage
RequestOf delete_message_class = DeleteMessageMessage
RequestOf create_class = CreateChannelMessage

-- What a handler does with the shared database, for the client that its socket leads to. `none`: an
-- exception leaves it.
abbrev pub Handling : Type 0
Handling = Database → Option Uuid → Option Step

abbrev pub Instance : Type 0
Instance = MessageHandler class_discrete RequestOf Handling

module _ (evp_sha256 : Bytes → Bytes) (regex : Regex) (draws : Draws) where
  -- The last registration is one that was made before.
  unfoldable pub init_message_handlers :
      Handlers class_discrete RequestOf Handling → Handlers class_discrete RequestOf Handling
  unfolding register_handler
  init_message_handlers handlers =
      let add = register_handler class_discrete RequestOf Handling in
      let h1 =
        add register_class (λ m db who. some (on_register_account evp_sha256 draws m db who))
          handlers in
      let h2 = add login_class (on_login evp_sha256) h1 in
      let h3 = add list_class (λ m db who. some (on_list_accounts regex m db who)) h2 in
      let h4 =
        add delete_account_class (λ m db who. some (on_delete_account evp_sha256 m db who)) h3 in
      let h5 = add send_class (λ m db who. some (on_send_message draws m db who)) h4 in
      let h6 = add delete_message_class (λ m db who. some (on_delete_message m db who)) h5 in
      let h7 = add create_class (λ m db who. some (on_create_channel draws m db who)) h6 in
      add send_class (λ m db who. some (on_send_message draws m db who)) h7

  -- The thread's instance after as many calls of `get_instance`.
  unfoldable pub instance_after : ℕ → Instance
  unfolding new_instance get_instance init_message_handlers
  instance_after zero = new_instance class_discrete RequestOf Handling
  instance_after (suc n) =
      get_instance class_discrete RequestOf Handling init_message_handlers (instance_after n)

  -- The calls of `dispatch` in the cases of the `switch`.
  unfoldable pub dispatch_request :
      Request → Handlers class_discrete RequestOf Handling → Dispatched Handling
  unfolding dispatch
  dispatch_request (register m) = dispatch class_discrete RequestOf Handling register_class m
  dispatch_request (login m) = dispatch class_discrete RequestOf Handling login_class m
  dispatch_request (list_accounts m) = dispatch class_discrete RequestOf Handling list_class m
  dispatch_request (delete_account m) =
      dispatch class_discrete RequestOf Handling delete_account_class m
  dispatch_request (send_message m) = dispatch class_discrete RequestOf Handling send_class m
  dispatch_request (delete_message m) =
      dispatch class_discrete RequestOf Handling delete_message_class m
  dispatch_request (create_channel m) = dispatch class_discrete RequestOf Handling create_class m

  uninitialized : (n : ℕ) → (instance_after n).handlers_initialized ≡ false
  unfolding instance_after get_instance new_instance
  uninitialized zero = refl
  uninitialized (suc n) = rw (uninitialized n, get_instance) refl

  found :
      (k : RequestClass) (handler : RequestOf k → Handling) (m : RequestOf k)
      (handlers : Handlers class_discrete RequestOf Handling)
      → handlers k ≡ some (stored class_discrete RequestOf Handling k handler)
      → dispatch class_discrete RequestOf Handling k m handlers ≡ called (handler m)
  found = dispatch-stored class_discrete RequestOf Handling

  dispatch_initialized :
      (r : Request) (handlers : Handlers class_discrete RequestOf Handling)
      → dispatch_request r (init_message_handlers handlers)
        ≡ called (λ db who. handle_request evp_sha256 regex draws r db who)
  unfolding dispatch_request init_message_handlers register_handler handle_request class_discrete
  dispatch_initialized (register m) handlers =
      found register_class (λ m db who. some (on_register_account evp_sha256 draws m db who)) m
        (init_message_handlers handlers) refl
  dispatch_initialized (login m) handlers =
      found login_class (on_login evp_sha256) m (init_message_handlers handlers) refl
  dispatch_initialized (list_accounts m) handlers =
      found list_class (λ m db who. some (on_list_accounts regex m db who)) m
        (init_message_handlers handlers) refl
  dispatch_initialized (delete_account m) handlers =
      found delete_account_class (λ m db who. some (on_delete_account evp_sha256 m db who)) m
        (init_message_handlers handlers) refl
  dispatch_initialized (send_message m) handlers =
      found send_class (λ m db who. some (on_send_message draws m db who)) m
        (init_message_handlers handlers) refl
  dispatch_initialized (delete_message m) handlers =
      found delete_message_class (λ m db who. some (on_delete_message m db who)) m
        (init_message_handlers handlers) refl
  dispatch_initialized (create_channel m) handlers =
      found create_class (λ m db who. some (on_create_channel draws m db who)) m
        (init_message_handlers handlers) refl

  -- At every request, from the first call of `get_instance` in the thread on, however many calls
  -- there have been: `dispatch` finds the handler of the message's class, without a wrong cast, and
  -- does what it does.
  pub dispatch_request-handle_request :
      (n : ℕ) (r : Request)
      → dispatch_request r (instance_after (suc n)).handlers
        ≡ called (λ db who. handle_request evp_sha256 regex draws r db who)
  unfolding instance_after
  dispatch_request-handle_request n r =
      rw (uninitialized n, get_instance) (dispatch_initialized r (instance_after n).handlers)
