-- ===== src/Client/Registry.antt =====
-- `init_message_handlers` of src/bin/client/model/message_handlers.cpp, and the calls of `dispatch`
-- in the `switch` of `TcpClient::onReadyRead`.
use wire_protocols.Prelude.{ℕ, zero, suc, ◌≡◌, refl, false, some, List}
use wire_protocols.Models.User.{User}
use wire_protocols.Models.Message.{Message}
use wire_protocols.Models.Channel.{Channel}
use wire_protocols.Responses.{
  Variant, Response, registered, logged_in, accounts_listed, account_deleted, message_sent,
  message_deleted, channel_created,
}
use wire_protocols.Client.{Session}
use wire_protocols.Client.Handlers.{
  Handled, on_register_account_response, on_login_response, on_list_accounts_response,
  on_delete_account_response, on_delete_message_response, on_create_channel_response,
  on_send_message_response, handle_response,
}
use wire_protocols.Dispatch.{
  Dispatched, called, Handlers, MessageHandler, new_instance, get_instance, register_handler,
  dispatch, dispatch-stored, stored,
}

-- The classes of the responses.
pub data ResponseClass : Type 0 where
  register_class login_class list_class delete_account_class : ResponseClass
  delete_message_class create_class send_class : ResponseClass

unfoldable pub class_discrete : Discrete ResponseClass
class_discrete = hlevel

abbrev pub ResponseOf : ResponseClass → Type 0
ResponseOf register_class = Variant (Unit {0})
ResponseOf login_class = Variant User
ResponseOf list_class = Variant (List User)
ResponseOf delete_account_class = Variant User
ResponseOf delete_message_class = Variant Message
ResponseOf create_class = Variant Channel
ResponseOf send_class = Variant Message

abbrev pub Handling : Type 0
Handling = Session → Handled

abbrev pub Instance : Type 0
Instance = MessageHandler class_discrete ResponseOf Handling

unfoldable pub init_message_handlers :
    Handlers class_discrete ResponseOf Handling → Handlers class_discrete ResponseOf Handling
unfolding register_handler
init_message_handlers handlers =
    let add = register_handler class_discrete ResponseOf Handling in
    let h1 = add register_class on_register_account_response handlers in
    let h2 = add login_class on_login_response h1 in
    let h3 = add list_class on_list_accounts_response h2 in
    let h4 = add delete_account_class on_delete_account_response h3 in
    let h5 = add delete_message_class on_delete_message_response h4 in
    let h6 = add create_class on_create_channel_response h5 in
    add send_class on_send_message_response h6

-- The thread's instance after as many calls of `get_instance`.
unfoldable pub instance_after : ℕ → Instance
unfolding new_instance get_instance init_message_handlers
instance_after zero = new_instance class_discrete ResponseOf Handling
instance_after (suc n) =
    get_instance class_discrete ResponseOf Handling init_message_handlers (instance_after n)

-- The calls of `dispatch` in the cases of the `switch`.
unfoldable pub dispatch_response :
    Response → Handlers class_discrete ResponseOf Handling → Dispatched Handling
unfolding dispatch
dispatch_response (registered v) = dispatch class_discrete ResponseOf Handling register_class v
dispatch_response (logged_in v) = dispatch class_discrete ResponseOf Handling login_class v
dispatch_response (accounts_listed v) = dispatch class_discrete ResponseOf Handling list_class v
dispatch_response (account_deleted v) =
    dispatch class_discrete ResponseOf Handling delete_account_class v
dispatch_response (message_sent v) = dispatch class_discrete ResponseOf Handling send_class v
dispatch_response (message_deleted v) =
    dispatch class_discrete ResponseOf Handling delete_message_class v
dispatch_response (channel_created v) = dispatch class_discrete ResponseOf Handling create_class v

uninitialized : (n : ℕ) → (instance_after n).handlers_initialized ≡ false
unfolding instance_after get_instance new_instance
uninitialized zero = refl
uninitialized (suc n) = rw (uninitialized n, get_instance) refl

found :
    (k : ResponseClass) (handler : ResponseOf k → Handling) (v : ResponseOf k)
    (handlers : Handlers class_discrete ResponseOf Handling)
    → handlers k ≡ some (stored class_discrete ResponseOf Handling k handler)
    → dispatch class_discrete ResponseOf Handling k v handlers ≡ called (handler v)
found = dispatch-stored class_discrete ResponseOf Handling

dispatch_initialized :
    (r : Response) (handlers : Handlers class_discrete ResponseOf Handling)
    → dispatch_response r (init_message_handlers handlers) ≡ called (λ s. handle_response r s)
unfolding dispatch_response init_message_handlers register_handler handle_response class_discrete
dispatch_initialized (registered v) handlers =
    found register_class on_register_account_response v (init_message_handlers handlers) refl
dispatch_initialized (logged_in v) handlers =
    found login_class on_login_response v (init_message_handlers handlers) refl
dispatch_initialized (accounts_listed v) handlers =
    found list_class on_list_accounts_response v (init_message_handlers handlers) refl
dispatch_initialized (account_deleted v) handlers =
    found delete_account_class on_delete_account_response v (init_message_handlers handlers) refl
dispatch_initialized (message_sent v) handlers =
    found send_class on_send_message_response v (init_message_handlers handlers) refl
dispatch_initialized (message_deleted v) handlers =
    found delete_message_class on_delete_message_response v (init_message_handlers handlers) refl
dispatch_initialized (channel_created v) handlers =
    found create_class on_create_channel_response v (init_message_handlers handlers) refl

-- At every response, from the first call of `get_instance` in the thread on, however many calls
-- there have been: `dispatch` finds the handler of the response's class, without a wrong cast, and
-- does what it does.
pub dispatch_response-handle_response :
    (n : ℕ) (r : Response)
    → dispatch_response r (instance_after (suc n)).handlers ≡ called (λ s. handle_response r s)
unfolding instance_after
dispatch_response-handle_response n r =
    rw (uninitialized n, get_instance) (dispatch_initialized r (instance_after n).handlers)
