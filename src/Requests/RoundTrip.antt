-- ===== src/Requests/RoundTrip.antt =====
-- serialize, size and deserialize of the request classes of src/message, together.
use wire_protocols.Prelude.{◌^◌, ◌<◌, ◌≡◌, some, [], arith, length, append-nil}
use wire_protocols.Uuid.{uuid_size, uuids_size-sixteen}
use wire_protocols.Requests.{
  Request, register, login, list_accounts, delete_account, send_message, delete_message,
  create_channel, handle, IsRequest, request_operation, request_size, put_request, get_request,
  no_members, get_register-put_register, get_login-put_login, get_list_accounts-put_list_accounts,
  get_delete_account-put_delete_account, get_send_message-put_send_message,
  get_delete_message-put_delete_message, get_create_channel-put_create_channel,
  register_size-put_register, login_size-put_login, list_accounts_size-put_list_accounts,
  delete_account_size-put_delete_account, send_message_size-put_send_message,
  delete_message_size-put_delete_message, create_channel_size-put_create_channel, register_size,
  login_size, list_accounts_size, delete_account_size, send_message_size, create_channel_size,
}

-- What the server's `switch` gets from the payload of a request whose fields fit their length
-- fields is that request, for each of the seven kinds.
pub get_request-put_request :
    (r : Request)
    → IsRequest r
    → get_request (request_operation r) (put_request r) ≡ some (handle r)
unfolding get_request request_operation put_request no_members
get_request-put_request (register m) h =
    let whole = get_register-put_register m [] h in rw (rw append-nil at whole)
get_request-put_request (login m) h =
    let whole = get_login-put_login m [] h.0 h.1 in rw (rw append-nil at whole)
get_request-put_request (list_accounts m) h =
    let whole = get_list_accounts-put_list_accounts m [] h in rw (rw append-nil at whole)
get_request-put_request (delete_account m) h =
    let whole = get_delete_account-put_delete_account m [] h.0 h.1 in rw (rw append-nil at whole)
get_request-put_request (send_message m) h =
    let whole = get_send_message-put_send_message m [] h in rw (rw append-nil at whole)
get_request-put_request (delete_message m) h =
    let whole = get_delete_message-put_delete_message m [] h in rw (rw append-nil at whole)
get_request-put_request (create_channel m) h =
    let whole = get_create_channel-put_create_channel no_members m [] h in
    rw (rw append-nil at whole)

-- The size that the header of a request announces is the number of bytes of its payload, for a
-- request whose fields fit.
pub request_size-put_request : (r : Request) → IsRequest r → length (put_request r) ≡ request_size r
unfolding put_request request_size
request_size-put_request (register m) h = register_size-put_register m
request_size-put_request (login m) h = login_size-put_login m
request_size-put_request (list_accounts m) h = list_accounts_size-put_list_accounts m
request_size-put_request (delete_account m) h = delete_account_size-put_delete_account m
request_size-put_request (send_message m) h = send_message_size-put_send_message m
request_size-put_request (delete_message m) h =
    delete_message_size-put_delete_message m h.channel_valid
request_size-put_request (create_channel m) h = create_channel_size-put_create_channel m

-- The payload of a request whose fields fit is shorter than 8192 bytes; a header can announce up to
-- 65535.
pub request_size_bound : (r : Request) → IsRequest r → request_size r < 2 ^ 13
unfolding request_size register_size login_size list_accounts_size delete_account_size
    send_message_size create_channel_size uuid_size
request_size_bound (register m) h =
    omega (arith, h.username_fits, h.password_fits, h.display_name_fits)
request_size_bound (login m) h = omega arith
request_size_bound (list_accounts m) h = omega arith
request_size_bound (delete_account m) h = omega arith
request_size_bound (send_message m) h =
    omega (arith, h.channel_valid.sixteen, h.sender_valid.sixteen, h.text_fits)
request_size_bound (delete_message m) h = omega arith
request_size_bound (create_channel m) h =
    omega (arith, h.name_fits, h.members_fit, uuids_size-sixteen m.members h.members_valid)
