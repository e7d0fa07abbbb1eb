-- ===== src/Requests/Credentials.antt =====
-- src/message/login.cpp, src/message/delete_account.cpp: a name and a password.
use wire_protocols.Prelude.{
  ℕ, ◌+◌, ◌≡◌, refl, Option, some, ◌++◌, arith, length, length-append, append_assoc,
}
use wire_protocols.Prelude.Try.{◌>>=◌}
use wire_protocols.Wire.{Bytes, byte_at, slice, put_string, Fits}
use wire_protocols.Wire.Reads.{At, At-string, At-next, slice_moved}

pub record LoginMessage : Type 0 where
  pub username : Bytes
  pub password : Bytes

pub record DeleteAccountMessage : Type 0 where
  pub username : Bytes
  pub password : Bytes

-- `serialize`: what it appends to the buffer.
unfoldable pub put_login : LoginMessage → Bytes
put_login m = put_string m.username ++ put_string m.password

unfoldable pub put_delete_account : DeleteAccountMessage → Bytes
put_delete_account m = put_string m.username ++ put_string m.password

-- `size`
unfoldable pub login_size : LoginMessage → ℕ
login_size m = 2 + length m.username + length m.password

unfoldable pub delete_account_size : DeleteAccountMessage → ℕ
delete_account_size m = 2 + length m.username + length m.password

-- `deserialize`
unfoldable pub get_login : Bytes → Option LoginMessage
get_login buf = do
  username_length ← byte_at buf 0
  password_length ← byte_at buf (username_length + 1)
  username ← slice buf 1 username_length
  password ← slice buf (username_length + 2) password_length
  some (record { username = username; password = password })

unfoldable pub get_delete_account : Bytes → Option DeleteAccountMessage
get_delete_account buf = do
  username_length ← byte_at buf 0
  password_length ← byte_at buf (username_length + 1)
  username ← slice buf 1 username_length
  password ← slice buf (username_length + 2) password_length
  some (record { username = username; password = password })

-- Where the four reads find a name and a password.
two_strings :
    (name word rest : Bytes)
    → Fits name
    → Fits word
    → let buf = put_string name ++ (put_string word ++ rest) in
      (byte_at buf 0 ≡ some (length name))
      × (byte_at buf (length name + 1) ≡ some (length word))
      × (slice buf 1 (length name) ≡ some name)
      × (slice buf (length name + 2) (length word) ≡ some word)
two_strings name word rest hn hw =
    let buf = put_string name ++ (put_string word ++ rest) in
    let start : At buf 0 (put_string name) (put_string word ++ rest) = record {
      inside = omega arith;
      found = refl;
    } in
    let (l, s, next) = At-string buf name (put_string word ++ rest) 0 hn start in
    let (k, t, _) =
      At-string buf word rest (length name + 1) hw
        (At-next buf (put_string word) rest _ (length name + 1) (omega arith) next) in
    (l, k, s, slice_moved buf (length name + 1 + 1) (length name + 2) (length word) (omega arith) t)

-- A login request is read back, whatever follows it.
pub get_login-put_login :
    (m : LoginMessage) (rest : Bytes)
    → Fits m.username
    → Fits m.password
    → get_login (put_login m ++ rest) ≡ some m
unfolding get_login put_login
get_login-put_login m rest hn hw =
    let (a, b, c, d) = two_strings m.username m.password rest hn hw in
    rw (append_assoc (put_string m.username) (put_string m.password) rest, a, b, c, d)

-- A request to delete an account is read back, whatever follows it.
pub get_delete_account-put_delete_account :
    (m : DeleteAccountMessage) (rest : Bytes)
    → Fits m.username
    → Fits m.password
    → get_delete_account (put_delete_account m ++ rest) ≡ some m
unfolding get_delete_account put_delete_account
get_delete_account-put_delete_account m rest hn hw =
    let (a, b, c, d) = two_strings m.username m.password rest hn hw in
    rw (append_assoc (put_string m.username) (put_string m.password) rest, a, b, c, d)

pub login_size-put_login : (m : LoginMessage) → length (put_login m) ≡ login_size m
unfolding put_login login_size put_string
login_size-put_login m = omega (arith, length-append m.username (put_string m.password))

pub delete_account_size-put_delete_account :
    (m : DeleteAccountMessage) → length (put_delete_account m) ≡ delete_account_size m
unfolding put_delete_account delete_account_size put_string
delete_account_size-put_delete_account m =
    omega (arith, length-append m.username (put_string m.password))
