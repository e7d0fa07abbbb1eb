-- ===== src/Requests/RegisterAccount.antt =====
-- src/message/register_account.cpp
use wire_protocols.Prelude.{
  ℕ, ◌+◌, ◌≡◌, refl, Option, some, ◌++◌, arith, length, length-append, append_assoc,
}
use wire_protocols.Prelude.Try.{◌>>=◌}
use wire_protocols.Wire.{Bytes, byte_at, slice, put_string, Fits}
use wire_protocols.Wire.Reads.{At, At-string, At-next, slice_moved}

pub record RegisterAccountMessage : Type 0 where
  pub username : Bytes
  pub password : Bytes
  pub display_name : Bytes

-- `RegisterAccountMessage::serialize`: what it appends to the buffer.
unfoldable pub put_register : RegisterAccountMessage → Bytes
put_register m = put_string m.username ++ (put_string m.password ++ put_string m.display_name)

-- `RegisterAccountMessage::size`
unfoldable pub register_size : RegisterAccountMessage → ℕ
register_size m = 3 + length m.username + length m.password + length m.display_name

-- `RegisterAccountMessage::deserialize`
unfoldable pub get_register : Bytes → Option RegisterAccountMessage
get_register buf = do
  username_length ← byte_at buf 0
  password_length ← byte_at buf (username_length + 1)
  display_name_length ← byte_at buf (username_length + password_length + 2)
  username ← slice buf 1 username_length
  password ← slice buf (username_length + 2) password_length
  display_name ← slice buf (username_length + password_length + 3) display_name_length
  some (record { username = username; password = password; display_name = display_name })

-- The texts fit their length bytes.
pub record IsRegister (m : RegisterAccountMessage) : Type 0 where
  pub username_fits : Fits m.username
  pub password_fits : Fits m.password
  pub display_name_fits : Fits m.display_name

-- Where the six reads find three texts.
three_strings :
    (name word shown rest : Bytes)
    → Fits name
    → Fits word
    → Fits shown
    → let buf = put_string name ++ (put_string word ++ (put_string shown ++ rest)) in
      (byte_at buf 0 ≡ some (length name))
      × (byte_at buf (length name + 1) ≡ some (length word))
      × (byte_at buf (length name + length word + 2) ≡ some (length shown))
      × (slice buf 1 (length name) ≡ some name)
      × (slice buf (length name + 2) (length word) ≡ some word)
      × (slice buf (length name + length word + 3) (length shown) ≡ some shown)
three_strings name word shown rest hn hw hs =
    let n = length name in
    let w = length word in
    let tail = put_string shown ++ rest in
    let buf = put_string name ++ (put_string word ++ tail) in
    let start : At buf 0 (put_string name) (put_string word ++ tail) = record {
      inside = omega arith;
      found = refl;
    } in
    let (a, d, at_word) = At-string buf name (put_string word ++ tail) 0 hn start in
    let (b, e, at_shown) =
      At-string buf word tail (n + 1) hw
        (At-next buf (put_string word) tail _ (n + 1) (omega arith) at_word) in
    let (c, f, _) =
      At-string buf shown rest (n + w + 2) hs
        (At-next buf (put_string shown) rest _ (n + w + 2) (omega arith) at_shown) in
    (
      a,
      b,
      c,
      d,
      slice_moved buf (n + 1 + 1) (n + 2) w (omega arith) e,
      slice_moved buf (n + w + 2 + 1) (n + w + 3) (length shown) (omega arith) f,
    )

-- A registration is read back, whatever follows it.
pub get_register-put_register :
    (m : RegisterAccountMessage) (rest : Bytes)
    → IsRegister m
    → get_register (put_register m ++ rest) ≡ some m
unfolding get_register put_register
get_register-put_register m rest h =
    let (a, b, c, d, e, f) =
      three_strings m.username m.password m.display_name rest h.username_fits h.password_fits
        h.display_name_fits in
    rw (
      append_assoc (put_string m.username) (put_string m.password ++ put_string m.display_name)
          rest,
      append_assoc (put_string m.password) (put_string m.display_name) rest,
      a,
      b,
      c,
      d,
      e,
      f,
    )

pub register_size-put_register :
    (m : RegisterAccountMessage) → length (put_register m) ≡ register_size m
unfolding put_register register_size put_string
register_size-put_register m = omega (
  arith,
  length-append m.username (put_string m.password ++ put_string m.display_name),
  length-append m.password (put_string m.display_name),
)
