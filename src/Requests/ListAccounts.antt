-- ===== src/Requests/ListAccounts.antt =====
-- src/message/list_accounts.cpp
use wire_protocols.Prelude.{ℕ, ◌+◌, ◌≡◌, refl, Option, some, ◌++◌, arith, length}
use wire_protocols.Prelude.Try.{◌>>=◌}
use wire_protocols.Wire.{Bytes, byte_at, slice, put_string, Fits}
use wire_protocols.Wire.Reads.{At, At-string}

pub record ListAccountsMessage : Type 0 where
  pub regex : Bytes

-- `ListAccountsMessage::serialize`: what it appends to the buffer.
unfoldable pub put_list_accounts : ListAccountsMessage → Bytes
put_list_accounts m = put_string m.regex

-- `ListAccountsMessage::size`
unfoldable pub list_accounts_size : ListAccountsMessage → ℕ
list_accounts_size m = 1 + length m.regex

-- `ListAccountsMessage::deserialize`
unfoldable pub get_list_accounts : Bytes → Option ListAccountsMessage
get_list_accounts buf = do
  regex_length ← byte_at buf 0
  regex ← slice buf 1 regex_length
  some (record { regex = regex })

-- A search is read back, whatever follows it.
pub get_list_accounts-put_list_accounts :
    (m : ListAccountsMessage) (rest : Bytes)
    → Fits m.regex
    → get_list_accounts (put_list_accounts m ++ rest) ≡ some m
unfolding get_list_accounts put_list_accounts
get_list_accounts-put_list_accounts m rest h =
    let buf = put_string m.regex ++ rest in
    let start : At buf 0 (put_string m.regex) rest = record {
      inside = omega arith;
      found = refl;
    } in
    let (l, s, _) = At-string buf m.regex rest 0 h start in rw (l, s)

pub list_accounts_size-put_list_accounts :
    (m : ListAccountsMessage) → length (put_list_accounts m) ≡ list_accounts_size m
unfolding put_list_accounts list_accounts_size put_string
list_accounts_size-put_list_accounts m = omega arith
