-- ===== src/Models/User.antt =====
-- src/models/user.cpp, include/models/user.hpp. The mutex that every accessor takes makes it one
-- atomic step, so the accessors are functions; signals are listed by the callers that emit them.
use wire_protocols.Prelude.{
  ℕ, ◌+◌, ◌≡◌, List, [], ◌∷◌, ◌++◌, arith, length, length-append, remove_first, codes,
}
use wire_protocols.Wire.{Bytes, Reader, ◌>>=◌, pure, get_string, put_string, Fits}
use wire_protocols.Wire.Reads.{Reads, >>=-pure-Reads, string_then, get_string-Reads}
use wire_protocols.Uuid.{Uuid, IsUuid, uuid_discrete, put_uuid, get_uuid, uuid_size, uuid_then}

pub record User : Type 0 where
  pub uid : Uuid
  pub username : Bytes
  pub display_name : Bytes
  pub profile_pic : Bytes
  pub public_key : Bytes
  pub channels : List Uuid

abbrev blank_profile_pic : Bytes
blank_profile_pic = codes ":/assets/profile_pics/blank_profile_pic.png"

-- `User(username, display_name)`, with the identifier that `UUID()` draws.
unfoldable pub new_user : Bytes → Bytes → Uuid → User
new_user username display_name uid = record {
  uid = uid;
  username = username;
  display_name = display_name;
  profile_pic = blank_profile_pic;
  public_key = [];
  channels = [];
}

-- `User()`: the identifier that it draws is overwritten by whatever reads into the object.
unfoldable pub blank_user : User
blank_user = record {
  uid = record { value = [] };
  username = [];
  display_name = [];
  profile_pic = [];
  public_key = [];
  channels = [];
}

-- `User::serialize`: what it appends to the buffer.
unfoldable pub put_user : User → Bytes
unfolding put_string put_uuid
put_user u =
    put_uuid u.uid
    ++ (put_string u.username ++ (put_string u.display_name ++ put_string u.profile_pic))

-- `User::deserialize` into the object `old`: the key and the channels do not travel.
unfoldable pub get_user : User → Reader User
unfolding get_uuid get_string
get_user old = do
  uid ← get_uuid
  username ← get_string
  display_name ← get_string
  profile_pic ← get_string
  pure (record old {
    uid = uid;
    username = username;
    display_name = display_name;
    profile_pic = profile_pic;
  })

-- `User::size`
unfoldable pub user_size : User → ℕ
unfolding uuid_size
user_size u =
    uuid_size u.uid
    + (1 + length u.username)
    + (1 + length u.display_name)
    + (1 + length u.profile_pic)

unfoldable pub set_username : Bytes → User → User
set_username username u = record u { username = username }

unfoldable pub set_display_name : Bytes → User → User
set_display_name display_name u = record u { display_name = display_name }

unfoldable pub set_profile_pic : Bytes → User → User
set_profile_pic profile_pic u = record u { profile_pic = profile_pic }

-- `User::add_channel`: `push_back`.
unfoldable pub add_channel : Uuid → User → User
add_channel channel u = record u { channels = u.channels ++ (channel ∷ []) }

-- `User::remove_channel`: the first entry only.
unfoldable pub remove_channel : Uuid → User → User
unfolding remove_first
remove_channel channel u = record u { channels = remove_first uuid_discrete channel u.channels }

-- A user whose texts fit their length bytes.
pub record IsUser (u : User) : Type 0 where
  pub uid_valid : IsUuid u.uid
  pub username_fits : Fits u.username
  pub display_name_fits : Fits u.display_name
  pub profile_pic_fits : Fits u.profile_pic

-- What `old` becomes when it receives `u`.
abbrev pub received_user : User → User → User
received_user old u = record old {
  uid = u.uid;
  username = u.username;
  display_name = u.display_name;
  profile_pic = u.profile_pic;
}

-- `size` is the number of bytes that `serialize` appends, for every user.
pub user_size-put_user : (u : User) → length (put_user u) ≡ user_size u
unfolding put_user user_size
user_size-put_user u = omega (
  arith,
  length-append u.uid.value
      (put_string u.username ++ (put_string u.display_name ++ put_string u.profile_pic)),
  length-append u.username (put_string u.display_name ++ put_string u.profile_pic),
  length-append u.display_name (put_string u.profile_pic),
)

-- `deserialize` behind `serialize`, into an object `old`, of a user whose texts fit: all fields come
-- back but the key and the channels, which stay those of the object.
pub get_user-Reads :
    (old u : User) → IsUser u → Reads (get_user old) (put_user u) (received_user old u)
unfolding put_user get_user
get_user-Reads old u h = uuid_then u.uid _ _ h.uid_valid (
    string_then u.username _ _ h.username_fits (
      string_then u.display_name _ _ h.display_name_fits (
        >>=-pure-Reads get_string (λ pic. received_user old (record u { profile_pic = pic }))
          u.profile_pic (put_string u.profile_pic)
          (get_string-Reads u.profile_pic h.profile_pic_fits))))
