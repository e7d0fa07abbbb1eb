-- ===== src/Tests.antt =====
-- Concrete data of the protocol, for the runs at which the theorems apply.
mod Json
mod Packets
mod Payloads
mod Tables
mod Dispatching
mod Windows
mod Logins
mod Clocks
mod Replicas
mod Sessions
mod Lives
use wire_protocols.Prelude.{
  some, none, if_pos, if_neg, ℕ, ◌+◌, ◌<◌, ◌^◌, ◌≡◌, refl, List, [], ◌∷◌, ◌++◌, arith, length,
  codes, All, take, drop,
}
use wire_protocols.Wire.{Bytes, IsByte}
use wire_protocols.Uuid.{Uuid, IsUuid, uuid_discrete}
use wire_protocols.Database.Table.{find}
use wire_protocols.Models.User.{User, IsUser}
use wire_protocols.Models.Message.{Message, IsMessage}
use wire_protocols.Models.Channel.{Channel, IsChannel}
use wire_protocols.Requests.{IsRequest, create_channel, CreateChannelMessage}

-- An identifier with the byte in front.
abbrev pub id : ℕ → Uuid
id n = record { value = n ∷ 0 ∷ 0 ∷ 0 ∷ 0 ∷ 0 ∷ 0 ∷ 0 ∷ 0 ∷ 0 ∷ 0 ∷ 0 ∷ 0 ∷ 0 ∷ 0 ∷ 0 ∷ [] }

pub id-IsUuid : (n : ℕ) → n < 256 → IsUuid (id n)
id-IsUuid n h =
    let z : 0 < 256 = omega arith in
    record {
      sixteen = refl;
      bytes = (h, (z, (z, (z, (z, (z, (z, (z, (z, (z, (z, (z, (z, (z, (z, (z, tt))))))))))))))));
    }

abbrev pub talk : CreateChannelMessage
talk = record { channel_name = codes "talk"; members = id 1 ∷ id 2 ∷ [] }

pub talk-IsRequest : IsRequest (create_channel talk)
talk-IsRequest = record {
  name_fits = omega arith;
  members_fit = omega arith;
  members_valid = (id-IsUuid 1 (omega arith), (id-IsUuid 2 (omega arith), tt));
}

abbrev pub ann : User
ann = record {
  uid = id 1;
  username = codes "ann";
  display_name = codes "Ann";
  profile_pic = codes ":/ann.png";
  public_key = [];
  channels = id 9 ∷ [];
}

pub ann-IsUser : IsUser ann
ann-IsUser = record {
  uid_valid = id-IsUuid 1 (omega arith);
  username_fits = omega arith;
  display_name_fits = omega arith;
  profile_pic_fits = omega arith;
}

abbrev pub hello : Message
hello = record {
  snowflake = 7000;
  sender_id = id 1;
  channel_id = id 9;
  created_at = 1738022400000;
  modified_at = 1738022400000;
  read_by = id 1 ∷ [];
  text = codes "hello";
}

pub hello-IsMessage : IsMessage hello
hello-IsMessage = record {
  sender_valid = id-IsUuid 1 (omega arith);
  channel_valid = id-IsUuid 9 (omega arith);
  snowflake_fits = omega arith;
  created_fits = omega arith;
  modified_fits = omega arith;
  text_fits = omega arith;
  readers_fit = omega arith;
  readers_valid = (id-IsUuid 1 (omega arith), tt);
}

-- A channel with a snowflake that does not fit a byte.
abbrev pub room : Channel
room = record {
  uid = id 9;
  name = codes "room";
  user_uids = id 1 ∷ id 2 ∷ [];
  message_snowflakes = 3 ∷ 7000 ∷ [];
}

pub room-IsChannel : IsChannel room
room-IsChannel = record {
  uid_valid = id-IsUuid 9 (omega arith);
  name_fits = omega arith;
  users_fit = omega arith;
  users_valid = (id-IsUuid 1 (omega arith), (id-IsUuid 2 (omega arith), tt));
  snowflakes_fit = omega arith;
}

-- The channel of a table that has one.
pub only_entry :
    (k cid : Uuid) (c d : Channel) → find uuid_discrete cid ((k, c) ∷ []) ≡ some d → c ≡ d
unfolding find
only_entry k cid c d there = elim (uuid_discrete k cid) [
  | yes p ↦ cc (if_pos (uuid_discrete k cid) p (some c) none)
  | no p ↦ cc (if_neg (uuid_discrete k cid) p (some c) none)
]
