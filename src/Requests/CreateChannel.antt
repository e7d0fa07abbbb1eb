-- ===== src/Requests/CreateChannel.antt =====
-- src/message/create_channel.cpp
use wire_protocols.Prelude.{
  ℕ, ◌+◌, ◌≡◌, Option, some, List, ◌++◌, arith, length, length-append, All,
}
use wire_protocols.Wire.{Bytes, Reader, ◌>>=◌, pure, run_reader, get_string, put_string, Fits}
use wire_protocols.Wire.Reads.{Reads, >>=-pure-Reads, run_reader-Reads, string_then}
use wire_protocols.Uuid.{
  Uuid, IsUuid, put_uuids, get_uuids, get_uuids-Reads, uuids_size, length-put_uuids,
}

pub record CreateChannelMessage : Type 0 where
  pub channel_name : Bytes
  pub members : List Uuid

-- `CreateChannelMessage::serialize`: what it appends to the buffer.
unfoldable pub put_create_channel : CreateChannelMessage → Bytes
unfolding put_uuids put_string
put_create_channel m = put_string m.channel_name ++ put_uuids m.members

-- `CreateChannelMessage::size`
unfoldable pub create_channel_size : CreateChannelMessage → ℕ
unfolding uuids_size
create_channel_size m = 1 + length m.channel_name + 1 + uuids_size m.members

-- `CreateChannelMessage::deserialize` into the object `old`: the members are appended to its own.
unfoldable pub read_create_channel : CreateChannelMessage → Reader CreateChannelMessage
unfolding get_uuids get_string
read_create_channel old = do
  channel_name ← get_string
  members ← get_uuids
  pure (record { channel_name = channel_name; members = old.members ++ members })

-- From the front of the payload.
unfoldable pub get_create_channel : CreateChannelMessage → Bytes → Option CreateChannelMessage
get_create_channel old buf = run_reader buf (read_create_channel old)

pub record IsCreateChannel (m : CreateChannelMessage) : Type 0 where
  pub name_fits : Fits m.channel_name
  pub members_fit : Fits m.members
  pub members_valid : All IsUuid m.members

read_create_channel-Reads :
    (old m : CreateChannelMessage)
    → IsCreateChannel m
    → Reads
        (read_create_channel old)
        (put_create_channel m)
        (record m { members = old.members ++ m.members })
unfolding read_create_channel put_create_channel
read_create_channel-Reads old m h = string_then m.channel_name _ _ h.name_fits (
    >>=-pure-Reads get_uuids (λ us. record m { members = old.members ++ us }) m.members
      (put_uuids m.members) (get_uuids-Reads m.members h.members_fit h.members_valid))

-- A channel request is read back behind the members that the object has, whatever follows it.
pub get_create_channel-put_create_channel :
    (old m : CreateChannelMessage) (rest : Bytes)
    → IsCreateChannel m
    → get_create_channel old (put_create_channel m ++ rest)
      ≡ some (record m { members = old.members ++ m.members })
unfolding get_create_channel
get_create_channel-put_create_channel old m rest h =
    run_reader-Reads (read_create_channel old) (record m { members = old.members ++ m.members })
      (put_create_channel m) rest (read_create_channel-Reads old m h)

pub create_channel_size-put_create_channel :
    (m : CreateChannelMessage) → length (put_create_channel m) ≡ create_channel_size m
unfolding put_create_channel create_channel_size
create_channel_size-put_create_channel m =
    omega (arith, length-append m.channel_name (put_uuids m.members), length-put_uuids m.members)
