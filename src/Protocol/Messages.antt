-- ===== src/Protocol/Messages.antt =====
-- src/protocol/messages.rs: the peer wire messages with their ids and lengths.
-- A u8, u16 or u32 is a native number; `IsMessage` states the ranges that Rust's types give.
use iron_peer_417project_pri.Base.{
  ℕ, ◌+◌, List, Option, none, some, length, All, IsByte, IsU16, IsU32,
}

pub data Message : Type 0 where
  keep_alive choke unchoke interested not_interested : Message
  have : (piece_index : ℕ) → Message
  bitfield : (bits : List ℕ) → Message
  request : (index begin length : ℕ) → Message
  piece : (index begin : ℕ) → (block : List ℕ) → Message
  cancel : (index begin length : ℕ) → Message
  port : (listen_port : ℕ) → Message

-- What the field types of the Rust enum guarantee.
abbrev pub IsMessage : Message → Type 0
IsMessage keep_alive = Unit {0}
IsMessage choke = Unit {0}
IsMessage unchoke = Unit {0}
IsMessage interested = Unit {0}
IsMessage not_interested = Unit {0}
IsMessage (have i) = IsU32 i
IsMessage (bitfield bits) = All IsByte bits
IsMessage (request i b l) = IsU32 i × IsU32 b × IsU32 l
IsMessage (piece i b block) = IsU32 i × IsU32 b × All IsByte block
IsMessage (cancel i b l) = IsU32 i × IsU32 b × IsU32 l
IsMessage (port p) = IsU16 p

unfoldable pub id : Message → Option ℕ
id keep_alive = none
id choke = some 0
id unchoke = some 1
id interested = some 2
id not_interested = some 3
id (have i) = some 4
id (bitfield bits) = some 5
id (request i b l) = some 6
id (piece i b block) = some 7
id (cancel i b l) = some 8
id (port p) = some 9

unfoldable pub payload_len : Message → ℕ
payload_len keep_alive = 0
payload_len choke = 0
payload_len unchoke = 0
payload_len interested = 0
payload_len not_interested = 0
payload_len (have i) = 4
payload_len (bitfield bits) = length bits
payload_len (request i b l) = 12
payload_len (piece i b block) = 8 + length block
payload_len (cancel i b l) = 12
payload_len (port p) = 2

-- `id.is_some()`, as the length counts it.
abbrev id_len : Option ℕ → ℕ
id_len none = 0
id_len (some i) = 1

unfoldable pub total_len : Message → ℕ
total_len m = 4 + id_len (id m) + payload_len m
