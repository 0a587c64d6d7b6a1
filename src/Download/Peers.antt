-- ===== src/Download/Peers.antt =====
-- src/download/manager.rs: `ActivePeer`, and what a `Have` and a `Bitfield` message do to it.
pub mod Bits
use Prim.Native.Nat.{bit_and}
use iron_peer_417project_pri.Base.{
  ℕ, zero, suc, ◌+◌, ◌-◌, ◌*◌, ◌/◌, ◌^◌, List, [], ◌∷◌, Bool, true, false, not, ltb, ◌==◌,
  if◌then◌else◌, length, set,
}

-- `(byte >> (7 - bit_idx)) & 1 != 0`
abbrev pub bit_test : ℕ → ℕ → Bool
bit_test byte bit_idx = not (bit_and (byte / 2 ^ (7 - bit_idx)) 1 == 0)

-- What `Have` does to `have_pieces`.
unfoldable pub mark_have : ℕ → List Bool → List Bool
mark_have piece_index have_pieces =
    if ltb piece_index (length have_pieces) then set have_pieces piece_index true else have_pieces

-- One round of `for bit_idx in 0..8`, and the rounds from `bit_idx` on, `n` of them.
unfoldable pub mark_bit : ℕ → ℕ → ℕ → List Bool → List Bool
mark_bit byte bit_idx piece_idx have_pieces =
    if ltb piece_idx (length have_pieces)
    then (if bit_test byte bit_idx then set have_pieces piece_idx true else have_pieces)
    else have_pieces

unfoldable pub read_byte : ℕ → ℕ → ℕ → ℕ → List Bool → List Bool
read_byte zero bit_idx byte_idx byte have_pieces = have_pieces
read_byte (suc n) bit_idx byte_idx byte have_pieces =
    read_byte n (suc bit_idx) byte_idx byte
      (mark_bit byte bit_idx (byte_idx * 8 + bit_idx) have_pieces)

-- `for (byte_idx, byte) in bits.iter().enumerate()`, from `byte_idx` on.
unfoldable pub read_bits : ℕ → List ℕ → List Bool → List Bool
read_bits byte_idx [] have_pieces = have_pieces
read_bits byte_idx (byte ∷ bits) have_pieces =
    read_bits (suc byte_idx) bits (read_byte 8 0 byte_idx byte have_pieces)
