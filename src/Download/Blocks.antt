-- ===== src/Download/Blocks.antt =====
-- src/download/manager.rs: `BlockInfo`, `PieceState` and the loop of `PieceState::new`, which cuts
-- a piece into blocks of 16 KiB.
pub mod Cover
use iron_peer_417project_pri.Base.{
  ℕ, zero, suc, ◌+◌, ◌-◌, min, List, [], ◌∷◌, Bool, false, ltb, if◌then◌else◌, as_u32, as_u64,
}

abbrev pub block_size : ℕ
block_size = 16384

pub record BlockInfo : Type 0 where
  pub index : ℕ
  pub begin : ℕ
  pub length : ℕ
  pub downloaded : Bool
  pub requested : Bool

pub record PieceState : Type 0 where
  pub index : ℕ
  pub blocks : List BlockInfo
  pub downloaded_count : ℕ

-- `std::cmp::min(BLOCK_SIZE as u64, piece_length - offset) as u32`
abbrev pub block_len : ℕ → ℕ → ℕ
block_len piece_length offset = as_u32 (min block_size (piece_length - offset))

-- `while offset < piece_length`, from `offset` on. Each round takes a byte at least, so
-- `piece_length` rounds are enough.
unfoldable pub cut_blocks : ℕ → ℕ → ℕ → ℕ → List BlockInfo
cut_blocks zero index piece_length offset = []
cut_blocks (suc fuel) index piece_length offset =
    let len = block_len piece_length offset in
    let rest = cut_blocks fuel index piece_length (as_u64 (offset + len)) in
    let block : BlockInfo = record {
      index = as_u32 index;
      begin = as_u32 offset;
      length = len;
      downloaded = false;
      requested = false;
    } in
    if ltb offset piece_length then block ∷ rest else []

unfoldable pub new_piece_state : ℕ → ℕ → PieceState
new_piece_state index piece_length = record {
  index = index;
  blocks = cut_blocks piece_length index piece_length 0;
  downloaded_count = 0;
}
