-- ===== src/Download/Pieces.antt =====
-- src/download/manager.rs: `PieceStatus` and `PieceManager`. `none` is a panic: an index out of
-- range, or a division by zero.
pub mod Counting
pub mod Invariant
pub mod Rarest
pub mod Bitfield
use Prim.Native.Nat.{bit_or}
use iron_peer_417project_pri.Base.{
  ℕ, zero, suc, ◌+◌, ◌-◌, ◌/◌, ◌%◌, ◌^◌, List, [], ◌∷◌, ◌++◌, Option, none, some, Bool, true, false,
  not, ◌&&◌, ltb, leb, ◌==◌, if◌then◌else◌, length, get_elem?, get_or, set, replicate,
}
use iron_peer_417project_pri.Structs.TorrentInfo.{last_length}
use iron_peer_417project_pri.Download.Blocks.{PieceState, new_piece_state}

pub data PieceStatus : Type 0 where
  missing downloading complete : PieceStatus

-- The derived `PartialEq`.
abbrev pub is_missing : PieceStatus → Bool
is_missing missing = true
is_missing downloading = false
is_missing complete = false

abbrev pub is_complete_status : PieceStatus → Bool
is_complete_status missing = false
is_complete_status downloading = false
is_complete_status complete = true

pub record PieceManager : Type 0 where
  pub piece_status : List PieceStatus
  pub pieces_complete : ℕ
  pub total_pieces : ℕ
  pub downloading_pieces : List PieceState
  pub piece_length : ℕ
  pub last_piece_length : ℕ

unfoldable pub new : ℕ → ℕ → ℕ → Option PieceManager
new total_pieces piece_length total_size =
    if piece_length == 0
    then none
    else some (record {
      piece_status = replicate total_pieces missing;
      pieces_complete = 0;
      total_pieces = total_pieces;
      downloading_pieces = [];
      piece_length = piece_length;
      last_piece_length = last_length piece_length (total_size % piece_length);
    })

unfoldable pub is_complete : PieceManager → Bool
is_complete pm = pm.pieces_complete == pm.total_pieces

-- `downloading_pieces.retain(|p| p.index != index)`
unfoldable pub without : ℕ → List PieceState → List PieceState
without index [] = []
without index (p ∷ ps) = let rest = without index ps in if p.index == index then rest else p ∷ rest

-- The body of `mark_complete` for a piece of a known status.
unfoldable pub complete_from : PieceManager → ℕ → PieceStatus → PieceManager
complete_from pm index status = if is_complete_status status then pm else record pm {
  piece_status = set pm.piece_status index complete;
  pieces_complete = pm.pieces_complete + 1;
  downloading_pieces = without index pm.downloading_pieces;
}

unfoldable pub mark_complete : PieceManager → ℕ → Option PieceManager
unfolding complete_from
mark_complete pm index = elim (get_elem? pm.piece_status index) [
  | none ↦ none
  | some status ↦ some (complete_from pm index status)
]

-- The pieces that are missing here and there at the peer, from piece `i` on.
unfoldable pub candidates : ℕ → List PieceStatus → List Bool → List ℕ
candidates i [] peer_have = []
candidates i (s ∷ ss) peer_have =
    let rest = candidates (suc i) ss peer_have in
    if is_missing s && get_or peer_have i false then i ∷ rest else rest

-- `sort_by_key`, which is stable: an item goes before those with an equal key behind it.
unfoldable pub insert_by : (ℕ → ℕ) → ℕ → List ℕ → List ℕ
insert_by key x [] = x ∷ []
insert_by key x (y ∷ ys) = if leb (key x) (key y) then x ∷ y ∷ ys else y ∷ insert_by key x ys

unfoldable pub sort_by_key : (ℕ → ℕ) → List ℕ → List ℕ
sort_by_key key [] = []
sort_by_key key (x ∷ xs) = insert_by key x (sort_by_key key xs)

-- `candidates.is_empty()` is asked first, so `candidates[0]` is there.
unfoldable pub get_next_needed_piece : PieceManager → List Bool → List ℕ → Option ℕ
get_next_needed_piece pm peer_have availability =
    get_elem? (sort_by_key (λ i. get_or availability i 0) (candidates 0 pm.piece_status peer_have))
      0

-- The body of `start_downloading` for a piece of a known status.
unfoldable pub start_from : PieceManager → ℕ → PieceStatus → PieceManager
start_from pm index status =
    if is_missing status
    then record pm {
      piece_status = set pm.piece_status index downloading;
      downloading_pieces =
          pm.downloading_pieces
          ++ (new_piece_state index
                (if index == pm.total_pieces - 1 then pm.last_piece_length else pm.piece_length)
              ∷ []);
    }
    else pm

unfoldable pub start_downloading : PieceManager → ℕ → Option PieceManager
unfolding start_from
start_downloading pm index = elim (get_elem? pm.piece_status index) [
  | none ↦ none
  | some status ↦ some (start_from pm index status)
]

unfoldable pub reset_piece : PieceManager → ℕ → Option PieceManager
reset_piece pm index =
    if ltb index (length pm.piece_status)
    then some (record pm {
      piece_status = set pm.piece_status index missing;
      downloading_pieces = without index pm.downloading_pieces;
    })
    else none

-- `bitfield[i / 8] |= 1 << (7 - i % 8)`
unfoldable pub set_bit : List ℕ → ℕ → Option (List ℕ)
set_bit bitfield i = elim (get_elem? bitfield (i / 8)) [
  | none ↦ none
  | some byte ↦ some (set bitfield (i / 8) (bit_or byte (2 ^ (7 - i % 8))))
]

-- The loop of `get_bitfield`, from piece `i` on.
unfoldable pub fill_bits : ℕ → List PieceStatus → Option (List ℕ) → Option (List ℕ)
fill_bits i [] bitfield = bitfield
fill_bits i (s ∷ ss) none = none
fill_bits i (s ∷ ss) (some bitfield) =
    fill_bits (suc i) ss (if is_complete_status s then set_bit bitfield i else some bitfield)

unfoldable pub get_bitfield : PieceManager → Option (List ℕ)
get_bitfield pm = fill_bits 0 pm.piece_status (some (replicate ((pm.total_pieces + 7) / 8) 0))
