-- ===== src/Download/Received.antt =====
-- src/download/manager.rs: what the loop of `tick` does with the block of a `Piece` message: the
-- block is written, its piece's state updated, and a piece with all its blocks verified.
pub mod Invariant
pub mod Verified
mod Tests
use iron_peer_417project_pri.Base.{
  ℕ, ◌+◌, List, [], ◌∷◌, Option, none, some, Bool, true, false, not, Result, ok, err, length,
  get_elem?, ◌==◌, if◌then◌else◌,
}
use iron_peer_417project_pri.Storage.Disk.{Disk}
use iron_peer_417project_pri.Storage.Files.{FileManager, IoError, panics, write_block, verify_piece}
use iron_peer_417project_pri.Download.Blocks.{BlockInfo, PieceState}
use iron_peer_417project_pri.Download.Pieces.{PieceManager, mark_complete, reset_piece}

-- The first block that begins there is marked, and whether it was not before.
unfoldable pub receive_block : ℕ → List BlockInfo → List BlockInfo × Bool
receive_block begin [] = ([], false)
receive_block begin (b ∷ bs) =
    let later = receive_block begin bs in
    if b.begin == begin
    then (record b { downloaded = true } ∷ bs, not b.downloaded)
    else (b ∷ later.0, later.1)

unfoldable pub receive_in_state : ℕ → PieceState → PieceState
receive_in_state begin p = record p {
  blocks = (receive_block begin p.blocks).0;
  downloaded_count =
      if (receive_block begin p.blocks).1 then p.downloaded_count + 1 else p.downloaded_count;
}

-- `downloading_pieces.iter_mut().find(...)`: the first state of the piece is changed in place.
unfoldable pub receive_in_states : ℕ → ℕ → List PieceState → List PieceState
receive_in_states index begin [] = []
receive_in_states index begin (p ∷ ps) =
    let later = receive_in_states index begin ps in
    if p.index == index then receive_in_state begin p ∷ ps else p ∷ later

unfoldable pub find_state : ℕ → List PieceState → Option PieceState
find_state index [] = none
find_state index (p ∷ ps) =
    let later = find_state index ps in if p.index == index then some p else later

-- The manager and the disk behind the message, and the pieces to tell the peers of.
pub record Received : Type 0 where
  pub piece_manager : PieceManager
  pub disk : Disk
  pub completed : List ℕ

-- What the answer of `verify_piece` leads to; `mark_complete` and `reset_piece` panic on a piece
-- without a status.
unfoldable pub settle : PieceManager → Disk → ℕ → Result IoError Bool → Option Received
settle pm d index (ok true) = elim (mark_complete pm index) [
  | none ↦ none
  | some pm' ↦ some (record { piece_manager = pm'; disk = d; completed = index ∷ [] })
]
settle pm d index (ok false) = elim (reset_piece pm index) [
  | none ↦ none
  | some pm' ↦ some (record { piece_manager = pm'; disk = d; completed = [] })
]
settle pm d index (err e) = some (record { piece_manager = pm; disk = d; completed = [] })

module _ (sha1 : List ℕ → List ℕ) (m : FileManager) (piece_hashes : List (List ℕ)) where
  unfoldable pub check_state : PieceManager → Disk → ℕ → PieceState → Option Received
  check_state pm d index p =
      let waiting : Option Received =
        some (record { piece_manager = pm; disk = d; completed = [] }) in
      if p.downloaded_count == length p.blocks
      then elim (get_elem? piece_hashes index) [
        | none ↦ waiting
        | some hash ↦
            let answer = verify_piece sha1 m index hash d in
            if panics answer then none else settle pm d index answer
      ]
      else waiting

  -- A failed write is only printed.
  unfoldable pub on_piece : PieceManager → ℕ → ℕ → List ℕ → Disk → Option Received
  on_piece pm index begin block d =
      let d' = (write_block m index begin block d).1 in
      let states = receive_in_states index begin pm.downloading_pieces in
      let pm' = record pm { downloading_pieces = states } in
      elim (find_state index states) [
        | none ↦ some (record { piece_manager = pm'; disk = d'; completed = [] })
        | some p ↦ check_state pm' d' index p
      ]
