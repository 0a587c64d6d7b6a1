-- ===== src/Download/Existing.antt =====
-- src/download/manager.rs: `DownloadManager::verify_existing_pieces`, which marks the pieces that
-- are on the disk already. What it prints is left out.
pub mod Found
use iron_peer_417project_pri.Base.{
  ℕ, zero, suc, ◌+◌, List, Option, none, some, Bool, true, false, Result, ok, err, length,
  get_elem?, set, ltb, if◌then◌else◌,
}
use iron_peer_417project_pri.Storage.Disk.{Disk}
use iron_peer_417project_pri.Storage.Files.{FileManager, IoError, panics, verify_piece}
use iron_peer_417project_pri.Download.Pieces.{complete, PieceManager}

-- The pattern `Ok(true)`.
unfoldable pub is_ok_true : Result IoError Bool → Bool
is_ok_true (ok b) = b
is_ok_true (err e) = false

-- `piece_status[i] = Complete; pieces_complete += 1`, which panics out of range.
unfoldable pub found_piece : PieceManager → ℕ → Option PieceManager
found_piece pm i =
    if ltb i (length pm.piece_status)
    then some (record pm {
      piece_status = set pm.piece_status i complete;
      pieces_complete = pm.pieces_complete + 1;
    })
    else none

module _ (sha1 : List ℕ → List ℕ) (m : FileManager) (piece_hashes : List (List ℕ)) (d : Disk) where
  -- The loop from piece `i` on, `n` pieces; the number is `verified_count`.
  unfoldable pub verify_from : ℕ → ℕ → PieceManager → ℕ → Option (PieceManager × ℕ)
  verify_from zero i pm count = some (pm, count)
  verify_from (suc n) i pm count =
      let skipped = verify_from n (suc i) pm count in
      elim (get_elem? piece_hashes i) [
        | none ↦ skipped
        | some hash ↦
            let found : Option (PieceManager × ℕ) = elim (found_piece pm i) [
              | none ↦ none
              | some pm' ↦ verify_from n (suc i) pm' (count + 1)
            ] in
            let answer = verify_piece sha1 m i hash d in
            if panics answer then none else if is_ok_true answer then found else skipped
      ]

  unfoldable pub verify_existing_pieces : PieceManager → Option (PieceManager × ℕ)
  verify_existing_pieces pm = verify_from pm.total_pieces 0 pm 0
