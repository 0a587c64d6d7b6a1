-- ===== src/Download/Received/Tests.antt =====
-- A block received, the piece found again on the disk, and the theorems there.
use iron_peer_417project_pri.Download.Existing.{
  is_ok_true, found_piece, verify_from, verify_existing_pieces,
}
use iron_peer_417project_pri.Download.Existing.Found.{verify_existing_pieces_lem}
use iron_peer_417project_pri.Base.{
  ℕ, get_elem?, ◌<◌, ◌↔◌, ◌≡◌, refl, [], ◌∷◌, none, some, false, take, arith,
}
use iron_peer_417project_pri.Paths.{join, same_path}
use iron_peer_417project_pri.Structs.TorrentInfo.{length_of_piece, checked_length, length_panics}
use iron_peer_417project_pri.Storage.Disk.{Disk, write_file, write_at, write_past, overlay}
use iron_peer_417project_pri.Storage.Files.{
  panics, FileManager, write_block, write_files, after_write, read_file, then_read, read_files,
  read_piece, get_piece_length, verify_piece,
}
use iron_peer_417project_pri.Download.Blocks.{cut_blocks, new_piece_state}
use iron_peer_417project_pri.Download.Pieces.{
  downloading, complete, missing, PieceManager, new, start_from, start_downloading, mark_complete,
  complete_from, without,
}
use iron_peer_417project_pri.Download.Pieces.Invariant.{
  IsValid, new-IsValid, start_downloading-IsValid,
}
use iron_peer_417project_pri.Download.Received.{
  Received, receive_block, receive_in_state, receive_in_states, find_state, settle, check_state,
  on_piece,
}
use iron_peer_417project_pri.Download.Received.Invariant.{IsSound, Answers, on_piece-Answers}
use iron_peer_417project_pri.Download.Received.Verified.{
  CompleteBecause, IsVerified, on_piece-CompleteBecause,
}

abbrev one_file : FileManager
one_file = record {
  output_dir = record { is_absolute = false; parts = "out" ∷ [] };
  files =
      record {
        path = record { is_absolute = false; parts = "f" ∷ [] };
        length = 4;
        start_piece = 0;
        end_piece = 0;
        piece_offset_start = 0;
        piece_offset_end = 3;
        md5sum = none;
      }
      ∷ [];
  piece_length = 4;
  total_size = 4;
  total_pieces = 1;
}

abbrev nothing : Disk
nothing = record { content = λ q. none; refuses = λ q. false }

-- The one piece of four bytes, under way.
abbrev under_way : PieceManager
under_way = record {
  piece_status = downloading ∷ [];
  pieces_complete = 0;
  total_pieces = 1;
  downloading_pieces = new_piece_state 0 4 ∷ [];
  piece_length = 4;
  last_piece_length = 4;
}

under_way-IsValid : IsValid under_way
unfolding new start_downloading start_from
under_way-IsValid = start_downloading-IsValid _ 0 (new-IsValid 1 4 4 refl) refl

under_way-IsSound : IsSound under_way
unfolding new_piece_state cut_blocks
under_way-IsSound = record { valid = under_way-IsValid; counts = (refl, tt) }

abbrev finished : Received
finished = record {
  piece_manager = record under_way {
    piece_status = complete ∷ [];
    pieces_complete = 1;
    downloading_pieces = [];
  };
  disk = (write_block one_file 0 0 (1 ∷ 2 ∷ 3 ∷ 4 ∷ []) nothing).1;
  completed = 0 ∷ [];
}

-- With `take 2` for the digest.
finishing :
    on_piece (take 2) one_file ((1 ∷ 2 ∷ []) ∷ []) under_way 0 0 (1 ∷ 2 ∷ 3 ∷ 4 ∷ []) nothing
    ≡ some finished
unfolding on_piece check_state settle find_state receive_in_states receive_in_state receive_block
    new_piece_state cut_blocks verify_piece read_piece read_files read_file then_read
    get_piece_length length_of_piece checked_length length_panics panics write_block write_files
    after_write write_file write_at write_past overlay same_path join mark_complete complete_from
    without
finishing = refl

on_piece-Answers_example :
    Answers
      (on_piece (take 2) one_file ((1 ∷ 2 ∷ []) ∷ []) under_way 0 0 (1 ∷ 2 ∷ 3 ∷ 4 ∷ []) nothing)
on_piece-Answers_example =
    on_piece-Answers (take 2) one_file ((1 ∷ 2 ∷ []) ∷ []) under_way 0 0 (1 ∷ 2 ∷ 3 ∷ 4 ∷ [])
      nothing (record { some_bytes = omega arith; in_memory = omega arith }) under_way-IsSound

on_piece-CompleteBecause_example :
    CompleteBecause
      (IsVerified (take 2) one_file ((1 ∷ 2 ∷ []) ∷ []) 0)
      under_way.piece_status
      0
      finished
on_piece-CompleteBecause_example =
    on_piece-CompleteBecause (take 2) one_file ((1 ∷ 2 ∷ []) ∷ []) under_way 0 0
      (1 ∷ 2 ∷ 3 ∷ 4 ∷ []) nothing finished finishing

abbrev unstarted : PieceManager
unstarted = record under_way { piece_status = missing ∷ []; downloading_pieces = [] }

found_again :
    verify_existing_pieces (take 2) one_file ((1 ∷ 2 ∷ []) ∷ []) finished.disk unstarted
    ≡ some (record unstarted { piece_status = complete ∷ []; pieces_complete = 1 }, 1)
unfolding verify_existing_pieces verify_from found_piece is_ok_true verify_piece read_piece
    read_files read_file then_read get_piece_length length_of_piece checked_length length_panics
    panics write_block write_files after_write write_file write_at write_past overlay same_path join
found_again = refl

verify_existing_pieces_lem_example :
    (pm' : PieceManager) × (verify_existing_pieces
        (take 2)
        one_file
        ((1 ∷ 2 ∷ []) ∷ [])
        finished.disk
        unstarted
      ≡ some (pm', pm'.pieces_complete))
    × IsValid pm'
    × ((j : ℕ)
        → (get_elem? pm'.piece_status j ≡ some complete)
          ↔ ((j < 1) × IsVerified (take 2) one_file ((1 ∷ 2 ∷ []) ∷ []) j finished.disk))
unfolding new
verify_existing_pieces_lem_example =
    verify_existing_pieces_lem (take 2) one_file ((1 ∷ 2 ∷ []) ∷ []) finished.disk 1 4 4 unstarted
      (record { some_bytes = omega arith; in_memory = omega arith }) refl
