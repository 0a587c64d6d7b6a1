-- ===== src/Storage/Tests.antt =====
-- Runs of the file manager, and its theorems at concrete inputs.
use iron_peer_417project_pri.Base.{
  ℕ, zero, suc, ◌+◌, ◌<◌, ◌≡◌, ◌↔◌, refl, List, [], ◌∷◌, none, some, Bool, true, false,
  if◌then◌else◌, ok, err, get_elem?, take, arith,
}
use Prim.Native.String.{String}
use iron_peer_417project_pri.Paths.{FilePath, join, same_path}
use iron_peer_417project_pri.Structs.TorrentInfo.{
  TorrentFile, total_length, checked_length, length_panics, length_of_piece,
}
use iron_peer_417project_pri.Storage.Disk.{Disk, write_file, write_at, write_past, overlay}
use iron_peer_417project_pri.Storage.Files.{
  FileManager, write_block, write_files, after_write, read_file, then_read, read_files, read_piece,
  read_block, get_piece_length, verify_piece, unexpected_eof,
}
use iron_peer_417project_pri.Storage.Files.View.{AreDistinct, Accepts}
use iron_peer_417project_pri.Storage.Files.Writing.{Writes, write_block-Writes}
use iron_peer_417project_pri.Storage.Files.Reading.{IsThere, Returns}
use iron_peer_417project_pri.Storage.Files.RoundTrip.{
  torrent_bytes, HasPiece, read_piece-Returns, read_block-Returns, read_block-write_block,
  verify_piece_lem,
}

abbrev relative : String → FilePath
relative s = record { is_absolute = false; parts = s ∷ [] }

abbrev file_of : String → ℕ → TorrentFile
file_of s n = record {
  path = relative s;
  length = n;
  start_piece = 0;
  end_piece = 1;
  piece_offset_start = 0;
  piece_offset_end = 0;
  md5sum = none;
}

-- Three bytes in one file and five in another, in two pieces of four.
abbrev two_files : FileManager
two_files = record {
  output_dir = relative "out";
  files = file_of "a" 3 ∷ file_of "b" 5 ∷ [];
  piece_length = 4;
  total_size = 8;
  total_pieces = 2;
}

abbrev holding : List ℕ → List ℕ → Disk
holding xs ys = record {
  content = λ q.
      if same_path (join (relative "out") (relative "a")) q
      then some xs
      else (if same_path (join (relative "out") (relative "b")) q then some ys else none);
  refuses = λ q. false;
}

-- The second file does not exist yet.
abbrev half : Disk
half = record {
  content =
      λ q. if same_path (join (relative "out") (relative "a")) q then some (1 ∷ 2 ∷ []) else none;
  refuses = λ q. false;
}

read-half : read_piece two_files 0 half ≡ err unexpected_eof
unfolding read_piece read_files read_file then_read get_piece_length checked_length length_panics
    length_of_piece same_path join
read-half = refl

distinct : AreDistinct two_files.output_dir two_files.files
unfolding same_path join
distinct = ((refl, tt), (tt, tt))

accepts :
    (d : Disk)
    → ((q : FilePath) → d.refuses q ≡ false)
    → Accepts d two_files.output_dir two_files.files
accepts d h =
    (h (join (relative "out") (relative "a")), (h (join (relative "out") (relative "b")), tt))

-- A disk that holds the first piece, 1 2 9 8, and nothing of the second file behind it.
abbrev after : Disk
after = (write_block two_files 0 2 (9 ∷ 8 ∷ []) half).1

after-IsThere : IsThere (torrent_bytes two_files after) 0 4
unfolding write_block write_files after_write write_file write_at write_past overlay same_path join
after-IsThere zero h = (1, refl)
after-IsThere (suc zero) h = (2, refl)
after-IsThere (suc (suc zero)) h = (9, refl)
after-IsThere (suc (suc (suc zero))) h = (8, refl)
after-IsThere (suc (suc (suc (suc k)))) h = absurd (omega arith)

piece_0 : HasPiece two_files 0 after
unfolding write_block write_files after_write write_file write_at write_past overlay same_path join
    get_piece_length checked_length length_panics length_of_piece total_length
piece_0 = record {
  measured = refl;
  allocated = omega arith;
  small = omega arith;
  inside = omega arith;
  not_empty = omega arith;
  accepted = accepts after (λ q. refl);
  there = after-IsThere;
}

write_block-Writes_example :
    Writes two_files.output_dir two_files.files 2
      (9 ∷ 8 ∷ [])
      half
      (write_block two_files 0 2 (9 ∷ 8 ∷ []) half)
unfolding total_length
write_block-Writes_example =
    write_block-Writes two_files 0 2 (9 ∷ 8 ∷ []) half (omega arith) (omega arith) (omega arith)
      distinct (accepts half (λ q. refl))

read_piece-Returns_example :
    Returns (torrent_bytes two_files after) 0 4 (read_piece two_files 0 after)
unfolding get_piece_length checked_length length_panics length_of_piece
read_piece-Returns_example = read_piece-Returns two_files 0 after piece_0

read_block-Returns_example :
    Returns (torrent_bytes two_files after) 1 2 (read_block two_files 0 1 2 after)
unfolding get_piece_length checked_length length_panics length_of_piece
read_block-Returns_example = read_block-Returns two_files 0 1 2 after piece_0 (omega arith)

read_block-write_block_example : read_block two_files 0 2 2 after ≡ ok (9 ∷ 8 ∷ [])
unfolding get_piece_length checked_length length_panics length_of_piece
read_block-write_block_example =
    read_block-write_block two_files 0 2 (9 ∷ 8 ∷ []) half (omega arith) (omega arith) distinct
      (accepts half (λ q. refl)) piece_0

abbrev piece_bytes : List ℕ
piece_bytes = 1 ∷ 2 ∷ 9 ∷ 8 ∷ []

piece_0_bytes : (k : ℕ) → k < 4 → torrent_bytes two_files after (0 + k) ≡ get_elem? piece_bytes k
unfolding write_block write_files after_write write_file write_at write_past overlay same_path join
piece_0_bytes zero h = refl
piece_0_bytes (suc zero) h = refl
piece_0_bytes (suc (suc zero)) h = refl
piece_0_bytes (suc (suc (suc zero))) h = refl
piece_0_bytes (suc (suc (suc (suc k)))) h = absurd (omega arith)

verify_piece_lem_example :
    (b : Bool) × (verify_piece (take 2) two_files 0 (1 ∷ 2 ∷ []) after ≡ ok b)
    × ((b ≡ true) ↔ (take 2 piece_bytes ≡ 1 ∷ 2 ∷ []))
unfolding get_piece_length checked_length length_panics length_of_piece
verify_piece_lem_example =
    verify_piece_lem (take 2) two_files 0 (1 ∷ 2 ∷ []) piece_bytes after piece_0 refl piece_0_bytes
