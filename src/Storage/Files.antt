-- ===== src/Storage/Files.antt =====
-- src/storage/files.rs: `FileManager`, its reads and writes across the files of the torrent.
-- `join(output_dir, path)` names a file; a disk refuses a call by returning an error.
pub mod View
pub mod Writing
pub mod Reading
pub mod RoundTrip
pub mod Panics
use iron_peer_417project_pri.Base.{
  ℕ, zero, suc, ◌+◌, ◌-◌, ◌*◌, ◌^◌, List, [], ◌∷◌, ◌++◌, Option, none, some, Bool, true, false,
  ◌&&◌, Result, ok, err, ◌>>=◌, length, take, drop, replicate, ltb, leb, ◌==◌, if◌then◌else◌, min,
  as_u64, same_bytes,
}
use iron_peer_417project_pri.Paths.{FilePath, join}
use iron_peer_417project_pri.Structs.TorrentInfo.{TorrentFile, TorrentInfo, checked_length}
use iron_peer_417project_pri.Storage.Disk.{Disk, write_file}

pub record FileManager : Type 0 where
  pub output_dir : FilePath
  pub files : List TorrentFile
  pub piece_length : ℕ
  pub total_size : ℕ
  pub total_pieces : ℕ

-- `std::io::Error`, and `panicked` for a read that does not return: whoever meets it panics.
pub data IoError : Type 0 where
  panicked not_found unexpected_eof refused invalid_input : IoError

unfoldable pub new_file_manager : FilePath → TorrentInfo → FileManager
new_file_manager output_dir t = record {
  output_dir = output_dir;
  files = t.files;
  piece_length = t.piece_length;
  total_size = t.total_size;
  total_pieces = length t.piece_hashes;
}

-- Whether a read has panicked.
unfoldable pub panics {ℓ} : {A : Type ℓ} → Result IoError A → Bool
panics (ok a) = false
panics (err panicked) = true
panics (err not_found) = false
panics (err unexpected_eof) = false
panics (err refused) = false
panics (err invalid_input) = false

unfoldable pub get_piece_length : FileManager → ℕ → Option ℕ
get_piece_length m piece_index =
    checked_length m.total_pieces m.piece_length m.total_size piece_index

-- What is done after a part was written: `again` is the rest of the loop.
unfoldable pub after_write :
    List ℕ
    → Disk
    → (Disk → List ℕ → Result IoError (Unit {0}) × Disk)
    → Result IoError (Unit {0}) × Disk
after_write [] d again = (ok tt, d)
after_write (b ∷ bs) d again = again d (b ∷ bs)

-- The loop of `write_block`, from a file on: `start` is `file_start_offset`, `current` is
-- `current_offset`, and `remaining` is `remaining_data`.
unfoldable pub write_files :
    FilePath → List TorrentFile → ℕ → ℕ → List ℕ → Disk → Result IoError (Unit {0}) × Disk
write_files out [] start current remaining d = (ok tt, d)
write_files out (f ∷ fs) start current remaining d =
    let offset = current - start in
    let count = min (length remaining) (f.length - offset) in
    let path = join out f.path in
    let skipped = write_files out fs (as_u64 (start + f.length)) current remaining d in
    let written =
      after_write (drop count remaining) (write_file d path offset (take count remaining))
        (λ d' rest.
          write_files out fs (as_u64 (start + f.length)) (as_u64 (current + count)) rest d') in
    if leb start current && ltb current (as_u64 (start + f.length))
    then (if d.refuses path then (err refused, d) else written)
    else skipped

-- `piece_index as u64 * self.piece_length + begin as u64`
abbrev pub global_offset : FileManager → ℕ → ℕ → ℕ
global_offset m piece_index begin = as_u64 (as_u64 (piece_index * m.piece_length) + begin)

unfoldable pub write_block : FileManager → ℕ → ℕ → List ℕ → Disk → Result IoError (Unit {0}) × Disk
write_block m piece_index begin bytes d =
    write_files m.output_dir m.files 0 (global_offset m piece_index begin) bytes d

-- Open, seek and `read_exact` of `count` bytes.
unfoldable pub read_file : Disk → FilePath → ℕ → ℕ → Result IoError (List ℕ)
read_file d path offset count = elim (d.content path) [
  | none ↦ err not_found
  | some bytes ↦
      if d.refuses path
      then err refused
      else if ltb 0 count && ltb (length bytes) (offset + count)
      then err unexpected_eof
      else ok (take count (drop offset bytes))
]

-- The part of the buffer that a file fills, and the rest of it.
unfoldable pub then_read :
    Result IoError (List ℕ) → Result IoError (List ℕ) → Result IoError (List ℕ)
then_read chunk rest = chunk >>= λ bytes. rest >>= λ more. ok (bytes ++ more)

-- The loop of `read_piece`, from a file on: `need` is `buffer.len() - buf_offset`, and the result
-- is that part of the buffer. What no file fills stays zero.
unfoldable pub read_files : FilePath → List TorrentFile → ℕ → ℕ → ℕ → Disk → Result IoError (List ℕ)
read_files out [] start current need d = ok (replicate need 0)
read_files out (f ∷ fs) start current need d =
    let offset = if ltb start current then current - start else 0 in
    let count = min f.length (as_u64 (offset + need)) - offset in
    let chunk = read_file d (join out f.path) offset count in
    let skipped = read_files out fs (as_u64 (start + f.length)) current need d in
    let rest =
      read_files out fs (as_u64 (start + f.length)) (as_u64 (current + count)) (need - count) d in
    if ltb current (as_u64 (start + f.length)) && ltb start (as_u64 (current + need))
    then (if leb need count then chunk else then_read chunk rest)
    else skipped

-- `vec![0u8; piece_len as usize]` panics on more than `isize::MAX` bytes.
unfoldable pub read_piece : FileManager → ℕ → Disk → Result IoError (List ℕ)
read_piece m piece_index d = elim (get_piece_length m piece_index) [
  | none ↦ err panicked
  | some piece_len ↦
      if leb (2 ^ 63) piece_len
      then err panicked
      else read_files m.output_dir m.files 0 (as_u64 (piece_index * m.piece_length)) piece_len d
]

unfoldable pub read_block : FileManager → ℕ → ℕ → ℕ → Disk → Result IoError (List ℕ)
read_block m piece_index begin count d = do
  bytes ← read_piece m piece_index d
  if ltb (length bytes) (as_u64 (begin + count))
      then err invalid_input
      else ok (take count (drop begin bytes))

-- The digest of the `sha1` crate is a parameter.
unfoldable pub verify_piece :
    (List ℕ → List ℕ) → FileManager → ℕ → List ℕ → Disk → Result IoError Bool
verify_piece sha1 m piece_index expected_hash d = do
  bytes ← read_piece m piece_index d
  ok (same_bytes (sha1 bytes) expected_hash)
