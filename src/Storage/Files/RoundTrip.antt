-- ===== src/Storage/Files/RoundTrip.antt =====
-- Whole pieces and blocks: what is read, what a verification says, and a block read back.
use iron_peer_417project_pri.Base.{
  lt→not_leb, some, ◌^◌, ℕ, ◌+◌, ◌*◌, ◌≤◌, ◌<◌, ◌≡◌, ◌↔◌, refl, sym, ◌∙◌, ap, subst, List, Option,
  Bool, true, if◌then◌else◌, Result, ok, err, ◌>>=◌, get_elem?, length, take, drop, length-take,
  length-drop, arith, ltb, le→not_ltb, as_u64, IsU64, get_elem?-take, get_elem?-drop,
  get_elem?-injective, same_bytes, same_bytes_iff,
}
use iron_peer_417project_pri.Structs.TorrentInfo.{total_length, length_of_piece}
use iron_peer_417project_pri.Storage.Disk.{Disk}
use iron_peer_417project_pri.Storage.Files.{
  FileManager, IoError, write_block, read_piece, read_block, get_piece_length, verify_piece,
}
use iron_peer_417project_pri.Storage.Files.View.{byte_at, AreDistinct, Accepts}
use iron_peer_417project_pri.Storage.Files.Writing.{write_block-Writes}
use iron_peer_417project_pri.Storage.Files.Reading.{IsThere, Returns, read_files-Returns}

-- The length that a piece has where asking for it does not panic.
abbrev pub length_at : FileManager → ℕ → ℕ
length_at m piece_index = length_of_piece m.total_pieces m.piece_length m.total_size piece_index

-- The bytes of the torrent on a disk.
abbrev pub torrent_bytes : FileManager → Disk → ℕ → Option ℕ
torrent_bytes m d = byte_at d m.output_dir m.files

-- A piece of a torrent whose bytes are all there: its length can be asked for and fits into memory,
-- it is not empty and lies in the files, their
-- lengths add up to a u64, and the disk refuses none of them.
pub record HasPiece (m : FileManager) (piece_index : ℕ) (d : Disk) : Type 0 where
  pub measured : get_piece_length m piece_index ≡ some (length_at m piece_index)
  pub allocated : length_at m piece_index < 2 ^ 63
  pub small : IsU64 (total_length m.files)
  pub inside : piece_index * m.piece_length + length_at m piece_index ≤ total_length m.files
  pub not_empty : 0 < length_at m piece_index
  pub accepted : Accepts d m.output_dir m.files
  pub there : IsThere (torrent_bytes m d) (piece_index * m.piece_length) (length_at m piece_index)

-- A piece that fits into memory, is not empty, lies in the files and has all its bytes on the disk is read, whole and
-- in order, across the files, when the disk refuses none of them.
pub read_piece-Returns :
    (m : FileManager) (piece_index : ℕ) (d : Disk)
    → HasPiece m piece_index d
    → Returns
        (torrent_bytes m d)
        (piece_index * m.piece_length)
        (length_at m piece_index)
        (read_piece m piece_index d)
unfolding read_piece
read_piece-Returns m i d h =
    rw (h.measured, read_piece, lt→not_leb (2 ^ 63) (length_at m i) h.allocated)
      (read_files-Returns m.output_dir m.files 0 (as_u64 (i * m.piece_length)) (i * m.piece_length)
        (length_at m i) d (omega (arith, h.small)) (omega (arith, h.inside, h.not_empty, h.small))
        h.inside h.not_empty h.accepted h.there)

block_of :
    (view : ℕ → Option ℕ) (o len begin n : ℕ) (r : Result IoError (List ℕ))
    → IsU64 len
    → begin + n ≤ len
    → Returns view o len r
    → Returns view (o + begin) n (
        r >>= λ bytes.
        if ltb (length bytes) (as_u64 (begin + n))
        then err IoError.invalid_input
        else ok (take n (drop begin bytes)))
block_of view o len begin n (err e) small h g = g
block_of view o len begin n (ok bytes) small h (l, f) =
    rw (le→not_ltb (length bytes) (as_u64 (begin + n)) (omega arith))
      (omega (arith, length-take n (drop begin bytes), length-drop begin bytes), λ k lt. at k lt)
  where
    at : (k : ℕ) → k < n → view (o + begin + k) ≡ get_elem? (take n (drop begin bytes)) k
    at k lt =
        let place : o + begin + k ≡ o + (begin + k) = omega arith in
        ap view place
        ∙ f (begin + k) (omega arith)
        ∙ sym (
            get_elem?-take n (drop begin bytes) k lt
            ∙ get_elem?-drop begin bytes k (begin + k) refl)

-- Every block within such a piece is read, whole and in order.
pub read_block-Returns :
    (m : FileManager) (piece_index begin n : ℕ) (d : Disk)
    → HasPiece m piece_index d
    → begin + n ≤ length_at m piece_index
    → Returns
        (torrent_bytes m d)
        (piece_index * m.piece_length + begin)
        n
        (read_block m piece_index begin n d)
unfolding read_block
read_block-Returns m i b n d h fits =
    block_of (torrent_bytes m d) (i * m.piece_length) (length_at m i) b n (read_piece m i d)
      (omega (arith, h.inside, h.small)) fits (read_piece-Returns m i d h)

same_block :
    (view : ℕ → Option ℕ) (o : ℕ) (block : List ℕ) (r : Result IoError (List ℕ))
    → ((k : ℕ) → k < length block → view (o + k) ≡ get_elem? block k)
    → Returns view o (length block) r
    → r ≡ ok block
same_block view o block (err e) h g = absurd g
same_block view o block (ok bytes) h (l, f) =
    ap ok (get_elem?-injective bytes block l (λ k lt. sym (f k (omega arith)) ∙ h k (omega arith)))

-- A non-empty block within a piece is read back after it was written, when the files have distinct
-- paths that the disk does not refuse and, after the write, all bytes of the piece are there.
pub read_block-write_block :
    (m : FileManager) (piece_index begin : ℕ) (block : List ℕ) (d : Disk)
    → 0 < length block
    → begin + length block ≤ length_at m piece_index
    → AreDistinct m.output_dir m.files
    → Accepts d m.output_dir m.files
    → HasPiece m piece_index (write_block m piece_index begin block d).1
    → read_block m piece_index begin (length block) (write_block m piece_index begin block d).1
      ≡ ok block
read_block-write_block m i b block d pos fits distinct accepts h =
    let w =
      write_block-Writes m i b block d h.small (omega (arith, h.inside)) pos distinct accepts in
    same_block (torrent_bytes m (write_block m i b block d).1) (i * m.piece_length + b) block _
      (w.1.0) (read_block-Returns m i b (length block) (write_block m i b block d).1 h fits)

-- What `verify_piece` answers for a piece whose bytes are all on the disk: it does not fail, and it
-- says true exactly when their digest is the expected one.
pub verify_piece_lem :
    (sha1 : List ℕ → List ℕ) (m : FileManager) (piece_index : ℕ) (expected bytes : List ℕ)
    (d : Disk)
    → HasPiece m piece_index d
    → length bytes ≡ length_at m piece_index
    → ((k : ℕ)
        → k < length bytes
        → torrent_bytes m d (piece_index * m.piece_length + k) ≡ get_elem? bytes k)
    → (b : Bool) × (verify_piece sha1 m piece_index expected d ≡ ok b)
      × ((b ≡ true) ↔ (sha1 bytes ≡ expected))
unfolding verify_piece
verify_piece_lem sha1 m i expected bytes d h l f =
    let read : read_piece m i d ≡ ok bytes =
      same_block (torrent_bytes m d) (i * m.piece_length) bytes (read_piece m i d) f (
        subst (λ (n : ℕ). Returns (torrent_bytes m d) (i * m.piece_length) n (read_piece m i d))
          (sym l) (read_piece-Returns m i d h)) in
    (same_bytes (sha1 bytes) expected, rw read refl, same_bytes_iff (sha1 bytes) expected)
