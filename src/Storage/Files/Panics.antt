-- ===== src/Storage/Files/Panics.antt =====
-- Which reads panic: none, where the pieces have bytes and fit into memory.
use iron_peer_417project_pri.Base.{
  ℕ, ◌+◌, ◌-◌, ◌^◌, ◌<◌, ◌≡◌, refl, List, [], ◌∷◌, Option, none, some, Bool, false, ◌&&◌,
  if◌then◌else◌, if_cases, Result, ok, err, ltb, leb, lt→not_leb, ◌==◌, length, arith, as_u64, min,
  ◌%◌, ◌*◌, wrapping_pred, ◌>>=◌, take, drop,
}
use native.Mathlib.Nat.{mod-lt}
use iron_peer_417project_pri.Paths.{FilePath, join}
use iron_peer_417project_pri.Structs.TorrentInfo.{
  TorrentFile, last_length, length_panics, length_of_piece, checked_length,
}
use iron_peer_417project_pri.Storage.Disk.{Disk}
use iron_peer_417project_pri.Storage.Files.{
  FileManager, IoError, panicked, not_found, unexpected_eof, refused, invalid_input, panics,
  get_piece_length, read_file, then_read, read_files, read_piece, read_block, verify_piece,
}

-- Pieces of at least a byte and of at most `isize::MAX`.
pub record CanRead (m : FileManager) : Type 0 where
  pub some_bytes : 0 < m.piece_length
  pub in_memory : m.piece_length < 2 ^ 63

piece_length_fits : (r pl : ℕ) → r < pl → pl < 2 ^ 63 → last_length pl r < 2 ^ 63
piece_length_fits r pl lt small = ground arith

module _ (m : FileManager) (can : CanRead m) where
  length_fits : (i : ℕ) → length_of_piece m.total_pieces m.piece_length m.total_size i < 2 ^ 63
  unfolding length_of_piece
  length_fits i =
      if_cases (λ n. n < 2 ^ 63) (i == wrapping_pred m.total_pieces) _ _
        (λ t.
          piece_length_fits (m.total_size % m.piece_length) m.piece_length
            (mod-lt m.total_size can.some_bytes) can.in_memory)
        (λ f. can.in_memory)

  no_zero : (a : Bool) (n : ℕ) → 0 < n → (a && n == 0) ≡ false
  no_zero a n pos = ground arith

  get_piece_length_lem :
      (i : ℕ)
      → get_piece_length m i ≡ some (length_of_piece m.total_pieces m.piece_length m.total_size i)
  unfolding get_piece_length checked_length length_panics
  get_piece_length_lem i =
      rw (no_zero (i == wrapping_pred m.total_pieces) m.piece_length can.some_bytes) refl

  read_file_calm : (d : Disk) (p : FilePath) (o n : ℕ) → panics (read_file d p o n) ≡ false
  unfolding read_file panics
  read_file_calm d p o n = by (d.content p)
    where
      by :
          (c : Option (List ℕ))
          → panics (elim c [
            | none ↦ err not_found
            | some bytes ↦
                if d.refuses p
                then err refused
                else if ltb 0 n && ltb (length bytes) (o + n)
                then err unexpected_eof
                else ok (take n (drop o bytes))
          ])
            ≡ false
      by none = refl
      by (some bytes) =
          if_cases (λ (r : Result IoError (List ℕ)). panics r ≡ false) (d.refuses p) _ _ (λ t. refl)
            (λ f.
              if_cases (λ (r : Result IoError (List ℕ)). panics r ≡ false)
                (ltb 0 n && ltb (length bytes) (o + n)) _ _ (λ t. refl) (λ g. refl))

  then_read_calm :
      (r s : Result IoError (List ℕ))
      → panics r ≡ false
      → panics s ≡ false
      → panics (then_read r s) ≡ false
  unfolding then_read panics
  then_read_calm (ok b) (ok c) h k = refl
  then_read_calm (ok b) (err e) h k = k
  then_read_calm (err e) s h k = h

  read_files_calm :
      (out : FilePath) (fs : List TorrentFile) (start current need : ℕ) (d : Disk)
      → panics (read_files out fs start current need d) ≡ false
  unfolding read_files panics
  read_files_calm out [] start current need d = refl
  read_files_calm out (f ∷ fs) start current need d =
      let offset = if ltb start current then current - start else 0 in
      let count = min f.length (as_u64 (offset + need)) - offset in
      if_cases Calm (ltb current (as_u64 (start + f.length)) && ltb start (as_u64 (current + need)))
        _ _
        (λ t.
          if_cases Calm (leb need count) _ _ (λ u. read_file_calm d (join out f.path) offset count)
            (λ u. then_read_calm _ _ (read_file_calm d (join out f.path) offset count) (
              read_files_calm out fs (as_u64 (start + f.length)) (as_u64 (current + count))
                (need - count) d)))
        (λ g. read_files_calm out fs (as_u64 (start + f.length)) current need d)
    where
      Calm : Result IoError (List ℕ) → Type 0
      Calm r = panics r ≡ false

  pub read_piece_calm : (i : ℕ) (d : Disk) → panics (read_piece m i d) ≡ false
  unfolding read_piece
  read_piece_calm i d =
      let n = length_of_piece m.total_pieces m.piece_length m.total_size i in
      rw (get_piece_length_lem i, read_piece, lt→not_leb (2 ^ 63) n (length_fits i))
        (read_files_calm m.output_dir m.files 0 (as_u64 (i * m.piece_length)) n d)

  bind_calm {ℓ} :
      {A : Type ℓ} (r : Result IoError (List ℕ)) (f : List ℕ → Result IoError A)
      → panics r ≡ false
      → ((b : List ℕ) → panics (f b) ≡ false)
      → panics (r >>= f) ≡ false
  unfolding panics
  bind_calm (ok b) f h k = k b
  bind_calm (err panicked) f h k = absurd cc
  bind_calm (err not_found) f h k = refl
  bind_calm (err unexpected_eof) f h k = refl
  bind_calm (err refused) f h k = refl
  bind_calm (err invalid_input) f h k = refl

  pub verify_piece_calm :
      (sha1 : List ℕ → List ℕ) (i : ℕ) (expected : List ℕ) (d : Disk)
      → panics (verify_piece sha1 m i expected d) ≡ false
  unfolding verify_piece panics
  verify_piece_calm sha1 i expected d =
      bind_calm (read_piece m i d) _ (read_piece_calm i d) (λ b. refl)

  pub read_block_calm : (i begin n : ℕ) (d : Disk) → panics (read_block m i begin n d) ≡ false
  unfolding read_block panics
  read_block_calm i begin n d = bind_calm (read_piece m i d) _ (read_piece_calm i d) (λ b.
      if_cases (λ (r : Result IoError (List ℕ)). panics r ≡ false)
        (ltb (length b) (as_u64 (begin + n))) _ _ (λ t. refl) (λ f. refl))
