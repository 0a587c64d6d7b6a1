-- ===== src/Storage/Files/Writing.antt =====
-- `write_block` writes the block into the torrent, across its files, and nothing else.
use iron_peer_417project_pri.Base.{
  ℕ, ◌+◌, ◌-◌, ◌*◌, ◌≤◌, ◌<◌, ◌≡◌, refl, sym, ◌∙◌, subst, ◌⊎◌, inl, inr, List, [], ◌∷◌, ◌++◌, some,
  true, false, if_cases, Result, ok, get_elem?, length, take, drop, length-take, length-drop,
  take-append-drop, arith, ltb, leb, ◌&&◌, le→not_ltb, ltb→lt, not_ltb→le, Bool-cases, min, as_u64,
  IsU64,
}
use iron_peer_417project_pri.Paths.{FilePath, join}
use iron_peer_417project_pri.Structs.TorrentInfo.{TorrentFile, total_length}
use iron_peer_417project_pri.Storage.Disk.{Disk, write_file}
use iron_peer_417project_pri.Storage.Disk.Writes.{Written, write_file-Written, write_file_other}
use iron_peer_417project_pri.Storage.Files.{
  FileManager, IoError, after_write, write_files, write_block, global_offset,
}
use iron_peer_417project_pri.Storage.Files.View.{
  byte_at, Avoids, AreDistinct, Accepts, SameElsewhere, Avoids-sym, Written-parts,
}

-- The call succeeds, the bytes stand at `o`, and the rest of the disk is as it was.
abbrev pub Writes :
    FilePath → List TorrentFile → ℕ → List ℕ → Disk → Result IoError (Unit {0}) × Disk → Type 0
Writes out fs o new d (r, d') =
    (r ≡ ok tt)
    × Written (byte_at d out fs) o new (byte_at d' out fs)
    × SameElsewhere out fs d d'
    × (d'.refuses ≡ d.refuses)

-- The file is behind the block's start: the loop goes on with the next.
Writes-skip :
    (out : FilePath) (f : TorrentFile) (fs : List TorrentFile) (o : ℕ) (new : List ℕ) (d : Disk)
    (x : Result IoError (Unit {0}) × Disk)
    → f.length ≤ o
    → Avoids out fs (join out f.path)
    → Writes out fs (o - f.length) new d x
    → Writes out (f ∷ fs) o new d x
Writes-skip out f fs o new d (r, d') h a (e, (inside, outside), same, ref) =
    (e, (in_rest, out_rest), λ q avoid. same q avoid.1, ref)
  where
    kept : d'.content (join out f.path) ≡ d.content (join out f.path)
    kept = same (join out f.path) (Avoids-sym out fs (join out f.path) a)

    in_rest : (k : ℕ) → k < length new → byte_at d' out (f ∷ fs) (o + k) ≡ get_elem? new k
    in_rest k lt =
        let place : o + k - f.length ≡ o - f.length + k = omega arith in
        rw (le→not_ltb (o + k) f.length (omega arith), place) (inside k lt)

    out_rest :
        (g x : ℕ)
        → (g < o) ⊎ (o + length new ≤ g)
        → byte_at d out (f ∷ fs) g ≡ some x
        → byte_at d' out (f ∷ fs) g ≡ some x
    out_rest g x away q = elim (Bool-cases (ltb g f.length)) [
      | inl t ↦ rw (t, kept) (rw t at q)
      | inr n ↦ rw n (outside (g - f.length) x (before away (not_ltb→le _ _ n)) (rw n at q))
    ]
      where
        before :
            (g < o) ⊎ (o + length new ≤ g)
            → f.length ≤ g
            → (g - f.length < o - f.length) ⊎ (o - f.length + length new ≤ g - f.length)
        before (inl l) m = inl (omega arith)
        before (inr l) m = inr (omega arith)

-- The file takes the front of the block; the loop goes on with the back, if there is one.
Writes-taken :
    (out : FilePath) (f : TorrentFile) (fs : List TorrentFile) (o : ℕ) (front back : List ℕ)
    (d : Disk) (x : Result IoError (Unit {0}) × Disk)
    → o + length front ≤ f.length
    → (length back ≡ 0) ⊎ (o + length front ≡ f.length)
    → Avoids out fs (join out f.path)
    → Writes out fs 0 back (write_file d (join out f.path) o front) x
    → Writes out (f ∷ fs) o (front ++ back) d x
Writes-taken out f fs o front back d (r, d') h ends a (e, w, same, ref) = (
  e,
  Written-parts out f fs d (write_file d (join out f.path) o front) d' o front back
      (write_file-Written d (join out f.path) o front)
      (λ q ne. write_file_other d (join out f.path) q o front ne) w
      (same (join out f.path) (Avoids-sym out fs (join out f.path) a)) a h ends,
  λ q avoid. same q avoid.1 ∙ write_file_other d (join out f.path) q o front avoid.0,
  ref ∙ unfold write_file in refl,
)

-- Nothing is left to write.
Writes-nothing :
    (out : FilePath) (fs : List TorrentFile) (d : Disk) → Writes out fs 0 [] d (ok tt, d)
Writes-nothing out fs d = (refl, (λ k h. absurd (omega arith), λ g x h e. e), λ q a. refl, refl)

-- A file of which the block takes a part, and what the loop does behind it.
module _ (out : FilePath) (f : TorrentFile) (fs : List TorrentFile) (o : ℕ) (new : List ℕ)
    (d : Disk) (apart : Avoids out fs (join out f.path)) (inside : o < f.length)
    (again : Disk → List ℕ → Result IoError (Unit {0}) × Disk) where
  after_write-Writes :
      (front back : List ℕ)
      → o + length front ≤ f.length
      → (length back ≡ 0) ⊎ (o + length front ≡ f.length)
      → (0 < length back
          → Writes out fs 0 back
              (write_file d (join out f.path) o front)
              (again (write_file d (join out f.path) o front) back))
      → Writes out
          (f ∷ fs)
          o
          (front ++ back)
          d
          (after_write back (write_file d (join out f.path) o front) again)
  unfolding after_write
  after_write-Writes front [] fits ends next =
      Writes-taken out f fs o front [] d _ fits ends apart (Writes-nothing out fs _)
  after_write-Writes front (b ∷ bs) fits ends next =
      Writes-taken out f fs o front (b ∷ bs) d _ fits ends apart (next (omega arith))

  Writes-part :
      (n : ℕ)
      → n ≡ min (length new) (f.length - o)
      → (0 < length (drop n new)
          → Writes out fs 0
              (drop n new)
              (write_file d (join out f.path) o (take n new))
              (again (write_file d (join out f.path) o (take n new)) (drop n new)))
      → Writes out
          (f ∷ fs)
          o
          new
          d
          (after_write (drop n new) (write_file d (join out f.path) o (take n new)) again)
  Writes-part n e next =
      subst
        (λ (l : List ℕ).
          Writes out (f ∷ fs) o l d
            (after_write (drop n new) (write_file d (join out f.path) o (take n new)) again))
        (take-append-drop n new)
        (after_write-Writes (take n new) (drop n new) (omega (arith, length-take n new)) ends next)
    where
      ends : (length (drop n new) ≡ 0) ⊎ (o + length (take n new) ≡ f.length)
      ends = elim (Bool-cases (ltb (length new) (f.length - o))) [
        | inl t ↦ inl (omega (arith, ltb→lt _ _ t, length-drop n new))
        | inr m ↦ inr (omega (arith, not_ltb→le _ _ m, length-take n new))
      ]

  -- The same with the offset in the file as the code computes it.
  Writes-part_at :
      (c n : ℕ)
      → c ≡ o
      → n ≡ min (length new) (f.length - c)
      → (0 < length (drop n new)
          → Writes out fs 0
              (drop n new)
              (write_file d (join out f.path) c (take n new))
              (again (write_file d (join out f.path) c (take n new)) (drop n new)))
      → Writes out
          (f ∷ fs)
          o
          new
          d
          (after_write (drop n new) (write_file d (join out f.path) c (take n new)) again)
  Writes-part_at c n place =
      subst
        (λ (x : ℕ).
          n ≡ min (length new) (f.length - x)
          → (0 < length (drop n new)
              → Writes out fs 0 (drop n new) (write_file d (join out f.path) x (take n new))
                  (again (write_file d (join out f.path) x (take n new)) (drop n new)))
          → Writes out (f ∷ fs) o new d
              (after_write (drop n new) (write_file d (join out f.path) x (take n new)) again))
        (sym place) (Writes-part n)

Accepts-write_file :
    (d : Disk) (out : FilePath) (fs : List TorrentFile) (p : FilePath) (o : ℕ) (new : List ℕ)
    → Accepts d out fs
    → Accepts (write_file d p o new) out fs
unfolding write_file
Accepts-write_file d out fs p o new h = h

-- Whether the loop finds the block's start in a file.
found :
    (start current o l : ℕ)
    → IsU64 (start + l)
    → current ≡ start + o
    → (leb start current && ltb current (as_u64 (start + l))) ≡ true
    → o < l
found start current o l small at t = ground arith

not_found :
    (start current o l : ℕ)
    → IsU64 (start + l)
    → current ≡ start + o
    → (leb start current && ltb current (as_u64 (start + l))) ≡ false
    → l ≤ o
not_found start current o l small at t = ground arith

write_files-Writes :
    (out : FilePath) (fs : List TorrentFile) (start current o : ℕ) (new : List ℕ) (d : Disk)
    → IsU64 (start + total_length fs)
    → current ≡ start + o
    → o + length new ≤ total_length fs
    → 0 < length new
    → AreDistinct out fs
    → Accepts d out fs
    → Writes out fs o new d (write_files out fs start current new d)
unfolding write_files total_length
write_files-Writes out [] start current o new d small at fits pos distinct accepts =
    absurd (omega arith)
write_files-Writes out (f ∷ fs) start current o new d small at fits pos distinct accepts =
    let path = join out f.path in
    let next = as_u64 (start + f.length) in
    let offset = current - start in
    let count = min (length new) (f.length - offset) in
    let place : offset ≡ o = omega arith in
    if_cases (Writes out (f ∷ fs) o new d) (leb start current && ltb current next) _ _
      (λ t.
        let inside : o < f.length = found start current o f.length (omega arith) at t in
        if_cases (Writes out (f ∷ fs) o new d) (d.refuses path) _ _ (λ r. cc (accepts.0))
          (λ _.
            Writes-part_at out f fs o new d distinct.0 inside
              (λ d' rest. write_files out fs next (as_u64 (current + count)) rest d') offset count
              place refl
              (λ more.
                write_files-Writes out fs next (as_u64 (current + count)) 0 (drop count new)
                  (write_file d path offset (take count new)) (omega arith)
                  (omega (arith, length-drop count new)) (omega (arith, length-drop count new)) more
                  distinct.1 (Accepts-write_file d out fs path offset (take count new) accepts.1))))
      (λ n.
        let beyond : f.length ≤ o = not_found start current o f.length (omega arith) at n in
        Writes-skip out f fs o new d _ beyond distinct.0 (
          write_files-Writes out fs next current (o - f.length) new d (omega arith) (omega arith)
            (omega arith) pos distinct.1 accepts.1))

-- A block that lies in the torrent, and is not empty, is written whole: the call succeeds, the
-- bytes stand at the block's place in the run of bytes over all the files, every other byte that
-- was on the disk has stayed, and no file outside the torrent has changed. The files have
-- distinct paths, the disk refuses none of them, and their lengths add up to a u64.
pub write_block-Writes :
    (m : FileManager) (piece_index begin : ℕ) (block : List ℕ) (d : Disk)
    → IsU64 (total_length m.files)
    → piece_index * m.piece_length + begin + length block ≤ total_length m.files
    → 0 < length block
    → AreDistinct m.output_dir m.files
    → Accepts d m.output_dir m.files
    → Writes m.output_dir m.files
        (piece_index * m.piece_length + begin)
        block
        d
        (write_block m piece_index begin block d)
unfolding write_block
write_block-Writes m i b block d small fits pos distinct accepts =
    write_files-Writes m.output_dir m.files 0 (global_offset m i b) (i * m.piece_length + b) block d
      (omega arith) (omega arith) fits pos distinct accepts
