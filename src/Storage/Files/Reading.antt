-- ===== src/Storage/Files/Reading.antt =====
-- `read_piece` and `read_block` return the bytes of the torrent that are on the disk.
use iron_peer_417project_pri.Base.{
  ℕ, ◌+◌, ◌-◌, ◌≤◌, ◌<◌, ◌≡◌, refl, sym, ◌∙◌, ap, subst, ◌⊎◌, inl, inr, List, [], ◌∷◌, ◌++◌, Option,
  none, some, true, false, if◌then◌else◌, if_cases, Result, ok, err, get_elem?, length,
  length-append, drop, length-take, length-drop, arith, ltb, leb, ◌&&◌, lt→ltb, le→not_ltb, ltb→lt,
  not_ltb→le, leb→le, not_leb→lt, Bool-cases, min, as_u64, IsU64, get_elem?-lt_length,
  get_elem?-take, get_elem?-drop, get_elem?-append_lt, get_elem?-append_ge,
}
use iron_peer_417project_pri.Paths.{FilePath, join}
use iron_peer_417project_pri.Structs.TorrentInfo.{TorrentFile, total_length}
use iron_peer_417project_pri.Storage.Disk.{Disk, file_byte}
use iron_peer_417project_pri.Storage.Files.{IoError, read_file, then_read, read_files}
use iron_peer_417project_pri.Storage.Files.View.{byte_at, Accepts}

-- The bytes from `o` on, `n` of them, are there.
abbrev pub IsThere : (ℕ → Option ℕ) → ℕ → ℕ → Type 0
IsThere view o n = (k : ℕ) → k < n → (x : ℕ) × (view (o + k) ≡ some x)

-- `r` is those bytes.
abbrev pub Returns : (ℕ → Option ℕ) → ℕ → ℕ → Result IoError (List ℕ) → Type 0
Returns view o n (ok bytes) =
    (length bytes ≡ n) × ((k : ℕ) → k < n → view (o + k) ≡ get_elem? bytes k)
Returns view o n (err e) = ⊥

read_open :
    (d : Disk) (path : FilePath) (o n : ℕ) (c : Option (List ℕ))
    → 0 < n
    → d.content path ≡ c
    → d.refuses path ≡ false
    → IsThere (file_byte c) o n
    → Returns (file_byte c) o n (read_file d path o n)
unfolding read_file
read_open d path o n none pos e r there = let (x, q) = there 0 pos in cc
read_open d path o n (some bytes) pos e r there =
    rw (e, read_file, r, lt→ltb 0 n pos, le→not_ltb (length bytes) (o + n) long)
      (
        omega (arith, long, length-take n (drop o bytes), length-drop o bytes),
        λ k h. sym (get_elem?-take n (drop o bytes) k h ∙ get_elem?-drop o bytes k (o + k) refl),
      )
  where
    long : o + n ≤ length bytes
    long =
        let (x, q) = there (n - 1) (omega arith) in
        omega (arith, get_elem?-lt_length bytes (o + (n - 1)) q)

then_read-Returns :
    (view : ℕ → Option ℕ) (o n m : ℕ) (chunk rest : Result IoError (List ℕ))
    → Returns view o n chunk
    → Returns view (o + n) m rest
    → Returns view o (n + m) (then_read chunk rest)
unfolding then_read
then_read-Returns view o n m (ok xs) (ok ys) (lx, fx) (ly, fy) =
    (omega (arith, length-append xs ys), λ k h. both k h (Bool-cases (ltb k n)))
  where
    both :
        (k : ℕ)
        → k < n + m
        → (ltb k n ≡ true) ⊎ (ltb k n ≡ false)
        → view (o + k) ≡ get_elem? (xs ++ ys) k
    both k h (inl t) =
        fx k (ltb→lt k n t) ∙ sym (get_elem?-append_lt xs ys k (omega (arith, ltb→lt k n t)))
    both k h (inr f) =
        let behind : n ≤ k = not_ltb→le k n f in
        let place : o + k ≡ o + n + (k - n) = omega arith in
        ap view place
        ∙ fy (k - n) (omega arith)
        ∙ sym (get_elem?-append_ge xs ys k (k - n) (omega arith))
then_read-Returns view o n m (ok xs) (err e) h g = g
then_read-Returns view o n m (err e) rest h g = absurd h

-- What a view of the first file, or of the others, returns, the whole view returns.
Returns-first :
    (d : Disk) (out : FilePath) (f : TorrentFile) (fs : List TorrentFile) (o n : ℕ)
    (r : Result IoError (List ℕ))
    → o + n ≤ f.length
    → Returns (file_byte (d.content (join out f.path))) o n r
    → Returns (byte_at d out (f ∷ fs)) o n r
Returns-first d out f fs o n (ok xs) h (l, g) =
    (l, λ k lt. rw (lt→ltb (o + k) f.length (omega arith)) (g k lt))
Returns-first d out f fs o n (err e) h g = g

Returns-rest :
    (d : Disk) (out : FilePath) (f : TorrentFile) (fs : List TorrentFile) (o n : ℕ)
    (r : Result IoError (List ℕ))
    → f.length ≤ o
    → Returns (byte_at d out fs) (o - f.length) n r
    → Returns (byte_at d out (f ∷ fs)) o n r
Returns-rest d out f fs o n (ok xs) h (l, g) = (l, λ k lt. at k lt)
  where
    at : (k : ℕ) → k < n → byte_at d out (f ∷ fs) (o + k) ≡ get_elem? xs k
    at k lt =
        let place : o + k - f.length ≡ o - f.length + k = omega arith in
        rw (le→not_ltb (o + k) f.length (omega arith), place) (g k lt)
Returns-rest d out f fs o n (err e) h g = g

IsThere-first :
    (d : Disk) (out : FilePath) (f : TorrentFile) (fs : List TorrentFile) (o n m : ℕ)
    → o + m ≤ f.length
    → m ≤ n
    → IsThere (byte_at d out (f ∷ fs)) o n
    → IsThere (file_byte (d.content (join out f.path))) o m
IsThere-first d out f fs o n m h le there k lt =
    rw (lt→ltb (o + k) f.length (omega arith)) at (there k (omega arith))

-- The bytes from `o + m` on, which lie in the other files.
IsThere-rest :
    (d : Disk) (out : FilePath) (f : TorrentFile) (fs : List TorrentFile) (o p n m : ℕ)
    → f.length + p ≡ o + m
    → m ≤ n
    → IsThere (byte_at d out (f ∷ fs)) o n
    → IsThere (byte_at d out fs) p (n - m)
IsThere-rest d out f fs o p n m e le there k lt =
    let place : o + (m + k) - f.length ≡ p + k = omega arith in
    rw (le→not_ltb (o + (m + k)) f.length (omega arith), place) at (there (m + k) (omega arith))

-- Whether the loop reads from a file, and from which offset.
reads :
    (start current o l need : ℕ)
    → IsU64 (start + l)
    → IsU64 (current + need)
    → current ≡ start + o
    → 0 < need
    → (ltb current (as_u64 (start + l)) && ltb start (as_u64 (current + need))) ≡ true
    → o < l
reads start current o l need a b at pos t = ground arith

skips :
    (start current o l need : ℕ)
    → IsU64 (start + l)
    → IsU64 (current + need)
    → current ≡ start + o
    → 0 < need
    → (ltb current (as_u64 (start + l)) && ltb start (as_u64 (current + need))) ≡ false
    → l ≤ o
skips start current o l need a b at pos t = ground arith

offset_lem :
    (start current o : ℕ)
    → current ≡ start + o
    → (if ltb start current then current - start else 0) ≡ o
offset_lem start current o at = ground arith

-- A file that holds a part of the bytes, and what the loop reads behind it.
module _ (d : Disk) (out : FilePath) (f : TorrentFile) (fs : List TorrentFile) (o need count : ℕ)
    (inside : o < f.length) (pos : 0 < need) (takes : count ≡ min (f.length - o) need)
    (accepts : d.refuses (join out f.path) ≡ false)
    (there : IsThere (byte_at d out (f ∷ fs)) o need) (rest : Result IoError (List ℕ))
    (next : count < need
      → IsThere (byte_at d out fs) (o + count - f.length) (need - count)
      → Returns (byte_at d out fs) (o + count - f.length) (need - count) rest) where
  chunk_lem : Returns (byte_at d out (f ∷ fs)) o count (read_file d (join out f.path) o count)
  chunk_lem = Returns-first d out f fs o count _ (omega arith) (
      read_open d (join out f.path) o count _ (omega arith) refl accepts
        (IsThere-first d out f fs o need count (omega arith) (omega arith) there))

  Returns-part : Returns (byte_at d out (f ∷ fs)) o need (
      if leb need count
      then read_file d (join out f.path) o count
      else then_read (read_file d (join out f.path) o count) rest)
  Returns-part =
      if_cases (Returns (byte_at d out (f ∷ fs)) o need) (leb need count) _ _
        (λ t.
          let all : count ≡ need = omega (arith, leb→le _ _ t) in
          subst
            (λ (n : ℕ).
              Returns (byte_at d out (f ∷ fs)) o n (read_file d (join out f.path) o count))
            all chunk_lem)
        (λ n.
          let more : count < need = not_leb→lt _ _ n in
          let whole : count + (need - count) ≡ need = omega arith in
          subst
            (λ (n : ℕ).
              Returns (byte_at d out (f ∷ fs)) o n
                (then_read (read_file d (join out f.path) o count) rest))
            whole
            (then_read-Returns (byte_at d out (f ∷ fs)) o count (need - count) _ rest chunk_lem (
              Returns-rest d out f fs (o + count) (need - count) rest (omega arith) (
                next more (
                  IsThere-rest d out f fs o (o + count - f.length) need count (omega arith)
                    (omega arith) there)))))

pub read_files-Returns :
    (out : FilePath) (fs : List TorrentFile) (start current o need : ℕ) (d : Disk)
    → IsU64 (start + total_length fs)
    → current ≡ start + o
    → o + need ≤ total_length fs
    → 0 < need
    → Accepts d out fs
    → IsThere (byte_at d out fs) o need
    → Returns (byte_at d out fs) o need (read_files out fs start current need d)
unfolding read_files total_length
read_files-Returns out [] start current o need d small at fits pos accepts there =
    absurd (omega arith)
read_files-Returns out (f ∷ fs) start current o need d small at fits pos accepts there =
    let offset = if ltb start current then current - start else 0 in
    let next = as_u64 (start + f.length) in
    let count = min f.length (as_u64 (offset + need)) - offset in
    let place : offset ≡ o = offset_lem start current o at in
    let chunk = read_file d (join out f.path) offset count in
    let rest = read_files out fs next (as_u64 (current + count)) (need - count) d in
    if_cases (Returns (byte_at d out (f ∷ fs)) o need)
      (ltb current next && ltb start (as_u64 (current + need))) _ _
      (λ t.
        let inside : o < f.length =
          reads start current o f.length need (omega arith) (omega arith) at pos t in
        subst
          (λ (x : ℕ).
            Returns (byte_at d out (f ∷ fs)) x need
              (if leb need count then chunk else then_read chunk rest))
          place
          (Returns-part d out f fs offset need count (omega (arith, place)) pos
            (omega (arith, place)) accepts.0
            (subst (λ (x : ℕ). IsThere (byte_at d out (f ∷ fs)) x need) (sym place) there) rest
            (λ more present.
              read_files-Returns out fs next (as_u64 (current + count)) (offset + count - f.length)
                (need - count) d (omega arith) (omega (arith, place)) (omega (arith, place))
                (omega arith) accepts.1 present)))
      (λ n.
        let beyond : f.length ≤ o =
          skips start current o f.length need (omega arith) (omega arith) at pos n in
        Returns-rest d out f fs o need _ beyond (
          read_files-Returns out fs next current (o - f.length) need d (omega arith) (omega arith)
            (omega arith) pos accepts.1
            (subst (λ (n : ℕ). IsThere (byte_at d out fs) (o - f.length) n) all_of
              (IsThere-rest d out f fs o (o - f.length) need 0 (omega arith) (omega arith) there))))
  where
    all_of : need - 0 ≡ need
    all_of = omega arith
