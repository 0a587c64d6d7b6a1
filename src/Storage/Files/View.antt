-- ===== src/Storage/Files/View.antt =====
-- The torrent as one run of bytes over its files, one behind the other.
use iron_peer_417project_pri.Base.{
  ℕ, ◌+◌, ◌-◌, ◌≤◌, ◌<◌, ◌≡◌, refl, sym, ◌∙◌, ◌⊎◌, inl, inr, List, [], ◌∷◌, ◌++◌, Option, none,
  some, false, if◌then◌else◌, get_elem?, length, length-append, arith, All, ltb, lt→ltb, le→not_ltb,
  ltb→lt, not_ltb→le, Bool-cases, get_elem?-append_lt, get_elem?-append_ge,
}
use iron_peer_417project_pri.Paths.{FilePath, join, same_path, same_path_sym}
use iron_peer_417project_pri.Structs.TorrentInfo.{TorrentFile}
use iron_peer_417project_pri.Storage.Disk.{Disk, file_byte}
use iron_peer_417project_pri.Storage.Disk.Writes.{Written}

-- Byte `g` of the torrent, if it is on the disk.
abbrev pub byte_at : Disk → FilePath → List TorrentFile → ℕ → Option ℕ
byte_at d out [] g = none
byte_at d out (f ∷ fs) g =
    if ltb g f.length
    then file_byte (d.content (join out f.path)) g
    else byte_at d out fs (g - f.length)

-- No file of the list lies at this path.
abbrev pub Avoids : FilePath → List TorrentFile → FilePath → Type 0
Avoids out fs p = All (λ f. same_path p (join out f.path) ≡ false) fs

-- No two files lie at one path.
abbrev pub AreDistinct : FilePath → List TorrentFile → Type 0
AreDistinct out [] = Unit {0}
AreDistinct out (f ∷ fs) = Avoids out fs (join out f.path) × AreDistinct out fs

-- The disk refuses none of the files.
abbrev pub Accepts : Disk → FilePath → List TorrentFile → Type 0
Accepts d out fs = All (λ f. d.refuses (join out f.path) ≡ false) fs

-- Between the disks only files of the list may differ.
abbrev pub SameElsewhere : FilePath → List TorrentFile → Disk → Disk → Type 0
SameElsewhere out fs d d' =
    (q : FilePath)
    → All (λ f. same_path (join out f.path) q ≡ false) fs
    → d'.content q ≡ d.content q

pub Avoids-sym :
    (out : FilePath) (fs : List TorrentFile) (p : FilePath)
    → Avoids out fs p
    → All (λ f. same_path (join out f.path) p ≡ false) fs
Avoids-sym out [] p a = tt
Avoids-sym out (f ∷ fs) p a = (same_path_sym (join out f.path) p ∙ a.0, Avoids-sym out fs p a.1)

-- A change of one file that is none of the list leaves the list's bytes.
pub byte_at_other :
    (d d' : Disk) (out : FilePath) (fs : List TorrentFile) (p : FilePath) (g : ℕ)
    → ((q : FilePath) → same_path p q ≡ false → d'.content q ≡ d.content q)
    → Avoids out fs p
    → byte_at d' out fs g ≡ byte_at d out fs g
byte_at_other d d' out [] p g h a = refl
byte_at_other d d' out (f ∷ fs) p g h a =
    rw (h (join out f.path) a.0, byte_at_other d d' out fs p (g - f.length) h a.1)

-- Bytes in the first file, then bytes in the others: `front` ends with the file unless nothing
-- follows it.
module _ (out : FilePath) (f : TorrentFile) (fs : List TorrentFile) (d d₁ d₂ : Disk) (o : ℕ)
    (front back : List ℕ)
    (written : Written
      (file_byte (d.content (join out f.path)))
      o
      front
      (file_byte (d₁.content (join out f.path))))
    (only : (q : FilePath) → same_path (join out f.path) q ≡ false → d₁.content q ≡ d.content q)
    (then_written : Written (byte_at d₁ out fs) 0 back (byte_at d₂ out fs))
    (kept : d₂.content (join out f.path) ≡ d₁.content (join out f.path))
    (apart : Avoids out fs (join out f.path)) (fits : o + length front ≤ f.length)
    (ends : (length back ≡ 0) ⊎ (o + length front ≡ f.length)) where
  Written_inside :
      (k : ℕ)
      → k < length (front ++ back)
      → byte_at d₂ out (f ∷ fs) (o + k) ≡ get_elem? (front ++ back) k
  Written_inside k h = elim (Bool-cases (ltb k (length front))) [
    | inl t ↦
        let in_front : k < length front = ltb→lt _ _ t in
        rw (lt→ltb (o + k) f.length (omega arith), kept)
          (written.0 k in_front ∙ sym (get_elem?-append_lt front back k in_front))
    | inr n ↦
        let behind : length front ≤ k = not_ltb→le _ _ n in
        let more : length (front ++ back) ≡ length front + length back = length-append front back in
        let place : o + k - f.length ≡ 0 + (k - length front) = omega arith in
        rw (le→not_ltb (o + k) f.length (omega arith), place)
          (then_written.0 (k - length front) (omega arith)
            ∙ sym (get_elem?-append_ge front back k (k - length front) (omega arith)))
  ]

  Written_outside :
      (g x : ℕ)
      → (g < o) ⊎ (o + length (front ++ back) ≤ g)
      → byte_at d out (f ∷ fs) g ≡ some x
      → byte_at d₂ out (f ∷ fs) g ≡ some x
  Written_outside g x h e = elim (Bool-cases (ltb g f.length)) [
    | inl t ↦ rw (t, kept) (written.1 g x (elsewhere h) (rw t at e))
    | inr n ↦
        let beyond : f.length ≤ g = not_ltb→le _ _ n in
        let more : length (front ++ back) ≡ length front + length back = length-append front back in
        rw n (
          then_written.1 (g - f.length) x (inr (omega arith))
            (byte_at_other d d₁ out fs (join out f.path) (g - f.length) only apart ∙ rw n at e))
  ]
    where
      elsewhere : (g < o) ⊎ (o + length (front ++ back) ≤ g) → (g < o) ⊎ (o + length front ≤ g)
      elsewhere (inl a) = inl a
      elsewhere (inr b) = inr (omega (arith, length-append front back))

  pub Written-parts : Written (byte_at d out (f ∷ fs)) o (front ++ back) (byte_at d₂ out (f ∷ fs))
  Written-parts = (Written_inside, Written_outside)
