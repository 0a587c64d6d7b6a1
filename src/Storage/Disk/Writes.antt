-- ===== src/Storage/Disk/Writes.antt =====
-- What a write leaves in a file, byte by byte.
use iron_peer_417project_pri.Base.{
  ℕ, zero, suc, ◌+◌, ◌≤◌, ◌<◌, ◌≡◌, refl, ◌⊎◌, inl, inr, List, [], ◌∷◌, Option, none, some, false,
  get_elem?, length, arith,
}
use iron_peer_417project_pri.Paths.{FilePath, same_path, same_path_refl}
use iron_peer_417project_pri.Storage.Disk.{
  Disk, overlay, write_past, write_at, bytes_of, write_file, file_byte,
}

-- `new` stands at `offset` in what `after` shows, and what was there elsewhere has stayed.
abbrev pub Written : (ℕ → Option ℕ) → ℕ → List ℕ → (ℕ → Option ℕ) → Type 0
Written before offset new after =
    ((k : ℕ) → k < length new → after (offset + k) ≡ get_elem? new k)
    × ((g x : ℕ) → (g < offset) ⊎ (offset + length new ≤ g) → before g ≡ some x → after g ≡ some x)

overlay_new :
    (new old : List ℕ) (k : ℕ) → k < length new → get_elem? (overlay new old) k ≡ get_elem? new k
unfolding overlay
overlay_new [] old k h = absurd (omega arith)
overlay_new (b ∷ bs) [] k h = refl
overlay_new (b ∷ bs) (x ∷ xs) zero h = refl
overlay_new (b ∷ bs) (x ∷ xs) (suc k) h = overlay_new bs xs k (omega arith)

overlay_old :
    (new old : List ℕ) (g x : ℕ)
    → length new ≤ g
    → get_elem? old g ≡ some x
    → get_elem? (overlay new old) g ≡ some x
unfolding overlay
overlay_old [] old g x h e = e
overlay_old (b ∷ bs) [] g x h e = cc
overlay_old (b ∷ bs) (y ∷ ys) zero x h e = absurd (omega arith)
overlay_old (b ∷ bs) (y ∷ ys) (suc g) x h e = overlay_old bs ys g x (omega arith) e

write_past_new :
    (old : List ℕ) (offset : ℕ) (new : List ℕ) (k g : ℕ)
    → k < length new
    → g ≡ offset + k
    → get_elem? (write_past old offset new) g ≡ get_elem? new k
unfolding write_past
write_past_new old zero new k g h e =
    let same : g ≡ k = omega arith in rw same (overlay_new new old k h)
write_past_new [] (suc offset) new k zero h e = absurd (omega arith)
write_past_new [] (suc offset) new k (suc g) h e = write_past_new [] offset new k g h (omega arith)
write_past_new (x ∷ xs) (suc offset) new k zero h e = absurd (omega arith)
write_past_new (x ∷ xs) (suc offset) new k (suc g) h e =
    write_past_new xs offset new k g h (omega arith)

write_past_old :
    (old : List ℕ) (offset : ℕ) (new : List ℕ) (g x : ℕ)
    → (g < offset) ⊎ (offset + length new ≤ g)
    → get_elem? old g ≡ some x
    → get_elem? (write_past old offset new) g ≡ some x
unfolding write_past
write_past_old old zero new g x (inl h) e = absurd (omega arith)
write_past_old old zero new g x (inr h) e = overlay_old new old g x (omega arith) e
write_past_old [] (suc offset) new g x h e = cc
write_past_old (y ∷ ys) (suc offset) new zero x h e = e
write_past_old (y ∷ ys) (suc offset) new (suc g) x h e =
    write_past_old ys offset new g x (omega arith) e

bytes_of-file_byte :
    (o : Option (List ℕ)) (g x : ℕ) → file_byte o g ≡ some x → get_elem? (bytes_of o) g ≡ some x
bytes_of-file_byte none g x e = cc
bytes_of-file_byte (some bytes) g x e = e

write_at-Written :
    (o : Option (List ℕ)) (offset : ℕ) (new : List ℕ)
    → Written (file_byte o) offset new (get_elem? (write_at (bytes_of o) offset new))
unfolding write_at
write_at-Written o offset [] = (λ k h. absurd (omega arith), λ g x h e. bytes_of-file_byte o g x e)
write_at-Written o offset (b ∷ bs) = (
  λ k h. write_past_new (bytes_of o) offset (b ∷ bs) k (offset + k) h refl,
  λ g x h e. write_past_old (bytes_of o) offset (b ∷ bs) g x h (bytes_of-file_byte o g x e),
)

-- The written file holds the new bytes, and its old ones elsewhere.
pub write_file-Written :
    (d : Disk) (path : FilePath) (offset : ℕ) (new : List ℕ)
    → Written
        (file_byte (d.content path))
        offset
        new
        (file_byte ((write_file d path offset new).content path))
unfolding write_file
write_file-Written d path offset new =
    rw (same_path_refl path) (write_at-Written (d.content path) offset new)

-- Any other file is as it was.
pub write_file_other :
    (d : Disk) (path q : FilePath) (offset : ℕ) (new : List ℕ)
    → same_path path q ≡ false
    → (write_file d path offset new).content q ≡ d.content q
unfolding write_file
write_file_other d path q offset new e = rw e
