-- ===== src/Storage/Disk.antt =====
-- The file system that `FileManager` works on: what each path holds, and the paths at which the
-- system refuses a call (no permission, a full disk, a directory in the way).
pub mod Writes
use iron_peer_417project_pri.Base.{
  ℕ, zero, suc, ◌+◌, List, [], ◌∷◌, Option, none, some, Bool, if◌then◌else◌, get_elem?,
}
use iron_peer_417project_pri.Paths.{FilePath, same_path}

pub record Disk : Type 0 where
  pub content : FilePath → Option (List ℕ)
  pub refuses : FilePath → Bool

-- New bytes over old ones.
unfoldable pub overlay : List ℕ → List ℕ → List ℕ
overlay [] old = old
overlay (b ∷ bs) [] = b ∷ bs
overlay (b ∷ bs) (x ∷ xs) = b ∷ overlay bs xs

-- The bytes of a file after a seek to an offset and a write there: a gap is filled with zeros.
unfoldable pub write_past : List ℕ → ℕ → List ℕ → List ℕ
write_past old zero new = overlay new old
write_past [] (suc offset) new = 0 ∷ write_past [] offset new
write_past (x ∷ xs) (suc offset) new = x ∷ write_past xs offset new

-- A write of no bytes does not extend the file.
unfoldable pub write_at : List ℕ → ℕ → List ℕ → List ℕ
write_at old offset [] = old
write_at old offset (b ∷ bs) = write_past old offset (b ∷ bs)

-- A file that was not there is created empty.
abbrev pub bytes_of : Option (List ℕ) → List ℕ
bytes_of none = []
bytes_of (some bytes) = bytes

-- Open with `create`, seek, `write_all`.
unfoldable pub write_file : Disk → FilePath → ℕ → List ℕ → Disk
write_file d path offset new = record d {
  content = λ q.
      if same_path path q
      then some (write_at (bytes_of (d.content path)) offset new)
      else d.content q;
}

-- The byte of a file at an offset, if it is there.
abbrev pub file_byte : Option (List ℕ) → ℕ → Option ℕ
file_byte none offset = none
file_byte (some bytes) offset = get_elem? bytes offset
