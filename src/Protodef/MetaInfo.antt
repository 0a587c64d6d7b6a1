-- ===== src/Protodef/MetaInfo.antt =====
-- src/protodef/meta_info.rs: `MetaInfo` and `to_torrent_info`. serde decodes a torrent file;
-- `serde_bencode::to_bytes`, SHA-1 and `PathBuf::from` on a string are parameters. A panic is a none.
pub mod Layout
pub mod Failures
use Prim.Native.String.{String}
use iron_peer_417project_pri.Base.{
  ℕ, zero, suc, ◌+◌, ◌/◌, ◌%◌, List, [], ◌∷◌, Option, none, some, Bool, true, false, if◌then◌else◌,
  ◌==◌, take, drop, length, as_u64, wrapping_pred, ℤ,
}
use iron_peer_417project_pri.Base.Panic.{◌>>=◌}
use iron_peer_417project_pri.Paths.{FilePath, join}
use iron_peer_417project_pri.Structs.TorrentInfo.{TorrentFile, TorrentInfo, total_length}

pub record FileDict : Type 0 where
  pub length : ℕ
  pub md5sum : Option String
  pub path : List String

pub record InfoDict : Type 0 where
  pub name : String
  pub piece_length : ℕ
  pub pieces : List ℕ
  pub private : Option ℕ
  pub length : Option ℕ
  pub md5sum : Option String
  pub files : Option (List FileDict)

pub record MetaInfo : Type 0 where
  pub announce : String
  pub announce_list : Option (List (List String))
  pub creation_date : Option ℤ
  pub comment : Option String
  pub created_by : Option String
  pub encoding : Option String
  pub info : InfoDict

-- `self.info.private == Some(1)`
unfoldable pub is_one : Option ℕ → Bool
is_one none = false
is_one (some n) = n == 1

unfoldable pub tracker_tiers : MetaInfo → List (List String)
tracker_tiers mi = elim mi.announce_list [ some tiers ↦ tiers | none ↦ (mi.announce ∷ []) ∷ [] ]

-- `self.info.pieces.chunks(20)`, each copied to an array of 20 bytes, which panics on a shorter one.
-- A chunk takes at least a byte, so that fuel for the length of the data is enough.
unfoldable pub hash_chunks : ℕ → List ℕ → Option (List (List ℕ))
hash_chunks zero bytes = some []
hash_chunks (suc fuel) [] = some []
hash_chunks (suc fuel) (b ∷ bs) =
    let rest = hash_chunks fuel (drop 20 (b ∷ bs)) in
    if length (take 20 (b ∷ bs)) == 20
    then (rest >>= λ hashes. some (take 20 (b ∷ bs) ∷ hashes))
    else none

module _ (path_of : String → FilePath) where
  -- `for p in &f.path { b.push(p); }`
  unfoldable pub push_all : FilePath → List String → FilePath
  push_all b [] = b
  push_all b (p ∷ ps) = push_all (join b (path_of p)) ps

  unfoldable pub torrent_file : String → ℕ → ℕ → FileDict → TorrentFile
  torrent_file name piece_length offset f = record {
    path = push_all (path_of name) f.path;
    length = f.length;
    start_piece = offset / piece_length;
    end_piece = wrapping_pred (as_u64 (offset + f.length)) / piece_length;
    piece_offset_start = offset % piece_length;
    piece_offset_end = wrapping_pred (as_u64 (offset + f.length)) % piece_length;
    md5sum = f.md5sum;
  }

  -- `for f in file_dicts`, from `offset` on. A division by zero panics.
  unfoldable pub place_files : String → ℕ → ℕ → List FileDict → Option (List TorrentFile)
  place_files name piece_length offset [] = some []
  place_files name piece_length offset (f ∷ fs) =
      let rest = place_files name piece_length (as_u64 (offset + f.length)) fs in
      if piece_length == 0
      then none
      else (rest >>= λ files. some (torrent_file name piece_length offset f ∷ files))

  unfoldable pub single_file : InfoDict → ℕ → Option (List TorrentFile)
  single_file info len =
      if info.piece_length == 0
      then none
      else some (
          record {
            path = path_of info.name;
            length = len;
            start_piece = 0;
            end_piece = wrapping_pred len / info.piece_length;
            piece_offset_start = 0;
            piece_offset_end = wrapping_pred len % info.piece_length;
            md5sum = info.md5sum;
          }
          ∷ [])

  -- The files of a torrent with a list of them, of one with a length, or of neither.
  unfoldable pub files_of : InfoDict → Option (List TorrentFile)
  files_of info = elim info.files [
    | some file_dicts ↦ place_files info.name info.piece_length 0 file_dicts
    | none ↦ elim info.length [ some len ↦ single_file info len | none ↦ some [] ]
  ]

-- It panics when the dictionary cannot be encoded.
unfoldable pub compute_info_hash :
    (InfoDict → Option (List ℕ)) → (List ℕ → List ℕ) → InfoDict → Option (List ℕ)
compute_info_hash to_bytes sha1 info = to_bytes info >>= λ bencoded. some (sha1 bencoded)

-- The `TorrentInfo` at the end of `to_torrent_info`.
abbrev pub torrent_of : MetaInfo → List ℕ → List TorrentFile → List (List ℕ) → TorrentInfo
torrent_of mi info_hash files piece_hashes = record {
  info_hash = info_hash;
  name = mi.info.name;
  total_size = as_u64 (total_length files);
  piece_length = mi.info.piece_length;
  num_pieces = length mi.info.pieces / 20;
  piece_hashes = piece_hashes;
  files = files;
  trackers = tracker_tiers mi;
  is_private = is_one mi.info.private;
  creation_date = mi.creation_date;
  created_by = mi.created_by;
  comment = mi.comment;
}

unfoldable pub to_torrent_info :
    (InfoDict → Option (List ℕ))
    → (List ℕ → List ℕ)
    → (String → FilePath)
    → MetaInfo
    → Option TorrentInfo
to_torrent_info to_bytes sha1 path_of mi = do
  info_hash ← compute_info_hash to_bytes sha1 mi.info
  files ← files_of path_of mi.info
  piece_hashes ← hash_chunks (length mi.info.pieces) mi.info.pieces
  some (torrent_of mi info_hash files piece_hashes)
