-- ===== src/Structs/TorrentInfo.antt =====
-- src/structs/torrent_info.rs: what the client knows of a torrent.
use Prim.Native.String.{String}
use iron_peer_417project_pri.Base.{
  ℕ, suc, ◌+◌, ◌-◌, ◌*◌, ◌/◌, ◌%◌, List, [], ◌∷◌, ◌++◌, Option, none, some, Bool, ◌&&◌, ltb, leb,
  ◌==◌, if◌then◌else◌, min, max, get_elem?, take, as_u64, wrapping_pred, ℤ,
}
use iron_peer_417project_pri.Paths.{FilePath}

pub record TorrentFile : Type 0 where
  pub path : FilePath
  pub length : ℕ
  pub start_piece : ℕ
  pub end_piece : ℕ
  pub piece_offset_start : ℕ
  pub piece_offset_end : ℕ
  pub md5sum : Option String

pub record TorrentInfo : Type 0 where
  pub info_hash : List ℕ
  pub name : String
  pub total_size : ℕ
  pub piece_length : ℕ
  pub num_pieces : ℕ
  pub piece_hashes : List (List ℕ)
  pub files : List TorrentFile
  pub trackers : List (List String)
  pub is_private : Bool
  pub creation_date : Option ℤ
  pub created_by : Option String
  pub comment : Option String

pub record FileSpan : Type 0 where
  pub file_index : ℕ
  pub file_offset : ℕ
  pub length : ℕ

pub record PieceInfo : Type 0 where
  pub index : ℕ
  pub length : ℕ
  pub hash : List ℕ
  pub file_spans : List FileSpan

-- `total_size % piece_length`, or `piece_length` where that is 0.
abbrev pub last_length : ℕ → ℕ → ℕ
last_length piece_length remainder = if remainder == 0 then piece_length else remainder

-- Whether `total_size % piece_length` is a division by zero, which panics.
unfoldable pub length_panics : ℕ → ℕ → ℕ → Bool
length_panics num_pieces piece_length piece_index =
    piece_index == wrapping_pred num_pieces && piece_length == 0

-- The length of a piece, where that does not panic: `TorrentInfo::piece_length`, with
-- `FileManager::get_piece_length` the same on that struct's fields.
unfoldable pub length_of_piece : ℕ → ℕ → ℕ → ℕ → ℕ
length_of_piece num_pieces piece_length total_size piece_index =
    if piece_index == wrapping_pred num_pieces
    then last_length piece_length (total_size % piece_length)
    else piece_length

-- A none is a panic.
unfoldable pub checked_length : ℕ → ℕ → ℕ → ℕ → Option ℕ
unfolding length_panics length_of_piece
checked_length num_pieces piece_length total_size piece_index =
    if length_panics num_pieces piece_length piece_index
    then none
    else some (length_of_piece num_pieces piece_length total_size piece_index)

unfoldable pub piece_length : TorrentInfo → ℕ → Option ℕ
unfolding checked_length
piece_length t piece_index = checked_length t.num_pieces t.piece_length t.total_size piece_index

unfoldable pub piece_hash : TorrentInfo → ℕ → Option (List ℕ)
piece_hash t piece_index = get_elem? t.piece_hashes piece_index

-- The sum of the lengths of some files.
unfoldable pub total_length : List TorrentFile → ℕ
total_length [] = 0
total_length (f ∷ fs) = f.length + total_length fs

-- One round of the loop over the files: the file's part of the piece, if it has one.
abbrev pub span_of : ℕ → ℕ → ℕ → ℕ → TorrentFile → List FileSpan
span_of piece_start piece_end file_idx file_start f =
    if ltb piece_start (as_u64 (file_start + f.length)) && ltb file_start piece_end
    then record {
      file_index = file_idx;
      file_offset = max piece_start file_start - file_start;
      length = min piece_end (as_u64 (file_start + f.length)) - max piece_start file_start;
    }
      ∷ []
    else []

-- `for (file_idx, file) in self.files.iter().enumerate()`, from `file_idx` on.
unfoldable pub file_spans : ℕ → ℕ → List TorrentFile → ℕ → List TorrentFile → List FileSpan
file_spans piece_start piece_end files file_idx [] = []
file_spans piece_start piece_end files file_idx (f ∷ fs) =
    span_of piece_start piece_end file_idx (as_u64 (total_length (take file_idx files))) f
    ++ file_spans piece_start piece_end files (suc file_idx) fs

-- The outer none is the panic of `piece_length`.
unfoldable pub get_piece_info : TorrentInfo → ℕ → Option (Option PieceInfo)
get_piece_info t piece_index =
    if leb t.num_pieces piece_index then some none else elim (piece_length t piece_index) [
      | none ↦ none
      | some len ↦ elim (piece_hash t piece_index) [
        | none ↦ some none
        | some hash ↦
            let piece_start = as_u64 (piece_index * t.piece_length) in
            some (
              some (record {
                index = piece_index;
                length = len;
                hash = hash;
                file_spans = file_spans piece_start (as_u64 (piece_start + len)) t.files 0 t.files;
              }))
      ]
    ]

unfoldable pub blocks_per_piece : TorrentInfo → ℕ → ℕ
blocks_per_piece t block_size = as_u64 (t.piece_length + block_size - 1) / block_size

unfoldable pub all_tracker_urls : List (List String) → List String
all_tracker_urls [] = []
all_tracker_urls (tier ∷ tiers) = tier ++ all_tracker_urls tiers

unfoldable pub contains_piece : TorrentFile → ℕ → Bool
contains_piece f piece_index = leb f.start_piece piece_index && leb piece_index f.end_piece
