-- ===== src/Structs/Tests.antt =====
-- Runs of the parsers of peers and of `get_piece_info`, and their theorems at concrete inputs.
use Prim.Native.String.{String}
use iron_peer_417project_pri.Structs.TorrentInfo.{
  TorrentFile, TorrentInfo, PieceInfo, total_length, file_spans, get_piece_info, piece_length,
  length_of_piece, checked_length, length_panics, piece_hash,
}
use iron_peer_417project_pri.Structs.Spans.{spans_length, get_piece_info_lem}
use iron_peer_417project_pri.Base.{ℕ, false, ◌≡◌, refl, [], ◌∷◌, ◌++◌, none, some, arith, replicate}
use iron_peer_417project_pri.Structs.Peer.{
  v4, v6, new_peer, from_compact, compact_peers, from_compact_bytes, push_some,
}
use iron_peer_417project_pri.Structs.Tracker.{
  TrackerResponse, compact, visit_seq, collect_peers, deserialize_peers, parse_peers,
}
use iron_peer_417project_pri.Structs.Compact.{
  Endpoint, peer_of, compact_all, from_compact_bytes-compact_all, parse_peers-from_compact_bytes,
}

abbrev localhost : Endpoint
localhost = record { a = 127; b = 0; c = 0; d = 1; port = 6881 }

from_compact-v6 :
    from_compact (replicate 16 1 ++ (26 ∷ 225 ∷ [])) ≡ some (new_peer (v6 (replicate 16 1)) 6881)
unfolding from_compact
from_compact-v6 = refl

from_compact_bytes-compact_all_example :
    from_compact_bytes (compact_all (localhost ∷ localhost ∷ []) ++ (1 ∷ 2 ∷ []))
    ≡ peer_of localhost ∷ peer_of localhost ∷ []
from_compact_bytes-compact_all_example =
    from_compact_bytes-compact_all (localhost ∷ localhost ∷ []) (1 ∷ 2 ∷ []) (omega arith)
      (omega arith, (omega arith, tt))

-- A response with one IPv6 peer.
abbrev one_v6 : TrackerResponse
one_v6 = record {
  warning_message = none;
  min_interval = none;
  interval = 1800;
  tracker_id = none;
  complete = none;
  incomplete = none;
  peers = compact (replicate 16 1 ++ (26 ∷ 225 ∷ []));
  failure_reason = none;
}

one_v6-peers :
    parse_peers (λ s. none) one_v6
    ≡ new_peer (v4 (1 ∷ 1 ∷ 1 ∷ 1 ∷ [])) 257
      ∷ new_peer (v4 (1 ∷ 1 ∷ 1 ∷ 1 ∷ [])) 257
      ∷ new_peer (v4 (1 ∷ 1 ∷ 1 ∷ 1 ∷ [])) 6881
      ∷ []
unfolding from_compact_bytes compact_peers push_some from_compact
one_v6-peers =
    parse_peers-from_compact_bytes (λ s. none) one_v6 (replicate 16 1 ++ (26 ∷ 225 ∷ [])) refl

parse_peers-from_compact_bytes_example :
    parse_peers (λ s. none) one_v6 ≡ from_compact_bytes (replicate 16 1 ++ (26 ∷ 225 ∷ []))
parse_peers-from_compact_bytes_example =
    parse_peers-from_compact_bytes (λ s. none) one_v6 (replicate 16 1 ++ (26 ∷ 225 ∷ [])) refl

abbrev file_of : String → ℕ → TorrentFile
file_of s n = record {
  path = record { is_absolute = false; parts = s ∷ [] };
  length = n;
  start_piece = 0;
  end_piece = 1;
  piece_offset_start = 0;
  piece_offset_end = 0;
  md5sum = none;
}

-- Three bytes in one file and five in another, in two pieces of four.
abbrev small_torrent : TorrentInfo
small_torrent = record {
  info_hash = replicate 20 0;
  name = "small";
  total_size = 8;
  piece_length = 4;
  num_pieces = 2;
  piece_hashes = replicate 2 (replicate 20 1);
  files = file_of "a" 3 ∷ file_of "b" 5 ∷ [];
  trackers = [];
  is_private = false;
  creation_date = none;
  created_by = none;
  comment = none;
}

abbrev first_piece : PieceInfo
first_piece = record {
  index = 0;
  length = 4;
  hash = replicate 20 1;
  file_spans =
      record { file_index = 0; file_offset = 0; length = 3 }
      ∷ record { file_index = 1; file_offset = 0; length = 1 }
      ∷ [];
}

get_piece_info-first : get_piece_info small_torrent 0 ≡ some (some first_piece)
unfolding get_piece_info piece_hash piece_length checked_length length_panics length_of_piece
    file_spans total_length
get_piece_info-first = refl

get_piece_info_lem_example : (first_piece.length ≡ 4) × (spans_length first_piece.file_spans ≡ 4)
unfolding piece_length checked_length length_panics length_of_piece total_length
get_piece_info_lem_example =
    get_piece_info_lem small_torrent 0 4 first_piece (omega arith) refl (omega arith)
      get_piece_info-first

-- One element that is no peer makes the list fail.
broken_list :
    deserialize_peers
      (visit_seq (some (record { peer_id = none; ip = "10.0.0.1"; port = 1 }) ∷ none ∷ []))
    ≡ none
unfolding deserialize_peers collect_peers
broken_list = refl
