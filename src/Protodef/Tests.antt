-- ===== src/Protodef/Tests.antt =====
-- A torrent file of two files, and what is made of it.
use Prim.Native.String.{String}
use iron_peer_417project_pri.Base.{
  ◌↔◌, inr, ◌≡◌, refl, [], ◌∷◌, none, some, true, false, replicate, arith,
}
use iron_peer_417project_pri.Paths.{FilePath, join}
use iron_peer_417project_pri.Structs.TorrentInfo.{TorrentInfo, total_length}
use iron_peer_417project_pri.Protodef.MetaInfo.{
  InfoDict, MetaInfo, tracker_tiers, is_one, hash_chunks, push_all, torrent_file, place_files,
  files_of, compute_info_hash, to_torrent_info,
}
use iron_peer_417project_pri.Protodef.MetaInfo.Failures.{Panics, to_torrent_info_iff}
use iron_peer_417project_pri.Protodef.MetaInfo.Layout.{Describes, to_torrent_info-Describes}

-- Names have no separators here.
abbrev path_of : String → FilePath
path_of s = record { is_absolute = false; parts = s ∷ [] }

abbrev info : InfoDict
info = record {
  name = "small";
  piece_length = 4;
  pieces = replicate 40 1;
  private = some 1;
  length = none;
  md5sum = none;
  files = some (
      record { length = 3; md5sum = none; path = "a" ∷ [] }
      ∷ record { length = 5; md5sum = none; path = "b" ∷ "c" ∷ [] }
      ∷ []);
}

abbrev meta_info : MetaInfo
meta_info = record {
  announce = "udp://t";
  announce_list = none;
  creation_date = none;
  comment = none;
  created_by = none;
  encoding = none;
  info = info;
}

abbrev torrent : TorrentInfo
torrent = record {
  info_hash = replicate 20 7;
  name = "small";
  total_size = 8;
  piece_length = 4;
  num_pieces = 2;
  piece_hashes = replicate 20 1 ∷ replicate 20 1 ∷ [];
  files =
      record {
        path = record { is_absolute = false; parts = "small" ∷ "a" ∷ [] };
        length = 3;
        start_piece = 0;
        end_piece = 0;
        piece_offset_start = 0;
        piece_offset_end = 2;
        md5sum = none;
      }
      ∷ record {
        path = record { is_absolute = false; parts = "small" ∷ "b" ∷ "c" ∷ [] };
        length = 5;
        start_piece = 0;
        end_piece = 1;
        piece_offset_start = 3;
        piece_offset_end = 3;
        md5sum = none;
      }
      ∷ [];
  trackers = ("udp://t" ∷ []) ∷ [];
  is_private = true;
  creation_date = none;
  created_by = none;
  comment = none;
}

torrent_lem :
    to_torrent_info (λ i. some []) (λ bytes. replicate 20 7) path_of meta_info ≡ some torrent
unfolding to_torrent_info compute_info_hash files_of place_files torrent_file push_all join
    hash_chunks tracker_tiers is_one total_length
torrent_lem = refl

to_torrent_info-Describes_example :
    (t : TorrentInfo) × (to_torrent_info (λ i. some []) (λ bytes. replicate 20 7) path_of meta_info
      ≡ some t)
    × Describes info (replicate 20 7) t
to_torrent_info-Describes_example =
    to_torrent_info-Describes (λ i. some []) (λ bytes. replicate 20 7) path_of meta_info [] 2 refl
      (omega arith) (omega arith) (omega arith, (omega arith, tt)) (omega arith)

-- Its digests are 39 bytes.
abbrev cut_short : MetaInfo
cut_short = record meta_info { info = record info { pieces = replicate 39 1 } }

to_torrent_info_iff_example :
    (to_torrent_info (λ i. some []) (λ bytes. replicate 20 7) path_of cut_short ≡ none)
    ↔ Panics (λ i. some []) cut_short.info
to_torrent_info_iff_example =
    to_torrent_info_iff (λ i. some []) (λ bytes. replicate 20 7) path_of cut_short

-- It panics.
cut_short_panics : to_torrent_info (λ i. some []) (λ bytes. replicate 20 7) path_of cut_short ≡ none
cut_short_panics =
    (to_torrent_info_iff (λ i. some []) (λ bytes. replicate 20 7) path_of cut_short).1
      (inr (inr (λ e. cc)))
