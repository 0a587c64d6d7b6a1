-- ===== src/Client/Tests.antt =====
-- A start of the client and a round of its loop, and the theorem there.
use iron_peer_417project_pri.Base.{◌≡◌, refl, List, [], ◌∷◌, none, some, true, false, replicate}
use iron_peer_417project_pri.Paths.{FilePath}
use iron_peer_417project_pri.Structs.Peer.{Peer, new_peer, v4, same_addr}
use iron_peer_417project_pri.Structs.TorrentInfo.{
  checked_length, length_panics, TorrentInfo, length_of_piece,
}
use iron_peer_417project_pri.Storage.Disk.{Disk}
use iron_peer_417project_pri.Storage.Files.{
  panics, new_file_manager, verify_piece, read_piece, read_files, read_file, get_piece_length,
}
use iron_peer_417project_pri.Protocol.Messages.{id, payload_len}
use iron_peer_417project_pri.Protocol.Codec.{encode}
use iron_peer_417project_pri.Protocol.Stream.{would_block, read}
use iron_peer_417project_pri.Protocol.Decoder.{read_message, fill_prefix}
use iron_peer_417project_pri.Peer.Connection.{
  PeerConnection, from_stream, send_message, write_all, next_message,
}
use iron_peer_417project_pri.Download.Pieces.{missing, new, is_complete, get_bitfield, fill_bits}
use iron_peer_417project_pri.Download.Existing.{is_ok_true, verify_existing_pieces, verify_from}
use iron_peer_417project_pri.Download.Swarm.{
  DownloadManager, new_download_manager, new_active_peer, add_peer, is_endgame, piece_availability,
  count_pieces,
}
use iron_peer_417project_pri.Download.Swarm.Messages.{on_answer, read_step}
use iron_peer_417project_pri.Download.Swarm.Requests.{request_step}
use iron_peer_417project_pri.Download.Swarm.Tick.{
  choke_step, interest_step, then_request, visit, visit_all, remove_peers, broadcast_all, tick,
}
use iron_peer_417project_pri.Client.{
  Client, running, start_client, new_client, already_connected, accept, accept_all, spawn_more,
  announce_completion, loop_round,
}
use iron_peer_417project_pri.Client.Rounds.{IsWell, at_start, next}
use iron_peer_417project_pri.Client.Started.{Runs-start_client}

abbrev output_dir : FilePath
output_dir = record { is_absolute = false; parts = "downloads" ∷ [] }

abbrev torrent : TorrentInfo
torrent = record {
  info_hash = replicate 20 0;
  name = "small";
  total_size = 4;
  piece_length = 4;
  num_pieces = 1;
  piece_hashes = replicate 20 1 ∷ [];
  files =
      record {
        path = record { is_absolute = false; parts = "small" ∷ [] };
        length = 4;
        start_piece = 0;
        end_piece = 0;
        piece_offset_start = 0;
        piece_offset_end = 3;
        md5sum = none;
      }
      ∷ [];
  trackers = [];
  is_private = false;
  creation_date = none;
  created_by = none;
  comment = none;
}

abbrev nothing : Disk
nothing = record { content = λ q. none; refuses = λ q. false }

abbrev localhost : Peer
localhost = new_peer (v4 (127 ∷ 0 ∷ 0 ∷ 1 ∷ [])) 6881

abbrev manager : DownloadManager
manager = record {
  peers = [];
  piece_manager = record {
    piece_status = missing ∷ [];
    pieces_complete = 0;
    total_pieces = 1;
    downloading_pieces = [];
    piece_length = 4;
    last_piece_length = 4;
  };
  peer_id = replicate 20 9;
  info_hash = replicate 20 0;
  piece_hashes = replicate 20 1 ∷ [];
  unchoked_peers = 0;
}

abbrev started : Client
started = record {
  all_peers = localhost ∷ [];
  peer_index = 1;
  attempts = localhost ∷ [];
  download_manager = manager;
  disk = nothing;
  announced_completed = false;
  completion_announces = [];
}

started_lem :
    start_client (λ bytes. bytes) output_dir torrent (replicate 20 9) nothing (localhost ∷ [])
    ≡ running started
unfolding start_client new_download_manager new new_file_manager verify_existing_pieces verify_from
    verify_piece read_piece read_files read_file get_piece_length new_client is_ok_true
    length_of_piece checked_length length_panics panics
started_lem = refl

-- Two connections to one address.
abbrev arrived : List PeerConnection
arrived =
    from_stream (would_block ∷ []) [] localhost ∷ from_stream (would_block ∷ []) [] localhost ∷ []

-- Only the first is added; it is sent the bitfield, and then that we are interested.
abbrev after_round : Client
after_round = record started {
  download_manager = record manager {
    peers =
        record (new_active_peer (from_stream [] [] localhost) 1) {
          connection = record (from_stream [] [] localhost) {
            written = 0 ∷ 0 ∷ 0 ∷ 2 ∷ 5 ∷ 0 ∷ 0 ∷ 0 ∷ 0 ∷ 1 ∷ 2 ∷ [];
          };
          am_interested = true;
        }
        ∷ [];
  };
}

round_lem :
    loop_round (λ bytes. bytes) (new_file_manager output_dir torrent) [] arrived started
    ≡ some after_round
unfolding loop_round accept_all accept already_connected same_addr add_peer get_bitfield fill_bits
    send_message write_all encode id payload_len new_active_peer from_stream spawn_more
    announce_completion is_complete tick is_endgame piece_availability count_pieces visit_all visit
    read_step on_answer next_message read_message fill_prefix read choke_step interest_step
    then_request request_step remove_peers broadcast_all new_peer
round_lem = refl

Runs-start_client_example : IsWell [] after_round
Runs-start_client_example =
    Runs-start_client [] (λ bytes. bytes) output_dir torrent (replicate 20 9) nothing
      (localhost ∷ []) started after_round started_lem (next arrived (at_start started) round_lem)
