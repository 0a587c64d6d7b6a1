-- ===== src/Download/Swarm/Tests.antt =====
-- Ticks at concrete managers, and the theorems there.
use iron_peer_417project_pri.Base.{
  ℕ, ◌≤◌, ◌≡◌, refl, List, [], ◌∷◌, none, some, Bool, true, false, arith, replicate,
}
use iron_peer_417project_pri.Structs.Peer.{v4}
use iron_peer_417project_pri.Storage.Disk.{Disk}
use iron_peer_417project_pri.Storage.Files.{FileManager}
use iron_peer_417project_pri.Protocol.Messages.{id, payload_len}
use iron_peer_417project_pri.Protocol.Codec.{io_error, encode}
use iron_peer_417project_pri.Protocol.Stream.{Event, would_block, failed, read}
use iron_peer_417project_pri.Protocol.Decoder.{read_message, fill_prefix}
use iron_peer_417project_pri.Peer.Connection.{
  PeerConnection, Write, failed_after, write_all, send_message, next_message,
}
use iron_peer_417project_pri.Download.Blocks.{BlockInfo, PieceState, cut_blocks, new_piece_state}
use iron_peer_417project_pri.Download.Pieces.{
  missing, downloading, PieceManager, new, is_complete, candidates, insert_by, sort_by_key,
  get_next_needed_piece, start_from, start_downloading,
}
use iron_peer_417project_pri.Download.Pieces.Invariant.{new-IsValid}
use iron_peer_417project_pri.Download.Received.Invariant.{IsSound}
use iron_peer_417project_pri.Download.Swarm.{
  ActivePeer, DownloadManager, is_endgame, count_pieces, piece_availability,
}
use iron_peer_417project_pri.Download.Swarm.Messages.{on_answer, read_step}
use iron_peer_417project_pri.Download.Swarm.Requests.{
  ask, ask_states, ask_first_block, ask_first, ask_new, request_step,
}
use iron_peer_417project_pri.Download.Swarm.Tick.{
  choke_step, interest_step, then_request, visit, visit_all, remove_peers, broadcast_all, tick,
}
use iron_peer_417project_pri.Download.Swarm.Asking.{Asks, ask_states-Asks}
use iron_peer_417project_pri.Download.Swarm.Visits.{count_unchoked}
use iron_peer_417project_pri.Download.Swarm.Healthy.{
  IsHealthy, tick-IsHealthy, tick_total, tick_full,
}
use iron_peer_417project_pri.Download.Swarm.Progress.{Sends, request_step_progress}
use iron_peer_417project_pri.Download.Swarm.Failures.{IsDead, tick_panics}

abbrev one_file : FileManager
one_file = record {
  output_dir = record { is_absolute = false; parts = [] };
  files = [];
  piece_length = 4;
  total_size = 4;
  total_pieces = 1;
}

abbrev nothing : Disk
nothing = record { content = λ q. none; refuses = λ q. false }

abbrev line : List Event → List Write → PeerConnection
line reader writes = record {
  peer = record { addr = record { ip = v4 (127 ∷ 0 ∷ 0 ∷ 1 ∷ []); port = 6881 } };
  buffer = [];
  reader = reader;
  writes = writes;
  written = [];
}

-- One piece of four bytes.
abbrev fresh : PieceManager
fresh = record {
  piece_status = missing ∷ [];
  pieces_complete = 0;
  total_pieces = 1;
  downloading_pieces = [];
  piece_length = 4;
  last_piece_length = 4;
}

fresh-IsSound : IsSound fresh
unfolding new
fresh-IsSound = record { valid = new-IsValid 1 4 4 refl; counts = tt }

-- A peer that has the piece and has unchoked us.
abbrev open_peer : ActivePeer
open_peer = record {
  connection = line (would_block ∷ []) [];
  peer_choking = false;
  peer_interested = false;
  am_choking = true;
  am_interested = true;
  have_pieces = true ∷ [];
  inflight_requests = 0;
  requested_blocks = [];
}

abbrev manager : ℕ → List ActivePeer → DownloadManager
manager n ps = record {
  peers = ps;
  piece_manager = fresh;
  peer_id = replicate 20 9;
  info_hash = replicate 20 7;
  piece_hashes = replicate 20 1 ∷ [];
  unchoked_peers = n;
}

abbrev asked_peer : ActivePeer
asked_peer = record open_peer {
  connection = record (line [] []) {
    written = 0 ∷ 0 ∷ 0 ∷ 13 ∷ 6 ∷ 0 ∷ 0 ∷ 0 ∷ 0 ∷ 0 ∷ 0 ∷ 0 ∷ 0 ∷ 0 ∷ 0 ∷ 0 ∷ 4 ∷ [];
  };
  inflight_requests = 1;
  requested_blocks = (0, 0) ∷ [];
}

abbrev first_block : Bool → BlockInfo
first_block b = record { index = 0; begin = 0; length = 4; downloaded = false; requested = b }

abbrev under_way : Bool → PieceState
under_way b = record { index = 0; blocks = first_block b ∷ []; downloaded_count = 0 }

abbrev after : ℕ → DownloadManager
after n = record (manager n (asked_peer ∷ [])) {
  piece_manager = record fresh {
    piece_status = downloading ∷ [];
    downloading_pieces = under_way true ∷ [];
  };
}

-- The peer is asked for the block of the piece, which is started for it.
tick_run :
    (n : ℕ)
    → tick (λ bytes. bytes) one_file (manager n (open_peer ∷ [])) nothing ≡ some (after n, nothing)
unfolding tick is_endgame piece_availability count_pieces visit_all visit read_step on_answer
    next_message read_message fill_prefix read choke_step interest_step then_request request_step
    ask_states ask_new get_next_needed_piece sort_by_key insert_by candidates start_downloading
    start_from new_piece_state cut_blocks ask_first ask_first_block ask send_message write_all
    encode id payload_len is_complete remove_peers broadcast_all
tick_run n = refl

tick-IsHealthy_example : IsHealthy (after 0)
tick-IsHealthy_example =
    tick-IsHealthy (λ bytes. bytes) one_file (manager 0 (open_peer ∷ [])) nothing (after 0) nothing
      (record {
        sound = fresh-IsSound;
        bounded = omega arith;
        few = omega arith;
        unchoked = omega arith;
      })
      (tick_run 0)

tick_total_example :
    (dm' : DownloadManager) × (d' : Disk) × (tick
        (λ bytes. bytes)
        one_file
        (manager 0 (open_peer ∷ []))
        nothing
      ≡ some (dm', d'))
    × IsHealthy dm'
tick_total_example =
    tick_total (λ bytes. bytes) one_file (manager 0 (open_peer ∷ [])) nothing
      (record { some_bytes = omega arith; in_memory = omega arith })
      (record {
        sound = fresh-IsSound;
        bounded = omega arith;
        few = omega arith;
        unchoked = omega arith;
      })
      (refl, tt)

-- Five slots are taken, though no peer is unchoked.
tick_full_example :
    ((after 5).unchoked_peers ≡ 5)
    × (count_unchoked (asked_peer ∷ []) ≤ count_unchoked (open_peer ∷ []))
tick_full_example =
    tick_full (λ bytes. bytes) one_file (manager 5 (open_peer ∷ [])) nothing (after 5) nothing
      fresh-IsSound (omega arith) (tick_run 5)

ask_states-Asks_example :
    Asks false (under_way false ∷ []) open_peer (ask_states false (under_way false ∷ []) open_peer)
ask_states-Asks_example = ask_states-Asks false (under_way false ∷ []) open_peer

request_step_progress_example :
    (p' : ActivePeer) × (pm' : PieceManager) × (request_step false (1 ∷ []) open_peer fresh
      ≡ some (p', pm'))
    × Sends open_peer p' pm'
request_step_progress_example =
    request_step_progress (1 ∷ []) open_peer fresh 0 fresh-IsSound (refl, refl) (omega arith)
      (omega arith) refl refl refl (omega arith)

-- A connection that fails at once.
abbrev dead_peer : ActivePeer
dead_peer = record open_peer {
  connection = line (failed ∷ []) (failed_after 0 ∷ []);
  am_interested = false;
}

dead_peer-IsDead : IsDead dead_peer
unfolding next_message read_message fill_prefix read send_message write_all
dead_peer-IsDead = record {
  error = io_error;
  fails = refl;
  deaf = refl;
  untold = refl;
  uninterested = refl;
}

tick_panics_example : tick (λ bytes. bytes) one_file (manager 0 (dead_peer ∷ [])) nothing ≡ none
unfolding is_complete
tick_panics_example =
    tick_panics (λ bytes. bytes) one_file (manager 0 (dead_peer ∷ [])) nothing dead_peer refl
      dead_peer-IsDead refl
