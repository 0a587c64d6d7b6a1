-- ===== src/Client.antt =====
-- src/main.rs: the loop of the client.
-- Threads are the environment: `attempts` are the peers for which a thread was spawned, and a round
-- is given the connections that it finds on the channel, in order. The log is left out.
pub mod Addresses
pub mod Connected
pub mod Rounds
pub mod Started
mod Tests
use Prim.Native.String.{String}
use text.Mathlib.Text.{starts_with}
use iron_peer_417project_pri.Base.{
  ℕ, ◌+◌, ◌-◌, ◌*◌, List, [], ◌∷◌, ◌++◌, Option, none, some, Bool, true, false, not, ◌&&◌, ◌||◌,
  ◌==◌, ltb, leb, if◌then◌else◌, length, take, drop, min, same_bytes,
}
use iron_peer_417project_pri.Base.Panic.{◌>>=◌}
use iron_peer_417project_pri.Structs.Peer.{IpAddr, v4, v6, SocketAddr, Peer, same_addr}
use iron_peer_417project_pri.Structs.Tracker.{TrackerResponse, parse_peers}
use iron_peer_417project_pri.Storage.Disk.{Disk}
use iron_peer_417project_pri.Storage.Files.{FileManager, new_file_manager}
use iron_peer_417project_pri.Paths.{FilePath}
use iron_peer_417project_pri.Structs.TorrentInfo.{TorrentInfo}
use iron_peer_417project_pri.Download.Existing.{verify_existing_pieces}
use iron_peer_417project_pri.Peer.Connection.{PeerConnection}
use iron_peer_417project_pri.Download.Pieces.{is_complete}
use iron_peer_417project_pri.Download.Swarm.{
  ActivePeer, DownloadManager, new_download_manager, add_peer,
}
use iron_peer_417project_pri.Download.Swarm.Tick.{tick}

abbrev pub target_peer_count : ℕ
target_peer_count = 50

-- The announces of the start. `udp` is what the UDP client answers for a tracker, `http` the
-- `TrackerClient`; both change the state of the network, and a none is an error. `parse_ip` is
-- `std`'s.
module _ {W : Type 0} (udp : String → W → Option (List Peer) × W)
    (http : String → W → Option TrackerResponse × W) (parse_ip : String → Option IpAddr) where
  -- The peers that an HTTP tracker names.
  abbrev pub http_peers : Option TrackerResponse × W → Option (List Peer) × W
  http_peers (none, w) = (none, w)
  http_peers (some response, w) = (some (parse_peers parse_ip response), w)

  -- One tracker. Without a UDP client its kind of tracker is passed over.
  unfoldable pub ask_tracker : Bool → String → W → Option (List Peer) × W
  ask_tracker has_udp url w =
      if starts_with url "udp://"
      then (if has_udp then udp url w else (none, w))
      else http_peers (http url w)

  -- `for tracker_url in &tracker_urls`, until there are fifty peers.
  unfoldable pub find_peers : Bool → List String → List Peer → W → List Peer × W
  find_peers has_udp [] all_peers w = (all_peers, w)
  find_peers has_udp (url ∷ urls) all_peers w =
      let (answer, w') = ask_tracker has_udp url w in
      elim answer [
        | none ↦ find_peers has_udp urls all_peers w'
        | some new_peers ↦
            let later = find_peers has_udp urls (all_peers ++ new_peers) w' in
            if leb 50 (length (all_peers ++ new_peers)) then (all_peers ++ new_peers, w') else later
      ]

-- The variables of the loop.
pub record Client : Type 0 where
  pub all_peers : List Peer
  pub peer_index : ℕ
  pub attempts : List Peer
  pub download_manager : DownloadManager
  pub disk : Disk
  pub announced_completed : Bool
  pub completion_announces : List String

-- Before the loop: the first connection attempts.
unfoldable pub new_client : List Peer → DownloadManager → Disk → Client
new_client all_peers dm d = record {
  all_peers = all_peers;
  peer_index = min (target_peer_count * 2) (length all_peers);
  attempts = take (min (target_peer_count * 2) (length all_peers)) all_peers;
  download_manager = dm;
  disk = d;
  announced_completed = false;
  completion_announces = [];
}

-- `download_manager.peers.iter().any(|p| p.connection.peer().addr == peer_addr)`
unfoldable pub already_connected : SocketAddr → List ActivePeer → Bool
already_connected peer_addr [] = false
already_connected peer_addr (p ∷ ps) =
    same_addr p.connection.peer.addr peer_addr || already_connected peer_addr ps

-- What `main` does before the loop ends in.
pub data Start : Type 0 where
  panicked no_peers : Start
  running : Client → Start

abbrev start_with : List Peer → DownloadManager → Disk → Start
start_with [] dm d = no_peers
start_with (p ∷ ps) dm d = running (new_client (p ∷ ps) dm d)

-- From the torrent's data to the loop: the manager, the verification of what is on the disk, the
-- peers that `find_peers` got from the trackers, the first attempts.
unfoldable pub start_client :
    (List ℕ → List ℕ) → FilePath → TorrentInfo → List ℕ → Disk → List Peer → Start
start_client sha1 output_dir torrent_info peer_id d all_peers =
    elim (new_download_manager torrent_info peer_id) [
      | none ↦ panicked
      | some dm ↦
          elim (verify_existing_pieces sha1 (new_file_manager output_dir torrent_info)
            dm.piece_hashes d dm.piece_manager) [
              | none ↦ panicked
              | some (pm, n) ↦ start_with all_peers (record dm { piece_manager = pm }) d
            ]
    ]

-- 1. Check for new connections
unfoldable pub accept : PeerConnection → DownloadManager → Option DownloadManager
accept connection dm =
    if already_connected connection.peer.addr dm.peers then some dm else add_peer dm connection

unfoldable pub accept_all : List PeerConnection → DownloadManager → Option DownloadManager
accept_all [] dm = some dm
accept_all (c ∷ cs) dm = do dm' ← accept c dm; accept_all cs dm'

-- 2. Spawn more connection attempts if needed
unfoldable pub spawn_more : Client → Client
spawn_more c =
    let batch_size = min 5 (length c.all_peers - c.peer_index) in
    if ltb (length c.download_manager.peers) target_peer_count
      && ltb c.peer_index (length c.all_peers)
    then record c {
      peer_index = c.peer_index + batch_size;
      attempts = c.attempts ++ take batch_size (drop c.peer_index c.all_peers);
    }
    else c

-- The trackers that hear of the completion: those that are not asked over UDP.
unfoldable pub http_trackers : List String → List String
http_trackers [] = []
http_trackers (url ∷ urls) =
    if starts_with url "udp://" then http_trackers urls else url ∷ http_trackers urls

-- 4. Check completion and announce
unfoldable pub announce_completion : List String → Client → Client
announce_completion tracker_urls c =
    if is_complete c.download_manager.piece_manager && not c.announced_completed
    then record c {
      announced_completed = true;
      completion_announces = c.completion_announces ++ http_trackers tracker_urls;
    }
    else c

-- The body of the loop, with the connections that wait on the channel. It panics where one of its
-- parts does.
unfoldable pub loop_round :
    (List ℕ → List ℕ) → FileManager → List String → List PeerConnection → Client → Option Client
loop_round sha1 m tracker_urls arrived c = do
  dm ← accept_all arrived c.download_manager
  let spawned = spawn_more (record c { download_manager = dm })
  ticked ← tick sha1 m spawned.download_manager spawned.disk
  some (
      announce_completion tracker_urls
        (record spawned { download_manager = ticked.0; disk = ticked.1 }))
