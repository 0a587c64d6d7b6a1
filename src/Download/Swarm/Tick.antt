-- ===== src/Download/Swarm/Tick.antt =====
-- src/download/manager.rs: `DownloadManager::tick`.
use iron_peer_417project_pri.Base.{
  ℕ, zero, suc, ◌+◌, List, [], ◌∷◌, Option, none, some, Bool, true, false, not, ◌&&◌, ltb,
  if◌then◌else◌, replicate,
}
use iron_peer_417project_pri.Base.Panic.{◌>>=◌}
use iron_peer_417project_pri.Storage.Disk.{Disk}
use iron_peer_417project_pri.Storage.Files.{FileManager}
use iron_peer_417project_pri.Protocol.Messages.{unchoke, interested, have}
use iron_peer_417project_pri.Peer.Connection.{send_message}
use iron_peer_417project_pri.Download.Pieces.{is_complete}
use iron_peer_417project_pri.Download.Swarm.{
  ActivePeer, DownloadManager, Shared, is_endgame, piece_availability,
}
use iron_peer_417project_pri.Download.Swarm.Messages.{drop_later, read_step}
use iron_peer_417project_pri.Download.Swarm.Requests.{request_step}

-- 2. Manage choking
unfoldable pub choke_step : ActivePeer → Shared → ActivePeer × Shared
choke_step p s =
    let (sent, c) = send_message unchoke p.connection in
    if p.peer_interested && p.am_choking && ltb s.unchoked_peers 5
    then (if sent
        then (
          record p { connection = c; am_choking = false },
          record s { unchoked_peers = s.unchoked_peers + 1 },
        )
        else (record p { connection = c }, s))
    else (p, s)

-- 3. Manage interest. The Boolean is false where the loop goes on to the next peer.
unfoldable pub interest_step : ℕ → ActivePeer → Shared → Bool × ActivePeer × Shared
interest_step i p s =
    let (sent, c) = send_message interested p.connection in
    if not p.am_interested && not (is_complete s.piece_manager)
    then (if sent
        then (true, record p { connection = c; am_interested = true }, s)
        else (false, record p { connection = c }, drop_later i s))
    else (true, p, s)

-- Requests, for a peer that is not skipped.
unfoldable pub then_request :
    Bool → List ℕ → Bool × ActivePeer × Shared → Option (ActivePeer × Shared)
then_request endgame availability (true, p, s) = do
  r ← request_step endgame availability p s.piece_manager
  some (r.0, record s { piece_manager = r.1 })
then_request endgame availability (false, p, s) = some (p, s)

module _ (sha1 : List ℕ → List ℕ) (m : FileManager) (piece_hashes : List (List ℕ)) where
  -- The body of `for i in 0..self.peers.len()`.
  unfoldable pub visit : Bool → List ℕ → ℕ → ActivePeer → Shared → Option (ActivePeer × Shared)
  visit endgame availability i p s = do
    a ← read_step sha1 m piece_hashes i p s
    let b = choke_step a.0 a.1
    then_request endgame availability (interest_step i b.0 b.1)

  unfoldable pub visit_all :
      Bool → List ℕ → ℕ → List ActivePeer → Shared → Option (List ActivePeer × Shared)
  visit_all endgame availability i [] s = some ([], s)
  visit_all endgame availability i (p ∷ ps) s = do
    a ← visit endgame availability i p s
    b ← visit_all endgame availability (suc i) ps a.1
    some (a.0 ∷ b.0, b.1)

-- `Vec::remove`, which panics out of range.
unfoldable pub remove_peer : ℕ → List ActivePeer → Option (List ActivePeer)
remove_peer i [] = none
remove_peer zero (p ∷ ps) = some ps
remove_peer (suc i) (p ∷ ps) = do rest ← remove_peer i ps; some (p ∷ rest)

-- `for i in peers_to_remove.into_iter().rev()`: what was pushed last goes first.
unfoldable pub remove_peers : List ℕ → List ActivePeer → Option (List ActivePeer)
remove_peers [] ps = some ps
remove_peers (i ∷ is) ps = do rest ← remove_peers is ps; remove_peer i rest

unfoldable pub broadcast_have : ℕ → List ActivePeer → List ActivePeer
broadcast_have piece_index [] = []
broadcast_have piece_index (p ∷ ps) =
    record p { connection = (send_message (have piece_index) p.connection).1 }
    ∷ broadcast_have piece_index ps

unfoldable pub broadcast_all : List ℕ → List ActivePeer → List ActivePeer
broadcast_all [] ps = ps
broadcast_all (i ∷ is) ps = broadcast_all is (broadcast_have i ps)

-- The manager and the disk behind the call, or none where it panics.
unfoldable pub tick :
    (List ℕ → List ℕ) → FileManager → DownloadManager → Disk → Option (DownloadManager × Disk)
tick sha1 m dm d = do
  let endgame = is_endgame dm.piece_manager.piece_status
  let availability = piece_availability dm.peers (replicate dm.piece_manager.total_pieces 0)
  let shared : Shared = record {
    piece_manager = dm.piece_manager;
    disk = d;
    unchoked_peers = dm.unchoked_peers;
    peers_to_remove = [];
    completed_pieces = [];
  }
  a ← visit_all sha1 m dm.piece_hashes endgame availability 0 dm.peers shared
  kept ← remove_peers a.1.peers_to_remove a.0
  some (
    record dm {
      peers = broadcast_all a.1.completed_pieces kept;
      piece_manager = a.1.piece_manager;
      unchoked_peers = a.1.unchoked_peers;
    },
    a.1.disk,
  )
