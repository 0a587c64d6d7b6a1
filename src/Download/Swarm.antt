-- ===== src/Download/Swarm.antt =====
-- src/download/manager.rs: `ActivePeer` and `DownloadManager`.
pub mod Messages
pub mod Requests
pub mod Tick
pub mod Steps
pub mod Asking
pub mod Starting
pub mod Visits
pub mod Removal
pub mod Healthy
pub mod Progress
pub mod Failures
mod Tests
use iron_peer_417project_pri.Base.{
  ℕ, zero, suc, ◌+◌, ◌-◌, ◌^◌, List, [], ◌∷◌, ◌++◌, Option, none, some, Bool, true, false, ◌&&◌,
  ltb, if◌then◌else◌, length, replicate, min,
}
use iron_peer_417project_pri.Structs.TorrentInfo.{TorrentInfo}
use iron_peer_417project_pri.Storage.Disk.{Disk}
use iron_peer_417project_pri.Protocol.Messages.{Message, bitfield}
use iron_peer_417project_pri.Peer.Connection.{PeerConnection, send_message}
use iron_peer_417project_pri.Download.Pieces.{
  PieceStatus, PieceManager, new, get_bitfield, is_missing,
}

pub record ActivePeer : Type 0 where
  pub connection : PeerConnection
  pub peer_choking : Bool
  pub peer_interested : Bool
  pub am_choking : Bool
  pub am_interested : Bool
  pub have_pieces : List Bool
  pub inflight_requests : ℕ
  pub requested_blocks : List (ℕ × ℕ)

unfoldable pub new_active_peer : PeerConnection → ℕ → ActivePeer
new_active_peer connection num_pieces = record {
  connection = connection;
  peer_choking = true;
  peer_interested = false;
  am_choking = true;
  am_interested = false;
  have_pieces = replicate num_pieces false;
  inflight_requests = 0;
  requested_blocks = [];
}

pub record DownloadManager : Type 0 where
  pub peers : List ActivePeer
  pub piece_manager : PieceManager
  pub peer_id : List ℕ
  pub info_hash : List ℕ
  pub piece_hashes : List (List ℕ)
  pub unchoked_peers : ℕ

-- `PieceManager::new` panics on pieces of no bytes.
unfoldable pub new_download_manager : TorrentInfo → List ℕ → Option DownloadManager
new_download_manager t peer_id = elim (new t.num_pieces t.piece_length t.total_size) [
  | none ↦ none
  | some piece_manager ↦ some (record {
    peers = [];
    piece_manager = piece_manager;
    peer_id = peer_id;
    info_hash = t.info_hash;
    piece_hashes = t.piece_hashes;
    unchoked_peers = 0;
  })
]

-- A peer that cannot be sent the bitfield is not added; `get_bitfield` may panic.
unfoldable pub add_peer : DownloadManager → PeerConnection → Option DownloadManager
add_peer dm connection = elim (get_bitfield dm.piece_manager) [
  | none ↦ none
  | some bits ↦
      let (sent, c) = send_message (bitfield bits) connection in
      some (
        if sent
        then record dm {
          peers = dm.peers ++ (new_active_peer c (length dm.piece_manager.piece_status) ∷ []);
        }
        else dm)
]

-- What the loop of `tick` over the peers shares: the fields of the manager that it changes, the
-- disk, `peers_to_remove` and `completed_pieces`.
pub record Shared : Type 0 where
  pub piece_manager : PieceManager
  pub disk : Disk
  pub unchoked_peers : ℕ
  pub peers_to_remove : List ℕ
  pub completed_pieces : List ℕ

-- `piece_status.iter().all(|s| *s != PieceStatus::Missing)`
unfoldable pub is_endgame : List PieceStatus → Bool
is_endgame [] = true
is_endgame (s ∷ ss) = let rest = is_endgame ss in if is_missing s then false else rest

-- The pieces of one peer counted in; `saturating_add` on a u16.
unfoldable pub count_pieces : List Bool → List ℕ → List ℕ
count_pieces [] availability = availability
count_pieces (has ∷ have_pieces) [] = []
count_pieces (has ∷ have_pieces) (n ∷ availability) =
    (if has then min (n + 1) (2 ^ 16 - 1) else n) ∷ count_pieces have_pieces availability

unfoldable pub piece_availability : List ActivePeer → List ℕ → List ℕ
piece_availability [] availability = availability
piece_availability (p ∷ ps) availability =
    piece_availability ps (count_pieces p.have_pieces availability)
