-- ===== src/Download/Swarm/Failures.antt =====
-- Where `tick` panics: a peer that is put twice on the list of those to remove.
use iron_peer_417project_pri.Base.{
  ℕ, ◌≡◌, refl, List, [], ◌∷◌, none, some, Bool, false, err, replicate,
}
use iron_peer_417project_pri.Storage.Disk.{Disk}
use iron_peer_417project_pri.Storage.Files.{FileManager}
use iron_peer_417project_pri.Protocol.Messages.{interested}
use iron_peer_417project_pri.Protocol.Codec.{DecodeError}
use iron_peer_417project_pri.Peer.Connection.{send_message, next_message}
use iron_peer_417project_pri.Download.Pieces.{is_complete}
use iron_peer_417project_pri.Download.Swarm.{
  ActivePeer, DownloadManager, Shared, is_endgame, piece_availability,
}
use iron_peer_417project_pri.Download.Swarm.Messages.{drop_later, on_answer, read_step}
use iron_peer_417project_pri.Download.Swarm.Tick.{
  choke_step, interest_step, then_request, visit, visit_all, remove_peer, remove_peers, tick,
}

-- A peer whose connection is dead before it was told of our interest.
pub record IsDead (p : ActivePeer) : Type 0 where
  pub error : DecodeError
  pub fails : (next_message p.connection).0 ≡ err error
  pub deaf : (send_message interested (next_message p.connection).1).0 ≡ false
  pub untold : p.am_interested ≡ false
  pub uninterested : p.peer_interested ≡ false

module _ (sha1 : List ℕ → List ℕ) (m : FileManager) (piece_hashes : List (List ℕ)) where
  visit-IsDead :
      (endgame : Bool) (availability : List ℕ) (i : ℕ) (p : ActivePeer) (s : Shared)
      → IsDead p
      → is_complete s.piece_manager ≡ false
      → (p' : ActivePeer) × (visit sha1 m piece_hashes endgame availability i p s
          ≡ some (p', drop_later i (drop_later i s)))
  unfolding visit read_step on_answer choke_step interest_step then_request
  visit-IsDead endgame availability i p s dead more = (
    record p { connection = (send_message interested (next_message p.connection).1).1 },
    rw
        (
          dead.fails, dead.uninterested, dead.untold, more, dead.deaf, visit, read_step, on_answer,
          choke_step, interest_step,
        )
        refl,
  )

-- A tick panics when the only peer is such a one and the download is not complete: its index is
-- pushed for the failed read and for the failed send, so that `remove` is called twice.
pub tick_panics :
    (sha1 : List ℕ → List ℕ) (m : FileManager) (dm : DownloadManager) (d : Disk) (p : ActivePeer)
    → dm.peers ≡ p ∷ []
    → IsDead p
    → is_complete dm.piece_manager ≡ false
    → tick sha1 m dm d ≡ none
unfolding tick visit_all remove_peers remove_peer
tick_panics sha1 m dm d p alone dead more =
    let (p', e) =
      visit-IsDead sha1 m dm.piece_hashes (is_endgame dm.piece_manager.piece_status)
        (piece_availability (p ∷ []) (replicate dm.piece_manager.total_pieces 0)) 0 p (begin) dead
        more in
    rw (alone, tick, e) refl
  where
    begin : Shared
    begin = record {
      piece_manager = dm.piece_manager;
      disk = d;
      unchoked_peers = dm.unchoked_peers;
      peers_to_remove = [];
      completed_pieces = [];
    }
