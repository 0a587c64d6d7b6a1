-- ===== src/Download/Swarm/Healthy.antt =====
-- The invariant of `DownloadManager`, and that a tick keeps it.
use iron_peer_417project_pri.Base.{
  ℕ, ◌+◌, ◌≤◌, ◌≡◌, refl, sym, ◌∙◌, ap, subst, inl, inr, List, [], some, some-injective,
  Option-cases, true, All, length, replicate, arith,
}
use iron_peer_417project_pri.Base.Panic.{◌>>=◌}
use iron_peer_417project_pri.Storage.Disk.{Disk}
use iron_peer_417project_pri.Storage.Files.Panics.{CanRead}
use iron_peer_417project_pri.Storage.Files.{FileManager}
use iron_peer_417project_pri.Download.Received.Invariant.{IsSound}
use iron_peer_417project_pri.Download.Swarm.{
  ActivePeer, DownloadManager, Shared, is_endgame, piece_availability,
}
use iron_peer_417project_pri.Download.Swarm.Tick.{remove_peers, broadcast_all, tick}
use iron_peer_417project_pri.Download.Swarm.Visits.{
  OrStops, count_unchoked, AreBounded, Rising, Tours, visit_all-Tours,
}
use iron_peer_417project_pri.Download.Swarm.Removal.{
  Left, remove_peers-Left, remove_peers_total, broadcast_all-Left,
}

-- The piece manager is sound, no peer has more than ten requests on their way, at most five peers
-- are counted as unchoked, and those that are unchoked are among them.
pub record IsHealthy (dm : DownloadManager) : Type 0 where
  pub sound : IsSound dm.piece_manager
  pub bounded : AreBounded dm.peers
  pub few : dm.unchoked_peers ≤ 5
  pub unchoked : count_unchoked dm.peers ≤ dm.unchoked_peers

-- What a tick starts the loop with, and what it makes of its end.
abbrev start : DownloadManager → Disk → Shared
start dm d = record {
  piece_manager = dm.piece_manager;
  disk = d;
  unchoked_peers = dm.unchoked_peers;
  peers_to_remove = [];
  completed_pieces = [];
}

abbrev finish : DownloadManager → Shared → List ActivePeer → DownloadManager
finish dm s kept = record dm {
  peers = broadcast_all s.completed_pieces kept;
  piece_manager = s.piece_manager;
  unchoked_peers = s.unchoked_peers;
}

module _ (sha1 : List ℕ → List ℕ) (m : FileManager) (dm : DownloadManager) (d : Disk)
    (sound : IsSound dm.piece_manager) where
  -- A tick is its loop, which ends, and then the removal.
  abbrev Toured : Type 0
  Toured =
      (ps : List ActivePeer) × (s : Shared) × Tours 0 dm.peers (start dm d) ps s
      × (tick sha1 m dm d
          ≡ (remove_peers s.peers_to_remove ps >>= λ kept. some (finish dm s kept, s.disk)))

  tick_lem : OrStops m (tick sha1 m dm d) Toured
  unfolding tick
  tick_lem =
      elim (visit_all-Tours sha1 m dm.piece_hashes (is_endgame dm.piece_manager.piece_status)
        (piece_availability dm.peers (replicate dm.piece_manager.total_pieces 0)) 0 dm.peers
        (start dm d) sound) [
          | inl stop ↦ inl (stop.0, rw (stop.1, tick) refl)
          | inr (ps, s, e, t) ↦ inr (ps, s, t, rw (e, tick) refl)
        ]

  tick_parts :
      (dm' : DownloadManager) (d' : Disk)
      → tick sha1 m dm d ≡ some (dm', d')
      → (ps : List ActivePeer) × (s : Shared) × (kept : List ActivePeer) × Tours 0 dm.peers
          (start dm d)
          ps
          s
        × Left ps kept
        × (finish dm s kept ≡ dm')
  tick_parts dm' d' h = elim tick_lem [
    | inl stop ↦ let bad = sym stop.1 ∙ h in absurd cc
    | inr (ps, s, t, e) ↦ elim (Option-cases (remove_peers s.peers_to_remove ps)) [
      | inl n ↦ let bad = sym h ∙ e in let worse = rw n at bad in absurd cc
      | inr r ↦
          let ends = sym e ∙ h in
          let same = some-injective _ _ (rw r.1 at ends) in
          (
            ps,
            s,
            r.0,
            t,
            remove_peers-Left s.peers_to_remove ps r.0 r.1,
            ap (λ (x : DownloadManager × Disk). x.0) same,
          )
    ]
  ]

finish-IsHealthy :
    (dm : DownloadManager) (d : Disk) (ps : List ActivePeer) (s : Shared) (kept : List ActivePeer)
    → IsHealthy dm
    → Tours 0 dm.peers (start dm d) ps s
    → Left ps kept
    → IsHealthy (finish dm s kept)
finish-IsHealthy dm d ps s kept h t (bounded, le) =
    let (bounded', le') = broadcast_all-Left s.completed_pieces kept in
    record {
      sound = t.sound;
      bounded = bounded' (bounded (t.bounded h.bounded));
      few = t.limit h.few;
      unchoked = omega (arith, t.counted, h.unchoked);
    }

-- A tick that does not panic keeps the manager's invariant: the piece manager's statuses, counter
-- and states agree, no peer has more than ten requests on their way, and at most five peers are
-- unchoked.
pub tick-IsHealthy :
    (sha1 : List ℕ → List ℕ) (m : FileManager) (dm : DownloadManager) (d : Disk)
    (dm' : DownloadManager) (d' : Disk)
    → IsHealthy dm
    → tick sha1 m dm d ≡ some (dm', d')
    → IsHealthy dm'
tick-IsHealthy sha1 m dm d dm' d' h e =
    let (ps, s, kept, t, left, same) = tick_parts sha1 m dm d h.sound dm' d' e in
    subst IsHealthy same (finish-IsHealthy dm d ps s kept h t left)

-- A tick ends, without a panic, when every peer was told of our interest in an earlier one, and the
-- pieces that can be read have at least a byte and at most `isize::MAX`.
pub tick_total :
    (sha1 : List ℕ → List ℕ) (m : FileManager) (dm : DownloadManager) (d : Disk)
    → CanRead m
    → IsHealthy dm
    → All (λ p. p.am_interested ≡ true) dm.peers
    → (dm' : DownloadManager) × (d' : Disk) × (tick sha1 m dm d ≡ some (dm', d')) × IsHealthy dm'
tick_total sha1 m dm d can h told = elim (tick_lem sha1 m dm d h.sound) [
  | inl stop ↦ absurd (stop.0 can)
  | inr (ps, s, t, e) ↦
      let (js, rem, rising) = t.removes told in
      let bound : 0 + length dm.peers ≡ length ps = omega (arith, t.as_many) in
      let (kept, r, l) =
        remove_peers_total 0 js ps (subst (λ (n : ℕ). Rising 0 n js) bound rising) in
      let all : remove_peers s.peers_to_remove ps ≡ some kept =
        ap (λ is. remove_peers is ps) rem ∙ r in
      (
        finish dm s kept,
        s.disk,
        e ∙ rw all refl,
        finish-IsHealthy dm d ps s kept h t (remove_peers-Left js ps kept r),
      )
]

-- When five peers are counted as unchoked, a tick unchokes none, also if none of the five is there
-- any more: the count stays, and no more peers are unchoked than before.
pub tick_full :
    (sha1 : List ℕ → List ℕ) (m : FileManager) (dm : DownloadManager) (d : Disk)
    (dm' : DownloadManager) (d' : Disk)
    → IsSound dm.piece_manager
    → 5 ≤ dm.unchoked_peers
    → tick sha1 m dm d ≡ some (dm', d')
    → (dm'.unchoked_peers ≡ dm.unchoked_peers)
      × (count_unchoked dm'.peers ≤ count_unchoked dm.peers)
tick_full sha1 m dm d dm' d' sound full e =
    let (ps, s, kept, t, left, same) = tick_parts sha1 m dm d sound dm' d' e in
    subst
      (λ (x : DownloadManager).
        (x.unchoked_peers ≡ dm.unchoked_peers) × (count_unchoked x.peers ≤ count_unchoked dm.peers))
      same
      (
        t.full full,
        omega
            (arith, t.full full, t.counted, left.1, (broadcast_all-Left s.completed_pieces kept).1),
      )
