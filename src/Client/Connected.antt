-- ===== src/Client/Connected.antt =====
-- The peers that are left after a tick are among those before it, and no two share an address.
use iron_peer_417project_pri.Base.{
  ℕ, zero, suc, ◌≡◌, ◌≢◌, refl, sym, ap, ap₂, ◌∙◌, subst, inl, inr, List, [], ◌∷◌, Option, none,
  some, some-injective, Option-cases, Bool, All, map, replicate,
}
use iron_peer_417project_pri.Base.Panic.{◌>>=◌}
use iron_peer_417project_pri.Structs.Peer.{Peer}
use iron_peer_417project_pri.Storage.Disk.{Disk}
use iron_peer_417project_pri.Storage.Files.{FileManager}
use iron_peer_417project_pri.Protocol.Messages.{have}
use iron_peer_417project_pri.Download.Swarm.{
  ActivePeer, DownloadManager, Shared, is_endgame, piece_availability,
}
use iron_peer_417project_pri.Download.Swarm.Tick.{
  visit, visit_all, remove_peer, remove_peers, broadcast_have, broadcast_all, tick,
}
use iron_peer_417project_pri.Client.Addresses.{peer_at, Keeps, visit-Keeps, send_message-peer}

-- No peer of a list has the address of another.
abbrev pub Apart : Peer → List Peer → Type 0
Apart a bs = All (λ b. b.addr ≢ a.addr) bs

abbrev pub AreDistinct : List Peer → Type 0
AreDistinct [] = Unit {0}
AreDistinct (a ∷ rest) = Apart a rest × AreDistinct rest

-- Some peers of a list, in its order.
pub record Thins (xs ys : List Peer) : Type 0 where
  pub apart : (a : Peer) → Apart a ys → Apart a xs
  pub distinct : AreDistinct ys → AreDistinct xs

Thins-refl : {xs ys : List Peer} → xs ≡ ys → Thins xs ys
Thins-refl {xs} e = subst (Thins xs) e (record { apart = λ a h. h; distinct = λ h. h })

Thins-trans : {xs ys zs : List Peer} → Thins xs ys → Thins ys zs → Thins xs zs
Thins-trans f g = record {
  apart = λ a h. f.apart a (g.apart a h);
  distinct = λ h. f.distinct (g.distinct h);
}

remove_peer-Thins :
    (i : ℕ) (ps qs : List ActivePeer)
    → remove_peer i ps ≡ some qs
    → Thins (map peer_at qs) (map peer_at ps)
unfolding remove_peer
remove_peer-Thins i [] qs e = cc
remove_peer-Thins zero (p ∷ ps) qs e =
    subst (λ (rs : List ActivePeer). Thins (map peer_at rs) (map peer_at (p ∷ ps)))
      (some-injective _ _ e) (record { apart = λ a h. h.1; distinct = λ h. h.1 })
remove_peer-Thins (suc i) (p ∷ ps) qs e = elim (Option-cases (remove_peer i ps)) [
  | inl n ↦ let bad = rw (n, remove_peer) at e in cc
  | inr r ↦
      let t = remove_peer-Thins i ps r.0 r.1 in
      subst (λ (rs : List ActivePeer). Thins (map peer_at rs) (map peer_at (p ∷ ps)))
        (some-injective _ _ (rw (r.1, remove_peer) at e))
        (record {
          apart = λ a h. (h.0, t.apart a h.1);
          distinct = λ h. (t.apart (peer_at p) h.0, t.distinct h.1);
        })
]

remove_peers-Thins :
    (js : List ℕ) (ps qs : List ActivePeer)
    → remove_peers js ps ≡ some qs
    → Thins (map peer_at qs) (map peer_at ps)
unfolding remove_peers
remove_peers-Thins [] ps qs e = Thins-refl (ap (map peer_at) (sym (some-injective _ _ e)))
remove_peers-Thins (j ∷ js) ps qs e = elim (Option-cases (remove_peers js ps)) [
  | inl n ↦ let bad = rw (n, remove_peers) at e in cc
  | inr r ↦
      Thins-trans (remove_peer-Thins j r.0 qs (rw (r.1, remove_peers) at e))
        (remove_peers-Thins js ps r.0 r.1)
]

broadcast_have-peers :
    (i : ℕ) (ps : List ActivePeer) → map peer_at (broadcast_have i ps) ≡ map peer_at ps
unfolding broadcast_have
broadcast_have-peers i [] = refl
broadcast_have-peers i (p ∷ ps) =
    ap₂ ◌∷◌ (send_message-peer (have i) p.connection) (broadcast_have-peers i ps)

broadcast_all-peers :
    (is : List ℕ) (ps : List ActivePeer) → map peer_at (broadcast_all is ps) ≡ map peer_at ps
unfolding broadcast_all
broadcast_all-peers [] ps = refl
broadcast_all-peers (i ∷ is) ps =
    broadcast_all-peers is (broadcast_have i ps) ∙ broadcast_have-peers i ps

module _ (sha1 : List ℕ → List ℕ) (m : FileManager) (piece_hashes : List (List ℕ)) where
  -- The peers of a result, where there is one, are `xs`.
  abbrev KeepsAll : List Peer → Option (List ActivePeer × Shared) → Type 0
  KeepsAll xs none = Unit {0}
  KeepsAll xs (some (ps, s)) = map peer_at ps ≡ xs

  visit_all-KeepsAll :
      (endgame : Bool) (availability : List ℕ) (i : ℕ) (ps : List ActivePeer) (s : Shared)
      → KeepsAll (map peer_at ps) (visit_all sha1 m piece_hashes endgame availability i ps s)
  unfolding visit_all
  visit_all-KeepsAll endgame availability i [] s = refl
  visit_all-KeepsAll endgame availability i (p ∷ ps) s =
      by (λ t. visit_all-KeepsAll endgame availability (suc i) ps t)
        (visit sha1 m piece_hashes endgame availability i p s)
        (visit-Keeps sha1 m piece_hashes endgame availability i p s)
    where
      behind :
          (q : ActivePeer) (o : Option (List ActivePeer × Shared))
          → peer_at q ≡ peer_at p
          → KeepsAll (map peer_at ps) o
          → KeepsAll (map peer_at (p ∷ ps)) (o >>= λ b. some (q ∷ b.0, b.1))
      behind q none k ks = tt
      behind q (some (qs, s')) k ks = ap₂ ◌∷◌ k ks

      by :
          ((t : Shared)
            → KeepsAll
                (map peer_at ps)
                (visit_all sha1 m piece_hashes endgame availability (suc i) ps t))
          → (o : Option (ActivePeer × Shared)) → Keeps (peer_at p) o
          → KeepsAll (map peer_at (p ∷ ps)) (
              o >>= λ a. visit_all sha1 m piece_hashes endgame availability (suc i) ps a.1 >>= λ b.
              some (a.0 ∷ b.0, b.1))
      by later none k = tt
      by later (some (q, s')) k =
          behind q (visit_all sha1 m piece_hashes endgame availability (suc i) ps s') k (later s')

module _ (sha1 : List ℕ → List ℕ) (m : FileManager) where
  -- A tick keeps the peers it does not remove.
  pub tick-Thins :
      (dm : DownloadManager) (d : Disk) (dm' : DownloadManager) (d' : Disk)
      → tick sha1 m dm d ≡ some (dm', d')
      → Thins (map peer_at dm'.peers) (map peer_at dm.peers)
  unfolding tick
  tick-Thins dm d dm' d' e =
      by
        (visit_all sha1 m dm.piece_hashes (is_endgame dm.piece_manager.piece_status)
          (piece_availability dm.peers (replicate dm.piece_manager.total_pieces 0)) 0 dm.peers
          start)
        (visit_all-KeepsAll sha1 m dm.piece_hashes (is_endgame dm.piece_manager.piece_status)
          (piece_availability dm.peers (replicate dm.piece_manager.total_pieces 0)) 0 dm.peers
          start)
        e
    where
      start : Shared
      start = record {
        piece_manager = dm.piece_manager;
        disk = d;
        unchoked_peers = dm.unchoked_peers;
        peers_to_remove = [];
        completed_pieces = [];
      }

      end : List ActivePeer → Shared → DownloadManager × Disk
      end kept s = (
        record dm {
          peers = broadcast_all s.completed_pieces kept;
          piece_manager = s.piece_manager;
          unchoked_peers = s.unchoked_peers;
        },
        s.disk,
      )

      removed :
          (ps kept : List ActivePeer) (s : Shared)
          → map peer_at ps ≡ map peer_at dm.peers
          → remove_peers s.peers_to_remove ps ≡ some kept
          → end kept s ≡ (dm', d')
          → Thins (map peer_at dm'.peers) (map peer_at dm.peers)
      removed ps kept s k r f =
          subst
            (λ (x : DownloadManager × Disk). Thins (map peer_at x.0.peers) (map peer_at dm.peers)) f
            (Thins-trans (Thins-refl (broadcast_all-peers s.completed_pieces kept))
              (Thins-trans (remove_peers-Thins s.peers_to_remove ps kept r) (Thins-refl k)))

      by :
          (o : Option (List ActivePeer × Shared))
          → KeepsAll sha1 m dm.piece_hashes (map peer_at dm.peers) o
          → (o >>= λ a. remove_peers a.1.peers_to_remove a.0 >>= λ kept. some (end kept a.1))
            ≡ some (dm', d')
          → Thins (map peer_at dm'.peers) (map peer_at dm.peers)
      by none k f = absurd cc
      by (some (ps, s)) k f = elim (Option-cases (remove_peers s.peers_to_remove ps)) [
        | inl n ↦ let bad = rw n at f in absurd cc
        | inr r ↦ removed ps r.0 s k r.1 (some-injective _ _ (rw r.1 at f))
      ]
