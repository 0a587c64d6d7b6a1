-- ===== src/Client/Rounds.antt =====
-- Any run of the client's loop.
use Prim.Native.String.{String}
use iron_peer_417project_pri.Base.{
  neither, ℕ, zero, suc, ◌+◌, ◌-◌, ◌≤◌, ◌≡◌, refl, sym, ap, ◌∙◌, subst, inl, inr, List, [], ◌∷◌,
  ◌++◌, Option, some, some-injective, Option-cases, Bool, true, false, not, ◌&&◌, ltb, if_cases,
  map, length, take, take_all, drop, min, if◌then◌else◌, arith,
}
use iron_peer_417project_pri.Base.Panic.{◌>>=◌}
use iron_peer_417project_pri.Structs.Peer.{Peer, same_addr, same_addr_refl}
use iron_peer_417project_pri.Storage.Disk.{Disk}
use iron_peer_417project_pri.Storage.Files.{FileManager}
use iron_peer_417project_pri.Protocol.Messages.{bitfield}
use iron_peer_417project_pri.Peer.Connection.{PeerConnection, send_message}
use iron_peer_417project_pri.Download.Pieces.{is_complete}
use iron_peer_417project_pri.Download.Pieces.Bitfield.{get_bitfield_lem}
use iron_peer_417project_pri.Download.Swarm.{ActivePeer, DownloadManager, new_active_peer, add_peer}
use iron_peer_417project_pri.Download.Swarm.Tick.{tick}
use iron_peer_417project_pri.Download.Swarm.Visits.{count_unchoked, AreBounded}
use iron_peer_417project_pri.Download.Swarm.Healthy.{IsHealthy, tick-IsHealthy}
use iron_peer_417project_pri.Client.{
  Client, already_connected, accept, accept_all, spawn_more, http_trackers, announce_completion,
  loop_round,
}
use iron_peer_417project_pri.Client.Addresses.{peer_at, send_message-peer}
use iron_peer_417project_pri.Client.Connected.{Apart, AreDistinct, tick-Thins}

-- The manager keeps its invariant, and no two of its peers share an address.
pub record IsSorted (dm : DownloadManager) : Type 0 where
  pub healthy : IsHealthy dm
  pub distinct : AreDistinct (map peer_at dm.peers)

already_connected-Apart :
    (a : Peer) (ps : List ActivePeer)
    → already_connected a.addr ps ≡ false
    → Apart a (map peer_at ps)
unfolding already_connected
already_connected-Apart a [] h = tt
already_connected-Apart a (p ∷ ps) h =
    let (here, later) =
      neither (same_addr p.connection.peer.addr a.addr) (already_connected a.addr ps) h in
    (
      λ e. let yes_same = same_addr_refl a.addr in let bad = rw e at here in cc,
      already_connected-Apart a ps later,
    )

-- A peer behind others.
append-AreDistinct :
    (ps : List ActivePeer) (p : ActivePeer)
    → Apart (peer_at p) (map peer_at ps)
    → AreDistinct (map peer_at ps)
    → AreDistinct (map peer_at (ps ++ (p ∷ [])))
append-AreDistinct [] p h d = (tt, tt)
append-AreDistinct (q ∷ ps) p (h, hs) (d, ds) = (behind ps d, append-AreDistinct ps p hs ds)
  where
    behind :
        (rs : List ActivePeer)
        → Apart (peer_at q) (map peer_at rs)
        → Apart (peer_at q) (map peer_at (rs ++ (p ∷ [])))
    behind [] k = (λ e. h (sym e), tt)
    behind (r ∷ rs) (k, ks) = (k, behind rs ks)

append-AreBounded :
    (ps : List ActivePeer) (p : ActivePeer)
    → AreBounded ps
    → p.inflight_requests ≤ 10
    → AreBounded (ps ++ (p ∷ []))
append-AreBounded [] p h le = (le, tt)
append-AreBounded (q ∷ ps) p (h, hs) le = (h, append-AreBounded ps p hs le)

append-count_unchoked :
    (ps : List ActivePeer) (p : ActivePeer)
    → p.am_choking ≡ true
    → count_unchoked (ps ++ (p ∷ [])) ≡ count_unchoked ps
append-count_unchoked [] p e = rw e refl
append-count_unchoked (q ∷ ps) p e = omega (arith, append-count_unchoked ps p e)

-- A result, where there is one, keeps the invariant.
abbrev Keeps : Option DownloadManager → Type 0
Keeps o = (dm : DownloadManager) × (o ≡ some dm) × IsSorted dm

joined-IsSorted :
    (dm : DownloadManager) (c : PeerConnection) (n : ℕ)
    → IsSorted dm
    → Apart c.peer (map peer_at dm.peers)
    → IsSorted (record dm { peers = dm.peers ++ (new_active_peer c n ∷ []) })
unfolding new_active_peer
joined-IsSorted dm c n h apart = record {
  healthy = record {
    sound = h.healthy.sound;
    bounded = append-AreBounded dm.peers (new_active_peer c n) h.healthy.bounded (omega arith);
    few = h.healthy.few;
    unchoked =
        omega
          (arith, append-count_unchoked dm.peers (new_active_peer c n) refl, h.healthy.unchoked);
  };
  distinct = append-AreDistinct dm.peers (new_active_peer c n) apart h.distinct;
}

add_peer-Keeps :
    (dm : DownloadManager) (c : PeerConnection)
    → IsSorted dm
    → Apart c.peer (map peer_at dm.peers)
    → Keeps (add_peer dm c)
unfolding add_peer
add_peer-Keeps dm c h apart =
    let (bits, e, l, b, f) = get_bitfield_lem dm.piece_manager h.healthy.sound.valid.sized in
    rw (e, add_peer)
      (if_cases (λ x. Keeps (some x)) (send_message (bitfield bits) c).0 _ _
        (λ t. (
          _,
          refl,
          joined-IsSorted dm (send_message (bitfield bits) c).1
              (length dm.piece_manager.piece_status) h
              (subst (λ a. Apart a (map peer_at dm.peers))
                (sym (send_message-peer (bitfield bits) c)) apart),
        ))
        (λ f. (dm, refl, h)))

accept-Keeps : (c : PeerConnection) (dm : DownloadManager) → IsSorted dm → Keeps (accept c dm)
unfolding accept
accept-Keeps c dm h =
    if_cases Keeps (already_connected c.peer.addr dm.peers) _ _ (λ t. (dm, refl, h))
      (λ f. add_peer-Keeps dm c h (already_connected-Apart c.peer dm.peers f))

-- The new connections are added without a panic.
accept_all-Keeps :
    (cs : List PeerConnection) (dm : DownloadManager) → IsSorted dm → Keeps (accept_all cs dm)
unfolding accept_all
accept_all-Keeps [] dm h = (dm, refl, h)
accept_all-Keeps (c ∷ cs) dm h =
    let (dm', e, h') = accept-Keeps c dm h in rw (e, accept_all) (accept_all-Keeps cs dm' h')

tick-IsSorted :
    (sha1 : List ℕ → List ℕ) (m : FileManager) (dm : DownloadManager) (d : Disk)
    (dm' : DownloadManager) (d' : Disk)
    → IsSorted dm
    → tick sha1 m dm d ≡ some (dm', d')
    → IsSorted dm'
tick-IsSorted sha1 m dm d dm' d' h e = record {
  healthy = tick-IsHealthy sha1 m dm d dm' d' h.healthy e;
  distinct = (tick-Thins sha1 m dm d dm' d' e).distinct h.distinct;
}

module _ (tracker_urls : List String) where
  -- The manager is sorted; the peers for which a thread was spawned are the first ones, each once,
  -- up to `peer_index`; and the HTTP trackers heard of the completion once, or not at all before.
  pub record IsWell (c : Client) : Type 0 where
    pub sorted : IsSorted c.download_manager
    pub inside : c.peer_index ≤ length c.all_peers
    pub in_order : c.attempts ≡ take c.peer_index c.all_peers
    pub told :
        c.completion_announces ≡ (if c.announced_completed then http_trackers tracker_urls else [])

  take-append-take : (k n : ℕ) (xs : List Peer) → take k xs ++ take n (drop k xs) ≡ take (k + n) xs
  take-append-take zero n xs = let same : 0 + n ≡ n = omega arith in ap (λ j. take j xs) (sym same)
  take-append-take (suc k) zero [] = sym (take_all (suc k + 0) [] (omega arith))
  take-append-take (suc k) (suc n) [] = sym (take_all (suc k + suc n) [] (omega arith))
  take-append-take (suc k) n (x ∷ xs) =
      let same : suc (k + n) ≡ suc k + n = omega arith in
      ap (◌∷◌ x) (take-append-take k n xs) ∙ ap (λ j. take j (x ∷ xs)) same

  spawn_more-IsWell : (c : Client) → IsWell c → IsWell (spawn_more c)
  unfolding spawn_more
  spawn_more-IsWell c h =
      let batch_size = min 5 (length c.all_peers - c.peer_index) in
      if_cases IsWell
        (ltb (length c.download_manager.peers) 50 && ltb c.peer_index (length c.all_peers)) _ _
        (λ t. record {
          sorted = h.sorted;
          inside = omega (arith, h.inside);
          in_order =
              ap (λ l. l ++ take batch_size (drop c.peer_index c.all_peers)) h.in_order
              ∙ take-append-take c.peer_index batch_size c.all_peers;
          told = h.told;
        })
        (λ f. h)

  untold : (a b : Bool) → (a && not b) ≡ true → b ≡ false
  untold a false h = refl
  untold true true h = absurd cc
  untold false true h = absurd cc

  announce_completion-IsWell : (c : Client) → IsWell c → IsWell (announce_completion tracker_urls c)
  unfolding announce_completion
  announce_completion-IsWell c h =
      if_cases IsWell (is_complete c.download_manager.piece_manager && not c.announced_completed) _
        _
        (λ t.
          let before =
            untold (is_complete c.download_manager.piece_manager) c.announced_completed t in
          record {
            sorted = h.sorted;
            inside = h.inside;
            in_order = h.in_order;
            told =
                ap (λ l. l ++ http_trackers tracker_urls)
                  (h.told ∙ ap (λ b. if b then http_trackers tracker_urls else []) before);
          })
        (λ f. h)

  module _ (sha1 : List ℕ → List ℕ) (m : FileManager) where
    loop_round-IsWell :
        (arrived : List PeerConnection) (c c' : Client)
        → IsWell c
        → loop_round sha1 m tracker_urls arrived c ≡ some c'
        → IsWell c'
    unfolding loop_round
    loop_round-IsWell arrived c c' h e =
        let (dm, a, sorted) = accept_all-Keeps arrived c.download_manager h.sorted in
        let w =
          spawn_more-IsWell (record c { download_manager = dm })
            (record { sorted = sorted; inside = h.inside; in_order = h.in_order; told = h.told }) in
        ticked (spawn_more (record c { download_manager = dm })) w (rw (a, loop_round) at e)
      where
        ticked :
            (s : Client)
            → IsWell s
            → (tick sha1 m s.download_manager s.disk >>= λ t. some (
                announce_completion tracker_urls (record s { download_manager = t.0; disk = t.1 })))
              ≡ some c'
            → IsWell c'
        ticked s w k = elim (Option-cases (tick sha1 m s.download_manager s.disk)) [
          | inl n ↦ let bad = rw n at k in absurd cc
          | inr r ↦ subst IsWell (some-injective _ _ (rw r.1 at k)) (
              announce_completion-IsWell (record s { download_manager = r.0.0; disk = r.0.1 })
                (record {
                  sorted = tick-IsSorted sha1 m s.download_manager s.disk r.0.0 r.0.1 w.sorted r.1;
                  inside = w.inside;
                  in_order = w.in_order;
                  told = w.told;
                }))
        ]

    -- Rounds of the loop that do not panic, whatever connections arrive.
    pub data Runs : Client → Client → Type 0 where
      at_start : (c : Client) → Runs c c
      next :
          {c c' c'' : Client} (arrived : List PeerConnection)
          → Runs c c'
          → loop_round sha1 m tracker_urls arrived c' ≡ some c''
          → Runs c c''

    pub Runs-IsWell : {c c' : Client} → Runs c c' → IsWell c → IsWell c'
    Runs-IsWell (at_start c) h = h
    Runs-IsWell (next arrived r e) h = loop_round-IsWell arrived _ _ (Runs-IsWell r h) e
