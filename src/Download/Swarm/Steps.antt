-- ===== src/Download/Swarm/Steps.antt =====
-- What each step of the loop of `tick` keeps.
use iron_peer_417project_pri.Base.{
  ℕ, ◌+◌, ◌≤◌, ◌<◌, ◌≡◌, refl, ◌⊎◌, inl, inr, List, [], ◌∷◌, ◌++◌, Option, none, some, Bool, true,
  false, not, ◌&&◌, ltb, if_cases, Result, ok, err, arith,
}
use iron_peer_417project_pri.Storage.Files.Panics.{CanRead, read_block_calm}
use iron_peer_417project_pri.Storage.Files.{panics, FileManager, IoError, read_block}
use iron_peer_417project_pri.Protocol.Messages.{
  Message, keep_alive, choke, unchoke, interested, not_interested, have, bitfield, request, piece,
  cancel, port,
}
use iron_peer_417project_pri.Protocol.Codec.{DecodeError}
use iron_peer_417project_pri.Peer.Connection.{send_message, next_message}
use iron_peer_417project_pri.Download.Pieces.{is_complete}
use iron_peer_417project_pri.Download.Pieces.Counting.{one_if}
use iron_peer_417project_pri.Download.Received.Invariant.{IsSound, on_piece-OrPanics}
use iron_peer_417project_pri.Download.Swarm.{ActivePeer, Shared}
use iron_peer_417project_pri.Download.Swarm.Messages.{
  answered, drop_later, upload, receive, on_message, on_answer, read_step,
}
use iron_peer_417project_pri.Download.Swarm.Tick.{choke_step, interest_step}

-- From one peer and the shared state to the next: the piece manager stays sound, at most ten
-- requests are on their way, and `unchoked_peers` grows with the peer's being unchoked, to five at
-- most.
pub record Steps (p : ActivePeer) (s : Shared) (p' : ActivePeer) (s' : Shared) : Type 0 where
  pub sound : IsSound s.piece_manager → IsSound s'.piece_manager
  pub inflight : p.inflight_requests ≤ 10 → p'.inflight_requests ≤ 10
  pub counted :
      s'.unchoked_peers + one_if (not p.am_choking) ≡ s.unchoked_peers + one_if (not p'.am_choking)
  pub limit : s.unchoked_peers ≤ 5 → s'.unchoked_peers ≤ 5
  pub grows : s.unchoked_peers ≤ s'.unchoked_peers
  pub full : 5 ≤ s.unchoked_peers → s'.unchoked_peers ≡ s.unchoked_peers

pub Steps-trans :
    {p p' p'' : ActivePeer} {s s' s'' : Shared}
    → Steps p s p' s'
    → Steps p' s' p'' s''
    → Steps p s p'' s''
Steps-trans f g = record {
  sound = λ h. g.sound (f.sound h);
  inflight = λ h. g.inflight (f.inflight h);
  counted = omega (arith, f.counted, g.counted);
  limit = λ h. g.limit (f.limit h);
  grows = omega (arith, f.grows, g.grows);
  full = λ h. omega (arith, f.full h, g.full (omega (arith, f.grows)));
}

-- A step that leaves these alone.
pub Steps-same :
    (p p' : ActivePeer) (s s' : Shared)
    → (IsSound s.piece_manager → IsSound s'.piece_manager)
    → p'.inflight_requests ≤ p.inflight_requests
    → p'.am_choking ≡ p.am_choking
    → s'.unchoked_peers ≡ s.unchoked_peers
    → Steps p s p' s'
Steps-same p p' s s' sound le same e = record {
  sound = sound;
  inflight = λ h. omega arith;
  counted = rw same (omega arith);
  limit = λ h. omega arith;
  grows = omega arith;
  full = λ h. e;
}

-- Peer `i` is put on the list of those to remove at most once.
abbrev pub PushesOnce : ℕ → Shared → Shared → Type 0
PushesOnce i s s' =
    (s'.peers_to_remove ≡ s.peers_to_remove) ⊎ (s'.peers_to_remove ≡ s.peers_to_remove ++ (i ∷ []))

-- A step that does not panic, or panics since a piece cannot be read.
abbrev pub Reads : FileManager → ℕ → ActivePeer → Shared → Option (ActivePeer × Shared) → Type 0
Reads m i p s o =
    ((CanRead m → ⊥) × (o ≡ none))
    ⊎ ((p' : ActivePeer) × (s' : Shared) × (o ≡ some (p', s'))
        × Steps p s p' s'
        × PushesOnce i s s'
        × (p'.am_interested ≡ p.am_interested))

upload-Steps :
    (i index begin : ℕ) (r : Result IoError (List ℕ)) (p : ActivePeer) (s : Shared)
    → Steps p s (upload i index begin r p s).0 (upload i index begin r p s).1
      × PushesOnce i s (upload i index begin r p s).1
      × ((upload i index begin r p s).0.am_interested ≡ p.am_interested)
unfolding upload
upload-Steps i index begin (err e) p s =
    (Steps-same p p s s (λ h. h) (omega arith) refl refl, inl refl, refl)
upload-Steps i index begin (ok block) p s =
    if_cases
      (λ (x : Shared).
        Steps p s
          (record p { connection = (send_message (piece index begin block) p.connection).1 }) x
        × PushesOnce i s x
        × (p.am_interested ≡ p.am_interested))
      (send_message (piece index begin block) p.connection).0 _ _
      (λ t. (Steps-same p _ s s (λ h. h) (omega arith) refl refl, inl refl, refl))
      (λ f. (Steps-same p _ s (drop_later i s) (λ h. h) (omega arith) refl refl, inr refl, refl))

module _ (sha1 : List ℕ → List ℕ) (m : FileManager) (piece_hashes : List (List ℕ)) where
  receive-Reads :
      (i index begin : ℕ) (block : List ℕ) (p : ActivePeer) (s : Shared)
      → IsSound s.piece_manager
      → Reads m i p s (receive sha1 m piece_hashes index begin block p s)
  unfolding receive answered
  receive-Reads i index begin block p s sound =
      elim (on_piece-OrPanics sha1 m piece_hashes s.piece_manager index begin block s.disk sound) [
        | inl stop ↦ inl (stop.0, rw (stop.1, receive) refl)
        | inr (r, e, sound') ↦ inr (
          answered index begin p,
          record s {
            piece_manager = r.piece_manager;
            disk = r.disk;
            completed_pieces = s.completed_pieces ++ r.completed;
          },
          rw (e, receive) refl,
          Steps-same p _ s _ (λ h. sound') (omega arith) refl refl,
          inl refl,
          refl,
        )
      ]

  -- A message that changes only the peer.
  Reads-peer :
      (i : ℕ) (p p' : ActivePeer) (s : Shared)
      → p'.inflight_requests ≤ p.inflight_requests
      → p'.am_choking ≡ p.am_choking
      → p'.am_interested ≡ p.am_interested
      → Reads m i p s (some (p', s))
  Reads-peer i p p' s le a b =
      inr (p', s, refl, Steps-same p p' s s (λ h. h) le a refl, inl refl, b)

  on_message-Reads :
      (i : ℕ) (msg : Message) (p : ActivePeer) (s : Shared)
      → IsSound s.piece_manager
      → Reads m i p s (on_message sha1 m piece_hashes i msg p s)
  unfolding on_message
  on_message-Reads i choke p s h = Reads-peer i p _ s (omega arith) refl refl
  on_message-Reads i unchoke p s h = Reads-peer i p _ s (omega arith) refl refl
  on_message-Reads i (have piece_index) p s h = Reads-peer i p _ s (omega arith) refl refl
  on_message-Reads i (bitfield bits) p s h = Reads-peer i p _ s (omega arith) refl refl
  on_message-Reads i (piece index begin block) p s h = receive-Reads i index begin block p s h
  on_message-Reads i (request index begin len) p s h =
      if_cases (Reads m i p s) p.am_choking _ _ (λ t. Reads-peer i p p s (omega arith) refl refl)
        (λ f.
          if_cases (Reads m i p s) (panics (read_block m index begin len s.disk)) _ _
            (λ stop.
              inl
                (λ can. let calm = read_block_calm m can index begin len s.disk in absurd cc, refl))
            (λ calm.
              let (st, once, same) =
                upload-Steps i index begin (read_block m index begin len s.disk) p s in
              inr (_, _, refl, st, once, same)))
  on_message-Reads i interested p s h = Reads-peer i p _ s (omega arith) refl refl
  on_message-Reads i keep_alive p s h = Reads-peer i p p s (omega arith) refl refl
  on_message-Reads i not_interested p s h = Reads-peer i p p s (omega arith) refl refl
  on_message-Reads i (cancel index begin len) p s h = Reads-peer i p p s (omega arith) refl refl
  on_message-Reads i (port listen_port) p s h = Reads-peer i p p s (omega arith) refl refl

  on_answer-Reads :
      (i : ℕ) (answer : Result DecodeError (Option Message)) (p : ActivePeer) (s : Shared)
      → IsSound s.piece_manager
      → Reads m i p s (on_answer sha1 m piece_hashes i answer p s)
  unfolding on_answer
  on_answer-Reads i (ok none) p s h = Reads-peer i p p s (omega arith) refl refl
  on_answer-Reads i (ok (some msg)) p s h = on_message-Reads i msg p s h
  on_answer-Reads i (err e) p s h =
      inr (
        p,
        drop_later i s,
        refl,
        Steps-same p p s _ (λ k. k) (omega arith) refl refl,
        inr refl,
        refl,
      )

  pub read_step-Reads :
      (i : ℕ) (p : ActivePeer) (s : Shared)
      → IsSound s.piece_manager
      → Reads m i p s (read_step sha1 m piece_hashes i p s)
  unfolding read_step
  read_step-Reads i p s h =
      let c = (next_message p.connection).1 in
      elim (on_answer-Reads i (next_message p.connection).0 (record p { connection = c }) s h) [
        | inl stop ↦ inl stop
        | inr (p', s', e, st, once, same) ↦ inr (
          p',
          s',
          e,
          record {
            sound = st.sound;
            inflight = st.inflight;
            counted = st.counted;
            limit = st.limit;
            grows = st.grows;
            full = st.full;
          },
          once,
          same,
        )
      ]

choke_test : (a b : Bool) (n : ℕ) → (a && b && ltb n 5) ≡ true → (b ≡ true) × (n < 5)
choke_test a b n h = ground arith

unchoke_Steps :
    (p : ActivePeer) (s : Shared)
    → p.am_choking ≡ true
    → s.unchoked_peers < 5
    → Steps p s
        (record p { connection = (send_message unchoke p.connection).1; am_choking = false })
        (record s { unchoked_peers = s.unchoked_peers + 1 })
unchoke_Steps p s was below = record {
  sound = λ h. h;
  inflight = λ h. h;
  counted = rw was (omega arith);
  limit = λ h. omega arith;
  grows = omega arith;
  full = λ h. absurd (omega arith);
}

pub choke_step-Steps :
    (p : ActivePeer) (s : Shared)
    → Steps p s (choke_step p s).0 (choke_step p s).1
      × ((choke_step p s).1.peers_to_remove ≡ s.peers_to_remove)
      × ((choke_step p s).0.am_interested ≡ p.am_interested)
unfolding choke_step
choke_step-Steps p s =
    if_cases Holds (p.peer_interested && p.am_choking && ltb s.unchoked_peers 5) _ _
      (λ t.
        let (was, below) = choke_test p.peer_interested p.am_choking s.unchoked_peers t in
        if_cases Holds (send_message unchoke p.connection).0 _ _
          (λ sent. (unchoke_Steps p s was below, refl, refl))
          (λ failed. (Steps-same p _ s s (λ h. h) (omega arith) refl refl, refl, refl)))
      (λ f. (Steps-same p p s s (λ h. h) (omega arith) refl refl, refl, refl))
  where
    Holds : ActivePeer × Shared → Type 0
    Holds x =
        Steps p s x.0 x.1
        × (x.1.peers_to_remove ≡ s.peers_to_remove)
        × (x.0.am_interested ≡ p.am_interested)

pub interest_step-Steps :
    (i : ℕ) (p : ActivePeer) (s : Shared)
    → Steps p s (interest_step i p s).1 (interest_step i p s).2
      × (p.am_interested ≡ true → (interest_step i p s).2.peers_to_remove ≡ s.peers_to_remove)
unfolding interest_step
interest_step-Steps i p s =
    if_cases Holds (not p.am_interested && not (is_complete s.piece_manager)) _ _
      (λ t.
        if_cases Holds (send_message interested p.connection).0 _ _
          (λ sent. (Steps-same p _ s s (λ h. h) (omega arith) refl refl, λ h. refl))
          (λ failed.
            (Steps-same p _ s _ (λ h. h) (omega arith) refl refl, λ h. let bad = rw h at t in cc)))
      (λ f. (Steps-same p p s s (λ h. h) (omega arith) refl refl, λ h. refl))
  where
    Holds : Bool × ActivePeer × Shared → Type 0
    Holds x = Steps p s x.1 x.2 × (p.am_interested ≡ true → x.2.peers_to_remove ≡ s.peers_to_remove)
