-- ===== src/Download/Swarm/Visits.antt =====
-- The loop of `tick` over the peers: it does not panic, and keeps the manager's invariant.
use iron_peer_417project_pri.Base.{
  none, ℕ, suc, ◌+◌, ◌≤◌, ◌<◌, ◌≡◌, refl, sym, ◌∙◌, ap, subst, ◌⊎◌, inl, inr, List, [], ◌∷◌, ◌++◌,
  append-nil, append_assoc, Option, some, Bool, true, false, not, All, length, arith,
}
use iron_peer_417project_pri.Storage.Files.Panics.{CanRead}
use iron_peer_417project_pri.Storage.Files.{FileManager}
use iron_peer_417project_pri.Download.Blocks.{BlockInfo}
use iron_peer_417project_pri.Download.Pieces.Counting.{one_if}
use iron_peer_417project_pri.Download.Received.Invariant.{IsSound}
use iron_peer_417project_pri.Download.Swarm.{ActivePeer, Shared}
use iron_peer_417project_pri.Download.Swarm.Tick.{
  choke_step, interest_step, then_request, visit, visit_all,
}
use iron_peer_417project_pri.Download.Swarm.Asking.{over, asked}
use iron_peer_417project_pri.Download.Swarm.Starting.{request_step-Requests}
use iron_peer_417project_pri.Download.Swarm.Steps.{
  Steps, Steps-trans, Steps-same, PushesOnce, read_step-Reads, choke_step-Steps,
  interest_step-Steps,
}

requests-Steps :
    (p p' : ActivePeer) (s s' : Shared)
    → (IsSound s.piece_manager → IsSound s'.piece_manager)
    → s'.unchoked_peers ≡ s.unchoked_peers
    → (p' ≡ over p'.connection p)
      ⊎ ((p.inflight_requests < 10) × (b : BlockInfo) × (p' ≡ asked p'.connection b p))
    → Steps p s p' s'
requests-Steps p p' s s' sound same (inl e) =
    Steps-same p p' s s' sound (omega (arith, ap (λ (q : ActivePeer). q.inflight_requests) e))
      (ap (λ (q : ActivePeer). q.am_choking) e) same
requests-Steps p p' s s' sound same (inr (lt, b, e)) =
    let kept : p'.am_choking ≡ p.am_choking = ap (λ (q : ActivePeer). q.am_choking) e in
    record {
      sound = sound;
      inflight = λ h. omega (arith, ap (λ (q : ActivePeer). q.inflight_requests) e);
      counted = rw kept (omega arith);
      limit = λ h. omega arith;
      grows = omega arith;
      full = λ h. same;
    }

-- The visit of peer `i` ends; a peer that was told of our interest before is put on the list of
-- those to remove at most once.
abbrev pub Visited : ℕ → ActivePeer → Shared → Option (ActivePeer × Shared) → Type 0
Visited i p s o =
    (p' : ActivePeer) × (s' : Shared) × (o ≡ some (p', s'))
    × Steps p s p' s'
    × (p.am_interested ≡ true → PushesOnce i s s')

then_request-Visited :
    (endgame : Bool) (availability : List ℕ) (i : ℕ) (p : ActivePeer) (s : Shared)
    (x : Bool × ActivePeer × Shared)
    → Steps p s x.1 x.2
    → (p.am_interested ≡ true → PushesOnce i s x.2)
    → Visited i p s (then_request endgame availability x)
unfolding then_request
then_request-Visited endgame availability i p s (false, p', s') st once = (p', s', refl, st, once)
then_request-Visited endgame availability i p s (true, p', s') st once =
    let (q, pm, e, sound, which) = request_step-Requests endgame availability p' s'.piece_manager in
    let s'' : Shared = record s' { piece_manager = pm } in
    (
      q,
      s'',
      rw (e, then_request) refl,
      Steps-trans st (requests-Steps p' q s' s'' sound refl which),
      once,
    )

-- A result as described, or none, which means that a piece cannot be read.
abbrev pub OrStops {ℓ} : {A : Type ℓ} → FileManager → Option A → Type 0 → Type ℓ
OrStops m o Q = ((CanRead m → ⊥) × (o ≡ none)) ⊎ Q

module _ (sha1 : List ℕ → List ℕ) (m : FileManager) (piece_hashes : List (List ℕ)) where
  visit-Visited :
      (endgame : Bool) (availability : List ℕ) (i : ℕ) (p : ActivePeer) (s : Shared)
      → IsSound s.piece_manager
      → OrStops m
          (visit sha1 m piece_hashes endgame availability i p s)
          (Visited i p s (visit sha1 m piece_hashes endgame availability i p s))
  unfolding visit
  visit-Visited endgame availability i p s sound =
      elim (read_step-Reads sha1 m piece_hashes i p s sound) [
        | inl stop ↦ inl (stop.0, rw (stop.1, visit) refl)
        | inr (p₁, s₁, e, st₁, once, same) ↦
            let (st₂, rem₂, same₂) = choke_step-Steps p₁ s₁ in
            let p₂ = (choke_step p₁ s₁).0 in
            let s₂ = (choke_step p₁ s₁).1 in
            let (st₃, rem₃) = interest_step-Steps i p₂ s₂ in
            inr (
              rw (e, visit)
                (then_request-Visited endgame availability i p s (interest_step i p₂ s₂)
                  (Steps-trans st₁ (Steps-trans st₂ st₃))
                  (λ h.
                    carried s₁ (interest_step i p₂ s₂).2 once (rem₃ (same₂ ∙ (same ∙ h)) ∙ rem₂))))
      ]
    where
      carried :
          (a b : Shared)
          → PushesOnce i s a
          → b.peers_to_remove ≡ a.peers_to_remove
          → PushesOnce i s b
      carried a b (inl e) q = inl (q ∙ e)
      carried a b (inr e) q = inr (q ∙ e)

-- How many peers are unchoked.
abbrev pub count_unchoked : List ActivePeer → ℕ
count_unchoked [] = 0
count_unchoked (p ∷ ps) = one_if (not p.am_choking) + count_unchoked ps

-- Increasing indices of peers from `i` on, below `n`.
abbrev pub Rising : ℕ → ℕ → List ℕ → Type 0
Rising i n [] = Unit {0}
Rising i n (j ∷ js) = (i ≤ j) × (j < n) × Rising (suc j) n js

abbrev pub AreBounded : List ActivePeer → Type 0
AreBounded ps = All (λ p. p.inflight_requests ≤ 10) ps

-- What the loop from peer `i` on does.
pub record Tours (i : ℕ) (ps : List ActivePeer) (s : Shared) (ps' : List ActivePeer) (s' : Shared)
    : Type 0 where
  pub sound : IsSound s'.piece_manager
  pub as_many : length ps' ≡ length ps
  pub bounded : AreBounded ps → AreBounded ps'
  pub counted : s'.unchoked_peers + count_unchoked ps ≡ s.unchoked_peers + count_unchoked ps'
  pub limit : s.unchoked_peers ≤ 5 → s'.unchoked_peers ≤ 5
  pub grows : s.unchoked_peers ≤ s'.unchoked_peers
  pub full : 5 ≤ s.unchoked_peers → s'.unchoked_peers ≡ s.unchoked_peers
  pub removes :
      All (λ p. p.am_interested ≡ true) ps
      → (js : List ℕ) × (s'.peers_to_remove ≡ s.peers_to_remove ++ js) × Rising i (i + length ps) js

Rising-weaken : (i n : ℕ) (js : List ℕ) → Rising (suc i) n js → Rising i n js
Rising-weaken i n [] h = tt
Rising-weaken i n (j ∷ js) h = (omega (arith, h.0), h.1, h.2)

-- Peer `i`, visited first, and the peers behind it.
removes_more :
    (i n : ℕ) (rem rem₁ rem' : List ℕ)
    → (rem₁ ≡ rem) ⊎ (rem₁ ≡ rem ++ (i ∷ []))
    → (js : List ℕ) × (rem' ≡ rem₁ ++ js) × Rising (suc i) (suc i + n) js
    → (js : List ℕ) × (rem' ≡ rem ++ js) × Rising i (i + suc n) js
removes_more i n rem rem₁ rem' once (js, e, r) = by once
  where
    place : suc i + n ≡ i + suc n
    place = omega arith

    moved : Rising (suc i) (i + suc n) js
    moved = subst (λ (k : ℕ). Rising (suc i) k js) place r

    by :
        (rem₁ ≡ rem) ⊎ (rem₁ ≡ rem ++ (i ∷ []))
        → (js : List ℕ) × (rem' ≡ rem ++ js) × Rising i (i + suc n) js
    by (inl q) = (js, e ∙ ap (λ l. l ++ js) q, Rising-weaken i (i + suc n) js moved)
    by (inr q) = (
      i ∷ js,
      e ∙ (ap (λ l. l ++ js) q ∙ append_assoc rem (i ∷ []) js),
      (omega arith, omega arith, moved),
    )

module _ (sha1 : List ℕ → List ℕ) (m : FileManager) (piece_hashes : List (List ℕ)) where
  -- The loop ends with such a tour.
  abbrev pub Ends : ℕ → List ActivePeer → Shared → Option (List ActivePeer × Shared) → Type 0
  Ends i ps s o =
      (ps' : List ActivePeer) × (s' : Shared) × (o ≡ some (ps', s')) × Tours i ps s ps' s'

  pub visit_all-Tours :
      (endgame : Bool) (availability : List ℕ) (i : ℕ) (ps : List ActivePeer) (s : Shared)
      → IsSound s.piece_manager
      → OrStops m
          (visit_all sha1 m piece_hashes endgame availability i ps s)
          (Ends i ps s (visit_all sha1 m piece_hashes endgame availability i ps s))
  unfolding visit_all
  visit_all-Tours endgame availability i [] s sound = inr (
    [],
    s,
    refl,
    record {
      sound = sound;
      as_many = refl;
      bounded = λ h. h;
      counted = refl;
      limit = λ h. h;
      grows = omega arith;
      full = λ h. refl;
      removes = λ h. ([], sym (append-nil s.peers_to_remove), tt);
    },
  )
  visit_all-Tours endgame availability i (p ∷ ps) s sound =
      elim (visit-Visited sha1 m piece_hashes endgame availability i p s sound) [
        | inl stop ↦ inl (stop.0, rw (stop.1, visit_all) refl)
        | inr (p', s₁, e, st, once) ↦
            elim (visit_all-Tours endgame availability (suc i) ps s₁ (st.sound sound)) [
              | inl stop ↦ inl (stop.0, rw (e, visit_all, stop.1) refl)
              | inr (ps', s', e', t) ↦ inr (
                p' ∷ ps',
                s',
                rw (e, visit_all, e') refl,
                record {
                  sound = t.sound;
                  as_many = ap suc t.as_many;
                  bounded = λ h. (st.inflight h.0, t.bounded h.1);
                  counted = omega (arith, st.counted, t.counted);
                  limit = λ h. t.limit (st.limit h);
                  grows = omega (arith, st.grows, t.grows);
                  full = λ h. t.full (omega (arith, st.grows)) ∙ st.full h;
                  removes = λ h.
                      removes_more i (length ps) s.peers_to_remove s₁.peers_to_remove
                        s'.peers_to_remove (once h.0) (t.removes h.1);
                },
              )
            ]
      ]
