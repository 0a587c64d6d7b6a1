-- ===== src/Download/Swarm/Removal.antt =====
-- The end of `tick`: peers are removed, and the others hear of the completed pieces.
use iron_peer_417project_pri.Base.{
  ℕ, zero, suc, ◌+◌, ◌≤◌, ◌<◌, ◌≡◌, refl, List, [], ◌∷◌, some, some-injective, length, subst, arith,
  Option-cases, inl, inr,
}
use iron_peer_417project_pri.Download.Swarm.{ActivePeer}
use iron_peer_417project_pri.Download.Swarm.Tick.{
  remove_peer, remove_peers, broadcast_have, broadcast_all,
}
use iron_peer_417project_pri.Download.Swarm.Visits.{count_unchoked, AreBounded, Rising}

-- What is left of some peers: no request more on its way, no peer more unchoked.
abbrev pub Left : List ActivePeer → List ActivePeer → Type 0
Left ps qs = (AreBounded ps → AreBounded qs) × (count_unchoked qs ≤ count_unchoked ps)

remove_peer-Left : (i : ℕ) (ps qs : List ActivePeer) → remove_peer i ps ≡ some qs → Left ps qs
unfolding remove_peer
remove_peer-Left i [] qs e = cc
remove_peer-Left zero (p ∷ ps) qs e =
    subst (Left (p ∷ ps)) (some-injective _ _ e) (λ h. h.1, omega arith)
remove_peer-Left (suc i) (p ∷ ps) qs e = elim (Option-cases (remove_peer i ps)) [
  | inl n ↦ let bad = rw (n, remove_peer) at e in cc
  | inr r ↦
      let (bounded, le) = remove_peer-Left i ps r.0 r.1 in
      subst (Left (p ∷ ps)) (some-injective _ _ (rw (r.1, remove_peer) at e))
        (λ h. (h.0, bounded h.1), omega arith)
]

pub remove_peers-Left :
    (js : List ℕ) (ps qs : List ActivePeer) → remove_peers js ps ≡ some qs → Left ps qs
unfolding remove_peers
remove_peers-Left [] ps qs e = subst (Left ps) (some-injective _ _ e) (λ h. h, omega arith)
remove_peers-Left (j ∷ js) ps qs e = elim (Option-cases (remove_peers js ps)) [
  | inl n ↦ let bad = rw (n, remove_peers) at e in cc
  | inr r ↦
      let (bounded, le) = remove_peers-Left js ps r.0 r.1 in
      let (bounded', le') = remove_peer-Left j r.0 qs (rw (r.1, remove_peers) at e) in
      (λ h. bounded' (bounded h), omega arith)
]

remove_peer_total :
    (i : ℕ) (ps : List ActivePeer)
    → i < length ps
    → (qs : List ActivePeer) × (remove_peer i ps ≡ some qs) × (length qs + 1 ≡ length ps)
unfolding remove_peer
remove_peer_total i [] h = absurd (omega arith)
remove_peer_total zero (p ∷ ps) h = (ps, refl, omega arith)
remove_peer_total (suc i) (p ∷ ps) h =
    let (qs, e, l) = remove_peer_total i ps (omega arith) in
    (p ∷ qs, rw (e, remove_peer) refl, omega arith)

Rising-length : (i n : ℕ) (js : List ℕ) → i ≤ n → Rising i n js → length js + i ≤ n
Rising-length i n [] le r = omega arith
Rising-length i n (j ∷ js) le (a, b, r) = omega (arith, Rising-length (suc j) n js (omega arith) r)

-- Increasing indices can all be removed, the last one first.
pub remove_peers_total :
    (i : ℕ) (js : List ℕ) (ps : List ActivePeer)
    → Rising i (length ps) js
    → (qs : List ActivePeer) × (remove_peers js ps ≡ some qs) × (length qs + length js ≡ length ps)
unfolding remove_peers
remove_peers_total i [] ps r = (ps, refl, omega arith)
remove_peers_total i (j ∷ js) ps (a, b, r) =
    let (qs, e, l) = remove_peers_total (suc j) js ps r in
    let (qs', e', l') =
      remove_peer_total j qs
        (omega (arith, Rising-length (suc j) (length ps) js (omega arith) r)) in
    (qs', rw (e, remove_peers) e', omega arith)

broadcast_have-Left :
    (piece_index : ℕ) (ps : List ActivePeer) → Left ps (broadcast_have piece_index ps)
unfolding broadcast_have
broadcast_have-Left i [] = (λ h. h, omega arith)
broadcast_have-Left i (p ∷ ps) =
    let (bounded, le) = broadcast_have-Left i ps in (λ h. (h.0, bounded h.1), omega arith)

pub broadcast_all-Left : (is : List ℕ) (ps : List ActivePeer) → Left ps (broadcast_all is ps)
unfolding broadcast_all
broadcast_all-Left [] ps = (λ h. h, omega arith)
broadcast_all-Left (i ∷ is) ps =
    let (bounded, le) = broadcast_have-Left i ps in
    let (bounded', le') = broadcast_all-Left is (broadcast_have i ps) in
    (λ h. bounded' (bounded h), omega arith)
