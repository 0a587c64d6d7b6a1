-- ===== src/Download/Swarm/Starting.antt =====
-- The requests of a tick keep the piece manager sound and the peer's requests bounded.
use iron_peer_417project_pri.Base.{
  ℕ, zero, suc, ◌+◌, ◌<◌, ◌≡◌, refl, sym, ◌∙◌, ap, subst, ◌⊎◌, inl, inr, List, [], ◌∷◌, ◌++◌,
  Option, some, some-injective, Bool, true, false, not, ◌&&◌, ltb, ◌==◌, if◌then◌else◌, if_cases,
  All, get_elem?, set, as_u64, arith,
}
use iron_peer_417project_pri.Download.Blocks.{
  BlockInfo, PieceState, block_len, cut_blocks, new_piece_state,
}
use iron_peer_417project_pri.Download.Pieces.{PieceManager, missing, start_from, start_downloading}
use iron_peer_417project_pri.Download.Pieces.Counting.{one_if, count_index}
use iron_peer_417project_pri.Download.Pieces.Invariant.{start_downloading-IsValid}
use iron_peer_417project_pri.Download.Pieces.Rarest.{get_next_needed_piece_lem}
use iron_peer_417project_pri.Download.Received.Invariant.{IsSound, IsCounted, count_downloaded}
use iron_peer_417project_pri.Download.Swarm.{ActivePeer}
use iron_peer_417project_pri.Download.Swarm.Requests.{
  ask_states, ask_first_block, ask_first, ask_new, request_step,
}
use iron_peer_417project_pri.Download.Swarm.Asking.{
  over, asked, requested, ask_cases, Asks, ask_states-Asks,
}

count_downloaded-set :
    (bs : List BlockInfo) (k : ℕ) (b : BlockInfo)
    → get_elem? bs k ≡ some b
    → count_downloaded (set bs k (requested b)) ≡ count_downloaded bs
count_downloaded-set [] k b e = refl
count_downloaded-set (x ∷ bs) zero b e =
    ap (λ (y : BlockInfo). one_if y.downloaded + count_downloaded bs) (sym (some-injective _ _ e))
count_downloaded-set (x ∷ bs) (suc k) b e =
    ap (λ n. one_if x.downloaded + n) (count_downloaded-set bs k b e)

count_index-set :
    (i : ℕ) (ss : List PieceState) (j : ℕ) (s s' : PieceState)
    → get_elem? ss j ≡ some s
    → s'.index ≡ s.index
    → count_index i (set ss j s') ≡ count_index i ss
unfolding count_index
count_index-set i [] j s s' e same = refl
count_index-set i (x ∷ ss) zero s s' e same =
    ap (λ k. one_if (k == i) + count_index i ss)
      (same ∙ ap (λ (y : PieceState). y.index) (sym (some-injective _ _ e)))
count_index-set i (x ∷ ss) (suc j) s s' e same =
    ap (λ n. one_if (x.index == i) + n) (count_index-set i ss j s s' e same)

All-get_elem? :
    (ss : List PieceState) (j : ℕ) (s : PieceState)
    → All IsCounted ss
    → get_elem? ss j ≡ some s
    → IsCounted s
All-get_elem? [] j s h e = cc
All-get_elem? (x ∷ ss) zero s h e = subst IsCounted (some-injective _ _ e) h.0
All-get_elem? (x ∷ ss) (suc j) s h e = All-get_elem? ss j s h.1 e

All-set :
    (ss : List PieceState) (j : ℕ) (s : PieceState)
    → All IsCounted ss
    → IsCounted s
    → All IsCounted (set ss j s)
All-set [] j s h c = tt
All-set (x ∷ ss) zero s h c = (c, h.1)
All-set (x ∷ ss) (suc j) s h c = (h.0, All-set ss j s h.1 c)

-- Other pieces under way, as many of each piece and each with a right count.
pub with_states-IsSound :
    (pm : PieceManager) (ss : List PieceState)
    → IsSound pm
    → ((i : ℕ) → count_index i ss ≡ count_index i pm.downloading_pieces)
    → All IsCounted ss
    → IsSound (record pm { downloading_pieces = ss })
with_states-IsSound pm ss h same counts = record {
  valid = record {
    sized = h.valid.sized;
    counted = h.valid.counted;
    listed = λ i. same i ∙ h.valid.listed i;
  };
  counts = counts;
}

-- At most one request, and otherwise only the connection changes.
abbrev pub AsksOnce : ActivePeer → ActivePeer → Type 0
AsksOnce p p' = (p' ≡ over p'.connection p) ⊎ ((b : BlockInfo) × (p' ≡ asked p'.connection b p))

states-IsSound :
    (endgame : Bool) (pm : PieceManager) (p : ActivePeer) (x : Bool × List PieceState × ActivePeer)
    → Asks endgame pm.downloading_pieces p x
    → IsSound pm
    → IsSound (record pm { downloading_pieces = x.1 })
states-IsSound endgame pm p (false, ss, p') (e, q, f) h =
    subst (λ (l : List PieceState). IsSound (record pm { downloading_pieces = l })) (sym e) h
states-IsSound endgame pm p (true, ss, p') (j, s, k, b, g, has, i, w, e, r, q) h =
    let s' : PieceState = record s { blocks = set s.blocks k (requested b) } in
    subst (λ (l : List PieceState). IsSound (record pm { downloading_pieces = l })) (sym e)
      (with_states-IsSound pm (set pm.downloading_pieces j s') h
        (λ n. count_index-set n pm.downloading_pieces j s s' g refl)
        (All-set pm.downloading_pieces j s' h.counts (
          All-get_elem? pm.downloading_pieces j s h.counts g
          ∙ sym (count_downloaded-set s.blocks k b i))))

ask_first_block_lem :
    (bs : List BlockInfo) (p : ActivePeer)
    → (count_downloaded (ask_first_block bs p).0 ≡ count_downloaded bs)
      × AsksOnce p (ask_first_block bs p).1
unfolding ask_first_block
ask_first_block_lem [] p = (refl, inl refl)
ask_first_block_lem (b ∷ bs) p =
    let (c, which) = ask_cases b p in
    elim which [
      | inl (e, sent) ↦ rw (e, ask_first_block) (refl, inr (b, refl))
      | inr (e, failed) ↦ rw (e, ask_first_block) (refl, inl refl)
    ]

-- The states that `ask_first` leaves.
abbrev Kept : List PieceState → ActivePeer → List PieceState × ActivePeer → Type 0
Kept ss p x =
    ((i : ℕ) → count_index i x.0 ≡ count_index i ss)
    × (All IsCounted ss → All IsCounted x.0)
    × AsksOnce p x.1

ask_first-Kept :
    (index : ℕ) (ss : List PieceState) (p : ActivePeer) → Kept ss p (ask_first index ss p)
unfolding ask_first count_index
ask_first-Kept index [] p = (λ i. refl, λ h. h, inl refl)
ask_first-Kept index (s ∷ ss) p =
    let (same, once) = ask_first_block_lem s.blocks p in
    let (counts, kept, later) = ask_first-Kept index ss p in
    if_cases (Kept (s ∷ ss) p) (s.index == index) _ _
      (λ t. (λ i. refl, λ h. (h.0 ∙ sym same, h.1), once))
      (λ f. (λ i. ap (λ n. one_if (s.index == i) + n) (counts i), λ h. (h.0, kept h.1), later))

cut_blocks-fresh :
    (fuel index len offset : ℕ) → count_downloaded (cut_blocks fuel index len offset) ≡ 0
unfolding cut_blocks
cut_blocks-fresh zero index len offset = refl
cut_blocks-fresh (suc fuel) index len offset =
    if_cases (λ bs. count_downloaded bs ≡ 0) (ltb offset len) _ _
      (λ t. omega (arith, cut_blocks-fresh fuel index len (as_u64 (offset + block_len len offset))))
      (λ f. refl)

All-snoc :
    (ss : List PieceState) (s : PieceState)
    → All IsCounted ss
    → IsCounted s
    → All IsCounted (ss ++ (s ∷ []))
All-snoc [] s h c = (c, tt)
All-snoc (x ∷ ss) s h c = (h.0, All-snoc ss s h.1 c)

pub start_downloading_missing :
    (pm : PieceManager) (index : ℕ)
    → get_elem? pm.piece_status index ≡ some missing
    → start_downloading pm index ≡ some (start_from pm index missing)
unfolding start_downloading
start_downloading_missing pm index e = rw (e, start_downloading) refl

start_from-IsSound :
    (pm : PieceManager) (index : ℕ)
    → get_elem? pm.piece_status index ≡ some missing
    → IsSound pm
    → IsSound (start_from pm index missing)
unfolding start_from new_piece_state
start_from-IsSound pm index e h = record {
  valid = start_downloading-IsValid pm index h.valid (start_downloading_missing pm index e);
  counts = All-snoc pm.downloading_pieces _ h.counts (sym (cut_blocks-fresh _ index _ 0));
}

-- What a step that may start a piece answers.
abbrev pub Starts : ActivePeer → PieceManager → Option (ActivePeer × PieceManager) → Type 0
Starts p pm o =
    (p' : ActivePeer) × (pm' : PieceManager) × (o ≡ some (p', pm'))
    × (IsSound pm → IsSound pm')
    × AsksOnce p p'

ask_new-Starts :
    (availability : List ℕ) (p : ActivePeer) (pm : PieceManager)
    → Starts p pm (ask_new availability p pm)
unfolding ask_new
ask_new-Starts availability p pm = elim (get_next_needed_piece_lem pm p.have_pieces availability) [
  | inl (n, un) ↦ rw (n, ask_new) (p, pm, refl, λ h. h, inl refl)
  | inr (index, e, w, best) ↦
      let started = start_from pm index missing in
      let x = ask_first index started.downloading_pieces p in
      let (counts, kept, once) = ask_first-Kept index started.downloading_pieces p in
      rw (e, start_downloading_missing pm index w.0, ask_new)
        (
          x.1,
          record started { downloading_pieces = x.0 },
          refl,
          λ h.
              let sound = start_from-IsSound pm index w.0 h in
              with_states-IsSound started x.0 sound counts (kept sound.counts),
          once,
        )
]

AsksOnce-over : (p p' q : ActivePeer) → p' ≡ over p'.connection p → AsksOnce p' q → AsksOnce p q
AsksOnce-over p p' q same (inl e) = inl (e ∙ ap (over q.connection) same)
AsksOnce-over p p' q same (inr (b, e)) = inr (b, e ∙ ap (asked q.connection b) same)

-- A request is made only of a peer with less than ten on their way.
abbrev pub Requests : ActivePeer → PieceManager → Option (ActivePeer × PieceManager) → Type 0
Requests p pm o =
    (p' : ActivePeer) × (pm' : PieceManager) × (o ≡ some (p', pm'))
    × (IsSound pm → IsSound pm')
    × ((p' ≡ over p'.connection p)
        ⊎ ((p.inflight_requests < 10) × (b : BlockInfo) × (p' ≡ asked p'.connection b p)))

pub request_step-Requests :
    (endgame : Bool) (availability : List ℕ) (p : ActivePeer) (pm : PieceManager)
    → Requests p pm (request_step endgame availability p pm)
unfolding request_step
request_step-Requests endgame availability p pm =
    if_cases (Requests p pm) (not p.peer_choking && p.am_interested && ltb p.inflight_requests 10) _
      _
      (λ t.
        allowed (room p.peer_choking p.am_interested p.inflight_requests t)
          (ask_states endgame pm.downloading_pieces p)
          (ask_states-Asks endgame pm.downloading_pieces p))
      (λ f. (p, pm, refl, λ h. h, inl refl))
  where
    room : (a b : Bool) (n : ℕ) → (not a && b && ltb n 10) ≡ true → n < 10
    room a b n h = ground arith

    within :
        p.inflight_requests < 10
        → {q : ActivePeer} → AsksOnce p q
        → (q ≡ over q.connection p)
          ⊎ ((p.inflight_requests < 10) × (b : BlockInfo) × (q ≡ asked q.connection b p))
    within lt (inl e) = inl e
    within lt (inr (b, e)) = inr (lt, b, e)

    allowed :
        p.inflight_requests < 10
        → (x : Bool × List PieceState × ActivePeer) → Asks endgame pm.downloading_pieces p x
        → Requests p pm (
            if not x.0 && ltb x.2.inflight_requests 10 && not endgame
            then ask_new availability x.2 (record pm { downloading_pieces = x.1 })
            else some (x.2, record pm { downloading_pieces = x.1 }))
    allowed lt (true, ss, p') a = (
      p',
      record pm { downloading_pieces = ss },
      refl,
      states-IsSound endgame pm p (true, ss, p') a,
      inr (lt, a.3, a.10),
    )
    allowed lt (false, ss, p') a =
        let sound = states-IsSound endgame pm p (false, ss, p') a in
        if_cases (Requests p pm) (ltb p'.inflight_requests 10 && not endgame) _ _
          (λ t.
            let (q, pm', e, keeps, once) =
              ask_new-Starts availability p' (record pm { downloading_pieces = ss }) in
            (q, pm', e, λ h. keeps (sound h), within lt (AsksOnce-over p p' q a.1 once)))
          (λ f. (p', record pm { downloading_pieces = ss }, refl, sound, inl a.1))
