-- ===== src/Download/Swarm/Progress.antt =====
-- A peer that unchoked us and has something is asked for it.
use iron_peer_417project_pri.Base.{
  ℕ, suc, ◌+◌, ◌-◌, ◌<◌, ◌≡◌, refl, ◌∙◌, ap, subst, inl, inr, List, [], ◌∷◌, ◌++◌, Option, some,
  Bool, true, false, not, ◌&&◌, ltb, lt→ltb, ◌==◌, ==_iff, if◌then◌else◌, if_cases, Bool-cases,
  get_or, get_elem?, set, zero, sym, as_u32, as_u64, arith,
}
use iron_peer_417project_pri.Protocol.Messages.{request}
use iron_peer_417project_pri.Protocol.Codec.{encode}
use iron_peer_417project_pri.Peer.Connection.{PeerConnection}
use iron_peer_417project_pri.Peer.Connection.Writes.{send_message_open}
use iron_peer_417project_pri.Download.Blocks.{
  BlockInfo, PieceState, block_len, cut_blocks, new_piece_state,
}
use iron_peer_417project_pri.Download.Pieces.{PieceManager, missing, start_from}
use iron_peer_417project_pri.Download.Pieces.Counting.{count_index}
use iron_peer_417project_pri.Download.Pieces.Invariant.{active}
use iron_peer_417project_pri.Download.Pieces.Rarest.{Wanted, get_next_needed_piece_lem}
use iron_peer_417project_pri.Download.Received.Invariant.{IsSound}
use iron_peer_417project_pri.Download.Swarm.{ActivePeer}
use iron_peer_417project_pri.Download.Swarm.Requests.{
  ask, is_wanted, ask_blocks, ask_states, ask_first_block, ask_first, ask_new, request_step,
}
use iron_peer_417project_pri.Download.Swarm.Asking.{
  none_tried, tried, Requested, asked, requested, Asks, ask_states-Asks,
}
use iron_peer_417project_pri.Download.Swarm.Starting.{start_downloading_missing}

-- A connection behind a Request for a block, whole, with the block's index, begin and length.
abbrev pub behind_request : BlockInfo → PeerConnection → PeerConnection
behind_request b c = record c { written = c.written ++ encode (request b.index b.begin b.length) }

-- A block of a piece under way that the peer has, marked as asked for.
abbrev pub Marked : List Bool → List PieceState → BlockInfo → Type 0
Marked have_pieces ss b =
    (j : ℕ) × (s : PieceState) × (k : ℕ) × (get_elem? ss j ≡ some s)
    × (get_or have_pieces s.index false ≡ true)
    × (get_elem? s.blocks k ≡ some (requested b))

-- The peer is sent a Request for a block of a piece that it has, which is marked.
abbrev pub Sends : ActivePeer → ActivePeer → PieceManager → Type 0
Sends p p' pm' =
    (b : BlockInfo) × (p' ≡ asked (behind_request b p.connection) b p)
    × Marked p.have_pieces pm'.downloading_pieces b

ask_open :
    (b : BlockInfo) (p : ActivePeer)
    → p.connection.writes ≡ []
    → ask b p ≡ (true, requested b, asked (behind_request b p.connection) b p)
unfolding ask
ask_open b p e = rw (send_message_open (request b.index b.begin b.length) p.connection e, ask) refl

get_elem?-set_there {ℓ} :
    {A : Type ℓ} (xs : List A) (i : ℕ) (x v : A)
    → get_elem? xs i ≡ some x
    → get_elem? (set xs i v) i ≡ some v
get_elem?-set_there [] i x v h = absurd cc
get_elem?-set_there (y ∷ xs) zero x v h = refl
get_elem?-set_there (y ∷ xs) (suc i) x v h = get_elem?-set_there xs i x v h

-- On a connection that writes, no Request fails, and the one that goes out is the first.
sent_first :
    (b : BlockInfo) (c c' : PeerConnection)
    → c.writes ≡ []
    → Requested b c c'
    → c' ≡ behind_request b c
sent_first b c c' e (before, none_tried, sent) =
    ap (λ (x : Bool × PeerConnection). x.1)
      (sym sent ∙ send_message_open (request b.index b.begin b.length) c e)
sent_first b c c' e (before, tried a failed later, sent) =
    let whole = send_message_open (request a.index a.begin a.length) c e in cc

-- On a connection that writes, no request means that nothing was tried.
ask_blocks_open :
    (endgame : Bool) (bs : List BlockInfo) (p : ActivePeer)
    → p.connection.writes ≡ []
    → (ask_blocks endgame bs p).0 ≡ false
    → (ask_blocks endgame bs p).2 ≡ p
unfolding ask_blocks
ask_blocks_open endgame [] p e h = refl
ask_blocks_open endgame (b ∷ bs) p e h = elim (Bool-cases (is_wanted endgame b p)) [
  | inr f ↦ rw (f, ask_blocks) (ask_blocks_open endgame bs p e (rw (f, ask_blocks) at h))
  | inl t ↦ let q = ask_open b p e in let bad = rw (t, q, ask_blocks) at h in cc
]

ask_states_open :
    (endgame : Bool) (ss : List PieceState) (p : ActivePeer)
    → p.connection.writes ≡ []
    → (ask_states endgame ss p).0 ≡ false
    → (ask_states endgame ss p).2 ≡ p
unfolding ask_states
ask_states_open endgame [] p e h = refl
ask_states_open endgame (s ∷ ss) p e h = elim (Bool-cases (get_or p.have_pieces s.index false)) [
  | inr f ↦ rw (f, ask_states) (ask_states_open endgame ss p e (rw (f, ask_states) at h))
  | inl t ↦ elim (Bool-cases (ask_blocks endgame s.blocks p).0) [
    | inl made ↦ let bad = rw (t, made, ask_states) at h in cc
    | inr not_made ↦
        let same = ask_blocks_open endgame s.blocks p e not_made in
        rw (t, not_made, same, ask_states)
          (ask_states_open endgame ss p e (rw (t, not_made, same, ask_states) at h))
  ]
]

-- The state of a new piece is behind those of others, and its first block is asked for.
abbrev AsksFirst : List PieceState → ActivePeer → BlockInfo → List PieceState × ActivePeer → Type 0
AsksFirst ss p b x = (x.1 ≡ asked (behind_request b p.connection) b p) × Marked p.have_pieces x.0 b

ask_first-append :
    (index : ℕ) (ss : List PieceState) (s : PieceState) (b : BlockInfo) (bs : List BlockInfo)
    (p : ActivePeer)
    → p.connection.writes ≡ []
    → count_index index ss ≡ 0
    → s.index ≡ index
    → get_or p.have_pieces index false ≡ true
    → s.blocks ≡ b ∷ bs
    → AsksFirst ss p b (ask_first index (ss ++ (s ∷ [])) p)
unfolding ask_first count_index ask_first_block
ask_first-append index [] s b bs p e unlisted same has blocks =
    let here : ask_first_block s.blocks p
        ≡ (requested b ∷ bs, asked (behind_request b p.connection) b p) =
      rw (blocks, ask_first_block, ask_open b p e) refl in
    let step : ask_first index (s ∷ []) p
        ≡ (record s { blocks = requested b ∷ bs } ∷ [], asked (behind_request b p.connection) b p) =
      rw ((==_iff s.index index).1 same, here, ask_first) refl in
    subst (AsksFirst [] p b) (sym step) (
      refl,
      (
        zero,
        record s { blocks = requested b ∷ bs },
        zero,
        refl,
        ap (λ i. get_or p.have_pieces i false) same ∙ has,
        refl,
      ),
    )
ask_first-append index (x ∷ ss) s b bs p e unlisted same has blocks =
    elim (Bool-cases (x.index == index)) [
      | inl t ↦ let bad = rw t at unlisted in absurd (omega arith)
      | inr f ↦
          let none_of : count_index index ss ≡ 0 = let rest = rw f at unlisted in omega arith in
          let (q, (j, s', k, at, has', marked)) =
            ask_first-append index ss s b bs p e none_of same has blocks in
          rw (f, ask_first) (q, (suc j, s', k, at, has', marked))
    ]

-- A piece of at least a byte has a block.
cut_blocks-suc :
    (n index len : ℕ)
    → 0 < len
    → (b : BlockInfo) × (bs : List BlockInfo) × (cut_blocks (suc n) index len 0 ≡ b ∷ bs)
unfolding cut_blocks
cut_blocks-suc n index len h = elim (Bool-cases (ltb 0 len)) [
  | inl t ↦ (first, cut_blocks n index len (as_u64 (0 + block_len len 0)), rw t refl)
  | inr f ↦ let bad = lt→ltb 0 len h in cc
]
  where
    first : BlockInfo
    first = record {
      index = as_u32 index;
      begin = 0;
      length = block_len len 0;
      downloaded = false;
      requested = false;
    }

cut_blocks-cons :
    (index len : ℕ)
    → 0 < len
    → (b : BlockInfo) × (bs : List BlockInfo) × (cut_blocks len index len 0 ≡ b ∷ bs)
cut_blocks-cons index len h =
    let whole : suc (len - 1) ≡ len = omega arith in
    subst (λ (n : ℕ). (b : BlockInfo) × (bs : List BlockInfo) × (cut_blocks n index len 0 ≡ b ∷ bs))
      whole (cut_blocks-suc (len - 1) index len h)

module _ (availability : List ℕ) (p : ActivePeer) (pm : PieceManager) (j : ℕ) (sound : IsSound pm)
    (wanted : Wanted pm.piece_status p.have_pieces j) (long : 0 < pm.piece_length)
    (last : 0 < pm.last_piece_length) (writes : p.connection.writes ≡ []) where
  -- The peer that a piece is started for is asked for its first block.
  ask_new_open :
      (p' : ActivePeer) × (pm' : PieceManager) × (ask_new availability p pm ≡ some (p', pm'))
      × Sends p p' pm'
  unfolding ask_new start_from new_piece_state
  ask_new_open = elim (get_next_needed_piece_lem pm p.have_pieces availability) [
    | inl (n, un) ↦ absurd (un j wanted)
    | inr (index, e, w, best) ↦
        let len = if index == pm.total_pieces - 1 then pm.last_piece_length else pm.piece_length in
        let pos : 0 < len =
          if_cases (λ n. 0 < n) (index == pm.total_pieces - 1) _ _ (λ t. last) (λ f. long) in
        let (b, bs, blocks) = cut_blocks-cons index len pos in
        let fresh : count_index index pm.downloading_pieces ≡ 0 =
          sound.valid.listed index ∙ ap active w.0 in
        let started = start_from pm index missing in
        let x = ask_first index started.downloading_pieces p in
        let (q, marked) =
          ask_first-append index pm.downloading_pieces (new_piece_state index len) b bs p writes
            fresh refl w.1 blocks in
        (
          x.1,
          record started { downloading_pieces = x.0 },
          rw (e, start_downloading_missing pm index w.0, ask_new) refl,
          (b, q, marked),
        )
  ]

tests : (a b : Bool) (n : ℕ) → a ≡ false → b ≡ true → n < 10 → (not a && b && ltb n 10) ≡ true
tests a b n e f lt = ground arith

-- A connected peer that has unchoked us, that has a missing piece, in which we said that we are
-- interested, and of which fewer than ten requests are on their way, is sent one Request when its
-- turn comes: for a block of a piece that it has, of one under way or of a new one, with the index,
-- the begin and the length of the block, which is marked and counted. This is outside the endgame,
-- with pieces of at least a byte and a connection that writes.
pub request_step_progress :
    (availability : List ℕ) (p : ActivePeer) (pm : PieceManager) (j : ℕ)
    → IsSound pm
    → Wanted pm.piece_status p.have_pieces j
    → 0 < pm.piece_length
    → 0 < pm.last_piece_length
    → p.connection.writes ≡ []
    → p.peer_choking ≡ false
    → p.am_interested ≡ true
    → p.inflight_requests < 10
    → (p' : ActivePeer) × (pm' : PieceManager) × (request_step false availability p pm
        ≡ some (p', pm'))
      × Sends p p' pm'
unfolding request_step
request_step_progress availability p pm j sound wanted long last writes unchoked interest room =
    if_cases Asked (not p.peer_choking && p.am_interested && ltb p.inflight_requests 10) _ _
      (λ t.
        by (ask_states false pm.downloading_pieces p)
          (ask_states-Asks false pm.downloading_pieces p)
          (ask_states_open false pm.downloading_pieces p writes))
      (λ f.
        let t = tests p.peer_choking p.am_interested p.inflight_requests unchoked interest room in
        cc)
  where
    Asked : Option (ActivePeer × PieceManager) → Type 0
    Asked o = (p' : ActivePeer) × (pm' : PieceManager) × (o ≡ some (p', pm')) × Sends p p' pm'

    by :
        (x : Bool × List PieceState × ActivePeer)
        → Asks false pm.downloading_pieces p x
        → (x.0 ≡ false → x.2 ≡ p)
        → (p' : ActivePeer) × (pm' : PieceManager) × ((if not x.0
                && ltb x.2.inflight_requests 10
                && true
              then ask_new availability x.2 (record pm { downloading_pieces = x.1 })
              else some (x.2, record pm { downloading_pieces = x.1 }))
            ≡ some (p', pm'))
          × Sends p p' pm'
    by (true, ss, p') (i, s, k, b, at, has, block, wants, e, r, q) same = (
      p',
      record pm { downloading_pieces = ss },
      refl,
      (
        b,
        q ∙ ap (λ c. asked c b p) (sent_first b p.connection p'.connection writes r),
        (
          i,
          record s { blocks = set s.blocks k (requested b) },
          k,
          ap (λ l. get_elem? l i) e ∙ get_elem?-set_there pm.downloading_pieces i s _ at,
          has,
          get_elem?-set_there s.blocks k b _ block,
        ),
      ),
    )
    by (false, ss, p') a same =
        let here : p' ≡ p = same refl in
        let (q, pm', e, more) = ask_new_open availability p pm j sound wanted long last writes in
        (q, pm', rw (here, a.0, lt→ltb p.inflight_requests 10 room) e, more)
