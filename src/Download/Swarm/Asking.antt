-- ===== src/Download/Swarm/Asking.antt =====
-- Which request the loop over the pieces under way makes.
use iron_peer_417project_pri.Base.{
  ℕ, zero, suc, ◌+◌, ◌≡◌, refl, ap, ap₂, subst, ◌⊎◌, inl, inr, List, [], ◌∷◌, ◌++◌, some, Bool,
  true, false, not, ◌&&◌, ◌||◌, ◌==◌, All, arith, if◌then◌else◌, Bool-cases, get_elem?, get_or, set,
}
use iron_peer_417project_pri.Protocol.Messages.{request}
use iron_peer_417project_pri.Peer.Connection.{PeerConnection, send_message}
use iron_peer_417project_pri.Download.Blocks.{BlockInfo, PieceState}
use iron_peer_417project_pri.Download.Swarm.{ActivePeer}
use iron_peer_417project_pri.Download.Swarm.Requests.{
  ask, contains_block, is_wanted, ask_blocks, ask_states,
}

-- A peer with another connection, and one that was asked for a block over it.
abbrev pub over : PeerConnection → ActivePeer → ActivePeer
over c p = record p { connection = c }

abbrev pub asked : PeerConnection → BlockInfo → ActivePeer → ActivePeer
asked c b p = record p {
  connection = c;
  inflight_requests = p.inflight_requests + 1;
  requested_blocks = p.requested_blocks ++ ((b.index, b.begin) ∷ []);
}

abbrev pub requested : BlockInfo → BlockInfo
requested b = record b { requested = true }

-- The connection as some requests leave it none of which went out whole.
pub data Failed : PeerConnection → PeerConnection → Type 0 where
  none_tried : {c : PeerConnection} → Failed c c
  tried :
      {c c' c'' : PeerConnection} (b : BlockInfo)
      → send_message (request b.index b.begin b.length) c ≡ (false, c')
      → Failed c' c''
      → Failed c c''

-- A request for a block that went out whole, behind some that did not.
abbrev pub Requested : BlockInfo → PeerConnection → PeerConnection → Type 0
Requested b c c' =
    (before : PeerConnection) × Failed c before
    × (send_message (request b.index b.begin b.length) before ≡ (true, c'))

Failed-append : {c d e : PeerConnection} → Failed c d → Failed d e → Failed c e
Failed-append none_tried g = g
Failed-append (tried b e f) g = tried b e (Failed-append f g)

Requested-later :
    {c d e : PeerConnection} (b : BlockInfo)
    → ((x : PeerConnection) → Failed d x → Failed c x)
    → Requested b d e
    → Requested b c e
Requested-later b more (before, f, sent) = (before, more before f, sent)

pub ask_cases :
    (b : BlockInfo) (p : ActivePeer)
    → (c : PeerConnection) × (((ask b p ≡ (true, requested b, asked c b p))
          × (send_message (request b.index b.begin b.length) p.connection ≡ (true, c)))
        ⊎ ((ask b p ≡ (false, b, over c p))
            × (send_message (request b.index b.begin b.length) p.connection ≡ (false, c))))
unfolding ask
ask_cases b p = by (send_message (request b.index b.begin b.length) p.connection) refl
  where
    by :
        (x : Bool × PeerConnection)
        → send_message (request b.index b.begin b.length) p.connection ≡ x
        → (c : PeerConnection) × (((ask b p ≡ (true, requested b, asked c b p))
              × (send_message (request b.index b.begin b.length) p.connection ≡ (true, c)))
            ⊎ ((ask b p ≡ (false, b, over c p))
                × (send_message (request b.index b.begin b.length) p.connection ≡ (false, c))))
    by (true, c) e = (c, inl (rw (e, ask) refl, e))
    by (false, c) e = (c, inr (rw (e, ask) refl, e))

-- A block that may be asked for: it is not downloaded, it is not among the blocks that the peer was
-- asked for, and nobody was asked for it unless this is the endgame.
pub record Wants (endgame : Bool) (b : BlockInfo) (asked_for : List (ℕ × ℕ)) : Type 0 where
  pub missing : b.downloaded ≡ false
  pub unasked : All (λ r. ¬ ((r.0 ≡ b.index) × (r.1 ≡ b.begin))) asked_for
  pub free : (endgame ≡ true) ⊎ (b.requested ≡ false)

contains_block_lem :
    (i b : ℕ) (rs : List (ℕ × ℕ))
    → contains_block i b rs ≡ false
    → All (λ r. ¬ ((r.0 ≡ i) × (r.1 ≡ b))) rs
unfolding contains_block
contains_block_lem i b [] h = tt
contains_block_lem i b ((j, c) ∷ rs) h = (
  λ e. head_differs j c i b _ h e.0 e.1,
  contains_block_lem i b rs (tail_false (j == i && c == b) _ h),
)
  where
    tail_false : (x y : Bool) → (x || y) ≡ false → y ≡ false
    tail_false true y k = cc
    tail_false false y k = k

    head_differs : (j c i b : ℕ) (y : Bool) → ((j == i && c == b) || y) ≡ false → j ≡ i → c ≡ b → ⊥
    head_differs j c i b y k e f = ground arith

is_wanted-Wants :
    (endgame : Bool) (b : BlockInfo) (p : ActivePeer)
    → is_wanted endgame b p ≡ true
    → Wants endgame b p.requested_blocks
unfolding is_wanted
is_wanted-Wants endgame b p h =
    let (m, u, f) =
      parts b.downloaded (contains_block b.index b.begin p.requested_blocks) endgame b.requested
        h in
    record {
      missing = m;
      unasked = contains_block_lem b.index b.begin p.requested_blocks u;
      free = f;
    }
  where
    parts :
        (x y z w : Bool)
        → (not x && not y && (z || not w)) ≡ true
        → (x ≡ false) × (y ≡ false) × ((z ≡ true) ⊎ (w ≡ false))
    parts false false true w k = (refl, refl, inl refl)
    parts false false false false k = (refl, refl, inr refl)
    parts false false false true k = cc
    parts false true z w k = cc
    parts true y z w k = cc

-- No request: the blocks are the same, and the peer but for its connection. Or one, for a block
-- that is wanted of the peer, which is marked.
abbrev pub AsksBlock :
    Bool → List BlockInfo → ActivePeer → Bool × List BlockInfo × ActivePeer → Type 0
AsksBlock endgame bs p (false, bs', p') =
    (bs' ≡ bs) × (p' ≡ over p'.connection p) × Failed p.connection p'.connection
AsksBlock endgame bs p (true, bs', p') =
    (k : ℕ) × (b : BlockInfo) × (get_elem? bs k ≡ some b)
    × Wants endgame b p.requested_blocks
    × (bs' ≡ set bs k (requested b))
    × Requested b p.connection p'.connection
    × (p' ≡ asked p'.connection b p)

AsksBlock-later :
    (endgame : Bool) (b : BlockInfo) (bs : List BlockInfo) (c : PeerConnection) (p : ActivePeer)
    (x : Bool × List BlockInfo × ActivePeer)
    → ((d : PeerConnection) → Failed c d → Failed p.connection d)
    → AsksBlock endgame bs (over c p) x
    → AsksBlock endgame (b ∷ bs) p (x.0, b ∷ x.1, x.2)
AsksBlock-later endgame b bs c p (false, bs', p') more (e, q, f) =
    (ap (λ l. b ∷ l) e, q, more p'.connection f)
AsksBlock-later endgame b bs c p (true, bs', p') more (k, a, g, w, e, r, q) =
    (suc k, a, g, w, ap (λ l. b ∷ l) e, Requested-later a more r, q)

pub ask_blocks-AsksBlock :
    (endgame : Bool) (bs : List BlockInfo) (p : ActivePeer)
    → AsksBlock endgame bs p (ask_blocks endgame bs p)
unfolding ask_blocks
ask_blocks-AsksBlock endgame [] p = (refl, refl, none_tried)
ask_blocks-AsksBlock endgame (b ∷ bs) p = elim (Bool-cases (is_wanted endgame b p)) [
  | inr f ↦
      rw (f, ask_blocks)
        (AsksBlock-later endgame b bs p.connection p _ (λ d f. f)
          (ask_blocks-AsksBlock endgame bs p))
  | inl t ↦
      let (c, which) = ask_cases b p in
      elim which [
        | inl (e, sent) ↦
            rw (t, e, ask_blocks)
              (
                zero,
                b,
                refl,
                is_wanted-Wants endgame b p t,
                refl,
                (p.connection, none_tried, sent),
                refl,
              )
        | inr (e, failed) ↦
            rw (t, e, ask_blocks)
              (AsksBlock-later endgame b bs c p _ (λ d f. tried b failed f)
                (ask_blocks-AsksBlock endgame bs (over c p)))
      ]
]

-- The same over the pieces under way: a request is for a block of a piece that the peer has.
abbrev pub Asks : Bool → List PieceState → ActivePeer → Bool × List PieceState × ActivePeer → Type 0
Asks endgame ss p (false, ss', p') =
    (ss' ≡ ss) × (p' ≡ over p'.connection p) × Failed p.connection p'.connection
Asks endgame ss p (true, ss', p') =
    (j : ℕ) × (s : PieceState) × (k : ℕ) × (b : BlockInfo) × (get_elem? ss j ≡ some s)
    × (get_or p.have_pieces s.index false ≡ true)
    × (get_elem? s.blocks k ≡ some b)
    × Wants endgame b p.requested_blocks
    × (ss' ≡ set ss j (record s { blocks = set s.blocks k (requested b) }))
    × Requested b p.connection p'.connection
    × (p' ≡ asked p'.connection b p)

Asks-later :
    (endgame : Bool) (s s' : PieceState) (ss : List PieceState) (c : PeerConnection)
    (p : ActivePeer) (x : Bool × List PieceState × ActivePeer)
    → s' ≡ s
    → ((d : PeerConnection) → Failed c d → Failed p.connection d)
    → Asks endgame ss (over c p) x
    → Asks endgame (s ∷ ss) p (x.0, s' ∷ x.1, x.2)
Asks-later endgame s s' ss c p (false, ss', p') same more (e, q, f) =
    (ap₂ ◌∷◌ same e, q, more p'.connection f)
Asks-later endgame s s' ss c p (true, ss', p') same more (j, a, k, b, g, h, i, w, e, r, q) =
    (suc j, a, k, b, g, h, i, w, ap₂ ◌∷◌ same e, Requested-later b more r, q)

-- A piece that the peer has: what its blocks led to.
Asks-here :
    (endgame : Bool) (s : PieceState) (ss : List PieceState) (p : ActivePeer)
    (x : Bool × List BlockInfo × ActivePeer)
    → get_or p.have_pieces s.index false ≡ true
    → AsksBlock endgame s.blocks p x
    → ((q : ActivePeer) → Asks endgame ss q (ask_states endgame ss q))
    → Asks endgame (s ∷ ss) p (
        if x.0 then (true, record s { blocks = x.1 } ∷ ss, x.2) else (
          (ask_states endgame ss x.2).0,
          record s { blocks = x.1 } ∷ (ask_states endgame ss x.2).1,
          (ask_states endgame ss x.2).2,
        ))
Asks-here endgame s ss p (true, bs', p') has (k, b, g, w, e, r, q) later =
    (zero, s, k, b, refl, has, g, w, ap (λ l. record s { blocks = l } ∷ ss) e, r, q)
Asks-here endgame s ss p (false, bs', p') has (e, q, f) later =
    Asks-later endgame s (record s { blocks = bs' }) ss p'.connection p _
      (ap (λ l. record s { blocks = l }) e) (λ d g. Failed-append f g)
      (subst (λ (r : ActivePeer). Asks endgame ss r (ask_states endgame ss p')) q (later p'))

-- The loop over the pieces under way writes at most one whole Request to the peer's connection. It
-- carries the index, the begin and the length of a block, of a piece that the peer has, that is not
-- downloaded, that this peer was not asked for, and, but in the endgame, that nobody was asked for;
-- the block is marked, and the peer has one more request on its way. All that is tried besides is
-- Requests whose sending fails. Without a request the pieces are as they were, and so is the peer,
-- but for its connection.
pub ask_states-Asks :
    (endgame : Bool) (ss : List PieceState) (p : ActivePeer)
    → Asks endgame ss p (ask_states endgame ss p)
unfolding ask_states
ask_states-Asks endgame [] p = (refl, refl, none_tried)
ask_states-Asks endgame (s ∷ ss) p = elim (Bool-cases (get_or p.have_pieces s.index false)) [
  | inr f ↦
      rw (f, ask_states)
        (Asks-later endgame s s ss p.connection p _ refl (λ d f. f) (ask_states-Asks endgame ss p))
  | inl t ↦
      rw (t, ask_states)
        (Asks-here endgame s ss p (ask_blocks endgame s.blocks p) t
          (ask_blocks-AsksBlock endgame s.blocks p) (λ q. ask_states-Asks endgame ss q))
]
