-- ===== src/Download/Swarm/Requests.antt =====
-- src/download/manager.rs: which blocks `tick` asks a peer for.
use iron_peer_417project_pri.Base.{
  ℕ, ◌+◌, List, [], ◌∷◌, ◌++◌, Option, none, some, Bool, true, false, not, ◌&&◌, ◌||◌, ltb, ◌==◌,
  if◌then◌else◌, get_or,
}
use iron_peer_417project_pri.Protocol.Messages.{request}
use iron_peer_417project_pri.Peer.Connection.{send_message}
use iron_peer_417project_pri.Download.Blocks.{BlockInfo, PieceState}
use iron_peer_417project_pri.Download.Pieces.{
  PieceManager, get_next_needed_piece, start_downloading,
}
use iron_peer_417project_pri.Download.Swarm.{ActivePeer}

-- `requested_blocks.contains(&(block.index, block.begin))`
unfoldable pub contains_block : ℕ → ℕ → List (ℕ × ℕ) → Bool
contains_block index begin [] = false
contains_block index begin ((i, b) ∷ rs) =
    (i == index && b == begin) || contains_block index begin rs

-- A request for a block: whether it was sent, the block and the peer.
unfoldable pub ask : BlockInfo → ActivePeer → Bool × BlockInfo × ActivePeer
ask b p =
    let (sent, c) = send_message (request b.index b.begin b.length) p.connection in
    if sent
    then (
      true,
      record b { requested = true },
      record p {
        connection = c;
        inflight_requests = p.inflight_requests + 1;
        requested_blocks = p.requested_blocks ++ ((b.index, b.begin) ∷ []);
      },
    )
    else (false, b, record p { connection = c })

-- Whether a block is to be asked for.
unfoldable pub is_wanted : Bool → BlockInfo → ActivePeer → Bool
is_wanted endgame b p =
    not b.downloaded
    && not (contains_block b.index b.begin p.requested_blocks)
    && (endgame || not b.requested)

-- `for block in &mut piece_state.blocks`, until a request was sent.
unfoldable pub ask_blocks : Bool → List BlockInfo → ActivePeer → Bool × List BlockInfo × ActivePeer
ask_blocks endgame [] p = (false, [], p)
ask_blocks endgame (b ∷ bs) p =
    let (sent, b', p') = ask b p in
    let later = ask_blocks endgame bs p' in
    let skipped = ask_blocks endgame bs p in
    if is_wanted endgame b p
    then (if sent then (true, b' ∷ bs, p') else (later.0, b' ∷ later.1, later.2))
    else (skipped.0, b ∷ skipped.1, skipped.2)

-- `for piece_state in &mut downloading_pieces`, until a request was sent.
unfoldable pub ask_states :
    Bool → List PieceState → ActivePeer → Bool × List PieceState × ActivePeer
ask_states endgame [] p = (false, [], p)
ask_states endgame (s ∷ ss) p =
    let (made, blocks, p') = ask_blocks endgame s.blocks p in
    let s' : PieceState = record s { blocks = blocks } in
    let later = ask_states endgame ss p' in
    let skipped = ask_states endgame ss p in
    if get_or p.have_pieces s.index false
    then (if made then (true, s' ∷ ss, p') else (later.0, s' ∷ later.1, later.2))
    else (skipped.0, s ∷ skipped.1, skipped.2)

-- `blocks.first_mut()`
unfoldable pub ask_first_block : List BlockInfo → ActivePeer → List BlockInfo × ActivePeer
ask_first_block [] p = ([], p)
ask_first_block (b ∷ bs) p = let (sent, b', p') = ask b p in (b' ∷ bs, p')

-- `downloading_pieces.iter_mut().find(|p| p.index == index)`, and its first block.
unfoldable pub ask_first : ℕ → List PieceState → ActivePeer → List PieceState × ActivePeer
ask_first index [] p = ([], p)
ask_first index (s ∷ ss) p =
    let (blocks, p') = ask_first_block s.blocks p in
    let later = ask_first index ss p in
    if s.index == index then (record s { blocks = blocks } ∷ ss, p') else (s ∷ later.0, later.1)

-- The start of a new piece for a peer.
unfoldable pub ask_new : List ℕ → ActivePeer → PieceManager → Option (ActivePeer × PieceManager)
ask_new availability p pm = elim (get_next_needed_piece pm p.have_pieces availability) [
  | none ↦ some (p, pm)
  | some index ↦ elim (start_downloading pm index) [
    | none ↦ none
    | some pm' ↦
        let (states, p') = ask_first index pm'.downloading_pieces p in
        some (p', record pm' { downloading_pieces = states })
  ]
]

-- 4. Request blocks
unfoldable pub request_step :
    Bool → List ℕ → ActivePeer → PieceManager → Option (ActivePeer × PieceManager)
request_step endgame availability p pm =
    let (made, states, p') = ask_states endgame pm.downloading_pieces p in
    let pm' : PieceManager = record pm { downloading_pieces = states } in
    if not p.peer_choking && p.am_interested && ltb p.inflight_requests 10
    then (if not made && ltb p'.inflight_requests 10 && not endgame
        then ask_new availability p' pm'
        else some (p', pm'))
    else some (p, pm)
