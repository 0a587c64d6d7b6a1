-- ===== src/Client/Addresses.antt =====
-- No step of `tick` changes to whom a peer's connection goes.
use iron_peer_417project_pri.Base.{
  ℕ, ◌≡◌, refl, ◌∙◌, subst, inl, inr, List, [], ◌∷◌, Option, none, some, Option-cases, Bool, true,
  false, not, ◌&&◌, ltb, ◌==◌, if_cases, Result, ok, err, get_or,
}
use iron_peer_417project_pri.Base.Panic.{◌>>=◌}
use iron_peer_417project_pri.Structs.Peer.{Peer}
use iron_peer_417project_pri.Storage.Files.{panics, FileManager, IoError, read_block}
use iron_peer_417project_pri.Protocol.Messages.{
  Message, keep_alive, choke, unchoke, interested, not_interested, have, bitfield, request, piece,
  cancel, port,
}
use iron_peer_417project_pri.Protocol.Codec.{DecodeError, encode}
use iron_peer_417project_pri.Protocol.Decoder.{Poll, done, out_of_fuel, read_message}
use iron_peer_417project_pri.Peer.Connection.{
  PeerConnection, Write, whole, failed_after, write_by, write_all, send_message, on_poll,
  next_message,
}
use iron_peer_417project_pri.Download.Blocks.{BlockInfo, PieceState}
use iron_peer_417project_pri.Download.Pieces.{
  PieceManager, is_complete, get_next_needed_piece, start_downloading,
}
use iron_peer_417project_pri.Download.Received.{on_piece}
use iron_peer_417project_pri.Download.Swarm.{ActivePeer, Shared}
use iron_peer_417project_pri.Download.Swarm.Messages.{
  answered, upload, receive, on_message, on_answer, read_step,
}
use iron_peer_417project_pri.Download.Swarm.Requests.{
  ask, is_wanted, ask_blocks, ask_states, ask_first_block, ask_first, ask_new, request_step,
}
use iron_peer_417project_pri.Download.Swarm.Tick.{choke_step, interest_step, then_request, visit}

abbrev pub peer_at : ActivePeer → Peer
peer_at p = p.connection.peer

pub send_message-peer : (m : Message) (c : PeerConnection) → (send_message m c).1.peer ≡ c.peer
unfolding send_message write_all write_by
send_message-peer m c = by c.writes
  where
    by : (ws : List Write) → (write_by ws (encode m) c).1.peer ≡ c.peer
    by [] = refl
    by (whole ∷ ws) = refl
    by (failed_after n ∷ ws) = refl

next_message-peer : (c : PeerConnection) → (next_message c).1.peer ≡ c.peer
unfolding next_message on_poll
next_message-peer c = by (read_message c.buffer c.reader)
  where
    by : (x : Poll) → (on_poll c x).1.peer ≡ c.peer
    by (done answer buffer reader) = refl
    by out_of_fuel = refl

ask-peer : (b : BlockInfo) (p : ActivePeer) → peer_at (ask b p).2 ≡ peer_at p
unfolding ask
ask-peer b p =
    let same = send_message-peer (request b.index b.begin b.length) p.connection in
    if_cases (λ (x : Bool × BlockInfo × ActivePeer). peer_at x.2 ≡ peer_at p)
      (send_message (request b.index b.begin b.length) p.connection).0 _ _ (λ t. same) (λ f. same)

ask_blocks-peer :
    (endgame : Bool) (bs : List BlockInfo) (p : ActivePeer)
    → peer_at (ask_blocks endgame bs p).2 ≡ peer_at p
unfolding ask_blocks
ask_blocks-peer endgame [] p = refl
ask_blocks-peer endgame (b ∷ bs) p =
    if_cases Same (is_wanted endgame b p) _ _
      (λ t.
        if_cases Same (ask b p).0 _ _ (λ u. ask-peer b p)
          (λ u. ask_blocks-peer endgame bs (ask b p).2 ∙ ask-peer b p))
      (λ f. ask_blocks-peer endgame bs p)
  where
    Same : Bool × List BlockInfo × ActivePeer → Type 0
    Same x = peer_at x.2 ≡ peer_at p

ask_states-peer :
    (endgame : Bool) (ss : List PieceState) (p : ActivePeer)
    → peer_at (ask_states endgame ss p).2 ≡ peer_at p
unfolding ask_states
ask_states-peer endgame [] p = refl
ask_states-peer endgame (s ∷ ss) p =
    let here = ask_blocks-peer endgame s.blocks p in
    if_cases Same (get_or p.have_pieces s.index false) _ _
      (λ t.
        if_cases Same (ask_blocks endgame s.blocks p).0 _ _ (λ u. here)
          (λ u. ask_states-peer endgame ss (ask_blocks endgame s.blocks p).2 ∙ here))
      (λ f. ask_states-peer endgame ss p)
  where
    Same : Bool × List PieceState × ActivePeer → Type 0
    Same x = peer_at x.2 ≡ peer_at p

ask_first_block-peer :
    (bs : List BlockInfo) (p : ActivePeer) → peer_at (ask_first_block bs p).1 ≡ peer_at p
unfolding ask_first_block
ask_first_block-peer [] p = refl
ask_first_block-peer (b ∷ bs) p = ask-peer b p

ask_first-peer :
    (index : ℕ) (ss : List PieceState) (p : ActivePeer)
    → peer_at (ask_first index ss p).1 ≡ peer_at p
unfolding ask_first
ask_first-peer index [] p = refl
ask_first-peer index (s ∷ ss) p =
    if_cases (λ (x : List PieceState × ActivePeer). peer_at x.1 ≡ peer_at p) (s.index == index) _ _
      (λ t. ask_first_block-peer s.blocks p) (λ f. ask_first-peer index ss p)

-- The peer of a result, where there is one, is `a`.
abbrev pub Keeps : {B : Type 0} → Peer → Option (ActivePeer × B) → Type 0
Keeps a none = Unit {0}
Keeps a (some (p, x)) = peer_at p ≡ a

ask_new-Keeps :
    (availability : List ℕ) (p : ActivePeer) (pm : PieceManager)
    → Keeps (peer_at p) (ask_new availability p pm)
unfolding ask_new
ask_new-Keeps availability p pm =
    elim (Option-cases (get_next_needed_piece pm p.have_pieces availability)) [
      | inl n ↦ rw (n, ask_new) refl
      | inr r ↦ elim (Option-cases (start_downloading pm r.0)) [
        | inl n ↦ rw (r.1, ask_new, n) tt
        | inr q ↦ rw (r.1, ask_new, q.1) (ask_first-peer r.0 q.0.downloading_pieces p)
      ]
    ]

request_step-Keeps :
    (endgame : Bool) (availability : List ℕ) (p : ActivePeer) (pm : PieceManager)
    → Keeps (peer_at p) (request_step endgame availability p pm)
unfolding request_step
request_step-Keeps endgame availability p pm =
    let x = ask_states endgame pm.downloading_pieces p in
    let same = ask_states-peer endgame pm.downloading_pieces p in
    if_cases (Keeps (peer_at p))
      (not p.peer_choking && p.am_interested && ltb p.inflight_requests 10) _ _
      (λ t.
        if_cases (Keeps (peer_at p)) (not x.0 && ltb x.2.inflight_requests 10 && not endgame) _ _
          (λ u.
            subst (λ a. Keeps a (ask_new availability x.2 (record pm { downloading_pieces = x.1 })))
              same (ask_new-Keeps availability x.2 (record pm { downloading_pieces = x.1 })))
          (λ u. same))
      (λ f. refl)

then_request-Keeps :
    (endgame : Bool) (availability : List ℕ) (a : Peer) (x : Bool × ActivePeer × Shared)
    → peer_at x.1 ≡ a
    → Keeps a (then_request endgame availability x)
unfolding then_request
then_request-Keeps endgame availability a (false, p, s) same = same
then_request-Keeps endgame availability a (true, p, s) same =
    by (request_step endgame availability p s.piece_manager)
      (request_step-Keeps endgame availability p s.piece_manager)
  where
    by :
        (o : Option (ActivePeer × PieceManager))
        → Keeps (peer_at p) o
        → Keeps a (o >>= λ r. some (r.0, record s { piece_manager = r.1 }))
    by none k = tt
    by (some (q, pm)) k = k ∙ same

choke_step-peer : (p : ActivePeer) (s : Shared) → peer_at (choke_step p s).0 ≡ peer_at p
unfolding choke_step
choke_step-peer p s =
    if_cases Same (p.peer_interested && p.am_choking && ltb s.unchoked_peers 5) _ _
      (λ t.
        if_cases Same (send_message unchoke p.connection).0 _ _
          (λ u. send_message-peer unchoke p.connection)
          (λ u. send_message-peer unchoke p.connection))
      (λ f. refl)
  where
    Same : ActivePeer × Shared → Type 0
    Same x = peer_at x.0 ≡ peer_at p

interest_step-peer :
    (i : ℕ) (p : ActivePeer) (s : Shared) → peer_at (interest_step i p s).1 ≡ peer_at p
unfolding interest_step
interest_step-peer i p s =
    if_cases Same (not p.am_interested && not (is_complete s.piece_manager)) _ _
      (λ t.
        if_cases Same (send_message interested p.connection).0 _ _
          (λ u. send_message-peer interested p.connection)
          (λ u. send_message-peer interested p.connection))
      (λ f. refl)
  where
    Same : Bool × ActivePeer × Shared → Type 0
    Same x = peer_at x.1 ≡ peer_at p

upload-peer :
    (i index begin : ℕ) (r : Result IoError (List ℕ)) (p : ActivePeer) (s : Shared)
    → peer_at (upload i index begin r p s).0 ≡ peer_at p
unfolding upload
upload-peer i index begin (err e) p s = refl
upload-peer i index begin (ok block) p s = send_message-peer (piece index begin block) p.connection

module _ (sha1 : List ℕ → List ℕ) (m : FileManager) (piece_hashes : List (List ℕ)) where
  receive-Keeps :
      (index begin : ℕ) (block : List ℕ) (p : ActivePeer) (s : Shared)
      → Keeps (peer_at p) (receive sha1 m piece_hashes index begin block p s)
  unfolding receive answered
  receive-Keeps index begin block p s =
      elim (Option-cases (on_piece sha1 m piece_hashes s.piece_manager index begin block s.disk)) [
        | inl n ↦ rw (n, receive) tt
        | inr r ↦ rw (r.1, receive) refl
      ]

  on_message-Keeps :
      (i : ℕ) (msg : Message) (p : ActivePeer) (s : Shared)
      → Keeps (peer_at p) (on_message sha1 m piece_hashes i msg p s)
  unfolding on_message
  on_message-Keeps i (piece index begin block) p s = receive-Keeps index begin block p s
  on_message-Keeps i (request index begin len) p s =
      if_cases (Keeps (peer_at p)) p.am_choking _ _ (λ t. refl)
        (λ f.
          if_cases (Keeps (peer_at p)) (panics (read_block m index begin len s.disk)) _ _
            (λ stop. tt)
            (λ calm. upload-peer i index begin (read_block m index begin len s.disk) p s))
  on_message-Keeps i choke p s = refl
  on_message-Keeps i unchoke p s = refl
  on_message-Keeps i (have piece_index) p s = refl
  on_message-Keeps i (bitfield bits) p s = refl
  on_message-Keeps i interested p s = refl
  on_message-Keeps i keep_alive p s = refl
  on_message-Keeps i not_interested p s = refl
  on_message-Keeps i (cancel index begin len) p s = refl
  on_message-Keeps i (port listen_port) p s = refl

  on_answer-Keeps :
      (i : ℕ) (answer : Result DecodeError (Option Message)) (p : ActivePeer) (s : Shared)
      → Keeps (peer_at p) (on_answer sha1 m piece_hashes i answer p s)
  unfolding on_answer
  on_answer-Keeps i (ok none) p s = refl
  on_answer-Keeps i (ok (some msg)) p s = on_message-Keeps i msg p s
  on_answer-Keeps i (err e) p s = refl

  read_step-Keeps :
      (i : ℕ) (p : ActivePeer) (s : Shared)
      → Keeps (peer_at p) (read_step sha1 m piece_hashes i p s)
  unfolding read_step
  read_step-Keeps i p s =
      let c = (next_message p.connection).1 in
      let q : ActivePeer = record p { connection = c } in
      subst (λ a. Keeps a (on_answer sha1 m piece_hashes i (next_message p.connection).0 q s))
        (next_message-peer p.connection) (on_answer-Keeps i (next_message p.connection).0 q s)

  pub visit-Keeps :
      (endgame : Bool) (availability : List ℕ) (i : ℕ) (p : ActivePeer) (s : Shared)
      → Keeps (peer_at p) (visit sha1 m piece_hashes endgame availability i p s)
  unfolding visit
  visit-Keeps endgame availability i p s =
      by (read_step sha1 m piece_hashes i p s) (read_step-Keeps i p s)
    where
      by :
          (o : Option (ActivePeer × Shared))
          → Keeps (peer_at p) o
          → Keeps (peer_at p) (
              o >>= λ a.
              then_request endgame availability
                (interest_step i (choke_step a.0 a.1).0 (choke_step a.0 a.1).1))
      by none k = tt
      by (some (q, s')) k =
          then_request-Keeps endgame availability (peer_at p)
            (interest_step i (choke_step q s').0 (choke_step q s').1)
            (interest_step-peer i (choke_step q s').0 (choke_step q s').1
              ∙ (choke_step-peer q s' ∙ k))
