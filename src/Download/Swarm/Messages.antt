-- ===== src/Download/Swarm/Messages.antt =====
-- src/download/manager.rs: what `tick` does with the message of a peer.
use iron_peer_417project_pri.Base.{
  ℕ, ◌-◌, List, [], ◌∷◌, ◌++◌, Option, none, some, true, false, not, ◌&&◌, ◌==◌, if◌then◌else◌,
  Result, ok, err,
}
use iron_peer_417project_pri.Storage.Files.{FileManager, IoError, panics, read_block}
use iron_peer_417project_pri.Protocol.Messages.{
  Message, keep_alive, choke, unchoke, interested, not_interested, have, bitfield, request, piece,
  cancel, port,
}
use iron_peer_417project_pri.Protocol.Codec.{DecodeError}
use iron_peer_417project_pri.Peer.Connection.{send_message, next_message}
use iron_peer_417project_pri.Download.Peers.{mark_have, read_bits}
use iron_peer_417project_pri.Download.Received.{on_piece}
use iron_peer_417project_pri.Download.Swarm.{ActivePeer, Shared}

-- `requested_blocks.retain(|(i, b)| !(*i == index && *b == begin))`
unfoldable pub retain_others : ℕ → ℕ → List (ℕ × ℕ) → List (ℕ × ℕ)
retain_others index begin [] = []
retain_others index begin ((i, b) ∷ rs) =
    let rest = retain_others index begin rs in
    if not (i == index && b == begin) then (i, b) ∷ rest else rest

-- A peer that has sent a block: one request less is on its way.
unfoldable pub answered : ℕ → ℕ → ActivePeer → ActivePeer
answered index begin p = record p {
  inflight_requests = p.inflight_requests - 1;
  requested_blocks = retain_others index begin p.requested_blocks;
}

abbrev pub drop_later : ℕ → Shared → Shared
drop_later i s = record s { peers_to_remove = s.peers_to_remove ++ (i ∷ []) }

-- The block that a peer asked for, or nothing where it cannot be read.
unfoldable pub upload :
    ℕ → ℕ → ℕ → Result IoError (List ℕ) → ActivePeer → Shared → ActivePeer × Shared
upload i index begin (err e) p s = (p, s)
upload i index begin (ok block) p s =
    let (sent, c) = send_message (piece index begin block) p.connection in
    (record p { connection = c }, if sent then s else drop_later i s)

module _ (sha1 : List ℕ → List ℕ) (m : FileManager) (piece_hashes : List (List ℕ)) where
  unfoldable pub receive : ℕ → ℕ → List ℕ → ActivePeer → Shared → Option (ActivePeer × Shared)
  receive index begin block p s =
      elim (on_piece sha1 m piece_hashes s.piece_manager index begin block s.disk) [
        | none ↦ none
        | some r ↦ some (
          answered index begin p,
          record s {
            piece_manager = r.piece_manager;
            disk = r.disk;
            completed_pieces = s.completed_pieces ++ r.completed;
          },
        )
      ]

  -- The match on the message of peer `i`.
  unfoldable pub on_message : ℕ → Message → ActivePeer → Shared → Option (ActivePeer × Shared)
  on_message i choke p s = some (record p { peer_choking = true }, s)
  on_message i unchoke p s = some (record p { peer_choking = false }, s)
  on_message i (have piece_index) p s =
      some (record p { have_pieces = mark_have piece_index p.have_pieces }, s)
  on_message i (bitfield bits) p s =
      some (record p { have_pieces = read_bits 0 bits p.have_pieces }, s)
  on_message i (piece index begin block) p s = receive index begin block p s
  on_message i (request index begin len) p s =
      let block = read_block m index begin len s.disk in
      if p.am_choking
      then some (p, s)
      else if panics block
      then none
      else some (upload i index begin block p s)
  on_message i interested p s = some (record p { peer_interested = true }, s)
  on_message i keep_alive p s = some (p, s)
  on_message i not_interested p s = some (p, s)
  on_message i (cancel index begin len) p s = some (p, s)
  on_message i (port listen_port) p s = some (p, s)

  unfoldable pub on_answer :
      ℕ → Result DecodeError (Option Message) → ActivePeer → Shared → Option (ActivePeer × Shared)
  on_answer i (ok none) p s = some (p, s)
  on_answer i (ok (some msg)) p s = on_message i msg p s
  on_answer i (err e) p s = some (p, drop_later i s)

  -- 1. Read messages
  unfoldable pub read_step : ℕ → ActivePeer → Shared → Option (ActivePeer × Shared)
  read_step i p s =
      let (answer, c) = next_message p.connection in
      on_answer i answer (record p { connection = c }) s
