-- ===== src/Peer/Connection.antt =====
-- src/peer/connection.rs: `PeerConnection`, its stream and its decoder.
-- The stream's reads are a `Reader`; `writes` says how its next calls of `write_all` will end, and
-- `written` is what has gone out. `connect` and `from_stream` set socket options first.
pub mod Reads
pub mod Writes
use iron_peer_417project_pri.Base.{
  ℕ, zero, suc, ◌-◌, List, [], ◌∷◌, ◌++◌, Option, none, some, Bool, true, false, Result, ok, err,
  length, take, ltb, if◌then◌else◌,
}
use iron_peer_417project_pri.Structs.Peer.{Peer}
use iron_peer_417project_pri.Protocol.Messages.{Message}
use iron_peer_417project_pri.Protocol.Codec.{DecodeError, encode}
use iron_peer_417project_pri.Protocol.Stream.{Reader, Read, got, blocked, broken, read}
use iron_peer_417project_pri.Protocol.Decoder.{Poll, done, out_of_fuel, read_message}

-- `write_all` sends everything, or fails after some bytes.
pub data Write : Type 0 where
  whole : Write
  failed_after : ℕ → Write

pub record PeerConnection : Type 0 where
  pub peer : Peer
  pub buffer : List ℕ
  pub reader : Reader
  pub writes : List Write
  pub written : List ℕ

-- `from_stream`, with an empty decoder.
unfoldable pub from_stream : Reader → List Write → Peer → PeerConnection
from_stream reader writes peer = record {
  peer = peer;
  buffer = [];
  reader = reader;
  writes = writes;
  written = [];
}

-- Whether the bytes were sent; a stream whose `writes` have run out sends them.
unfoldable pub write_by : List Write → List ℕ → PeerConnection → Bool × PeerConnection
write_by [] bytes c = (true, record c { written = c.written ++ bytes })
write_by (whole ∷ ws) bytes c = (true, record c { written = c.written ++ bytes; writes = ws })
write_by (failed_after n ∷ ws) bytes c =
    (false, record c { written = c.written ++ take n bytes; writes = ws })

unfoldable pub write_all : List ℕ → PeerConnection → Bool × PeerConnection
unfolding write_by
write_all bytes c = write_by c.writes bytes c

unfoldable pub send_message : Message → PeerConnection → Bool × PeerConnection
send_message m c = write_all (encode m) c

-- A call of `MessageDecoder::read_message` on the connection's buffer and stream. The decoder never
-- runs out of fuel.
unfoldable pub on_poll :
    PeerConnection → Poll → Result DecodeError (Option Message) × PeerConnection
on_poll c (done answer buffer reader) = (answer, record c { buffer = buffer; reader = reader })
on_poll c out_of_fuel = (ok none, c)

unfoldable pub next_message : PeerConnection → Result DecodeError (Option Message) × PeerConnection
unfolding on_poll
next_message c = on_poll c (read_message c.buffer c.reader)

pub data ReadError : Type 0 where
  closed_by_peer read_failed : ReadError

-- The body of `while total_read < buf.len()` after its `read`; `so_far` is `buf[..total_read]`.
unfoldable pub on_read :
    (List ℕ → Reader → Result ReadError (List ℕ) × Reader)
    → List ℕ
    → Read
    → Reader
    → Result ReadError (List ℕ) × Reader
on_read loop so_far (got []) r = (err closed_by_peer, r)
on_read loop so_far (got (b ∷ bs)) r = loop (so_far ++ (b ∷ bs)) r
on_read loop so_far blocked r = (err read_failed, r)
on_read loop so_far broken r = (err read_failed, r)

-- Each round adds a byte, so as many rounds as bytes are enough.
unfoldable pub read_loop : ℕ → ℕ → List ℕ → Reader → Result ReadError (List ℕ) × Reader
unfolding on_read
read_loop zero len so_far r = (ok so_far, r)
read_loop (suc fuel) len so_far r =
    let again =
      on_read (read_loop fuel len) so_far (read (len - length so_far) r).0
        (read (len - length so_far) r).1 in
    if ltb (length so_far) len then again else (ok so_far, r)

-- `read_exact` of `len` bytes, which it answers.
unfoldable pub read_exact : ℕ → PeerConnection → Result ReadError (List ℕ) × PeerConnection
unfolding read_loop
read_exact len c = let end = read_loop len len [] c.reader in (end.0, record c { reader = end.1 })
