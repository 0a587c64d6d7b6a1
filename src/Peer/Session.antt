-- ===== src/Peer/Session.antt =====
-- A handshake and the messages behind it on one connection.
use iron_peer_417project_pri.Base.{
  ℕ, ◌+◌, ◌≤◌, ◌≡◌, ◌≢◌, refl, sym, ap, ◌∙◌, ◌⊎◌, inl, inr, List, [], ◌++◌, Result, ok, err, length,
  length-append, take, drop, take-append_exact, drop-append_exact, All, replicate, arith,
}
use iron_peer_417project_pri.Protocol.Messages.{Message}
use iron_peer_417project_pri.Protocol.Codec.RoundTrip.{IsSendable}
use iron_peer_417project_pri.Protocol.Stream.{Reader, pending, blocks, IsReliable}
use iron_peer_417project_pri.Protocol.Decoder.Delivery.Polling.{polls, encode_all, polls-encode_all}
use iron_peer_417project_pri.Peer.Connection.{PeerConnection, ReadError, read_exact}
use iron_peer_417project_pri.Peer.Connection.Writes.{write_all_open}
use iron_peer_417project_pri.Peer.Connection.Reads.{ReadsExactly, read_exact-ReadsExactly}
use iron_peer_417project_pri.Peer.Handshake.{
  HandshakeError, io_error, handshake_bytes, handshake_len, bytes_read, receive_handshake, validate,
  perform,
}
use iron_peer_417project_pri.Peer.Handshake.Agreement.{validate_iff}

-- How a handshake ends on a stream whose `n`-th poll is the last: the stream blocked, or the peer's
-- id is known and the messages behind the handshake come next.
abbrev pub Opens :
    ℕ → Reader → List ℕ → List Message → Result HandshakeError (List ℕ) × PeerConnection → Type 0
Opens n r p ms (answer, c) =
    ((blocks r ≢ 0) × (answer ≡ err io_error))
    ⊎ ((answer ≡ ok p) × (polls n c.buffer c.reader ≡ ms))

append-injective :
    (xs xs' ys ys' : List ℕ)
    → length xs ≡ length xs'
    → xs ++ ys ≡ xs' ++ ys'
    → (xs ≡ xs') × (ys ≡ ys')
append-injective xs xs' ys ys' l e = (
  sym (take-append_exact (length xs) xs ys refl)
      ∙ (ap (take (length xs)) e ∙ take-append_exact (length xs) xs' ys' (sym l)),
  sym (drop-append_exact (length xs) xs ys refl)
      ∙ (ap (drop (length xs)) e ∙ drop-append_exact (length xs) xs' ys' (sym l)),
)

length-handshake_bytes :
    (h p : List ℕ) → length h ≡ 20 → length p ≡ 20 → length (handshake_bytes h p) ≡ 68
unfolding handshake_bytes
length-handshake_bytes h p lh lp = omega (arith, length-append h p)

validate-handshake_bytes :
    (h p : List ℕ) → length h ≡ 20 → length p ≡ 20 → validate h (handshake_bytes h p) ≡ ok p
unfolding handshake_bytes
validate-handshake_bytes h p lh lp =
    (validate_iff h p (handshake_bytes h p) lh lp (length-handshake_bytes h p lh lp)).1
      (replicate 8 0, refl, refl)

module _ (n : ℕ) (h p : List ℕ) (ms : List Message) (r : Reader) (lh : length h ≡ 20)
    (lp : length p ≡ 20) (sendable : All IsSendable ms) (reliable : IsReliable r)
    (sent : pending r ≡ handshake_bytes h p ++ encode_all ms)
    (enough : length ms + blocks r ≤ n) where
  received-Opens :
      (c : PeerConnection) (answer : Result ReadError (List ℕ))
      → c.buffer ≡ []
      → ReadsExactly handshake_len [] r (answer, c.reader)
      → Opens n r p ms (receive_handshake (λ len. bytes_read answer) h, c)
  unfolding receive_handshake
  received-Opens c (ok bytes) b (l, e, le, i) =
      let (same, rest) =
        append-injective bytes (handshake_bytes h p) (pending c.reader) (encode_all ms)
          (omega (arith, length-handshake_bytes h p lh lp)) (sym e ∙ sent) in
      inr (
        ap (validate h) same ∙ validate-handshake_bytes h p lh lp,
        polls-encode_all n ms c.buffer c.reader sendable (i reliable) (rw b rest) (omega arith),
      )
  received-Opens c (err x) b f = inl (
    λ z. absurd (
        omega (
          arith,
          f reliable z,
          ap length sent,
          length-handshake_bytes h p lh lp,
          length-append (handshake_bytes h p) (encode_all ms),
        )),
    refl,
  )

-- A peer that is there for this torrent has sent its handshake and then messages. On a connection
-- that writes, and whose stream does not fail, `perform` learns the peer's id, unless the stream
-- blocked; then the calls of `read_message` return exactly those messages, in order, however the
-- bytes are cut into chunks.
pub perform-Opens :
    (n : ℕ) (h p our_peer_id : List ℕ) (ms : List Message) (c : PeerConnection)
    → length h ≡ 20
    → length p ≡ 20
    → All IsSendable ms
    → c.buffer ≡ []
    → c.writes ≡ []
    → IsReliable c.reader
    → pending c.reader ≡ handshake_bytes h p ++ encode_all ms
    → length ms + blocks c.reader ≤ n
    → Opens n c.reader p ms (perform c h our_peer_id)
unfolding perform read_exact receive_handshake
perform-Opens n h p our_peer_id ms c lh lp sendable b w reliable sent enough =
    let c' : PeerConnection = record c { written = c.written ++ handshake_bytes h our_peer_id } in
    rw (write_all_open (handshake_bytes h our_peer_id) c w, perform)
      (received-Opens n h p ms c.reader lh lp sendable reliable sent enough
        (read_exact handshake_len c').1 (read_exact handshake_len c').0 b
        (read_exact-ReadsExactly handshake_len c'))
