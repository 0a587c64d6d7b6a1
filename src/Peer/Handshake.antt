-- ===== src/Peer/Handshake.antt =====
-- src/peer/handshake.rs: the handshake that a client sends, and the check of the peer's.
pub mod Agreement
use iron_peer_417project_pri.Base.{
  ℕ, ◌+◌, List, [], ◌∷◌, ◌++◌, Option, none, some, Bool, true, false, if◌then◌else◌, ◌==◌, not,
  length, take, drop, get_or, replicate, Result, ok, err, same_bytes,
}
use iron_peer_417project_pri.Peer.Connection.{PeerConnection, ReadError, write_all, read_exact}

pub data HandshakeError : Type 0 where
  io_error protocol_length protocol_name other_torrent : HandshakeError

-- "BitTorrent protocol"
abbrev pub protocol_string : List ℕ
protocol_string =
    66 ∷ 105 ∷ 116 ∷ 84 ∷ 111 ∷ 114 ∷ 114 ∷ 101 ∷ 110 ∷ 116 ∷ 32 ∷ 112 ∷ 114 ∷ 111 ∷ 116 ∷ 111 ∷ 99
    ∷ 111 ∷ 108 ∷ []

abbrev pub protocol_string_len : ℕ
protocol_string_len = 19

abbrev pub handshake_len : ℕ
handshake_len = 1 + 19 + 8 + 20 + 20

-- The bytes that `send_handshake` writes.
unfoldable pub handshake_bytes : List ℕ → List ℕ → List ℕ
handshake_bytes info_hash peer_id =
    protocol_string_len ∷ (protocol_string ++ (replicate 8 0 ++ (info_hash ++ peer_id)))

-- The checks of `receive_handshake` on the 68 bytes that were read.
unfoldable pub validate : List ℕ → List ℕ → Result HandshakeError (List ℕ)
validate expected_info_hash handshake =
    if not (get_or handshake 0 0 == protocol_string_len)
    then err protocol_length
    else (if not (same_bytes (take 19 (drop 1 handshake)) protocol_string)
        then err protocol_name
        else (if not (same_bytes (take 20 (drop 28 handshake)) expected_info_hash)
            then err other_torrent
            else ok (take 20 (drop 48 handshake))))

-- `read_exact` of 68 bytes answers them, or an error.
unfoldable pub receive_handshake : (ℕ → Option (List ℕ)) → List ℕ → Result HandshakeError (List ℕ)
receive_handshake read_exact expected_info_hash = elim (read_exact handshake_len) [
  | none ↦ err io_error
  | some handshake ↦ validate expected_info_hash handshake
]

-- What `read_exact` handed over, if it did.
abbrev pub bytes_read : Result ReadError (List ℕ) → Option (List ℕ)
bytes_read (ok bytes) = some bytes
bytes_read (err e) = none

-- `send_handshake`, then `receive_handshake`, on a connection.
unfoldable pub perform :
    PeerConnection → List ℕ → List ℕ → Result HandshakeError (List ℕ) × PeerConnection
perform c info_hash our_peer_id =
    let (sent, c') = write_all (handshake_bytes info_hash our_peer_id) c in
    if sent
    then (
      receive_handshake (λ n. bytes_read (read_exact n c').0) info_hash,
      (read_exact handshake_len c').1,
    )
    else (err io_error, c')
