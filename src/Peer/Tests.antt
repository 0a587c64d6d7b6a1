-- ===== src/Peer/Tests.antt =====
-- The handshake at concrete inputs.
use iron_peer_417project_pri.Base.{
  drop, arith, ℕ, ◌≡◌, ◌↔◌, refl, List, [], ◌∷◌, ◌++◌, some, ok, err, take, replicate,
}
use iron_peer_417project_pri.Structs.Peer.{v4}
use iron_peer_417project_pri.Protocol.Messages.{unchoke, id, payload_len}
use iron_peer_417project_pri.Protocol.Codec.{encode}
use iron_peer_417project_pri.Protocol.Stream.{arrived, read, pending, blocks}
use iron_peer_417project_pri.Peer.Connection.{PeerConnection, read_exact}
use iron_peer_417project_pri.Peer.Connection.Reads.{ReadsExactly, read_exact-ReadsExactly}
use iron_peer_417project_pri.Peer.Session.{Opens, perform-Opens}
use iron_peer_417project_pri.Peer.Handshake.{
  perform, other_torrent, protocol_string, handshake_bytes, validate, receive_handshake,
}
use iron_peer_417project_pri.Peer.Handshake.Agreement.{
  Says, validate_iff, receive_handshake-handshake_bytes,
}

-- A handshake with an extension bit set.
abbrev extended : List ℕ
extended = 19 ∷ (protocol_string ++ (replicate 7 0 ++ (1 ∷ replicate 20 7) ++ replicate 20 9))

validate_iff_example :
    (validate (replicate 20 7) extended ≡ ok (replicate 20 9))
    ↔ Says (replicate 20 7) (replicate 20 9) extended
validate_iff_example = validate_iff (replicate 20 7) (replicate 20 9) extended refl refl refl

validate-extended : validate (replicate 20 7) extended ≡ ok (replicate 20 9)
validate-extended =
    (validate_iff (replicate 20 7) (replicate 20 9) extended refl refl refl).1
      (replicate 7 0 ++ (1 ∷ []), refl, refl)

abbrev ours : List ℕ
ours = replicate 20 7

abbrev peer_id : List ℕ
peer_id = replicate 20 9

receive_handshake-handshake_bytes_example :
    receive_handshake (λ n. some (take n (handshake_bytes (replicate 20 8) peer_id))) ours
    ≡ err other_torrent
receive_handshake-handshake_bytes_example =
    receive_handshake-handshake_bytes ours (replicate 20 8) peer_id refl refl refl

-- The other client's handshake and an `Unchoke`, in two chunks that cut the handshake.
abbrev greeting : PeerConnection
greeting = record {
  peer = record { addr = record { ip = v4 (127 ∷ 0 ∷ 0 ∷ 1 ∷ []); port = 6881 } };
  buffer = [];
  reader =
      arrived 19 (take 30 (drop 1 (handshake_bytes ours peer_id)))
      ∷ arrived 7 (drop 32 (handshake_bytes ours peer_id) ++ encode unchoke)
      ∷ [];
  writes = [];
  written = [];
}

perform-Opens_example :
    Opens 1 greeting.reader peer_id (unchoke ∷ []) (perform greeting ours (replicate 20 5))
unfolding handshake_bytes encode id payload_len pending blocks
perform-Opens_example =
    perform-Opens 1 ours peer_id (replicate 20 5) (unchoke ∷ []) greeting refl refl
      ((tt, omega arith), tt) refl refl tt refl (omega arith)

read_exact-ReadsExactly_example :
    ReadsExactly 40 [] greeting.reader
      ((read_exact 40 greeting).0, (read_exact 40 greeting).1.reader)
read_exact-ReadsExactly_example = read_exact-ReadsExactly 40 greeting

read-40 : (read_exact 40 greeting).0 ≡ ok (take 40 (handshake_bytes ours peer_id))
unfolding read_exact handshake_bytes read
read-40 = refl
