-- ===== src/Tracker/Udp.antt =====
-- src/tracker/udp.rs: `UdpTrackerClient`. The random transaction ids are arguments.
pub mod Datagrams
pub mod Exchange
use iron_peer_417project_pri.Base.{
  ℕ, ◌+◌, ◌-◌, ◌*◌, ◌^◌, List, [], ◌∷◌, ◌++◌, Option, none, some, Bool, true, false, not, ◌==◌, ltb,
  if◌then◌else◌, Result, ok, err, length, take, drop, to_be_bytes16, to_be_bytes32, to_be_bytes64,
}
use iron_peer_417project_pri.Structs.Peer.{Peer, from_compact_bytes}
use iron_peer_417project_pri.Protocol.Codec.{u32_at}
use iron_peer_417project_pri.Tracker.Text.{starts_with, split, parse_unsigned}

pub data UdpError : Type 0 where
  not_udp invalid_format invalid_port io_error wrong_transaction : UdpError
  short_connect wrong_connect_action short_announce wrong_announce_action : UdpError

-- A host and a port, which `format!` joins by a colon.
abbrev pub Address : Type 0
Address = List ℕ × ℕ

-- The client's socket: whether its next calls of `send_to` will succeed, the datagrams that its
-- next calls of `recv_from` will find, a none where it times out, and what was sent.
pub record UdpTrackerClient : Type 0 where
  pub sends : List Bool
  pub datagrams : List (Option (List ℕ))
  pub sent : List (Address × List ℕ)

unfoldable pub send_by : List Bool → Address → List ℕ → UdpTrackerClient → Bool × UdpTrackerClient
send_by [] address bytes c = (true, record c { sent = c.sent ++ ((address, bytes) ∷ []) })
send_by (true ∷ bs) address bytes c =
    (true, record c { sends = bs; sent = c.sent ++ ((address, bytes) ∷ []) })
send_by (false ∷ bs) address bytes c = (false, record c { sends = bs })

unfoldable pub send_to : Address → List ℕ → UdpTrackerClient → Bool × UdpTrackerClient
unfolding send_by
send_to address bytes c = send_by c.sends address bytes c

-- A datagram that is longer than the buffer is cut.
unfoldable pub receive_of :
    ℕ → List (Option (List ℕ)) → UdpTrackerClient → Option (List ℕ) × UdpTrackerClient
receive_of room [] c = (none, c)
receive_of room (none ∷ ds) c = (none, record c { datagrams = ds })
receive_of room (some bytes ∷ ds) c = (some (take room bytes), record c { datagrams = ds })

unfoldable pub recv_from : ℕ → UdpTrackerClient → Option (List ℕ) × UdpTrackerClient
unfolding receive_of
recv_from room c = receive_of room c.datagrams c

-- "udp://"
abbrev pub udp_scheme : List ℕ
udp_scheme = 117 ∷ 100 ∷ 112 ∷ 58 ∷ 47 ∷ 47 ∷ []

abbrev first_part : List (List ℕ) → List ℕ
first_part [] = []
first_part (p ∷ ps) = p

-- Exactly two parts.
abbrev pub host_and_port : List (List ℕ) → Result UdpError Address
host_and_port [] = err invalid_format
host_and_port (host ∷ []) = err invalid_format
host_and_port (host ∷ port ∷ []) = elim (parse_unsigned (2 ^ 16) port) [
  | none ↦ err invalid_port
  | some n ↦ ok (host, n)
]
host_and_port (host ∷ port ∷ p ∷ ps) = err invalid_format

unfoldable pub parse_udp_url : List ℕ → Result UdpError Address
parse_udp_url url =
    if not (starts_with url udp_scheme)
    then err not_udp
    else host_and_port (split 58 (first_part (split 47 (drop 6 url))))

abbrev pub udp_protocol_id : ℕ
udp_protocol_id = 4497486125440

unfoldable pub connect_request : ℕ → List ℕ
connect_request transaction_id =
    to_be_bytes64 udp_protocol_id ++ (to_be_bytes32 0 ++ to_be_bytes32 transaction_id)

abbrev pub u64_at : ℕ → List ℕ → ℕ
u64_at k d = u32_at k d * 2 ^ 32 + u32_at (k + 4) d

-- The connection id of a response, after the checks of it.
unfoldable pub check_connect : ℕ → List ℕ → Result UdpError ℕ
check_connect transaction_id response =
    if ltb (length response) 16
    then err short_connect
    else if not (u32_at 0 response == 0)
    then err wrong_connect_action
    else if not (u32_at 4 response == transaction_id)
    then err wrong_transaction
    else ok (u64_at 8 response)

-- A datagram that came, checked.
abbrev pub then_check {ℓ} :
    {A : Type ℓ} → (List ℕ → Result UdpError A) → Option (List ℕ) → Result UdpError A
then_check check none = err io_error
then_check check (some bytes) = check bytes

-- `send_to` and `recv_from` with a buffer of `room` bytes, and the checks of the response.
unfoldable pub exchange {ℓ} :
    {A : Type ℓ}
    → ℕ
    → (List ℕ → Result UdpError A)
    → Address
    → List ℕ
    → UdpTrackerClient
    → Result UdpError A × UdpTrackerClient
exchange room check address request c =
    let (sent, c') = send_to address request c in
    let (response, c'') = recv_from room c' in
    if sent then (then_check check response, c'') else (err io_error, c')

unfoldable pub send_connect_request :
    Address → ℕ → UdpTrackerClient → Result UdpError ℕ × UdpTrackerClient
send_connect_request address transaction_id c =
    exchange 16 (check_connect transaction_id) address (connect_request transaction_id) c

-- What `announce` is called with.
pub record Announce : Type 0 where
  pub info_hash : List ℕ
  pub peer_id : List ℕ
  pub downloaded : ℕ
  pub left : ℕ
  pub uploaded : ℕ
  pub port : ℕ

unfoldable pub announce_request : ℕ → ℕ → Announce → List ℕ
announce_request connection_id transaction_id a =
    to_be_bytes64 connection_id
    ++ (to_be_bytes32 1
        ++ (to_be_bytes32 transaction_id
            ++ (a.info_hash
                ++ (a.peer_id
                    ++ (to_be_bytes64 a.downloaded
                        ++ (to_be_bytes64 a.left
                            ++ (to_be_bytes64 a.uploaded
                                ++ (to_be_bytes32 0
                                    ++ (to_be_bytes32 0
                                        ++ (to_be_bytes32 0
                                            ++ (to_be_bytes32 (2 ^ 32 - 1)
                                                ++ to_be_bytes16 a.port)))))))))))

unfoldable pub check_announce : ℕ → List ℕ → Result UdpError (List Peer)
check_announce transaction_id response =
    if ltb (length response) 20
    then err short_announce
    else if not (u32_at 0 response == 1)
    then err wrong_announce_action
    else if not (u32_at 4 response == transaction_id)
    then err wrong_transaction
    else ok (from_compact_bytes (drop 20 response))

-- Step 2 of `announce`, with the connection id of step 1.
unfoldable pub announce_with :
    Address → ℕ → ℕ → Announce → UdpTrackerClient → Result UdpError (List Peer) × UdpTrackerClient
announce_with address connection_id transaction_id a c =
    exchange 2048 (check_announce transaction_id) address
      (announce_request connection_id transaction_id a) c

-- After step 1.
abbrev pub then_announce :
    Address
    → ℕ
    → Announce
    → Result UdpError ℕ × UdpTrackerClient
    → Result UdpError (List Peer) × UdpTrackerClient
then_announce address transaction_id a (err e, c) = (err e, c)
then_announce address transaction_id a (ok connection_id, c) =
    announce_with address connection_id transaction_id a c

unfoldable pub announce :
    List ℕ → Announce → ℕ → ℕ → UdpTrackerClient → Result UdpError (List Peer) × UdpTrackerClient
announce url a connect_id announce_id c = elim (parse_udp_url url) [
  | err e ↦ (err e, c)
  | ok address ↦ then_announce address announce_id a (send_connect_request address connect_id c)
]
