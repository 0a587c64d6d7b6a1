-- ===== src/Protocol/Codec.antt =====
-- src/protocol/codec.rs: `MessageEncoder::encode` and `MessageDecoder::decode_message`.
pub mod RoundTrip
pub mod Sound
use iron_peer_417project_pri.Base.{
  ℕ, ◌+◌, List, [], ◌∷◌, ◌++◌, Bool, Option, none, some, Result, ok, err, length, drop, get_or, ltb,
  ◌==◌, if◌then◌else◌, as_u32, to_be_bytes16, to_be_bytes32, from_be_bytes16, from_be_bytes32,
}
use iron_peer_417project_pri.Protocol.Messages.{
  Message, keep_alive, choke, unchoke, interested, not_interested, have, bitfield, request, piece,
  cancel, port, id, payload_len,
}

-- The errors of `MessageDecoder`, one for each message text, and those of the stream.
pub data DecodeError : Type 0 where
  empty_payload have_too_short request_too_short piece_too_short cancel_too_short : DecodeError
  port_too_short : DecodeError
  unknown_id : ℕ → DecodeError
  closed_incomplete closed_while_reading io_error : DecodeError

-- The payload bytes that follow the id.
unfoldable pub payload : Message → List ℕ
payload keep_alive = []
payload choke = []
payload unchoke = []
payload interested = []
payload not_interested = []
payload (have i) = to_be_bytes32 i
payload (bitfield bits) = bits
payload (request i b l) = to_be_bytes32 i ++ (to_be_bytes32 b ++ to_be_bytes32 l)
payload (piece i b block) = to_be_bytes32 i ++ (to_be_bytes32 b ++ block)
payload (cancel i b l) = to_be_bytes32 i ++ (to_be_bytes32 b ++ to_be_bytes32 l)
payload (port p) = to_be_bytes16 p

-- The id byte, where there is one, and `total_len` of `encode` before it is cut to a u32.
abbrev id_bytes : Option ℕ → List ℕ
id_bytes none = []
id_bytes (some i) = i ∷ []

abbrev frame_len : Option ℕ → ℕ → ℕ
frame_len none n = n
frame_len (some i) n = 1 + n

unfoldable pub encode : Message → List ℕ
unfolding payload
encode m =
    to_be_bytes32 (as_u32 (frame_len (id m) (payload_len m))) ++ (id_bytes (id m) ++ payload m)

-- `u32::from_be_bytes([data[k], data[k + 1], data[k + 2], data[k + 3]])`, after a length test.
abbrev pub u32_at : ℕ → List ℕ → ℕ
u32_at k d =
    from_be_bytes32 (get_or d k 0) (get_or d (k + 1) 0) (get_or d (k + 2) 0) (get_or d (k + 3) 0)

-- The fields of the messages that carry a payload.
decode_have : List ℕ → Result DecodeError Message
decode_have d = if ltb (length d) 4 then err have_too_short else ok (have (u32_at 0 d))

decode_request : List ℕ → Result DecodeError Message
decode_request d =
    if ltb (length d) 12
    then err request_too_short
    else ok (request (u32_at 0 d) (u32_at 4 d) (u32_at 8 d))

decode_piece : List ℕ → Result DecodeError Message
decode_piece d =
    if ltb (length d) 8
    then err piece_too_short
    else ok (piece (u32_at 0 d) (u32_at 4 d) (drop 8 d))

decode_cancel : List ℕ → Result DecodeError Message
decode_cancel d =
    if ltb (length d) 12
    then err cancel_too_short
    else ok (cancel (u32_at 0 d) (u32_at 4 d) (u32_at 8 d))

decode_port : List ℕ → Result DecodeError Message
decode_port d =
    if ltb (length d) 2
    then err port_too_short
    else ok (port (from_be_bytes16 (get_or d 0 0) (get_or d 1 0)))

-- The match on the id, and `decode_message`, which finds an empty payload first.
unfoldable pub decode_id : ℕ → List ℕ → Result DecodeError Message
unfolding decode_have decode_request decode_piece decode_cancel decode_port
decode_id i d =
    if i == 0
    then ok choke
    else if i == 1
    then ok unchoke
    else if i == 2
    then ok interested
    else if i == 3
    then ok not_interested
    else if i == 4
    then decode_have d
    else if i == 5
    then ok (bitfield d)
    else if i == 6
    then decode_request d
    else if i == 7
    then decode_piece d
    else if i == 8
    then decode_cancel d
    else if i == 9
    then decode_port d
    else err (unknown_id i)

unfoldable pub decode_message : List ℕ → Result DecodeError Message
unfolding decode_id
decode_message [] = err empty_payload
decode_message (i ∷ d) = decode_id i d
