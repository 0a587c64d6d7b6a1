-- ===== src/Protocol/Tests.antt =====
-- Runs of the codec and the decoder, and their theorems at concrete inputs.
use iron_peer_417project_pri.Base.{◌≡◌, refl, List, [], ◌∷◌, ◌++◌, drop, ok, err, arith}
use iron_peer_417project_pri.Protocol.Messages.{Message, choke, have, request, id, payload_len}
use iron_peer_417project_pri.Protocol.Codec.{encode, unknown_id, decode_message}
use iron_peer_417project_pri.Protocol.Codec.RoundTrip.{decode_message-encode}
use iron_peer_417project_pri.Protocol.Codec.Sound.{Decodes, decode_message-Decodes}
use iron_peer_417project_pri.Protocol.Stream.{arrived, would_block, Reader, pending, blocks}
use iron_peer_417project_pri.Protocol.Decoder.{read_message}
use iron_peer_417project_pri.Protocol.Decoder.Delivery.{Delivers, read_message-Delivers}
use iron_peer_417project_pri.Protocol.Decoder.Delivery.Polling.{polls, polls-encode_all}

abbrev sent : List Message
sent = have 5 ∷ choke ∷ []

-- The same bytes in four chunks, with two reads that block in between.
abbrev chunks : Reader
chunks =
    arrived 0 (0 ∷ 0 ∷ [])
    ∷ would_block
    ∷ arrived 5 (4 ∷ 0 ∷ [])
    ∷ would_block
    ∷ arrived 0 (0 ∷ 5 ∷ 0 ∷ 0 ∷ 0 ∷ [])
    ∷ arrived 1 (0 ∷ [])
    ∷ []

encode_have : encode (have 5) ≡ 0 ∷ 0 ∷ 0 ∷ 5 ∷ 4 ∷ 0 ∷ 0 ∷ 0 ∷ 5 ∷ []
unfolding encode id payload_len
encode_have = refl

unknown_message : decode_message (20 ∷ 0 ∷ []) ≡ err (unknown_id 20)
unfolding decode_message
unknown_message = refl

decode_message-encode_example :
    decode_message (drop 4 (encode (request 1 16384 100))) ≡ ok (request 1 16384 100)
decode_message-encode_example =
    decode_message-encode (request 1 16384 100) (omega arith, omega arith, omega arith) (λ e. cc)

-- A choke with two bytes too many is taken as a choke.
decode_message-Decodes_example : Decodes (0 ∷ 9 ∷ 9 ∷ []) choke
unfolding decode_message
decode_message-Decodes_example = decode_message-Decodes (0 ∷ 9 ∷ 9 ∷ []) choke (omega arith) refl

u32_at-encode_example : drop 0 (drop 4 (encode choke)) ≡ 0 ∷ []
unfolding encode id payload_len
u32_at-encode_example = refl

read_message-Delivers_example : Delivers ([] ++ pending chunks) chunks (read_message [] chunks)
read_message-Delivers_example = read_message-Delivers [] chunks

polls-encode_all_example : polls 4 [] chunks ≡ sent
unfolding encode id payload_len pending blocks
polls-encode_all_example =
    polls-encode_all 4 sent [] chunks ((omega arith, omega arith), ((tt, omega arith), tt)) tt refl
      (omega arith)
