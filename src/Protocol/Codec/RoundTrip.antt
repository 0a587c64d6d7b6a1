-- ===== src/Protocol/Codec/RoundTrip.antt =====
-- The encoder against the decoder: lengths, and every message read back.
use iron_peer_417project_pri.Base.{
  ◌⊎◌, inl, inr, ◌-◌, ◌^◌, ◌<◌, ◌≡◌, ◌≢◌, refl, [], ok, length, drop, arith,
  from_be_bytes16-to_be_bytes16, from_be_bytes32-to_be_bytes32,
}
use iron_peer_417project_pri.Protocol.Messages.{
  Message, IsMessage, keep_alive, choke, unchoke, interested, not_interested, have, bitfield,
  request, piece, cancel, port, id, payload_len, total_len,
}
use iron_peer_417project_pri.Protocol.Codec.{u32_at, encode, decode_message}

-- `encode` writes as many bytes as `total_len` announces.
pub length-encode : (m : Message) → length (encode m) ≡ total_len m
unfolding encode id payload_len total_len
length-encode keep_alive = refl
length-encode choke = refl
length-encode unchoke = refl
length-encode interested = refl
length-encode not_interested = refl
length-encode (have i) = refl
length-encode (bitfield bits) = omega arith
length-encode (request i b l) = refl
length-encode (piece i b block) = omega arith
length-encode (cancel i b l) = refl
length-encode (port p) = refl

-- Every message but keep-alive is read back from what follows its length prefix.
pub decode_message-encode :
    (m : Message) → IsMessage m → m ≢ keep_alive → decode_message (drop 4 (encode m)) ≡ ok m
unfolding decode_message encode id payload_len
decode_message-encode keep_alive h n = absurd (n refl)
decode_message-encode choke h n = refl
decode_message-encode unchoke h n = refl
decode_message-encode interested h n = refl
decode_message-encode not_interested h n = refl
decode_message-encode (have i) h n = rw (from_be_bytes32-to_be_bytes32 i h)
decode_message-encode (bitfield bits) h n = refl
decode_message-encode (request i b l) (hi, hb, hl) n = rw (
  from_be_bytes32-to_be_bytes32 i hi,
  from_be_bytes32-to_be_bytes32 b hb,
  from_be_bytes32-to_be_bytes32 l hl,
)
decode_message-encode (piece i b block) (hi, hb, hl) n =
    rw (from_be_bytes32-to_be_bytes32 i hi, from_be_bytes32-to_be_bytes32 b hb) (ground arith)
decode_message-encode (cancel i b l) (hi, hb, hl) n = rw (
  from_be_bytes32-to_be_bytes32 i hi,
  from_be_bytes32-to_be_bytes32 b hb,
  from_be_bytes32-to_be_bytes32 l hl,
)
decode_message-encode (port p) h n = rw (from_be_bytes16-to_be_bytes16 p h)

-- What the Rust types guarantee, and a length that fits its u32.
abbrev pub IsSendable : Message → Type 0
IsSendable m = IsMessage m × (payload_len m < 2 ^ 32 - 1)

-- The length prefix announces what follows it.
pub u32_at-encode : (m : Message) → IsSendable m → u32_at 0 (encode m) ≡ length (drop 4 (encode m))
unfolding encode id payload_len
u32_at-encode keep_alive h = refl
u32_at-encode choke h = refl
u32_at-encode unchoke h = refl
u32_at-encode interested h = refl
u32_at-encode not_interested h = refl
u32_at-encode (have i) h = refl
u32_at-encode (bitfield bits) h = omega arith
u32_at-encode (request i b l) h = refl
u32_at-encode (piece i b block) h = omega arith
u32_at-encode (cancel i b l) h = refl
u32_at-encode (port p) h = refl

-- Only a keep-alive has nothing behind its length prefix.
pub body_cases :
    (m : Message)
    → ((m ≡ keep_alive) × (drop 4 (encode m) ≡ []))
      ⊎ ((m ≢ keep_alive) × (0 < length (drop 4 (encode m))))
unfolding encode id payload_len
body_cases keep_alive = inl (refl, refl)
body_cases choke = inr (λ e. cc, omega arith)
body_cases unchoke = inr (λ e. cc, omega arith)
body_cases interested = inr (λ e. cc, omega arith)
body_cases not_interested = inr (λ e. cc, omega arith)
body_cases (have i) = inr (λ e. cc, omega arith)
body_cases (bitfield bits) = inr (λ e. cc, omega arith)
body_cases (request i b l) = inr (λ e. cc, omega arith)
body_cases (piece i b block) = inr (λ e. cc, omega arith)
body_cases (cancel i b l) = inr (λ e. cc, omega arith)
body_cases (port p) = inr (λ e. cc, omega arith)
