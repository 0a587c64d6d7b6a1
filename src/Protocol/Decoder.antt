-- ===== src/Protocol/Decoder.antt =====
-- src/protocol/codec.rs: `MessageDecoder::read_message`, its two loops and its buffer.
pub mod Loops
pub mod Delivery
use iron_peer_417project_pri.Base.{
  ℕ, zero, suc, ◌+◌, ◌-◌, min, List, [], ◌∷◌, ◌++◌, Option, none, some, Bool, true, false, Result,
  ok, err, ◌>>=◌, length, take, drop, ltb, ◌==◌, if◌then◌else◌,
}
use iron_peer_417project_pri.Protocol.Messages.{Message, keep_alive}
use iron_peer_417project_pri.Protocol.Codec.{
  DecodeError, closed_incomplete, closed_while_reading, io_error, u32_at, decode_message,
}
use iron_peer_417project_pri.Protocol.Stream.{Read, got, blocked, broken, Reader, read}

-- A call's result, with the buffer and the reader that it leaves. `out_of_fuel` is no value of the
-- program: it marks a loop whose rounds were used up.
pub data Poll : Type 0 where
  done : Result DecodeError (Option Message) → List ℕ → Reader → Poll
  out_of_fuel : Poll

-- How one of the two loops ends: by its test, or by a `return`.
pub data Fill : Type 0 where
  ready : List ℕ → Reader → Fill
  halted : Poll → Fill

-- The body of the first loop, after its `read`; `Ok(0)` asks whether the buffer is empty.
on_closed : List ℕ → Result DecodeError (Option Message)
on_closed [] = ok none
on_closed (x ∷ xs) = err closed_incomplete

on_prefix_read : (List ℕ → Reader → Fill) → List ℕ → Read → Reader → Fill
unfolding on_closed
on_prefix_read loop buffer (got []) r = halted (done (on_closed buffer) buffer r)
on_prefix_read loop buffer (got (b ∷ bs)) r = loop (buffer ++ (b ∷ bs)) r
on_prefix_read loop buffer blocked r =
    if ltb (length buffer) 4 then halted (done (ok none) buffer r) else ready buffer r
on_prefix_read loop buffer broken r = halted (done (err io_error) buffer r)

-- `while self.buffer.len() < 4`. Each round adds a byte, so four are enough.
unfoldable pub fill_prefix : ℕ → List ℕ → Reader → Fill
unfolding on_prefix_read
fill_prefix zero buffer r = if ltb (length buffer) 4 then halted out_of_fuel else ready buffer r
fill_prefix (suc fuel) buffer r =
    if ltb (length buffer) 4
    then on_prefix_read (fill_prefix fuel) buffer (read 1024 r).0 (read 1024 r).1
    else ready buffer r

-- The body of the second loop; on `WouldBlock` the length prefix goes back into the buffer.
on_payload_read : (List ℕ → Reader → Fill) → List ℕ → List ℕ → Read → Reader → Fill
on_payload_read loop prefix buffer (got []) r = halted (done (err closed_while_reading) buffer r)
on_payload_read loop prefix buffer (got (b ∷ bs)) r = loop (buffer ++ (b ∷ bs)) r
on_payload_read loop prefix buffer blocked r = halted (done (ok none) (prefix ++ buffer) r)
on_payload_read loop prefix buffer broken r = halted (done (err io_error) buffer r)

-- `while self.buffer.len() < message_len`. Here too each round adds a byte.
unfoldable pub fill_payload : ℕ → List ℕ → ℕ → List ℕ → Reader → Fill
unfolding on_payload_read
fill_payload zero prefix message_len buffer r =
    if ltb (length buffer) message_len then halted out_of_fuel else ready buffer r
fill_payload (suc fuel) prefix message_len buffer r =
    let room = min (message_len - length buffer) 1024 in
    if ltb (length buffer) message_len
    then on_payload_read (fill_payload fuel prefix message_len) prefix buffer (read room r).0
        (read room r).1
    else ready buffer r

-- What `read_message` does behind the second loop, and between the two.
take_message : ℕ → Fill → Poll
take_message message_len (halted p) = p
take_message message_len (ready buffer r) =
    done (decode_message (take message_len buffer) >>= λ m. ok (some m)) (drop message_len buffer) r

read_payload : Fill → Poll
unfolding take_message
read_payload (halted p) = p
read_payload (ready buffer r) =
    let message_len = u32_at 0 buffer in
    if message_len == 0
    then done (ok (some keep_alive)) (drop 4 buffer) r
    else take_message message_len
        (fill_payload message_len (take 4 buffer) message_len (drop 4 buffer) r)

unfoldable pub read_message : List ℕ → Reader → Poll
unfolding read_payload
read_message buffer r = read_payload (fill_prefix 4 buffer r)
