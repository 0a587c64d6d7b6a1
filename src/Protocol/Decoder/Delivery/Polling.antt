-- ===== src/Protocol/Decoder/Delivery/Polling.antt =====
-- The calls of `read_message` that `DownloadManager::tick` makes, one in each round, on a
-- connection over which another peer has sent messages.
use iron_peer_417project_pri.Base.{
  ℕ, zero, suc, ◌+◌, ◌≤◌, ◌≡◌, refl, ◌∙◌, ap₂, subst, inl, inr, List, [], ◌∷◌, ◌++◌, none, some, ok,
  err, length, drop, take_all, drop_all, arith, All,
}
use iron_peer_417project_pri.Protocol.Messages.{Message, total_len}
use iron_peer_417project_pri.Protocol.Codec.{encode}
use iron_peer_417project_pri.Protocol.Codec.RoundTrip.{
  IsSendable, u32_at-encode, length-encode, decode_message-encode, body_cases,
}
use iron_peer_417project_pri.Protocol.Stream.{Reader, pending, blocks, IsReliable}
use iron_peer_417project_pri.Protocol.Decoder.{Poll, done, out_of_fuel, read_message}
use iron_peer_417project_pri.Protocol.Decoder.Delivery.{
  decode_frame, decode_frame_lem, next_frame, next_frame-append, frame_rest-append, Delivers,
  read_message-Delivers,
}

-- The messages of `n` calls; a failed call ends the connection.
on_poll : (List ℕ → Reader → List Message) → Poll → List Message
on_poll again (done (ok none) b r) = again b r
on_poll again (done (ok (some m)) b r) = m ∷ again b r
on_poll again (done (err e) b r) = []
on_poll again out_of_fuel = []

unfoldable pub polls : ℕ → List ℕ → Reader → List Message
unfolding on_poll
polls zero b r = []
polls (suc n) b r = on_poll (polls n) (read_message b r)

abbrev pub encode_all : List Message → List ℕ
encode_all [] = []
encode_all (m ∷ ms) = encode m ++ encode_all ms

length-encode-ge : (m : Message) → 4 ≤ length (encode m)
unfolding total_len
length-encode-ge m = omega (arith, length-encode m)

decode_frame-encode : (m : Message) → IsSendable m → decode_frame (drop 4 (encode m)) ≡ ok m
decode_frame-encode m h = elim (body_cases m) [
  | inl (e, b) ↦ rw (b, e) (unfold decode_frame in refl)
  | inr (n, p) ↦ decode_frame_lem _ p ∙ decode_message-encode m h.0 n
]

-- An encoded message is the first frame of what it begins.
next_frame-encode :
    (m : Message) (rest : List ℕ) → IsSendable m → next_frame (encode m ++ rest) ≡ some (ok m, rest)
next_frame-encode m rest h =
    next_frame-append (encode m) rest (length-encode-ge m)
    ∙ frame_rest-append _ (drop 4 (encode m)) rest (omega (arith, u32_at-encode m h))
    ∙ rw (u32_at-encode m h) (
        rw (
          take_all (length (drop 4 (encode m))) (drop 4 (encode m)) (omega arith),
          drop_all (length (drop 4 (encode m))) (drop 4 (encode m)) (omega arith),
          decode_frame-encode m h,
        ))

next_frame-nil : next_frame [] ≡ none
unfolding next_frame
next_frame-nil = refl

nothing_left : (b : List ℕ) (r : Reader) → b ≡ [] → r ≡ [] → b ++ pending r ≡ []
unfolding pending
nothing_left b r e f = rw (e, f)

-- The first frame of the encoded messages is the first message.
first_frame :
    (m m' : Message) (ms : List Message) (rest : List ℕ)
    → IsSendable m'
    → next_frame (encode_all (m' ∷ ms)) ≡ some (ok m, rest)
    → (m ≡ m') × (rest ≡ encode_all ms)
first_frame m m' ms rest h q = ground (arith, next_frame-encode m' (encode_all ms) h)

-- One call on such a stream; `next` is what the later calls return on what it leaves.
module _ (again : List ℕ → Reader → List Message) (n : ℕ) (r : Reader)
    (reliable : IsReliable r) where
  on_poll-encode_all :
      (ms : List Message) (x : Poll)
      → All IsSendable ms
      → length ms + blocks r ≤ suc n
      → ((ms' : List Message) (b : List ℕ) (r' : Reader)
          → All IsSendable ms'
          → IsReliable r'
          → b ++ pending r' ≡ encode_all ms'
          → length ms' + blocks r' ≤ n
          → again b r' ≡ ms')
      → Delivers (encode_all ms) r x
      → on_poll again x ≡ ms
  unfolding on_poll
  on_poll-encode_all [] (done (ok none) b r') h k next (q, inl (eb, er), l) =
      next [] b r' tt (l.1 reliable) q (rw er (unfold blocks in omega arith))
  on_poll-encode_all (m ∷ ms) (done (ok none) b r') h k next (q, inl (eb, er), l) =
      cc (nothing_left b r' eb er, next_frame-nil, next_frame-encode m (encode_all ms) h.0)
  on_poll-encode_all ms (done (ok none) b r') h k next (q, inr i, l) =
      next ms b r' h (l.1 reliable) q (omega arith)
  on_poll-encode_all [] (done (ok (some m)) b r') h k next (q, l) = cc next_frame-nil
  on_poll-encode_all (m' ∷ ms) (done (ok (some m)) b r') h k next (q, l) =
      let (em, er) = first_frame m m' ms _ h.0 q in
      ap₂ ◌∷◌ em (next ms b r' h.1 (l.1 reliable) er (omega arith))
  on_poll-encode_all ms (done (err e) b r') h k next (inl i) = absurd (i reliable)
  on_poll-encode_all [] (done (err e) b r') h k next (inr (inl (q, z, w))) = absurd (omega arith)
  on_poll-encode_all (m ∷ ms) (done (err e) b r') h k next (inr (inl (q, z, w))) =
      cc (next_frame-encode m (encode_all ms) h.0)
  on_poll-encode_all [] (done (err e) b r') h k next (inr (inr q)) = cc next_frame-nil
  on_poll-encode_all (m ∷ ms) (done (err e) b r') h k next (inr (inr q)) =
      cc (next_frame-encode m (encode_all ms) h.0)
  on_poll-encode_all ms out_of_fuel h k next d = absurd d

-- If a peer sent `ms`, then however the bytes are cut into chunks and however often a read
-- blocks, the calls return exactly `ms`, in order: all of them after a call for each message and
-- one for each time that a read blocks, and nothing more after that.
pub polls-encode_all :
    (n : ℕ) (ms : List Message) (b : List ℕ) (r : Reader)
    → All IsSendable ms
    → IsReliable r
    → b ++ pending r ≡ encode_all ms
    → length ms + blocks r ≤ n
    → polls n b r ≡ ms
unfolding polls
polls-encode_all zero [] b r h g e k = refl
polls-encode_all zero (m ∷ ms) b r h g e k = absurd (omega arith)
polls-encode_all (suc n) ms b r h g e k =
    on_poll-encode_all (polls n) n r g ms (read_message b r) h k
      (λ ms' b' r' h' g' e' k'. polls-encode_all n ms' b' r' h' g' e' k')
      (subst (λ (s : List ℕ). Delivers s r (read_message b r)) e (read_message-Delivers b r))
