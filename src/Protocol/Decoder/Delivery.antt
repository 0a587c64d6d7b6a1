-- ===== src/Protocol/Decoder/Delivery.antt =====
-- `read_message` against a parser of the whole stream, which knows of no calls, chunks or buffer.
pub mod Polling
use iron_peer_417project_pri.Base.{
  ℕ, zero, suc, ◌+◌, ◌≤◌, ◌<◌, ◌≡◌, refl, sym, ◌∙◌, ap, ap₂, subst, ◌≢◌, ◌⊎◌, inl, inr, List, [],
  ◌∷◌, ◌++◌, Option, none, some, Result, ok, err, ◌>>=◌, length, length-append, take, drop,
  length-take, take-append_le, drop-append_le, take-append-drop, ltb, ltb→lt, lt→ltb, not_ltb→le,
  le→not_ltb, if_cases, append_assoc, arith, if◌then◌else◌, ◌==◌, ==_iff, not_zero→pos, length-drop,
  Bool, true, false, subst,
}
use iron_peer_417project_pri.Protocol.Messages.{Message, keep_alive}
use iron_peer_417project_pri.Protocol.Codec.{
  DecodeError, closed_incomplete, closed_while_reading, u32_at, decode_message,
}
use iron_peer_417project_pri.Protocol.Stream.{Reader, pending, blocks, IsReliable, Later}
use iron_peer_417project_pri.Protocol.Decoder.{
  Poll, done, out_of_fuel, Fill, ready, halted, fill_prefix, fill_payload, take_message,
  read_payload, read_message,
}
use iron_peer_417project_pri.Protocol.Decoder.Loops.{
  Idle, Broke, PrefixEnd, PayloadEnd, Later-trans, fill_prefix-PrefixEnd, fill_payload-PayloadEnd,
}

-- A frame's payload: an empty one is a keep-alive.
unfoldable pub decode_frame : List ℕ → Result DecodeError Message
decode_frame [] = ok keep_alive
decode_frame (i ∷ d) = decode_message (i ∷ d)

-- The frame at the front of a stream and the stream behind it, if the frame is all there.
unfoldable pub frame_rest : ℕ → List ℕ → Option (Result DecodeError Message × List ℕ)
frame_rest n rest =
    if ltb (length rest) n then none else some (decode_frame (take n rest), drop n rest)

unfoldable pub next_frame : List ℕ → Option (Result DecodeError Message × List ℕ)
next_frame s = if ltb (length s) 4 then none else frame_rest (u32_at 0 s) (drop 4 s)

-- What a call may do, where `s` is the stream: what the buffer holds and what is still to come.
abbrev pub Delivers : List ℕ → Reader → Poll → Type 0
Delivers s r (done (ok none) b r') = (b ++ pending r' ≡ s) × Idle r b r' × Later r r'
Delivers s r (done (ok (some m)) b r') = (next_frame s ≡ some (ok m, b ++ pending r')) × Later r r'
Delivers s r (done (err e) b r') =
    (¬ IsReliable r)
    ⊎ ((next_frame s ≡ none)
        × (0 < length s)
        × ((e ≡ closed_incomplete) ⊎ (e ≡ closed_while_reading)))
    ⊎ (next_frame s ≡ some (err e, b ++ pending r'))
Delivers s r out_of_fuel = ⊥

u32_at-append : (xs ys : List ℕ) → 4 ≤ length xs → u32_at 0 (xs ++ ys) ≡ u32_at 0 xs
u32_at-append [] ys h = absurd (omega arith)
u32_at-append (x ∷ []) ys h = absurd (omega arith)
u32_at-append (x ∷ y ∷ []) ys h = absurd (omega arith)
u32_at-append (x ∷ y ∷ z ∷ []) ys h = absurd (omega arith)
u32_at-append (x ∷ y ∷ z ∷ w ∷ xs) ys h = refl

pub next_frame-append :
    (xs ys : List ℕ)
    → 4 ≤ length xs
    → next_frame (xs ++ ys) ≡ frame_rest (u32_at 0 xs) (drop 4 xs ++ ys)
unfolding next_frame
next_frame-append xs ys h = rw (
  le→not_ltb (length (xs ++ ys)) 4 (omega (arith, length-append xs ys)),
  u32_at-append xs ys h,
  drop-append_le 4 xs ys h,
)

pub frame_rest-append :
    (n : ℕ) (xs ys : List ℕ)
    → n ≤ length xs
    → frame_rest n (xs ++ ys) ≡ some (decode_frame (take n xs), drop n xs ++ ys)
unfolding frame_rest
frame_rest-append n xs ys h = rw (
  le→not_ltb (length (xs ++ ys)) n (omega (arith, length-append xs ys)),
  take-append_le n xs ys h,
  drop-append_le n xs ys h,
)

pub decode_frame_lem : (p : List ℕ) → 0 < length p → decode_frame p ≡ decode_message p
unfolding decode_frame
decode_frame_lem [] h = absurd (omega arith)
decode_frame_lem (i ∷ d) h = refl

-- The second loop's part of a call, with `b₀` the buffer that the first loop left.
take_message-Delivers :
    (b₀ : List ℕ) (n : ℕ) (r r₁ : Reader) (x : Fill)
    → 4 ≤ length b₀
    → n ≡ u32_at 0 b₀
    → 0 < n
    → Later r r₁
    → PayloadEnd (take 4 b₀) n (drop 4 b₀ ++ pending r₁) r₁ x
    → Delivers (b₀ ++ pending r₁) r (take_message n x)
unfolding take_message
take_message-Delivers b₀ n r r₁ (ready b r') h4 hn h0 l (h, e, l') = decoded _ refl
  where
    whole : next_frame (b₀ ++ pending r₁) ≡ some (decode_message (take n b), drop n b ++ pending r')
    whole =
        next_frame-append b₀ (pending r₁) h4
        ∙ rw (← hn, ← e)
            (frame_rest-append n b (pending r') h
              ∙ rw (decode_frame_lem (take n b) (omega (arith, length-take n b))))

    decoded :
        (o : Result DecodeError Message)
        → decode_message (take n b) ≡ o
        → Delivers (b₀ ++ pending r₁) r (done (o >>= λ m. ok (some m)) (drop n b) r')
    decoded (ok m) q = (whole ∙ rw q, Later-trans r r₁ r' l l')
    decoded (err x) q = inr (inr (whole ∙ rw q))
take_message-Delivers b₀ n r r₁ (halted (done (ok none) b r')) h4 hn h0 l (e, m, l') = (
  e
      ∙ sym (append_assoc (take 4 b₀) (drop 4 b₀) (pending r₁))
      ∙ ap (λ (y : List ℕ). y ++ pending r₁) (take-append-drop 4 b₀),
  inr (omega arith),
  Later-trans r r₁ r' l l',
)
take_message-Delivers b₀ n r r₁ (halted (done (ok (some m)) b r')) h4 hn h0 l h = absurd h
take_message-Delivers b₀ n r r₁ (halted (done (err x) b r')) h4 hn h0 l (inl g) =
    inl (λ a. g (l.1 a))
take_message-Delivers b₀ n r r₁ (halted (done (err x) b r')) h4 hn h0 l (inr (e, z, lt)) =
    inr (inl (short, omega (arith, length-append b₀ (pending r₁)), inr e))
  where
    short : next_frame (b₀ ++ pending r₁) ≡ none
    short =
        next_frame-append b₀ (pending r₁) h4 ∙ rw (← hn) (unfold frame_rest in rw (lt→ltb _ _ lt))
take_message-Delivers b₀ n r r₁ (halted out_of_fuel) h4 hn h0 l h = h

read_payload-Delivers :
    (s : List ℕ) (r : Reader) (x : Fill) → PrefixEnd s r x → Delivers s r (read_payload x)
unfolding read_payload
read_payload-Delivers s r (ready b r₁) (h, e, l) =
    subst (λ (y : List ℕ). Delivers y r (read_payload (ready b r₁))) e
      (if_cases (Delivers (b ++ pending r₁) r) (u32_at 0 b == 0) _ _
        (λ t. (
          next_frame-append b (pending r₁) h
              ∙ rw ((==_iff _ 0).0 t) (
                  unfold frame_rest decode_frame in
                  rw (le→not_ltb (length (drop 4 b ++ pending r₁)) 0 (omega arith))),
          l,
        ))
        (λ f. take_message-Delivers b (u32_at 0 b) r r₁ _ h refl (not_zero→pos _ f) l (
          fill_payload-PayloadEnd (u32_at 0 b) (take 4 b) (u32_at 0 b) (drop 4 b) r₁
            (omega arith))))
read_payload-Delivers s r (halted (done (ok none) b r')) (e, i, l) = (e, i, l)
read_payload-Delivers s r (halted (done (ok (some m)) b r')) h = absurd h
read_payload-Delivers s r (halted (done (err x) b r')) (inl g) = inl g
read_payload-Delivers s r (halted (done (err x) b r')) (inr (e, z, lt)) =
    inr (inl (unfold next_frame in rw (lt→ltb _ _ lt), z, inl e))
read_payload-Delivers s r (halted out_of_fuel) h = h

-- Whatever the chunks in which the bytes arrive, a call of `read_message` ends, and does one of
-- these: it returns the message of the first frame of the stream and leaves exactly the bytes
-- behind it; it returns `Ok(None)` and leaves every byte, either at the end of an empty stream
-- or because a read blocked; or it fails, because a read failed, the stream ended inside a frame,
-- or the first frame does not decode.
pub read_message-Delivers :
    (buffer : List ℕ) (r : Reader) → Delivers (buffer ++ pending r) r (read_message buffer r)
unfolding read_message
read_message-Delivers buffer r =
    read_payload-Delivers (buffer ++ pending r) r _ (fill_prefix-PrefixEnd 4 buffer r (omega arith))
