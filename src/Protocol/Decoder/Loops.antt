-- ===== src/Protocol/Decoder/Loops.antt =====
-- The two loops of `read_message`: they end, and no byte of the stream is lost or read twice.
use iron_peer_417project_pri.Base.{
  ℕ, zero, suc, ◌+◌, ◌-◌, ◌≤◌, ◌<◌, ◌≡◌, refl, sym, ◌∙◌, ap, ◌⊎◌, inl, inr, min, List, [], ◌∷◌,
  ◌++◌, none, some, ok, err, length, length-append, ltb, ltb→lt, not_ltb→le, if_cases, append_assoc,
  append-nil, arith, lt→ltb, le→not_ltb,
}
use iron_peer_417project_pri.Protocol.Codec.{DecodeError, closed_incomplete, closed_while_reading}
use iron_peer_417project_pri.Protocol.Stream.{
  Read, got, blocked, broken, Reader, pending, blocks, IsReliable, Later, Reads, read-Reads,
}
use iron_peer_417project_pri.Protocol.Decoder.{
  done, out_of_fuel, Fill, ready, halted, on_prefix_read, fill_prefix, on_payload_read,
  fill_payload,
}

-- Nothing more will come now: the stream has ended and nothing is held back, or a call blocked.
abbrev pub Idle : Reader → List ℕ → Reader → Type 0
Idle r buffer r' = ((buffer ≡ []) × (r' ≡ [])) ⊎ (blocks r' < blocks r)

-- The stream broke, or it ended inside a frame, when `s` is all that came.
abbrev pub Broke : DecodeError → ℕ → ℕ → List ℕ → Reader → DecodeError → Type 0
Broke early lo n s r e = (¬ IsReliable r) ⊎ ((e ≡ early) × (lo ≤ length s) × (length s < n))

-- How the first loop ends when `s` is the buffer with the pending bytes, and `r` the reader.
abbrev pub PrefixEnd : List ℕ → Reader → Fill → Type 0
PrefixEnd s r (ready b r') = (4 ≤ length b) × (b ++ pending r' ≡ s) × Later r r'
PrefixEnd s r (halted (done (ok none) b r')) = (b ++ pending r' ≡ s) × Idle r b r' × Later r r'
PrefixEnd s r (halted (done (ok (some m)) b r')) = ⊥
PrefixEnd s r (halted (done (err e) b r')) = Broke closed_incomplete 1 4 s r e
PrefixEnd s r (halted out_of_fuel) = ⊥

pub Later-trans : (r r₁ r₂ : Reader) → Later r r₁ → Later r₁ r₂ → Later r r₂
Later-trans r r₁ r₂ (n, f) (m, g) = (omega arith, λ h. g (f h))

Idle-earlier : (r r₁ : Reader) (b : List ℕ) (r₂ : Reader) → Later r r₁ → Idle r₁ b r₂ → Idle r b r₂
Idle-earlier r r₁ b r₂ l (inl e) = inl e
Idle-earlier r r₁ b r₂ l (inr n) = inr (omega arith)

Broke-earlier :
    (c : DecodeError) (lo n : ℕ) (s : List ℕ) (r r₁ : Reader) (e : DecodeError)
    → Later r r₁
    → Broke c lo n s r₁ e
    → Broke c lo n s r e
Broke-earlier c lo n s r r₁ e l (inl h) = inl (λ g. h (l.1 g))
Broke-earlier c lo n s r r₁ e l (inr h) = inr h

PrefixEnd-earlier :
    (s : List ℕ) (r r₁ : Reader) (x : Fill) → Later r r₁ → PrefixEnd s r₁ x → PrefixEnd s r x
PrefixEnd-earlier s r r₁ (ready b r') l (n, e, l') = (n, e, Later-trans r r₁ r' l l')
PrefixEnd-earlier s r r₁ (halted (done (ok none) b r')) l (e, i, l') =
    (e, Idle-earlier r r₁ b r' l i, Later-trans r r₁ r' l l')
PrefixEnd-earlier s r r₁ (halted (done (ok (some m)) b r')) l h = h
PrefixEnd-earlier s r r₁ (halted (done (err e) b r')) l h =
    Broke-earlier closed_incomplete 1 4 s r r₁ e l h
PrefixEnd-earlier s r r₁ (halted out_of_fuel) l h = h

-- One round of the first loop.
on_prefix_read-PrefixEnd :
    (loop : List ℕ → Reader → Fill) (buffer : List ℕ) (r : Reader) (o : Read) (r' : Reader)
    → length buffer < 4
    → ((b : ℕ) (bs : List ℕ)
        → PrefixEnd ((buffer ++ (b ∷ bs)) ++ pending r') r' (loop (buffer ++ (b ∷ bs)) r'))
    → Reads r o r'
    → PrefixEnd (buffer ++ pending r) r (on_prefix_read loop buffer o r')
unfolding on_prefix_read
on_prefix_read-PrefixEnd loop [] r (got []) r' n next (e, e') =
    (rw (e, e'), inl (refl, e'), (rw (e, e') (omega arith), λ h. rw e' tt))
on_prefix_read-PrefixEnd loop (x ∷ xs) r (got []) r' n next (e, e') =
    rw e (unfold pending in rw append-nil (inr (refl, omega arith, n)))
on_prefix_read-PrefixEnd loop buffer r (got (b ∷ bs)) r' n next (e, l) =
    PrefixEnd-earlier _ r r' _ l
      (rw e (rw (append_assoc buffer (b ∷ bs) (pending r')) at (next b bs)))
on_prefix_read-PrefixEnd loop buffer r blocked r' n next (e, m, l) =
    rw (lt→ltb _ _ n) (ap (◌++◌ buffer) (sym e), inr m, l)
on_prefix_read-PrefixEnd loop buffer r broken r' n next h = inl h

-- With four rounds at hand the first loop ends, and ends as it should.
pub fill_prefix-PrefixEnd :
    (fuel : ℕ) (buffer : List ℕ) (r : Reader)
    → 4 ≤ fuel + length buffer
    → PrefixEnd (buffer ++ pending r) r (fill_prefix fuel buffer r)
unfolding fill_prefix
fill_prefix-PrefixEnd zero buffer r h =
    rw (le→not_ltb (length buffer) 4 (omega arith)) (omega arith, refl, (omega arith, λ g. g))
fill_prefix-PrefixEnd (suc fuel) buffer r h =
    if_cases (PrefixEnd (buffer ++ pending r) r) (ltb (length buffer) 4) _ _
      (λ t.
        on_prefix_read-PrefixEnd (fill_prefix fuel) buffer r _ _ (ltb→lt _ _ t)
          (λ b bs.
            fill_prefix-PrefixEnd fuel (buffer ++ (b ∷ bs)) _
              (omega (arith, length-append buffer (b ∷ bs))))
          (read-Reads 1024 r (omega arith)))
      (λ f. (not_ltb→le _ _ f, refl, (omega arith, λ g. g)))

-- How the second loop ends: `p` is the length prefix that a blocked call puts back.
abbrev pub PayloadEnd : List ℕ → ℕ → List ℕ → Reader → Fill → Type 0
PayloadEnd p n s r (ready b r') = (n ≤ length b) × (b ++ pending r' ≡ s) × Later r r'
PayloadEnd p n s r (halted (done (ok none) b r')) =
    (b ++ pending r' ≡ p ++ s) × (blocks r' < blocks r) × Later r r'
PayloadEnd p n s r (halted (done (ok (some m)) b r')) = ⊥
PayloadEnd p n s r (halted (done (err e) b r')) = Broke closed_while_reading 0 n s r e
PayloadEnd p n s r (halted out_of_fuel) = ⊥

PayloadEnd-earlier :
    (p : List ℕ) (n : ℕ) (s : List ℕ) (r r₁ : Reader) (x : Fill)
    → Later r r₁
    → PayloadEnd p n s r₁ x
    → PayloadEnd p n s r x
PayloadEnd-earlier p n s r r₁ (ready b r') l (h, e, l') = (h, e, Later-trans r r₁ r' l l')
PayloadEnd-earlier p n s r r₁ (halted (done (ok none) b r')) l (e, i, l') =
    (e, omega arith, Later-trans r r₁ r' l l')
PayloadEnd-earlier p n s r r₁ (halted (done (ok (some m)) b r')) l h = h
PayloadEnd-earlier p n s r r₁ (halted (done (err e) b r')) l h =
    Broke-earlier closed_while_reading 0 n s r r₁ e l h
PayloadEnd-earlier p n s r r₁ (halted out_of_fuel) l h = h

-- One round of the second loop.
on_payload_read-PayloadEnd :
    (p : List ℕ) (n : ℕ) (loop : List ℕ → Reader → Fill) (buffer : List ℕ) (r : Reader) (o : Read)
    (r' : Reader)
    → length buffer < n
    → ((b : ℕ) (bs : List ℕ)
        → PayloadEnd p n ((buffer ++ (b ∷ bs)) ++ pending r') r' (loop (buffer ++ (b ∷ bs)) r'))
    → Reads r o r'
    → PayloadEnd p n (buffer ++ pending r) r (on_payload_read loop p buffer o r')
unfolding on_payload_read
on_payload_read-PayloadEnd p n loop buffer r (got []) r' h next (e, e') =
    rw e (unfold pending in rw append-nil (inr (refl, omega arith, h)))
on_payload_read-PayloadEnd p n loop buffer r (got (b ∷ bs)) r' h next (e, l) =
    PayloadEnd-earlier p n _ r r' _ l
      (rw e (rw (append_assoc buffer (b ∷ bs) (pending r')) at (next b bs)))
on_payload_read-PayloadEnd p n loop buffer r blocked r' h next (e, m, l) =
    (append_assoc p buffer (pending r') ∙ ap (λ (x : List ℕ). p ++ (buffer ++ x)) (sym e), m, l)
on_payload_read-PayloadEnd p n loop buffer r broken r' h next g = inl g

-- With a round for each missing byte the second loop ends, and ends as it should.
pub fill_payload-PayloadEnd :
    (fuel : ℕ) (p : List ℕ) (n : ℕ) (buffer : List ℕ) (r : Reader)
    → n ≤ fuel + length buffer
    → PayloadEnd p n (buffer ++ pending r) r (fill_payload fuel p n buffer r)
unfolding fill_payload
fill_payload-PayloadEnd zero p n buffer r h =
    rw (le→not_ltb (length buffer) n (omega arith)) (omega arith, refl, (omega arith, λ g. g))
fill_payload-PayloadEnd (suc fuel) p n buffer r h =
    if_cases (PayloadEnd p n (buffer ++ pending r) r) (ltb (length buffer) n) _ _
      (λ t.
        on_payload_read-PayloadEnd p n (fill_payload fuel p n) buffer r _ _ (ltb→lt _ _ t)
          (λ b bs.
            fill_payload-PayloadEnd fuel p n (buffer ++ (b ∷ bs)) _
              (omega (arith, length-append buffer (b ∷ bs))))
          (read-Reads (min (n - length buffer) 1024) r (omega (arith, ltb→lt _ _ t))))
      (λ f. (not_ltb→le _ _ f, refl, (omega arith, λ g. g)))
