-- ===== src/Protocol/Codec/Sound.antt =====
-- What `decode_message` accepts: an encoded message, and bytes behind it that it ignores.
use iron_peer_417project_pri.Base.{
  ℕ, ◌≤◌, ◌≡◌, refl, ap, ◌∙◌, subst, sym, length-drop, ltb→lt, List, [], ◌∷◌, ◌++◌, Result, ok,
  length, drop, arith, All, IsByte, IsU32, to_be_bytes32, to_be_bytes32-from_be_bytes32,
  from_be_bytes32-lt, to_be_bytes16-from_be_bytes16, from_be_bytes16-lt, if_cases, ltb, not_ltb→le,
  if◌then◌else◌, ok-injective, ◌==◌, ==_iff, append-nil,
}
use iron_peer_417project_pri.Protocol.Messages.{
  Message, IsMessage, choke, unchoke, interested, not_interested, bitfield, id, payload_len,
}
use iron_peer_417project_pri.Protocol.Codec.{
  DecodeError, u32_at, encode, decode_have, decode_request, decode_piece, decode_cancel,
  decode_port, decode_id, decode_message,
}

-- The bytes are those that `encode` writes behind the length prefix, with `t` left over.
abbrev pub Decodes : List ℕ → Message → Type 0
Decodes p m = IsMessage m × (t : List ℕ) × (p ≡ drop 4 (encode m) ++ t)

-- A u32 read from bytes writes the same bytes again.
split_word :
    (d : List ℕ)
    → All IsByte d
    → 4 ≤ length d
    → IsU32 (u32_at 0 d) × (d ≡ to_be_bytes32 (u32_at 0 d) ++ drop 4 d) × All IsByte (drop 4 d)
split_word [] h n = absurd (omega arith)
split_word (x ∷ []) h n = absurd (omega arith)
split_word (x ∷ y ∷ []) h n = absurd (omega arith)
split_word (x ∷ y ∷ z ∷ []) h n = absurd (omega arith)
split_word (x ∷ y ∷ z ∷ w ∷ r) (hx, hr) n = (
  from_be_bytes32-lt x y z w hx hr.0 hr.1.0 hr.1.1.0,
  ap (λ (l : List ℕ). l ++ r) (sym (to_be_bytes32-from_be_bytes32 x y z w hx hr.0 hr.1.0 hr.1.1.0)),
  hr.1.1.1,
)

-- The later words are those of the list without its first word.
shift_word :
    (d : List ℕ)
    → (u32_at 4 d ≡ u32_at 0 (drop 4 d))
      × (u32_at 8 d ≡ u32_at 4 (drop 4 d))
      × (drop 8 d ≡ drop 4 (drop 4 d))
      × (drop 12 d ≡ drop 8 (drop 4 d))
shift_word [] = (refl, refl, refl, refl)
shift_word (x ∷ []) = (refl, refl, refl, refl)
shift_word (x ∷ y ∷ []) = (refl, refl, refl, refl)
shift_word (x ∷ y ∷ z ∷ []) = (refl, refl, refl, refl)
shift_word (x ∷ y ∷ z ∷ w ∷ r) = (refl, refl, refl, refl)

abbrev Pair : List ℕ → Type 0
Pair d =
    IsU32 (u32_at 0 d)
    × IsU32 (u32_at 4 d)
    × (d ≡ to_be_bytes32 (u32_at 0 d) ++ (to_be_bytes32 (u32_at 4 d) ++ drop 8 d))
    × All IsByte (drop 8 d)

abbrev Triple : List ℕ → Type 0
Triple d =
    IsU32 (u32_at 0 d)
    × IsU32 (u32_at 4 d)
    × IsU32 (u32_at 8 d)
    × (d
        ≡ to_be_bytes32 (u32_at 0 d)
          ++ (to_be_bytes32 (u32_at 4 d) ++ (to_be_bytes32 (u32_at 8 d) ++ drop 12 d)))

two_words : (d : List ℕ) → All IsByte d → 8 ≤ length d → Pair d
two_words d h n =
    let (ha, ea, hr) = split_word d h (omega arith) in
    let (hb, eb, hs) = split_word (drop 4 d) hr (omega (arith, length-drop 4 d)) in
    let (e4, e8, ed, e12) = shift_word d in
    rw (e4, ed) (ha, hb, ea ∙ ap (◌++◌ (to_be_bytes32 (u32_at 0 d))) eb, hs)

three_words : (d : List ℕ) → All IsByte d → 12 ≤ length d → Triple d
three_words d h n =
    let (ha, ea, hr) = split_word d h (omega arith) in
    let (hb, hc, eb, hs) = two_words (drop 4 d) hr (omega (arith, length-drop 4 d)) in
    let (e4, e8, ed, e12) = shift_word d in
    rw (e4, e8, e12) (ha, hb, hc, ea ∙ ap (◌++◌ (to_be_bytes32 (u32_at 0 d))) eb)

module _ (d : List ℕ) (m : Message) (h : All IsByte d) where
  decode_have-Decodes : decode_have d ≡ ok m → Decodes (4 ∷ d) m
  unfolding decode_have encode id payload_len
  decode_have-Decodes =
      if_cases (λ r. r ≡ ok m → Decodes (4 ∷ d) m) (ltb (length d) 4) _ _ (λ t e. cc)
        λ f e.
          let (hi, ed, hr) = split_word d h (not_ltb→le _ _ f) in
          subst (Decodes (4 ∷ d)) (ok-injective e) (hi, drop 4 d, ap (◌∷◌ 4) ed)

  decode_request-Decodes : decode_request d ≡ ok m → Decodes (6 ∷ d) m
  unfolding decode_request encode id payload_len
  decode_request-Decodes =
      if_cases (λ r. r ≡ ok m → Decodes (6 ∷ d) m) (ltb (length d) 12) _ _ (λ t e. cc)
        λ f e.
          let (hi, hb, hl, ed) = three_words d h (not_ltb→le _ _ f) in
          subst (Decodes (6 ∷ d)) (ok-injective e) ((hi, hb, hl), drop 12 d, ap (◌∷◌ 6) ed)

  decode_cancel-Decodes : decode_cancel d ≡ ok m → Decodes (8 ∷ d) m
  unfolding decode_cancel encode id payload_len
  decode_cancel-Decodes =
      if_cases (λ r. r ≡ ok m → Decodes (8 ∷ d) m) (ltb (length d) 12) _ _ (λ t e. cc)
        λ f e.
          let (hi, hb, hl, ed) = three_words d h (not_ltb→le _ _ f) in
          subst (Decodes (8 ∷ d)) (ok-injective e) ((hi, hb, hl), drop 12 d, ap (◌∷◌ 8) ed)

  decode_piece-Decodes : decode_piece d ≡ ok m → Decodes (7 ∷ d) m
  unfolding decode_piece encode id payload_len
  decode_piece-Decodes =
      if_cases (λ r. r ≡ ok m → Decodes (7 ∷ d) m) (ltb (length d) 8) _ _ (λ t e. cc)
        λ f e.
          let (hi, hb, ed, hr) = two_words d h (not_ltb→le _ _ f) in
          subst (Decodes (7 ∷ d)) (ok-injective e)
            ((hi, hb, hr), [], ap (◌∷◌ 7) (ed ∙ sym (append-nil _)))

decode_port-Decodes :
    (d : List ℕ) (m : Message) → All IsByte d → decode_port d ≡ ok m → Decodes (9 ∷ d) m
unfolding decode_port encode id payload_len
decode_port-Decodes [] m h e = cc
decode_port-Decodes (x ∷ []) m h e = cc
decode_port-Decodes (x ∷ y ∷ r) m h q =
    if_cases (λ o. o ≡ ok m → Decodes (9 ∷ x ∷ y ∷ r) m) (ltb (length (x ∷ y ∷ r)) 2) _ _
      (λ t e. absurd (omega (arith, ltb→lt _ _ t)))
      (λ f e. subst (Decodes (9 ∷ x ∷ y ∷ r)) (ok-injective e) (
        from_be_bytes16-lt x y h.0 h.1.0,
        r,
        ap (λ (l : List ℕ). 9 ∷ l ++ r) (sym (to_be_bytes16-from_be_bytes16 x y h.0 h.1.0)),
      ))
      q

-- One test of the id: a hit decodes, a miss goes on to the next.
module _ (i : ℕ) (d : List ℕ) (m : Message) where
  on_id :
      (k : ℕ) {x y : Result DecodeError Message}
      → (x ≡ ok m → Decodes (k ∷ d) m)
      → (y ≡ ok m → Decodes (i ∷ d) m)
      → (if i == k then x else y) ≡ ok m
      → Decodes (i ∷ d) m
  on_id k {x} {y} hit miss =
      if_cases (λ r. r ≡ ok m → Decodes (i ∷ d) m) (i == k) x y
        (λ t e. subst (λ (n : ℕ). Decodes (n ∷ d) m) (sym ((==_iff i k).0 t)) (hit e)) (λ f. miss)

  -- A message that the id alone decides.
  on_bare :
      (k : ℕ) (n : Message)
      → Decodes (k ∷ d) n
      → ◌≡◌ {A = Result DecodeError Message} (ok n) (ok m)
      → Decodes (k ∷ d) m
  on_bare k n s e = subst (Decodes (k ∷ d)) (ok-injective e) s

decode_id-Decodes :
    (i : ℕ) (d : List ℕ) (m : Message) → All IsByte d → decode_id i d ≡ ok m → Decodes (i ∷ d) m
unfolding decode_id encode id payload_len
decode_id-Decodes i d m h = on_id i d m 0 (on_bare i d m 0 choke (tt, d, refl)) (
    on_id i d m 1 (on_bare i d m 1 unchoke (tt, d, refl)) (
      on_id i d m 2 (on_bare i d m 2 interested (tt, d, refl)) (
        on_id i d m 3 (on_bare i d m 3 not_interested (tt, d, refl)) (
          on_id i d m 4 (decode_have-Decodes d m h) (
            on_id i d m 5 (on_bare i d m 5 (bitfield d) (h, [], ap (◌∷◌ 5) (sym (append-nil d)))) (
              on_id i d m 6 (decode_request-Decodes d m h) (
                on_id i d m 7 (decode_piece-Decodes d m h) (
                  on_id i d m 8 (decode_cancel-Decodes d m h)
                    (on_id i d m 9 (decode_port-Decodes d m h) (λ e. cc))))))))))

-- A payload that decodes is an encoded message, field ranges included, and what lies behind it.
pub decode_message-Decodes :
    (p : List ℕ) (m : Message) → All IsByte p → decode_message p ≡ ok m → Decodes p m
unfolding decode_message
decode_message-Decodes [] m h e = cc
decode_message-Decodes (i ∷ d) m h e = decode_id-Decodes i d m h.1 e
