-- ===== src/Download/Peers/Bits.antt =====
-- Reading a bitfield into `have_pieces`, and reading back what `get_bitfield` wrote.
use iron_peer_417project_pri.Base.{
  ℕ, zero, suc, ◌+◌, ◌-◌, ◌*◌, ◌/◌, ◌%◌, ◌<◌, ◌≡◌, refl, sym, ◌∙◌, ap, ap₂, List, [], ◌∷◌, some,
  Bool, true, false, ◌&&◌, ◌||◌, ◌==◌, ==_iff, Bool-cases, inl, inr, length, get_or, set, replicate,
  length-set, length-replicate, arith, ltb, leb, map, some-injective, length-map,
}
use iron_peer_417project_pri.Download.Pieces.{
  PieceStatus, is_complete_status, PieceManager, get_bitfield,
}
use iron_peer_417project_pri.Download.Pieces.Bitfield.{
  bit_at, is_complete_at, bit_at-replicate, get_bitfield_lem,
}
use iron_peer_417project_pri.Download.Peers.{bit_test, mark_bit, read_byte, read_bits}

length-mark_bit : (byte b p : ℕ) (hs : List Bool) → length (mark_bit byte b p hs) ≡ length hs
unfolding mark_bit
length-mark_bit byte b p hs = ground (arith, length-set hs p true)

length-read_byte : (n b i byte : ℕ) (hs : List Bool) → length (read_byte n b i byte hs) ≡ length hs
unfolding read_byte
length-read_byte zero b i byte hs = refl
length-read_byte (suc n) b i byte hs =
    length-read_byte n (suc b) i byte _ ∙ length-mark_bit byte b (i * 8 + b) hs

length-read_bits :
    (i : ℕ) (bits : List ℕ) (hs : List Bool) → length (read_bits i bits hs) ≡ length hs
unfolding read_bits
length-read_bits i [] hs = refl
length-read_bits i (byte ∷ bits) hs =
    length-read_bits (suc i) bits _ ∙ length-read_byte 8 0 i byte hs

get_or-set-true :
    (hs : List Bool) (p j : ℕ)
    → p < length hs
    → get_or (set hs p true) j false ≡ (p == j || get_or hs j false)
get_or-set-true [] p j h = absurd (omega arith)
get_or-set-true (x ∷ hs) zero zero h = refl
get_or-set-true (x ∷ hs) zero (suc j) h = ground arith
get_or-set-true (x ∷ hs) (suc p) zero h = ground arith
get_or-set-true (x ∷ hs) (suc p) (suc j) h = ground (arith, get_or-set-true hs p j)

-- Below the length, a round sets the piece's entry where the bit is set, and keeps the others.
get_or-mark_bit :
    (byte b p j : ℕ) (hs : List Bool)
    → j < length hs
    → get_or (mark_bit byte b p hs) j false ≡ ((p == j && bit_test byte b) || get_or hs j false)
unfolding mark_bit
get_or-mark_bit byte b p j hs h = ground (arith, get_or-set-true hs p j)

-- Whether the rounds from bit `b` on, `n` of them, set the entry `j`.
abbrev hits : ℕ → ℕ → ℕ → ℕ → ℕ → Bool
hits zero b i byte j = false
hits (suc n) b i byte j = hits n (suc b) i byte j || (i * 8 + b == j && bit_test byte b)

or_assoc : (a b c : Bool) → (a || (b || c)) ≡ ((a || b) || c)
or_assoc true b c = refl
or_assoc false b c = refl

or_false : (b : Bool) → (b || false) ≡ b
or_false true = refl
or_false false = refl

get_or-read_byte :
    (n b i byte j : ℕ) (hs : List Bool)
    → j < length hs
    → get_or (read_byte n b i byte hs) j false ≡ (hits n b i byte j || get_or hs j false)
unfolding read_byte
get_or-read_byte zero b i byte j hs h = refl
get_or-read_byte (suc n) b i byte j hs h =
    get_or-read_byte n (suc b) i byte j _ (omega (arith, length-mark_bit byte b (i * 8 + b) hs))
    ∙ ap (◌||◌ (hits n (suc b) i byte j)) (get_or-mark_bit byte b (i * 8 + b) j hs h)
    ∙ or_assoc (hits n (suc b) i byte j) _ _

-- All eight rounds set the entry from the bit of its own place.
hits_lem :
    (n b i byte j : ℕ)
    → hits n b i byte j
      ≡ ((leb (i * 8 + b) j && ltb j (i * 8 + b + n)) && bit_test byte (j - i * 8))
hits_lem zero b i byte j = ground arith
hits_lem (suc n) b i byte j = rw (hits_lem n (suc b) i byte j) (elim (Bool-cases (i * 8 + b == j)) [
  | inl t ↦ let bit : j - i * 8 ≡ b = omega (arith, (==_iff _ _).0 t) in rw bit (ground arith)
  | inr f ↦ ground arith
])

-- What the bytes from `i` on say of entry `j`.
abbrev bit_from : ℕ → List ℕ → ℕ → Bool
bit_from i [] j = false
bit_from i (byte ∷ bits) j = bit_from (suc i) bits j || hits 8 0 i byte j

get_or-read_bits :
    (i : ℕ) (bits : List ℕ) (j : ℕ) (hs : List Bool)
    → j < length hs
    → get_or (read_bits i bits hs) j false ≡ (bit_from i bits j || get_or hs j false)
unfolding read_bits
get_or-read_bits i [] j hs h = refl
get_or-read_bits i (byte ∷ bits) j hs h =
    get_or-read_bits (suc i) bits j _ (omega (arith, length-read_byte 8 0 i byte hs))
    ∙ ap (◌||◌ (bit_from (suc i) bits j)) (get_or-read_byte 8 0 i byte j hs h)
    ∙ or_assoc (bit_from (suc i) bits j) _ _

bit_from_lt : (i : ℕ) (bits : List ℕ) (j : ℕ) → j / 8 < i → bit_from i bits j ≡ false
bit_from_lt i [] j h = refl
bit_from_lt i (byte ∷ bits) j h =
    rw (bit_from_lt (suc i) bits j (omega arith)) (rw (hits_lem 8 0 i byte j) (ground arith))

bit_from-bit_at :
    (i : ℕ) (bits : List ℕ) (j : ℕ) (k : ℕ)
    → j / 8 ≡ i + k
    → bit_from i bits j ≡ bit_test (get_or bits k 0) (j % 8)
bit_from-bit_at i [] j k e = sym (bit_at-replicate 0 j)
bit_from-bit_at i (byte ∷ bits) j zero e =
    rw (bit_from_lt (suc i) bits j (omega arith), hits_lem 8 0 i byte j)
      (let bit : j - i * 8 ≡ j % 8 = omega arith in rw bit (ground arith))
bit_from-bit_at i (byte ∷ bits) j (suc k) e =
    rw (bit_from-bit_at (suc i) bits j k (omega arith)) (rw (hits_lem 8 0 i byte j) (ground arith))

ext_Bool :
    (xs ys : List Bool)
    → length xs ≡ length ys
    → ((j : ℕ) → j < length xs → get_or xs j false ≡ get_or ys j false)
    → xs ≡ ys
ext_Bool [] [] l h = refl
ext_Bool [] (y ∷ ys) l h = absurd (omega arith)
ext_Bool (x ∷ xs) [] l h = absurd (omega arith)
ext_Bool (x ∷ xs) (y ∷ ys) l h =
    ap₂ ◌∷◌ (h 0 (omega arith)) (ext_Bool xs ys (omega arith) (λ j k. h (suc j) (omega arith)))

get_or-map :
    (ss : List PieceStatus) (j : ℕ)
    → get_or (map is_complete_status ss) j false ≡ is_complete_at ss j
get_or-map [] j = refl
get_or-map (s ∷ ss) zero = refl
get_or-map (s ∷ ss) (suc j) = get_or-map ss j

get_or-replicate : (n j : ℕ) → get_or {A = Bool} (replicate n false) j false ≡ false
get_or-replicate zero j = refl
get_or-replicate (suc n) zero = refl
get_or-replicate (suc n) (suc j) = get_or-replicate n j

-- What a new peer knows after a bitfield: the bits, one for each piece.
pub get_or-read_bits_new :
    (bits : List ℕ) (n j : ℕ)
    → j < n
    → get_or (read_bits 0 bits (replicate n false)) j false ≡ bit_at bits j
get_or-read_bits_new bits n j h =
    get_or-read_bits 0 bits j (replicate n false) (omega (arith, length-replicate n false))
    ∙ ap₂ ◌||◌ (bit_from-bit_at 0 bits j (j / 8) (omega arith)) (get_or-replicate n j)
    ∙ or_false _

-- A peer that reads the bitfield which a client sends of its own pieces knows exactly which of
-- them are complete there.
pub read_bits-get_bitfield :
    (pm : PieceManager) (bits : List ℕ)
    → length pm.piece_status ≡ pm.total_pieces
    → get_bitfield pm ≡ some bits
    → read_bits 0 bits (replicate pm.total_pieces false) ≡ map is_complete_status pm.piece_status
read_bits-get_bitfield pm bits sized e =
    let (bits', e', l, h, f) = get_bitfield_lem pm sized in
    let same_bits : bits' ≡ bits = some-injective _ _ (sym e' ∙ e) in
    let n = pm.total_pieces in
    let len : length (read_bits 0 bits (replicate n false)) ≡ n =
      length-read_bits 0 bits (replicate n false) ∙ length-replicate n false in
    ext_Bool _ _ (len ∙ sym sized ∙ sym (length-map is_complete_status pm.piece_status)) λ j k.
      get_or-read_bits_new bits n j (omega (arith, len))
      ∙ sym (ap (λ (b : List ℕ). bit_at b j) same_bits)
      ∙ f j
      ∙ sym (get_or-map pm.piece_status j)
