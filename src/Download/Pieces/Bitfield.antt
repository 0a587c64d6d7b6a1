-- ===== src/Download/Pieces/Bitfield.antt =====
-- `get_bitfield` sets the bit of each complete piece and no other.
use Prim.Native.Nat.{bit_or}
use iron_peer_417project_pri.Base.{
  ℕ, zero, suc, ◌+◌, ◌-◌, ◌*◌, ◌/◌, ◌%◌, ◌^◌, ◌≤◌, ◌<◌, ◌≡◌, refl, sym, ◌∙◌, ap, ap₂, List, [], ◌∷◌,
  some, Bool, true, false, not, ◌&&◌, ◌||◌, ◌==◌, ==_iff, Bool-cases, inl, inr, length, get_elem?,
  get_or, set, replicate, length-set, length-replicate, All, IsByte, arith, if◌then◌else◌,
  get_elem?-lt, ltb, ltb→lt, some-injective, ◌⊎◌, subst, zero_add,
}
use iron_peer_417project_pri.Download.Peers.{bit_test}
use iron_peer_417project_pri.Download.Pieces.{
  PieceStatus, missing, downloading, complete, is_complete_status, PieceManager, set_bit, fill_bits,
  get_bitfield,
}

-- Bit `j` of a byte string, the first bit the highest of the first byte.
abbrev pub bit_at : List ℕ → ℕ → Bool
bit_at bits j = bit_test (get_or bits (j / 8) 0) (j % 8)

-- Whether a test holds for every number under a bound, by evaluation.
every : ℕ → (ℕ → Bool) → Bool
every zero test = true
every (suc bound) test = every bound test && test bound

every-test : (test : ℕ → Bool) (bound i : ℕ) → i < bound → every bound test ≡ true → test i ≡ true
unfolding every
every-test test zero i lt e = elim lt [ ]
every-test test (suc bound) i lt e = ground (arith, every-test test bound i)

abbrev same : Bool → Bool → Bool
same true b = b
same false b = not b

same→eq : (a b : Bool) → same a b ≡ true → a ≡ b
same→eq true true h = refl
same→eq true false h = cc
same→eq false true h = cc
same→eq false false h = refl

-- Over a byte: setting bit `k` sets that bit, leaves the others, and leaves a byte.
abbrev or_agrees : ℕ → ℕ → ℕ → Bool
or_agrees x k b = same (bit_test (bit_or x (2 ^ (7 - k))) b) (k == b || bit_test x b)

or_table : every 256 (λ x. every 8 (λ k. every 8 (or_agrees x k))) ≡ true
unfolding every
or_table = refl

byte_table : every 256 (λ x. every 8 (λ k. ltb (bit_or x (2 ^ (7 - k))) 256)) ≡ true
unfolding every
byte_table = refl

bit_or-bit_test :
    (x k b : ℕ)
    → IsByte x
    → k < 8
    → b < 8
    → bit_test (bit_or x (2 ^ (7 - k))) b ≡ (k == b || bit_test x b)
bit_or-bit_test x k b hx hk hb =
    same→eq _ _ (every-test _ 8 b hb (every-test _ 8 k hk (every-test _ 256 x hx or_table)))

bit_or-IsByte : (x k : ℕ) → IsByte x → k < 8 → IsByte (bit_or x (2 ^ (7 - k)))
bit_or-IsByte x k hx hk = ltb→lt _ _ (every-test _ 8 k hk (every-test _ 256 x hx byte_table))

-- Setting a bit that the bytes have room for.
abbrev SetsBit : List ℕ → ℕ → List ℕ → Type 0
SetsBit bits i bits' =
    (length bits' ≡ length bits)
    × All IsByte bits'
    × ((j : ℕ) → bit_at bits' j ≡ (i == j || bit_at bits j))

get_or-some : (bits : List ℕ) (k x : ℕ) → get_elem? bits k ≡ some x → get_or bits k 0 ≡ x
get_or-some [] k x e = cc
get_or-some (b ∷ bits) zero x e = some-injective b x e
get_or-some (b ∷ bits) (suc k) x e = get_or-some bits k x e

IsByte-get : (bits : List ℕ) (k x : ℕ) → All IsByte bits → get_elem? bits k ≡ some x → IsByte x
IsByte-get [] k x h e = cc
IsByte-get (b ∷ bits) zero x h e = rw (← some-injective b x e) (h.0)
IsByte-get (b ∷ bits) (suc k) x h e = IsByte-get bits k x h.1 e

All-IsByte-set : (bits : List ℕ) (k x : ℕ) → All IsByte bits → IsByte x → All IsByte (set bits k x)
All-IsByte-set [] k x h hx = tt
All-IsByte-set (b ∷ bits) zero x h hx = (hx, h.1)
All-IsByte-set (b ∷ bits) (suc k) x h hx = (h.0, All-IsByte-set bits k x h.1 hx)

get_or-set :
    (bits : List ℕ) (k j x : ℕ)
    → k < length bits
    → get_or (set bits k x) j 0 ≡ (if k == j then x else get_or bits j 0)
get_or-set [] k j x h = absurd (omega arith)
get_or-set (b ∷ bits) zero zero x h = refl
get_or-set (b ∷ bits) zero (suc j) x h = ground arith
get_or-set (b ∷ bits) (suc k) zero x h = ground arith
get_or-set (b ∷ bits) (suc k) (suc j) x h = ground (arith, get_or-set bits k j x)

same_rest : (i j : ℕ) → (i / 8 == j / 8) ≡ true → (i % 8 == j % 8) ≡ (i == j)
same_rest i j h = ground arith

other_byte : (i j : ℕ) → (i / 8 == j / 8) ≡ false → (i == j) ≡ false
other_byte i j h = ground arith

set_bit-SetsBit :
    (bits : List ℕ) (i x : ℕ)
    → All IsByte bits
    → get_elem? bits (i / 8) ≡ some x
    → (i / 8 < length bits)
    → SetsBit bits i (set bits (i / 8) (bit_or x (2 ^ (7 - i % 8))))
set_bit-SetsBit bits i x h e lt = (
  length-set bits (i / 8) _,
  All-IsByte-set bits (i / 8) _ h
      (bit_or-IsByte x (i % 8) (IsByte-get bits (i / 8) x h e) (omega arith)),
  λ j.
      rw (get_or-set bits (i / 8) (j / 8) (bit_or x (2 ^ (7 - i % 8))) lt)
        (at j (Bool-cases (i / 8 == j / 8))),
)
  where
    at :
        (j : ℕ)
        → ((i / 8 == j / 8) ≡ true) ⊎ ((i / 8 == j / 8) ≡ false)
        → bit_test
            (if i / 8 == j / 8 then bit_or x (2 ^ (7 - i % 8)) else get_or bits (j / 8) 0)
            (j % 8)
          ≡ (i == j || bit_at bits j)
    at j (inl t) = rw t (
        bit_or-bit_test x (i % 8) (j % 8) (IsByte-get bits (i / 8) x h e) (omega arith)
          (omega arith)
        ∙ ap₂ ◌||◌ (same_rest i j t) (
            ap (λ (y : ℕ). bit_test y (j % 8))
              (sym (get_or-some bits (j / 8) x (rw (← (==_iff _ _).0 t) e)))))
    at j (inr f) = rw (f, other_byte i j f)

set_bit-some :
    (bits : List ℕ) (i x : ℕ)
    → get_elem? bits (i / 8) ≡ some x
    → set_bit bits i ≡ some (set bits (i / 8) (bit_or x (2 ^ (7 - i % 8))))
unfolding set_bit
set_bit-some bits i x e = rw (e, set_bit)

set_bit_lem :
    (bits : List ℕ) (i : ℕ)
    → All IsByte bits
    → i < 8 * length bits
    → (bits' : List ℕ) × (set_bit bits i ≡ some bits') × SetsBit bits i bits'
set_bit_lem bits i h lt =
    let in_range : i / 8 < length bits = omega arith in
    let (x, e) = get_elem?-lt bits (i / 8) in_range in
    (
      set bits (i / 8) (bit_or x (2 ^ (7 - i % 8))),
      set_bit-some bits i x e,
      set_bit-SetsBit bits i x h e in_range,
    )

-- Whether piece `j` is complete, where the statuses are those from piece `i` on.
abbrev complete_at : ℕ → List PieceStatus → ℕ → Bool
complete_at i [] j = false
complete_at i (s ∷ ss) j = (is_complete_status s && i == j) || complete_at (suc i) ss j

abbrev Fills : ℕ → List PieceStatus → List ℕ → List ℕ → Type 0
Fills i ss bits bits' =
    (length bits' ≡ length bits)
    × All IsByte bits'
    × ((j : ℕ) → bit_at bits' j ≡ (complete_at i ss j || bit_at bits j))

fill_bits-Fills :
    (i : ℕ) (ss : List PieceStatus) (bits : List ℕ)
    → All IsByte bits
    → i + length ss ≤ 8 * length bits
    → (bits' : List ℕ) × (fill_bits i ss (some bits) ≡ some bits') × Fills i ss bits bits'
unfolding fill_bits
fill_bits-Fills i [] bits h le = (bits, refl, (refl, h, λ j. refl))
fill_bits-Fills i (missing ∷ ss) bits h le = fill_bits-Fills (suc i) ss bits h (omega arith)
fill_bits-Fills i (downloading ∷ ss) bits h le = fill_bits-Fills (suc i) ss bits h (omega arith)
fill_bits-Fills i (complete ∷ ss) bits h le =
    let (bits₁, e, (l₁, h₁, f₁)) = set_bit_lem bits i h (omega arith) in
    let (bits₂, q, (l₂, h₂, f₂)) = fill_bits-Fills (suc i) ss bits₁ h₁ (omega (arith, l₁)) in
    (bits₂, rw e q, (l₂ ∙ l₁, h₂, λ j. f₂ j ∙ ground (arith, f₁ j)))

complete_at_lt : (i : ℕ) (ss : List PieceStatus) (j : ℕ) → j < i → complete_at i ss j ≡ false
complete_at_lt i [] j h = refl
complete_at_lt i (s ∷ ss) j h = ground (arith, complete_at_lt (suc i) ss j)

-- Whether a status is there and complete.
abbrev pub is_complete_at : List PieceStatus → ℕ → Bool
is_complete_at [] j = false
is_complete_at (s ∷ ss) zero = is_complete_status s
is_complete_at (s ∷ ss) (suc j) = is_complete_at ss j

complete_at-shift :
    (i : ℕ) (ss : List PieceStatus) (k : ℕ) → complete_at i ss (i + k) ≡ is_complete_at ss k
complete_at-shift i [] k = refl
complete_at-shift i (s ∷ ss) zero = ground (arith, complete_at_lt (suc i) ss (i + 0))
complete_at-shift i (s ∷ ss) (suc k) =
    let shift : i + suc k ≡ suc i + k = omega arith in
    rw shift (ground (arith, complete_at-shift (suc i) ss k))

get_or-replicate : (n k : ℕ) → get_or {A = ℕ} (replicate n 0) k 0 ≡ 0
get_or-replicate zero k = refl
get_or-replicate (suc n) zero = refl
get_or-replicate (suc n) (suc k) = get_or-replicate n k

zero_table : every 8 (λ b. same (bit_test 0 b) false) ≡ true
unfolding every
zero_table = refl

pub bit_at-replicate : (n j : ℕ) → bit_at (replicate n 0) j ≡ false
bit_at-replicate n j =
    rw (get_or-replicate n (j / 8)) (same→eq _ _ (every-test _ 8 (j % 8) (omega arith) zero_table))

IsByte-replicate : (n : ℕ) → All IsByte (replicate n 0)
IsByte-replicate zero = tt
IsByte-replicate (suc n) = (omega arith, IsByte-replicate n)

or_false : (b : Bool) → (b || false) ≡ b
or_false true = refl
or_false false = refl

from_zero : (ss : List PieceStatus) (j : ℕ) → complete_at 0 ss j ≡ is_complete_at ss j
from_zero ss j =
    subst (λ (x : ℕ). complete_at 0 ss x ≡ is_complete_at ss j) (zero_add j)
      (complete_at-shift 0 ss j)

-- On as many statuses as pieces, `get_bitfield` does not panic. It returns a byte for every eight
-- pieces, and in them the bit of a piece is set exactly where the piece is complete; the spare
-- bits at the end are clear.
pub get_bitfield_lem :
    (pm : PieceManager)
    → length pm.piece_status ≡ pm.total_pieces
    → (bits : List ℕ) × (get_bitfield pm ≡ some bits)
      × (length bits ≡ (pm.total_pieces + 7) / 8)
      × All IsByte bits
      × ((j : ℕ) → bit_at bits j ≡ is_complete_at pm.piece_status j)
unfolding get_bitfield
get_bitfield_lem pm sized =
    let n = (pm.total_pieces + 7) / 8 in
    let (bits, e, (l, h, f)) =
      fill_bits-Fills 0 pm.piece_status (replicate n 0) (IsByte-replicate n)
        (omega (arith, sized, length-replicate n (zero))) in
    (
      bits,
      e,
      l ∙ length-replicate n zero,
      h,
      λ j. f j ∙ ap₂ ◌||◌ (from_zero pm.piece_status j) (bit_at-replicate n j) ∙ or_false _,
    )
