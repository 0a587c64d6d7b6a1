-- ===== src/Base/Words.antt =====
-- Unsigned machine words as native numbers, and their big-endian bytes.
use Prim.Native.Nat.{ℕ, ◌+◌, ◌-◌, ◌*◌, ◌/◌, ◌%◌, ◌^◌, ◌<◌}
use mathlib.Core.Path.{◌≡◌}
use mathlib.Core.List.{List, [], ◌∷◌, ◌++◌}
use native.Mathlib.Omega.{arith}

abbrev pub IsByte : ℕ → Type 0
IsByte b = b < 256

abbrev pub IsU16 : ℕ → Type 0
IsU16 x = x < 2 ^ 16

abbrev pub IsU32 : ℕ → Type 0
IsU32 x = x < 2 ^ 32

abbrev pub IsU64 : ℕ → Type 0
IsU64 x = x < 2 ^ 64

-- `e as u32`, and the result of u64 arithmetic.
abbrev pub as_u32 : ℕ → ℕ
as_u32 x = x % 2 ^ 32

abbrev pub as_u64 : ℕ → ℕ
as_u64 x = x % 2 ^ 64

-- `u16::to_be_bytes`, `u32::to_be_bytes` and their inverses.
abbrev pub to_be_bytes16 : ℕ → List ℕ
to_be_bytes16 x = (x / 2 ^ 8 % 256) ∷ (x % 256) ∷ []

abbrev pub to_be_bytes32 : ℕ → List ℕ
to_be_bytes32 x = (x / 2 ^ 24 % 256) ∷ (x / 2 ^ 16 % 256) ∷ (x / 2 ^ 8 % 256) ∷ (x % 256) ∷ []

abbrev pub to_be_bytes64 : ℕ → List ℕ
to_be_bytes64 x = to_be_bytes32 (x / 2 ^ 32) ++ to_be_bytes32 x

abbrev pub from_be_bytes16 : ℕ → ℕ → ℕ
from_be_bytes16 a b = a * 2 ^ 8 + b

abbrev pub from_be_bytes32 : ℕ → ℕ → ℕ → ℕ → ℕ
from_be_bytes32 a b c d = a * 2 ^ 24 + b * 2 ^ 16 + c * 2 ^ 8 + d

pub from_be_bytes16-to_be_bytes16 :
    (x : ℕ) → IsU16 x → from_be_bytes16 (x / 2 ^ 8 % 256) (x % 256) ≡ x
from_be_bytes16-to_be_bytes16 x h = omega arith

pub from_be_bytes32-to_be_bytes32 :
    (x : ℕ)
    → IsU32 x
    → from_be_bytes32 (x / 2 ^ 24 % 256) (x / 2 ^ 16 % 256) (x / 2 ^ 8 % 256) (x % 256) ≡ x
from_be_bytes32-to_be_bytes32 x h = omega arith

pub from_be_bytes32-lt :
    (a b c d : ℕ) → IsByte a → IsByte b → IsByte c → IsByte d → IsU32 (from_be_bytes32 a b c d)
from_be_bytes32-lt a b c d ha hb hc hd = omega arith

pub to_be_bytes32-from_be_bytes32 :
    (a b c d : ℕ)
    → IsByte a
    → IsByte b
    → IsByte c
    → IsByte d
    → to_be_bytes32 (from_be_bytes32 a b c d) ≡ a ∷ b ∷ c ∷ d ∷ []
to_be_bytes32-from_be_bytes32 a b c d ha hb hc hd = ground arith

pub to_be_bytes16-from_be_bytes16 :
    (a b : ℕ) → IsByte a → IsByte b → to_be_bytes16 (from_be_bytes16 a b) ≡ a ∷ b ∷ []
to_be_bytes16-from_be_bytes16 a b ha hb = ground arith

pub from_be_bytes16-lt : (a b : ℕ) → IsByte a → IsByte b → IsU16 (from_be_bytes16 a b)
from_be_bytes16-lt a b ha hb = omega arith

pub zero_add : (n : ℕ) → 0 + n ≡ n
zero_add n = omega arith

-- `n - 1` on a usize, which wraps at 0 (a debug build panics there).
abbrev pub wrapping_pred : ℕ → ℕ
wrapping_pred n = (n + (2 ^ 64 - 1)) % 2 ^ 64

-- An i64: `negsuc n` is -(n + 1).
pub data ℤ : Type 0 where
  pos : ℕ → ℤ
  negsuc : ℕ → ℤ
