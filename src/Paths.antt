-- ===== src/Paths.antt =====
-- `std::path::PathBuf` as far as the program uses it: components, and `join`, which an absolute
-- path on its right replaces.
use mathlib.Core.Bool.{Bool, true, false, ◌&&◌}
use mathlib.Core.List.{List, [], ◌∷◌, ◌++◌}
use mathlib.Core.Path.{◌≡◌, refl, ap₂}
use Prim.Native.String.{String}
use text.Mathlib.Text.{◌==◌}
use text.Mathlib.TextEquality.{eq_iff}
use text.Mathlib.TextPositions.{eq_refl}
use native.Mathlib.Omega.{arith}

pub record FilePath : Type 0 where
  pub is_absolute : Bool
  pub parts : List String

unfoldable pub join : FilePath → FilePath → FilePath
join base path = elim path.is_absolute [
  | true ↦ path
  | false ↦ record base { parts = base.parts ++ path.parts }
]

same_flag : Bool → Bool → Bool
same_flag true b = b
same_flag false true = false
same_flag false false = true

same_parts : List String → List String → Bool
same_parts [] [] = true
same_parts [] (t ∷ ts) = false
same_parts (s ∷ ss) [] = false
same_parts (s ∷ ss) (t ∷ ts) = s == t && same_parts ss ts

unfoldable pub same_path : FilePath → FilePath → Bool
unfolding same_flag same_parts
same_path p q = same_flag p.is_absolute q.is_absolute && same_parts p.parts q.parts

same_flag_refl : (b : Bool) → same_flag b b ≡ true
unfolding same_flag
same_flag_refl true = refl
same_flag_refl false = refl

same_parts_refl : (ss : List String) → same_parts ss ss ≡ true
unfolding same_parts
same_parts_refl [] = refl
same_parts_refl (s ∷ ss) = rw (eq_refl s, same_parts_refl ss)

pub same_path_refl : (p : FilePath) → same_path p p ≡ true
unfolding same_path
same_path_refl p = rw (same_flag_refl p.is_absolute, same_parts_refl p.parts)

str_eq_sym : (s t : String) → (s == t) ≡ (t == s)
str_eq_sym s t = ground (arith, eq_iff s t, eq_iff t s)

same_flag_sym : (a b : Bool) → same_flag a b ≡ same_flag b a
unfolding same_flag
same_flag_sym true true = refl
same_flag_sym true false = refl
same_flag_sym false true = refl
same_flag_sym false false = refl

same_parts_sym : (ss ts : List String) → same_parts ss ts ≡ same_parts ts ss
unfolding same_parts
same_parts_sym [] [] = refl
same_parts_sym [] (t ∷ ts) = refl
same_parts_sym (s ∷ ss) [] = refl
same_parts_sym (s ∷ ss) (t ∷ ts) = ap₂ ◌&&◌ (str_eq_sym s t) (same_parts_sym ss ts)

pub same_path_sym : (p q : FilePath) → same_path p q ≡ same_path q p
unfolding same_path
same_path_sym p q =
    ap₂ ◌&&◌ (same_flag_sym p.is_absolute q.is_absolute) (same_parts_sym p.parts q.parts)
