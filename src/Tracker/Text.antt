-- ===== src/Tracker/Text.antt =====
-- What src/tracker/ uses of `std` on text, which is a list of its bytes here.
use iron_peer_417project_pri.Base.{
  ℕ, ◌+◌, ◌-◌, ◌*◌, List, [], ◌∷◌, Option, none, some, Bool, true, false, ◌&&◌, ◌==◌, leb, ltb,
  if◌then◌else◌,
}

unfoldable pub starts_with : List ℕ → List ℕ → Bool
starts_with text [] = true
starts_with [] (p ∷ ps) = false
starts_with (b ∷ bs) (p ∷ ps) = b == p && starts_with bs ps

unfoldable pub push_front : ℕ → List (List ℕ) → List (List ℕ)
push_front b [] = (b ∷ []) ∷ []
push_front b (p ∷ ps) = (b ∷ p) ∷ ps

-- `str::split` at a byte: one part more than there are such bytes.
unfoldable pub split : ℕ → List ℕ → List (List ℕ)
unfolding push_front
split at [] = [] ∷ []
split at (b ∷ bs) = if b == at then [] ∷ split at bs else push_front b (split at bs)

-- The digits of `str::parse` to an integer below `bound`, with what was read before them.
unfoldable pub parse_digits : ℕ → ℕ → List ℕ → Option ℕ
parse_digits bound acc [] = some acc
parse_digits bound acc (b ∷ bs) =
    let rest = parse_digits bound (acc * 10 + (b - 48)) bs in
    if leb 48 b && ltb b 58 && ltb (acc * 10 + (b - 48)) bound then rest else none

unfoldable pub some_digits : ℕ → List ℕ → Option ℕ
unfolding parse_digits
some_digits bound [] = none
some_digits bound (b ∷ bs) = parse_digits bound 0 (b ∷ bs)

-- `str::parse` to an unsigned integer, which a plus sign may precede.
unfoldable pub parse_unsigned : ℕ → List ℕ → Option ℕ
unfolding some_digits
parse_unsigned bound [] = none
parse_unsigned bound (b ∷ bs) = if b == 43 then some_digits bound bs else some_digits bound (b ∷ bs)
