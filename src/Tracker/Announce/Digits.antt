-- ===== src/Tracker/Announce/Digits.antt =====
-- A number that is printed in decimal is parsed back.
use iron_peer_417project_pri.Base.{
  ◌≢◌, ℕ, zero, suc, ◌+◌, ◌-◌, ◌*◌, ◌/◌, ◌%◌, ◌^◌, ◌≤◌, ◌<◌, ◌≡◌, refl, ap, ◌∙◌, List, [], ◌∷◌,
  ◌++◌, Option, none, some, Bool, false, ◌&&◌, ◌==◌, ltb, leb, if◌then◌else◌, if_cases, ltb→lt, All,
  arith,
}
use iron_peer_417project_pri.Tracker.Text.{parse_digits, some_digits, parse_unsigned}
use iron_peer_417project_pri.Tracker.Announce.{print_digits, decimal}

-- Digits read after digits.
parse_digits-append :
    (bound acc mid : ℕ) (xs ys : List ℕ)
    → parse_digits bound acc xs ≡ some mid
    → parse_digits bound acc (xs ++ ys) ≡ parse_digits bound mid ys
unfolding parse_digits
parse_digits-append bound acc mid [] ys e = ap (λ o. parse_digits_of o) e
  where
    parse_digits_of : Option ℕ → Option ℕ
    parse_digits_of none = none
    parse_digits_of (some a) = parse_digits bound a ys
parse_digits-append bound acc mid (x ∷ xs) ys e =
    if_cases
      (λ o.
        o ≡ some mid
        → (if t then parse_digits bound (acc * 10 + (x - 48)) (xs ++ ys) else none)
          ≡ parse_digits bound mid ys)
      t _ _
      (λ yes_digit k. rw yes_digit (parse_digits-append bound (acc * 10 + (x - 48)) mid xs ys k))
      (λ f k. absurd cc) e
  where
    t : Bool
    t = leb 48 x && ltb x 58 && ltb (acc * 10 + (x - 48)) bound

abbrev pub ten_to : ℕ → ℕ
ten_to zero = 1
ten_to (suc n) = 10 * ten_to n

one_digit :
    (bound acc d : ℕ)
    → d < 10
    → acc * 10 + d < bound
    → parse_digits bound acc ((48 + d) ∷ []) ≡ some (acc * 10 + d)
unfolding parse_digits
one_digit bound acc d small fits = ground arith

parse_digits-print_digits :
    (bound fuel n : ℕ)
    → n < ten_to fuel
    → n < bound
    → parse_digits bound 0 (print_digits fuel n) ≡ some n
unfolding print_digits parse_digits
parse_digits-print_digits bound zero n h fits = ground arith
parse_digits-print_digits bound (suc fuel) n h fits =
    if_cases (λ text. parse_digits bound 0 text ≡ some n) (ltb n 10) _ _
      (λ t. one_digit bound 0 n (ltb→lt n 10 t) (omega arith) ∙ ap some (omega arith))
      (λ f.
        parse_digits-append bound 0 (n / 10) (print_digits fuel (n / 10)) _
          (parse_digits-print_digits bound fuel (n / 10) (omega arith) (omega arith))
        ∙ (one_digit bound (n / 10) (n % 10) (omega arith) (omega arith) ∙ ap some (omega arith)))

abbrev pub IsDigit : ℕ → Type 0
IsDigit b = (48 ≤ b) × (b < 58)

append-IsDigit : (xs : List ℕ) (b : ℕ) → All IsDigit xs → IsDigit b → All IsDigit (xs ++ (b ∷ []))
append-IsDigit [] b h d = (d, tt)
append-IsDigit (x ∷ xs) b (h, hs) d = (h, append-IsDigit xs b hs d)

pub print_digits-IsDigit : (fuel n : ℕ) → All IsDigit (print_digits fuel n)
unfolding print_digits
print_digits-IsDigit zero n = tt
print_digits-IsDigit (suc fuel) n =
    if_cases (All IsDigit) (ltb n 10) _ _ (λ t. ((omega arith, omega (arith, ltb→lt n 10 t)), tt))
      (λ f.
        append-IsDigit (print_digits fuel (n / 10)) (48 + n % 10)
          (print_digits-IsDigit fuel (n / 10)) (omega arith, omega arith))

parse_unsigned-digits :
    (bound n : ℕ) (text : List ℕ)
    → All IsDigit text
    → text ≢ []
    → parse_digits bound 0 text ≡ some n
    → parse_unsigned bound text ≡ some n
unfolding parse_unsigned some_digits parse_digits
parse_unsigned-digits bound n [] h un e = absurd (un refl)
parse_unsigned-digits bound n (b ∷ bs) (h, hs) un e =
    let plus : (b == 43) ≡ false = ground arith in rw (plus, parse_unsigned) e

print_digits-nonempty : (fuel n : ℕ) → print_digits (suc fuel) n ≢ []
unfolding print_digits
print_digits-nonempty fuel n =
    if_cases (λ text. text ≢ []) (ltb n 10) _ _ (λ t e. cc)
      (λ f e. behind (print_digits fuel (n / 10)) e)
  where
    behind : (xs : List ℕ) → xs ++ ((48 + n % 10) ∷ []) ≢ []
    behind [] k = cc
    behind (x ∷ xs) k = cc

pub parse_unsigned-decimal :
    (bound n : ℕ) → n < bound → n < 2 ^ 64 → parse_unsigned bound (decimal n) ≡ some n
unfolding decimal
parse_unsigned-decimal bound n fits small =
    parse_unsigned-digits bound n (print_digits 20 n) (print_digits-IsDigit 20 n)
      (print_digits-nonempty 19 n) (parse_digits-print_digits bound 20 n (omega arith) fits)
