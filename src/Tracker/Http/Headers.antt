-- ===== src/Tracker/Http/Headers.antt =====
-- The headers of a response, and the content length that they declare.
use iron_peer_417project_pri.Base.{
  ℕ, ◌^◌, ◌≡◌, refl, ap, ◌∙◌, inr, List, [], ◌∷◌, ◌++◌, Option, some, Bool, true, false, ◌||◌, ◌==◌,
  All, IsU64, arith, append_assoc, leb, ltb, ◌&&◌,
}
use iron_peer_417project_pri.Tracker.Text.{starts_with, split, parse_unsigned}
use iron_peer_417project_pri.Tracker.Announce.{decimal}
use iron_peer_417project_pri.Tracker.Announce.Digits.{
  IsDigit, print_digits-IsDigit, parse_unsigned-decimal,
}
use iron_peer_417project_pri.Tracker.Announce.Fields.{
  ascii, has, decimal-lacks, split-append, split-lacks,
}
use iron_peer_417project_pri.Tracker.Http.{
  to_lowercase, space_at, trim_from, trim_start, trim_end, with_header, second_number, or_before,
}

-- A line of text, with its line feed.
abbrev pub line_of : List ℕ → List ℕ
line_of text = text ++ (10 ∷ [])

-- A header that says the length of the body, and any other.
pub data Header : Type 0 where
  content_length : ℕ → Header
  other : List ℕ → Header

abbrev pub text_of : Header → List ℕ
text_of (content_length n) = ascii "Content-Length: " ++ (decimal n ++ (13 ∷ []))
text_of (other text) = text

-- A length that is a usize, and a text that does not start with the name of a content length.
abbrev pub Says : Header → Type 0
Says (content_length n) = IsU64 n
Says (other text) = starts_with (to_lowercase (line_of text)) (ascii "content-length:") ≡ false

-- The length that the last of some headers says, and the one from before where none does.
abbrev pub last_length : List Header → Option ℕ → Option ℕ
last_length [] before = before
last_length (content_length n ∷ hs) before = last_length hs (some n)
last_length (other text ∷ hs) before = last_length hs before

digit-space_at : (b : ℕ) (bs : List ℕ) → IsDigit b → space_at (b ∷ bs) ≡ 0
unfolding space_at
digit-space_at b bs h =
    let a : (b == 32 || (leb 9 b && ltb b 14)) ≡ false = ground arith in
    let c : (b == 194) ≡ false = ground arith in
    let d : (b == 225) ≡ false = ground arith in
    let e : (b == 226) ≡ false = ground arith in
    let f : (b == 227) ≡ false = ground arith in rw (a, c, d, e, f) refl

digit-trim_start : (b : ℕ) (bs : List ℕ) → IsDigit b → trim_start (b ∷ bs) ≡ b ∷ bs
unfolding trim_start trim_from
digit-trim_start b bs h = rw (digit-space_at b bs h, trim_from) refl

-- Digits in front of a line's end.
trim_end-digits : (ds : List ℕ) → All IsDigit ds → trim_end (ds ++ (13 ∷ 10 ∷ [])) ≡ ds
unfolding trim_end trim_start trim_from space_at
trim_end-digits [] h = refl
trim_end-digits (d ∷ ds) (h, hs) =
    rw (digit-trim_start d (ds ++ (13 ∷ 10 ∷ [])) h, trim_end, trim_end-digits ds hs) refl

trim_start-digits :
    (ds : List ℕ) → All IsDigit ds → trim_end (trim_start (32 ∷ (ds ++ (13 ∷ 10 ∷ [])))) ≡ ds
unfolding trim_end trim_start trim_from space_at
trim_start-digits [] h = refl
trim_start-digits (d ∷ ds) (h, hs) =
    ap trim_end (digit-trim_start d (ds ++ (13 ∷ 10 ∷ [])) h) ∙ trim_end-digits (d ∷ ds) (h, hs)

has-append : (at : ℕ) (xs ys : List ℕ) → has at (xs ++ ys) ≡ (has at xs || has at ys)
has-append at [] ys = refl
has-append at (x ∷ xs) ys = ap (λ b. x == at || b) (has-append at xs ys) ∙ by (x == at) _ _
  where
    by : (a b c : Bool) → (a || (b || c)) ≡ ((a || b) || c)
    by true b c = refl
    by false b c = refl

-- What is behind the name.
abbrev value : ℕ → List ℕ
value n = 32 ∷ (decimal n ++ (13 ∷ 10 ∷ []))

value-lacks : (n : ℕ) → has 58 (value n) ≡ false
value-lacks n =
    has-append 58 (decimal n) (13 ∷ 10 ∷ []) ∙ rw (decimal-lacks 58 n (inr (omega arith))) refl

pub with_header-content_length :
    (n : ℕ) (before : Option ℕ)
    → IsU64 n
    → with_header (line_of (text_of (content_length n))) before ≡ some n
unfolding with_header to_lowercase starts_with decimal
with_header-content_length n before h =
    let name = ascii "Content-Length" in
    let whole : line_of (text_of (content_length n)) ≡ name ++ (58 ∷ value n) =
      ap (λ l. ascii "Content-Length: " ++ l) (append_assoc (decimal n) (13 ∷ []) (10 ∷ [])) in
    let parts : split 58 (name ++ (58 ∷ value n)) ≡ name ∷ value n ∷ [] =
      split-append 58 name (value n) refl
      ∙ ap (λ l. name ∷ l) (split-lacks 58 (value n) (value-lacks n)) in
    let number : second_number (name ∷ value n ∷ []) ≡ some n =
      ap (parse_unsigned (2 ^ 64)) (trim_start-digits (decimal n) (print_digits-IsDigit 20 n))
      ∙ parse_unsigned-decimal (2 ^ 64) n h (omega arith) in
    ap (λ l. with_header l before) whole
    ∙ ap (λ o. or_before o before) (ap second_number parts ∙ number)

pub with_header-other :
    (text : List ℕ) (before : Option ℕ)
    → Says (other text)
    → with_header (line_of text) before ≡ before
unfolding with_header
with_header-other text before h = rw (h, with_header) refl
