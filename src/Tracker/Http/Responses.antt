-- ===== src/Tracker/Http/Responses.antt =====
-- How `perform_request` reads a response.
use iron_peer_417project_pri.Base.{
  ℕ, ◌<◌, ◌≡◌, List, [], ◌∷◌, ◌++◌, Option, none, Bool, true, false, ok, err, length, ◌≤◌, ◌⊎◌, ◌^◌,
  some,
}
use iron_peer_417project_pri.Tracker.Http.{
  HttpError, io_error, panicked, Outcome, answered, out_of_fuel, has_feed, is_blank,
}
use iron_peer_417project_pri.Tracker.Http.Headers.{line_of, Header, text_of, Says, last_length}

abbrev pub lines : List Header → List ℕ
lines [] = []
lines (h ∷ hs) = line_of (text_of h) ++ lines hs

-- Text within a line, which can be decoded.
pub record IsText (is_utf8 : List ℕ → Bool) (text : List ℕ) : Type 0 where
  pub no_feed : has_feed text ≡ false
  pub valid : is_utf8 (line_of text) ≡ true

-- A header, whose line is not blank.
pub record IsHeader (is_utf8 : List ℕ → Bool) (h : Header) : Type 0 where
  pub is_text : IsText is_utf8 (text_of h)
  pub not_blank : is_blank (line_of (text_of h)) ≡ false
  pub says : Says h

-- What comes behind the headers: a blank line and the body, or the end of the connection, within a
-- line where some of it came.
pub data Ending : Type 0 where
  with_body : List ℕ → Ending
  closed : List ℕ → Ending

abbrev pub ending_bytes : Ending → List ℕ
ending_bytes (with_body body) = 13 ∷ 10 ∷ body
ending_bytes (closed partial) = partial

-- What a body leads to, with the length that was declared for it, where reading fails behind it or
-- not. A length above isize::MAX is a panic, a body that is shorter than its length an error, and
-- otherwise the answer is the front of the body that has the length; without a length, all of it.
abbrev pub Reads : Bool → Option ℕ → List ℕ → Outcome → Type 0
Reads true none body o = o ≡ answered (err io_error)
Reads false none body o = o ≡ answered (ok body)
Reads breaks (some n) body o =
    ((2 ^ 63 ≤ n) × (o ≡ panicked))
    ⊎ (((n < 2 ^ 63) × (length body < n) × (e : HttpError) × (o ≡ answered (err e)))
        ⊎ ((n < 2 ^ 63)
            × (front : List ℕ) × (back : List ℕ) × (body ≡ front ++ back)
            × (length front ≡ n)
            × (o ≡ answered (ok front))))

-- What a response leads to, with the content length from before its headers.
abbrev pub Leads : Bool → List Header → Option ℕ → Ending → Outcome → Type 0
Leads breaks hs before (with_body body) o = Reads breaks (last_length hs before) body o
Leads breaks hs before (closed partial) o = o ≡ out_of_fuel

module _ (is_utf8 : List ℕ → Bool) where
  module _ (empty : is_utf8 [] ≡ true) (blank : is_utf8 (13 ∷ 10 ∷ []) ≡ true) where
    -- A connection that breaks has an end only where it is read. What it closes within is text,
    -- without a line feed.
    abbrev pub IsEnding : Bool → Ending → Type 0
    IsEnding breaks (with_body body) = Unit {0}
    IsEnding breaks (closed partial) =
        (breaks ≡ false) × (has_feed partial ≡ false) × (is_utf8 partial ≡ true)
