-- ===== src/Protocol/Stream.antt =====
-- The reader that `MessageDecoder::read_message` is given: a non-blocking byte stream, as the
-- sequence of what its `read` calls will meet. `arrived` is data that is there, of one byte at
-- least; the end of the list is the end of the stream, where `read` returns `Ok(0)`.
use iron_peer_417project_pri.Base.{
  ℕ, zero, suc, ◌≤◌, ◌<◌, ◌≡◌, refl, ap, sym, ◌∙◌, List, [], ◌∷◌, ◌++◌, take, drop,
  take-append-drop, append_assoc, arith,
}

pub data Event : Type 0 where
  arrived : ℕ → List ℕ → Event
  would_block failed : Event

abbrev pub Reader : Type 0
Reader = List Event

-- What `read` returns: `Ok(n)` with its n bytes, `WouldBlock`, or another error.
pub data Read : Type 0 where
  got : List ℕ → Read
  blocked broken : Read

-- Data that one call did not take is there for the next.
abbrev put_back : List ℕ → Reader → Reader
put_back [] es = es
put_back (b ∷ bs) es = arrived b bs ∷ es

-- `reader.read(&mut temp)` with a buffer of `room` bytes.
unfoldable pub read : ℕ → Reader → Read × Reader
read room [] = (got [], [])
read room (arrived b bs ∷ es) = (got (take room (b ∷ bs)), put_back (drop room (b ∷ bs)) es)
read room (would_block ∷ es) = (blocked, es)
read room (failed ∷ es) = (broken, es)

-- All the bytes still to come, whatever the calls that they will take.
unfoldable pub pending : Reader → List ℕ
pending [] = []
pending (arrived b bs ∷ es) = b ∷ (bs ++ pending es)
pending (would_block ∷ es) = pending es
pending (failed ∷ es) = pending es

-- How often a call will find nothing there.
unfoldable pub blocks : Reader → ℕ
blocks [] = 0
blocks (arrived b bs ∷ es) = blocks es
blocks (would_block ∷ es) = suc (blocks es)
blocks (failed ∷ es) = blocks es

-- No call fails.
abbrev pub IsReliable : Reader → Type 0
IsReliable [] = Unit {0}
IsReliable (arrived b bs ∷ es) = IsReliable es
IsReliable (would_block ∷ es) = IsReliable es
IsReliable (failed ∷ es) = ⊥

-- `r'` is what `r` has become.
abbrev pub Later : Reader → Reader → Type 0
Later r r' = (blocks r' ≤ blocks r) × (IsReliable r → IsReliable r')

-- What a call of `read` with room for a byte does, in terms of the pending bytes.
abbrev pub Reads : Reader → Read → Reader → Type 0
Reads r (got []) r' = (r ≡ []) × (r' ≡ [])
Reads r (got (b ∷ bs)) r' = (pending r ≡ (b ∷ bs) ++ pending r') × Later r r'
Reads r blocked r' = (pending r ≡ pending r') × (blocks r' < blocks r) × Later r r'
Reads r broken r' = ¬ IsReliable r

put_back_lem :
    (bs : List ℕ) (es : Reader)
    → (pending (put_back bs es) ≡ bs ++ pending es)
      × (blocks (put_back bs es) ≡ blocks es)
      × (IsReliable es → IsReliable (put_back bs es))
unfolding pending blocks
put_back_lem [] es = (refl, refl, λ h. h)
put_back_lem (b ∷ bs) es = (refl, refl, λ h. h)

read-suc-Reads : (room : ℕ) (r : Reader) → Reads r (read (suc room) r).0 (read (suc room) r).1
unfolding read pending blocks
read-suc-Reads room [] = (refl, refl)
read-suc-Reads room (arrived b bs ∷ es) =
    let (p, q, h) = put_back_lem (drop room bs) es in
    (ap (◌∷◌ b) (same_bytes p), (omega (arith, q), h))
  where
    same_bytes :
        {l : List ℕ} → l ≡ drop room bs ++ pending es → bs ++ pending es ≡ take room bs ++ l
    same_bytes p =
        ap (λ (l : List ℕ). l ++ pending es) (sym (take-append-drop room bs))
        ∙ append_assoc (take room bs) (drop room bs) (pending es)
        ∙ ap (◌++◌ (take room bs)) (sym p)
read-suc-Reads room (would_block ∷ es) = (refl, omega arith, (omega arith, λ h. h))
read-suc-Reads room (failed ∷ es) = λ h. h

pub read-Reads : (room : ℕ) (r : Reader) → 0 < room → Reads r (read room r).0 (read room r).1
read-Reads zero r h = absurd (omega arith)
read-Reads (suc room) r h = read-suc-Reads room r
