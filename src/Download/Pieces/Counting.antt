-- ===== src/Download/Pieces/Counting.antt =====
-- How often a status and a piece index occur, under the updates of `PieceManager`.
use iron_peer_417project_pri.Base.{
  ℕ, zero, suc, ◌+◌, ◌≤◌, ◌<◌, ◌≡◌, ◌≢◌, refl, List, [], ◌∷◌, ◌++◌, some, Bool, true, false, length,
  get_elem?, set, ◌==◌, arith, replicate,
}
use iron_peer_417project_pri.Download.Blocks.{PieceState}
use iron_peer_417project_pri.Download.Pieces.{
  PieceStatus, missing, downloading, complete, is_complete_status, without,
}

abbrev pub one_if : Bool → ℕ
one_if true = 1
one_if false = 0

-- How many pieces are complete.
unfoldable pub count_complete : List PieceStatus → ℕ
count_complete [] = 0
count_complete (s ∷ ss) = one_if (is_complete_status s) + count_complete ss

pub count_complete-set :
    (ss : List PieceStatus) (i : ℕ) (s t : PieceStatus)
    → get_elem? ss i ≡ some s
    → count_complete (set ss i t) + one_if (is_complete_status s)
      ≡ count_complete ss + one_if (is_complete_status t)
unfolding count_complete
count_complete-set [] i s t h = cc
count_complete-set (x ∷ ss) zero s t h = ground arith
count_complete-set (x ∷ ss) (suc i) s t h = omega (arith, count_complete-set ss i s t h)

pub count_complete-replicate : (n : ℕ) → count_complete (replicate n missing) ≡ 0
unfolding count_complete
count_complete-replicate zero = refl
count_complete-replicate (suc n) = omega (arith, count_complete-replicate n)

-- How many piece states are about piece `i`.
unfoldable pub count_index : ℕ → List PieceState → ℕ
count_index i [] = 0
count_index i (p ∷ ps) = one_if (p.index == i) + count_index i ps

pub count_index-append :
    (i : ℕ) (ps qs : List PieceState)
    → count_index i (ps ++ qs) ≡ count_index i ps + count_index i qs
unfolding count_index
count_index-append i [] qs = omega arith
count_index-append i (p ∷ ps) qs = omega (arith, count_index-append i ps qs)

pub count_index-without_self : (i : ℕ) (ps : List PieceState) → count_index i (without i ps) ≡ 0
unfolding count_index without
count_index-without_self i [] = refl
count_index-without_self i (p ∷ ps) = ground (arith, count_index-without_self i ps)

pub count_index-without_ne :
    (i j : ℕ) (ps : List PieceState) → i ≢ j → count_index j (without i ps) ≡ count_index j ps
unfolding count_index without
count_index-without_ne i j [] h = refl
count_index-without_ne i j (p ∷ ps) h = ground (arith, count_index-without_ne i j ps h)

-- All pieces are complete exactly when the count says so.
pub count_complete-le : (ss : List PieceStatus) → count_complete ss ≤ length ss
unfolding count_complete
count_complete-le [] = omega arith
count_complete-le (missing ∷ ss) = omega (arith, count_complete-le ss)
count_complete-le (downloading ∷ ss) = omega (arith, count_complete-le ss)
count_complete-le (complete ∷ ss) = omega (arith, count_complete-le ss)

pub count_complete_all :
    (ss : List PieceStatus)
    → count_complete ss ≡ length ss
    → (i : ℕ) → i < length ss
    → get_elem? ss i ≡ some complete
unfolding count_complete
count_complete_all [] e i h = absurd (omega arith)
count_complete_all (missing ∷ ss) e i h = absurd (omega (arith, count_complete-le ss))
count_complete_all (downloading ∷ ss) e i h = absurd (omega (arith, count_complete-le ss))
count_complete_all (complete ∷ ss) e zero h = refl
count_complete_all (complete ∷ ss) e (suc i) h = count_complete_all ss (omega arith) i (omega arith)

pub all_count_complete :
    (ss : List PieceStatus)
    → ((i : ℕ) → i < length ss → get_elem? ss i ≡ some complete)
    → count_complete ss ≡ length ss
unfolding count_complete
all_count_complete [] h = refl
all_count_complete (s ∷ ss) h =
    ground (arith, h 0 (omega arith), all_count_complete ss (λ i k. h (suc i) (omega arith)))
