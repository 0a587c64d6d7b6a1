-- ===== src/Download/Pieces/Invariant.antt =====
-- The invariant of `PieceManager`, and that its operations keep it.
use iron_peer_417project_pri.Base.{
  ℕ, zero, suc, ◌<◌, ◌≡◌, ◌≢◌, ◌↔◌, refl, sym, ◌∙◌, ap, List, [], ◌∷◌, ◌++◌, Option, none, some,
  true, length, get_elem?, set, ◌==◌, ltb, ltb→lt, ==_iff, ==_false→ne, subst, if_cases, arith,
  replicate, length-set, length-replicate, get_elem?-set_self, get_elem?-set_ne, some-injective,
  Bool-cases, inl, inr, get_elem?-lt,
}
use iron_peer_417project_pri.Download.Blocks.{PieceState, new_piece_state}
use iron_peer_417project_pri.Download.Pieces.{
  PieceStatus, missing, downloading, complete, PieceManager, new, is_complete, without,
  mark_complete, complete_from, start_from, start_downloading, reset_piece,
}
use iron_peer_417project_pri.Download.Pieces.Counting.{
  count_complete, count_complete-set, count_complete-replicate, count_index, count_index-append,
  count_index-without_self, count_index-without_ne, count_complete_all, all_count_complete,
}

-- How many piece states a piece of this status has.
abbrev pub active : Option PieceStatus → ℕ
active none = 0
active (some missing) = 0
active (some downloading) = 1
active (some complete) = 0

-- There is a status for each piece, `pieces_complete` counts the complete ones, and the pieces
-- being downloaded are those of `downloading_pieces`, each once.
pub record IsValid (pm : PieceManager) : Type 0 where
  pub sized : length pm.piece_status ≡ pm.total_pieces
  pub counted : pm.pieces_complete ≡ count_complete pm.piece_status
  pub listed : (i : ℕ) → count_index i pm.downloading_pieces ≡ active (get_elem? pm.piece_status i)

get_elem?-in :
    {s : PieceStatus} (ss : List PieceStatus) (i : ℕ) → get_elem? ss i ≡ some s → i < length ss
get_elem?-in [] i h = cc
get_elem?-in (x ∷ ss) zero h = omega arith
get_elem?-in (x ∷ ss) (suc i) h = omega (arith, get_elem?-in ss i h)

active-replicate : (n i : ℕ) → active (get_elem? (replicate n missing) i) ≡ 0
active-replicate zero i = refl
active-replicate (suc n) zero = refl
active-replicate (suc n) (suc i) = active-replicate n i

pub new-IsValid :
    (total_pieces piece_length total_size : ℕ) {pm : PieceManager}
    → new total_pieces piece_length total_size ≡ some pm
    → IsValid pm
unfolding new count_index
new-IsValid n l t {pm} =
    if_cases (λ o. o ≡ some pm → IsValid pm) (l == 0) _ _ (λ e q. cc)
      λ f q. subst IsValid (some-injective _ _ q) (record {
        sized = length-replicate n missing;
        counted = sym (count_complete-replicate n);
        listed = λ i. sym (active-replicate n i);
      })

-- Piece `i` takes the status `t`, and its state leaves the list.
leave :
    (pm : PieceManager) (i : ℕ) (s t : PieceStatus)
    → get_elem? pm.piece_status i ≡ some s
    → active (some t) ≡ 0
    → ((j : ℕ) → count_index j pm.downloading_pieces ≡ active (get_elem? pm.piece_status j))
    → (j : ℕ)
    → count_index j (without i pm.downloading_pieces)
      ≡ active (get_elem? (set pm.piece_status i t) j)
leave pm i s t e a h j = elim (Bool-cases (i == j)) [
  | inl k ↦ rw (← (==_iff i j).0 k) (
      rw
        (
          count_index-without_self i pm.downloading_pieces,
          get_elem?-set_self pm.piece_status i t (get_elem?-in pm.piece_status i e),
        )
        (sym a))
  | inr k ↦
      let ne = ==_false→ne i j k in
      rw
        (
          count_index-without_ne i j pm.downloading_pieces ne,
          get_elem?-set_ne pm.piece_status i j t ne,
        )
        (h j)
]

-- The completed piece has a status already; it is added to the count unless it was complete.
complete_from-IsValid :
    (pm : PieceManager) (i : ℕ) (s : PieceStatus)
    → IsValid pm
    → get_elem? pm.piece_status i ≡ some s
    → IsValid (complete_from pm i s)
unfolding complete_from
complete_from-IsValid pm i complete v e = v
complete_from-IsValid pm i missing v e = record {
  sized = length-set pm.piece_status i complete ∙ v.sized;
  counted = omega (arith, v.counted, count_complete-set pm.piece_status i missing complete e);
  listed = leave pm i missing complete e refl v.listed;
}
complete_from-IsValid pm i downloading v e = record {
  sized = length-set pm.piece_status i complete ∙ v.sized;
  counted = omega (arith, v.counted, count_complete-set pm.piece_status i downloading complete e);
  listed = leave pm i downloading complete e refl v.listed;
}

-- What `start_downloading` adds: one state for the piece, which had none.
enter :
    (pm : PieceManager) (i : ℕ) (p : PieceState)
    → get_elem? pm.piece_status i ≡ some missing
    → p.index ≡ i
    → ((j : ℕ) → count_index j pm.downloading_pieces ≡ active (get_elem? pm.piece_status j))
    → (j : ℕ)
    → count_index j (pm.downloading_pieces ++ (p ∷ []))
      ≡ active (get_elem? (set pm.piece_status i downloading) j)
unfolding count_index
enter pm i p e q h j = elim (Bool-cases (i == j)) [
  | inl k ↦ rw (← (==_iff i j).0 k) (
      rw (get_elem?-set_self pm.piece_status i downloading (get_elem?-in pm.piece_status i e))
        (ground (arith, count_index-append i pm.downloading_pieces (p ∷ []), h i)))
  | inr k ↦
      let ne = ==_false→ne i j k in
      rw (get_elem?-set_ne pm.piece_status i j downloading ne)
        (ground (arith, ne, count_index-append j pm.downloading_pieces (p ∷ []), h j))
]

start_from-IsValid :
    (pm : PieceManager) (i : ℕ) (s : PieceStatus)
    → IsValid pm
    → get_elem? pm.piece_status i ≡ some s
    → IsValid (start_from pm i s)
unfolding start_from
start_from-IsValid pm i missing v e = record {
  sized = length-set pm.piece_status i downloading ∙ v.sized;
  counted = omega (arith, v.counted, count_complete-set pm.piece_status i missing downloading e);
  listed = enter pm i _ e (unfold new_piece_state in refl) v.listed;
}
start_from-IsValid pm i downloading v e = v
start_from-IsValid pm i complete v e = v

-- An operation that reads the status first and then acts on it.
on_status :
    (pm : PieceManager) (i : ℕ) (f : PieceStatus → PieceManager) {pm' : PieceManager}
    (o : Option PieceStatus)
    → get_elem? pm.piece_status i ≡ o
    → ((s : PieceStatus) → get_elem? pm.piece_status i ≡ some s → IsValid (f s))
    → elim o as (λ _. Option PieceManager) [ none ↦ none | some s ↦ some (f s) ] ≡ some pm'
    → IsValid pm'
on_status pm i f none e h q = cc
on_status pm i f (some s) e h q = subst IsValid (some-injective _ _ q) (h s e)

-- `mark_complete` keeps the invariant, whatever the status of the piece was.
pub mark_complete-IsValid :
    (pm : PieceManager) (i : ℕ) {pm' : PieceManager}
    → IsValid pm
    → mark_complete pm i ≡ some pm'
    → IsValid pm'
unfolding mark_complete
mark_complete-IsValid pm i v q =
    on_status pm i (complete_from pm i) _ refl (λ s. complete_from-IsValid pm i s v) q

-- So does `start_downloading`.
pub start_downloading-IsValid :
    (pm : PieceManager) (i : ℕ) {pm' : PieceManager}
    → IsValid pm
    → start_downloading pm i ≡ some pm'
    → IsValid pm'
unfolding start_downloading
start_downloading-IsValid pm i v q =
    on_status pm i (start_from pm i) _ refl (λ s. start_from-IsValid pm i s v) q

reset_lem :
    (pm : PieceManager) (i : ℕ) (s : PieceStatus)
    → IsValid pm
    → get_elem? pm.piece_status i ≡ some s
    → s ≢ complete
    → IsValid (record pm {
      piece_status = set pm.piece_status i missing;
      downloading_pieces = without i pm.downloading_pieces;
    })
reset_lem pm i complete v e n = absurd (n refl)
reset_lem pm i missing v e n = record {
  sized = length-set pm.piece_status i missing ∙ v.sized;
  counted = omega (arith, v.counted, count_complete-set pm.piece_status i missing missing e);
  listed = leave pm i missing missing e refl v.listed;
}
reset_lem pm i downloading v e n = record {
  sized = length-set pm.piece_status i missing ∙ v.sized;
  counted = omega (arith, v.counted, count_complete-set pm.piece_status i downloading missing e);
  listed = leave pm i downloading missing e refl v.listed;
}

-- `reset_piece` keeps it on a piece that is not complete.
pub reset_piece-IsValid :
    (pm : PieceManager) (i : ℕ) {pm' : PieceManager}
    → IsValid pm
    → get_elem? pm.piece_status i ≢ some complete
    → reset_piece pm i ≡ some pm'
    → IsValid pm'
unfolding reset_piece
reset_piece-IsValid pm i {pm'} v n =
    if_cases (λ o. o ≡ some pm' → IsValid pm') (ltb i (length pm.piece_status)) _ _
      (λ t q.
        let (s, e) = get_elem?-lt pm.piece_status i (ltb→lt _ _ t) in
        subst IsValid (some-injective _ _ q) (reset_lem pm i s v e (λ c. n (e ∙ ap some c))))
      (λ f q. cc)

-- In a valid manager the download is complete exactly when every piece is.
pub is_complete_iff :
    (pm : PieceManager)
    → IsValid pm
    → (is_complete pm ≡ true)
      ↔ ((i : ℕ) → i < pm.total_pieces → get_elem? pm.piece_status i ≡ some complete)
unfolding is_complete
is_complete_iff pm v = (
  λ t i h.
      count_complete_all pm.piece_status (omega (arith, (==_iff _ _).0 t, v.sized, v.counted)) i
        (omega (arith, v.sized)),
  λ h. (==_iff _ _).1 (
      omega (
        arith,
        v.sized,
        v.counted,
        all_count_complete pm.piece_status (λ i k. h i (omega (arith, v.sized))),
      )),
)
