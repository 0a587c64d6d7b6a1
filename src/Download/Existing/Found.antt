-- ===== src/Download/Existing/Found.antt =====
-- What `verify_existing_pieces` finds on the disk.
use iron_peer_417project_pri.Base.{
  none, ℕ, zero, suc, ◌+◌, ◌≤◌, ◌<◌, ◌≡◌, ◌≢◌, ◌↔◌, refl, sym, ◌∙◌, ◌⊎◌, inl, inr, List, Option,
  some, some-injective, Bool, true, false, Result, ok, err, length, replicate, length-set,
  get_elem?, set, get_elem?-set_ne, get_elem?-set_self, get_elem?-lt_length, lt→ltb, ◌==◌, ==_iff,
  ==_false→ne, if_cases, Bool-cases, Option-cases, subst, arith,
}
use iron_peer_417project_pri.Storage.Disk.{Disk}
use iron_peer_417project_pri.Storage.Files.Panics.{CanRead, verify_piece_calm}
use iron_peer_417project_pri.Storage.Files.{panics, FileManager, IoError, verify_piece}
use iron_peer_417project_pri.Download.Pieces.{PieceStatus, missing, complete, PieceManager, new}
use iron_peer_417project_pri.Download.Pieces.Counting.{count_complete-set}
use iron_peer_417project_pri.Download.Pieces.Invariant.{IsValid, active, new-IsValid}
use iron_peer_417project_pri.Download.Received.Verified.{IsVerified}
use iron_peer_417project_pri.Download.Existing.{
  is_ok_true, found_piece, verify_from, verify_existing_pieces,
}

abbrev with_piece : PieceManager → ℕ → PieceManager
with_piece pm i = record pm {
  piece_status = set pm.piece_status i complete;
  pieces_complete = pm.pieces_complete + 1;
}

active-set :
    (ss : List PieceStatus) (i j : ℕ)
    → get_elem? ss i ≡ some missing
    → active (get_elem? (set ss i complete) j) ≡ active (get_elem? ss j)
active-set ss i j e = elim (Bool-cases (i == j)) [
  | inl t ↦
      subst (λ (k : ℕ). active (get_elem? (set ss i complete) k) ≡ active (get_elem? ss k))
        ((==_iff i j).0 t)
        (rw (get_elem?-set_self ss i complete (get_elem?-lt_length ss i e), e) refl)
  | inr f ↦ rw (get_elem?-set_ne ss i j complete (==_false→ne i j f)) refl
]

with_piece-IsValid :
    (pm : PieceManager) (i : ℕ)
    → get_elem? pm.piece_status i ≡ some missing
    → IsValid pm
    → IsValid (with_piece pm i)
with_piece-IsValid pm i e v = record {
  sized = length-set pm.piece_status i complete ∙ v.sized;
  counted = omega (arith, v.counted, count_complete-set pm.piece_status i missing complete e);
  listed = λ j. v.listed j ∙ sym (active-set pm.piece_status i j e);
}

is_ok_true_lem : (r : Result IoError Bool) → is_ok_true r ≡ true → r ≡ ok true
unfolding is_ok_true
is_ok_true_lem (ok true) h = refl
is_ok_true_lem (ok false) h = cc
is_ok_true_lem (err e) h = cc

-- A manager of `n` pieces, none of them complete or under way.
record IsFresh (n : ℕ) (pm : PieceManager) : Type 0 where
  total : pm.total_pieces ≡ n
  none_complete : pm.pieces_complete ≡ 0
  all_missing : (j : ℕ) → j < n → get_elem? pm.piece_status j ≡ some missing

get_elem?-replicate : (n j : ℕ) → j < n → get_elem? (replicate n missing) j ≡ some missing
get_elem?-replicate zero j h = absurd (omega arith)
get_elem?-replicate (suc n) zero h = refl
get_elem?-replicate (suc n) (suc j) h = get_elem?-replicate n j (omega arith)

new-IsFresh : (n l t : ℕ) {pm : PieceManager} → new n l t ≡ some pm → IsFresh n pm
unfolding new
new-IsFresh n l t {pm = pm} =
    if_cases (λ o. o ≡ some pm → IsFresh n pm) (l == 0) _ _ (λ e q. cc)
      (λ f q.
        subst (IsFresh n) (some-injective _ _ q)
          (record { total = refl; none_complete = refl; all_missing = get_elem?-replicate n }))

IsFresh-no_complete :
    (n : ℕ) (pm : PieceManager) (j : ℕ)
    → IsFresh n pm
    → IsValid pm
    → get_elem? pm.piece_status j ≢ some complete
IsFresh-no_complete n pm j fresh v h =
    let place = get_elem?-lt_length pm.piece_status j h in
    let clash = sym (fresh.all_missing j (omega (arith, fresh.total, v.sized))) ∙ h in cc

module _ (sha1 : List ℕ → List ℕ) (m : FileManager) (piece_hashes : List (List ℕ)) (d : Disk) where
  -- Piece `j` was complete, or it is one of those from `i` on and is verified.
  abbrev pub CompleteFrom : ℕ → PieceManager → ℕ → Type 0
  CompleteFrom i pm j =
      (get_elem? pm.piece_status j ≡ some complete)
      ⊎ ((i ≤ j) × (j < pm.total_pieces) × IsVerified sha1 m piece_hashes j d)

  -- The loop ends with a valid manager and a count that has grown with its counter; the complete
  -- pieces are those.
  abbrev pub Ends : ℕ → PieceManager → ℕ → Option (PieceManager × ℕ) → Type 0
  Ends i pm count o =
      (pm' : PieceManager) × (count' : ℕ) × (o ≡ some (pm', count'))
      × IsValid pm'
      × (count' + pm.pieces_complete ≡ count + pm'.pieces_complete)
      × ((j : ℕ) → (get_elem? pm'.piece_status j ≡ some complete) ↔ CompleteFrom i pm j)

  -- It does so, or panics, which means that a piece cannot be read.
  abbrev pub Finds : ℕ → PieceManager → ℕ → Option (PieceManager × ℕ) → Type 0
  Finds i pm count o = ((CanRead m → ⊥) × (o ≡ none)) ⊎ Ends i pm count o

  Finds-skip :
      (i : ℕ) (pm : PieceManager) (count : ℕ) (o : Option (PieceManager × ℕ))
      → ¬ IsVerified sha1 m piece_hashes i d
      → Finds (suc i) pm count o
      → Finds i pm count o
  Finds-skip i pm count o un (inl stop) = inl stop
  Finds-skip i pm count o un (inr (pm', count', e, v, c, f)) =
      inr (pm', count', e, v, c, λ j. (λ h. wider j ((f j).0 h), λ h. (f j).1 (narrower j h)))
    where
      wider : (j : ℕ) → CompleteFrom (suc i) pm j → CompleteFrom i pm j
      wider j (inl h) = inl h
      wider j (inr (le, lt, rest)) = inr (omega arith, lt, rest)

      narrower : (j : ℕ) → CompleteFrom i pm j → CompleteFrom (suc i) pm j
      narrower j (inl h) = inl h
      narrower j (inr (le, lt, verified)) = elim (Bool-cases (i == j)) [
        | inl t ↦ absurd (
            un (
              subst (λ (k : ℕ). IsVerified sha1 m piece_hashes k d) (sym ((==_iff i j).0 t))
                verified))
        | inr n ↦ let ne = ==_false→ne i j n in inr (ground (arith, ne, le), lt, verified)
      ]

  Finds-take :
      (i : ℕ) (pm : PieceManager) (count : ℕ) (o : Option (PieceManager × ℕ))
      → i < length pm.piece_status
      → i < pm.total_pieces
      → IsVerified sha1 m piece_hashes i d
      → Finds (suc i) (with_piece pm i) (count + 1) o
      → Finds i pm count o
  Finds-take i pm count o there below verified (inl stop) = inl stop
  Finds-take i pm count o there below verified (inr (pm', count', e, v, c, f)) =
      inr (
        pm',
        count',
        e,
        v,
        omega arith,
        λ j. (λ h. wider j ((f j).0 h), λ h. (f j).1 (narrower j h)),
      )
    where
      wider : (j : ℕ) → CompleteFrom (suc i) (with_piece pm i) j → CompleteFrom i pm j
      wider j (inr (le, lt, rest)) = inr (omega arith, lt, rest)
      wider j (inl h) = elim (Bool-cases (i == j)) [
        | inl t ↦
            let same : i ≡ j = (==_iff i j).0 t in
            subst (CompleteFrom i pm) same (inr (omega arith, below, verified))
        | inr n ↦ inl (sym (get_elem?-set_ne pm.piece_status i j complete (==_false→ne i j n)) ∙ h)
      ]

      narrower : (j : ℕ) → CompleteFrom i pm j → CompleteFrom (suc i) (with_piece pm i) j
      narrower j h = elim (Bool-cases (i == j)) [
        | inl t ↦
            let same : i ≡ j = (==_iff i j).0 t in
            inl (
              subst (λ (k : ℕ). get_elem? (set pm.piece_status i complete) k ≡ some complete) same
                (get_elem?-set_self pm.piece_status i complete there))
        | inr n ↦ elsewhere j (==_false→ne i j n) h
      ]
        where
          elsewhere :
              (j : ℕ) → i ≢ j → CompleteFrom i pm j → CompleteFrom (suc i) (with_piece pm i) j
          elsewhere j ne (inl k) = inl (get_elem?-set_ne pm.piece_status i j complete ne ∙ k)
          elsewhere j ne (inr (le, lt, rest)) = inr (ground (arith, ne, le), lt, rest)

  unverified :
      (i : ℕ) (hash : List ℕ)
      → get_elem? piece_hashes i ≡ some hash
      → is_ok_true (verify_piece sha1 m i hash d) ≡ false
      → ¬ IsVerified sha1 m piece_hashes i d
  unfolding is_ok_true
  unverified i hash e f (hash', e', v) =
      let same : hash' ≡ hash = some-injective _ _ (sym e' ∙ e) in
      let v' : verify_piece sha1 m i hash d ≡ ok true =
        subst (λ (h : List ℕ). verify_piece sha1 m i h d ≡ ok true) same v in
      let bad = rw v' at f in cc

  verify_from-Finds :
      (n i : ℕ) (pm : PieceManager) (count : ℕ)
      → i + n ≡ pm.total_pieces
      → IsValid pm
      → ((j : ℕ) → i ≤ j → j < pm.total_pieces → get_elem? pm.piece_status j ≡ some missing)
      → Finds i pm count (verify_from sha1 m piece_hashes d n i pm count)
  unfolding verify_from found_piece
  verify_from-Finds zero i pm count end v fresh =
      inr (pm, count, refl, v, refl, λ j. (λ h. inl h, λ h. was h))
    where
      was : {j : ℕ} → CompleteFrom i pm j → get_elem? pm.piece_status j ≡ some complete
      was (inl h) = h
      was (inr (le, lt, verified)) = absurd (omega arith)
  verify_from-Finds (suc n) i pm count end v fresh =
      let next =
        verify_from-Finds n (suc i) pm count (omega arith) v
          (λ j le lt. fresh j (omega arith) lt) in
      let is_missing : get_elem? pm.piece_status i ≡ some missing =
        fresh i (omega arith) (omega arith) in
      let there = get_elem?-lt_length pm.piece_status i is_missing in
      elim (Option-cases (get_elem? piece_hashes i)) [
        | inl e ↦
            rw (e, verify_from) (Finds-skip i pm count _ (λ y. let clash = sym e ∙ y.1 in cc) next)
        | inr h ↦
            rw (h.1, verify_from, lt→ltb i (length pm.piece_status) there)
              (if_cases (Finds i pm count) (panics (verify_piece sha1 m i h.0 d)) _ _
                (λ t.
                  inl (λ can. let calm = verify_piece_calm m can sha1 i h.0 d in absurd cc, refl))
                (λ u.
                  if_cases (Finds i pm count) (is_ok_true (verify_piece sha1 m i h.0 d)) _ _
                    (λ t.
                      Finds-take i pm count _ there (omega arith) (h.0, h.1, is_ok_true_lem _ t)
                        (verify_from-Finds n (suc i) (with_piece pm i) (count + 1) (omega arith)
                          (with_piece-IsValid pm i is_missing v)
                          (λ j le lt.
                            get_elem?-set_ne pm.piece_status i j complete (ground (arith, le))
                            ∙ fresh j (omega arith) lt)))
                    (λ f. Finds-skip i pm count _ (unverified i h.0 h.1 f) next)))
      ]

  -- What `verify_existing_pieces` leads to on a manager that `PieceManager::new` has made.
  abbrev pub Verified : ℕ → PieceManager → Type 0
  Verified total_pieces pm =
      (pm' : PieceManager) × (verify_existing_pieces sha1 m piece_hashes d pm
        ≡ some (pm', pm'.pieces_complete))
      × IsValid pm'
      × ((j : ℕ)
          → (get_elem? pm'.piece_status j ≡ some complete)
            ↔ ((j < total_pieces) × IsVerified sha1 m piece_hashes j d))

  pub verify_existing_pieces_or :
      (total_pieces piece_length total_size : ℕ) (pm : PieceManager)
      → new total_pieces piece_length total_size ≡ some pm
      → ((CanRead m → ⊥) × (verify_existing_pieces sha1 m piece_hashes d pm ≡ none))
        ⊎ Verified total_pieces pm
  unfolding verify_existing_pieces
  verify_existing_pieces_or n l t pm e = by (
      verify_from-Finds pm.total_pieces 0 pm 0 (omega arith) valid
        (λ j le lt. fresh.all_missing j (omega (arith, fresh.total))))
    where
      fresh : IsFresh n pm
      fresh = new-IsFresh n l t e

      valid : IsValid pm
      valid = new-IsValid n l t e

      found : (j : ℕ) → CompleteFrom 0 pm j → (j < n) × IsVerified sha1 m piece_hashes j d
      found j (inl h) = absurd (IsFresh-no_complete n pm j fresh valid h)
      found j (inr (le, lt, verified)) = (omega (arith, fresh.total), verified)

      by :
          Finds 0 pm 0 (verify_from sha1 m piece_hashes d pm.total_pieces 0 pm 0)
          → ((CanRead m → ⊥) × (verify_from sha1 m piece_hashes d pm.total_pieces 0 pm 0 ≡ none))
            ⊎ Verified n pm
      by (inl stop) = inl stop
      by (inr (pm', count', answers, v, c, f)) =
          let same : count' ≡ pm'.pieces_complete = omega (arith, fresh.none_complete) in
          inr (
            pm',
            subst
                (λ (k : ℕ).
                  verify_from sha1 m piece_hashes d pm.total_pieces 0 pm 0 ≡ some (pm', k))
                same answers,
            v,
            λ j. (
              λ h. found j ((f j).0 h),
              λ h. (f j).1 (inr (omega arith, omega (arith, h.0, fresh.total), h.1)),
            ),
          )

  -- What `verify_existing_pieces` does to a manager that `PieceManager::new` has made, where the
  -- pieces on the disk have at least a byte and at most `isize::MAX`: it does not panic, its result
  -- is valid, the number that it answers is that of the complete pieces, and a piece is complete
  -- exactly when it is one of the torrent and is verified on the disk.
  pub verify_existing_pieces_lem :
      (total_pieces piece_length total_size : ℕ) (pm : PieceManager)
      → CanRead m
      → new total_pieces piece_length total_size ≡ some pm
      → (pm' : PieceManager) × (verify_existing_pieces sha1 m piece_hashes d pm
          ≡ some (pm', pm'.pieces_complete))
        × IsValid pm'
        × ((j : ℕ)
            → (get_elem? pm'.piece_status j ≡ some complete)
              ↔ ((j < total_pieces) × IsVerified sha1 m piece_hashes j d))
  verify_existing_pieces_lem n l t pm can e = elim (verify_existing_pieces_or n l t pm e) [
    | inl stop ↦ absurd (stop.0 can)
    | inr h ↦ h
  ]
