-- ===== src/Download/Pieces/Rarest.antt =====
-- `get_next_needed_piece` picks the rarest piece that is missing here and there at the peer.
use iron_peer_417project_pri.Base.{
  ℕ, zero, suc, ◌+◌, ◌≤◌, ◌<◌, ◌≡◌, refl, sym, ap, ◌⊎◌, inl, inr, List, [], ◌∷◌, none, some, Bool,
  true, false, ◌&&◌, get_elem?, get_or, leb, leb→le, not_leb→lt, if◌then◌else◌, if_cases,
  Bool-cases, arith, subst, add-zero, some-injective,
}
use Prim.Native.Nat.add
use iron_peer_417project_pri.Download.Pieces.{
  PieceStatus, missing, downloading, complete, is_missing, PieceManager, candidates, insert_by,
  sort_by_key, get_next_needed_piece,
}

abbrev pub Member : ℕ → List ℕ → Type 0
Member j [] = ⊥
Member j (x ∷ xs) = (j ≡ x) ⊎ Member j xs

-- The items rise, from `n` on.
abbrev pub Rising : ℕ → List ℕ → Type 0
Rising n [] = Unit {0}
Rising n (x ∷ xs) = (n ≤ x) × Rising (suc x) xs

-- `i` is rarer than `j`, or as rare and not behind it.
abbrev pub Before : (ℕ → ℕ) → ℕ → ℕ → Type 0
Before key i j = (key i < key j) ⊎ ((key i ≡ key j) × (i ≤ j))

abbrev pub Best : (ℕ → ℕ) → List ℕ → ℕ → Type 0
Best key xs y = Member y xs × ((j : ℕ) → Member j xs → Before key y j)

Rising-le : (n j : ℕ) (xs : List ℕ) → Rising n xs → Member j xs → n ≤ j
Rising-le n j [] r m = absurd m
Rising-le n j (x ∷ xs) r (inl e) = omega arith
Rising-le n j (x ∷ xs) r (inr m) = omega (arith, Rising-le (suc x) j xs r.1 m)

Before-trans : (key : ℕ → ℕ) (x y j : ℕ) → key x ≤ key y → x ≤ j → Before key y j → Before key x j
Before-trans key x y j h le b = ground arith

-- The first item of the sorted list is the best one.
insert_by-Best :
    (key : ℕ → ℕ) (x : ℕ) (xs : List ℕ) (y : ℕ) (ys : List ℕ)
    → Rising (suc x) xs
    → Best key xs y
    → (z : ℕ) × (zs : List ℕ) × (insert_by key x (y ∷ ys) ≡ z ∷ zs) × Best key (x ∷ xs) z
unfolding insert_by
insert_by-Best key x xs y ys r (m, b) = elim (Bool-cases (leb (key x) (key y))) [
  | inl t ↦ (x, y ∷ ys, rw t, (inl refl, λ j. first t j))
  | inr f ↦ (y, insert_by key x ys, rw f, (inr m, λ j. later f j))
]
  where
    first : leb (key x) (key y) ≡ true → (j : ℕ) → Member j (x ∷ xs) → Before key x j
    first t j (inl e) = inr (ap key (sym e), omega arith)
    first t j (inr k) =
        Before-trans key x y j (leb→le _ _ t) (omega (arith, Rising-le (suc x) j xs r k)) (b j k)

    later : leb (key x) (key y) ≡ false → (j : ℕ) → Member j (x ∷ xs) → Before key y j
    later f j (inl e) = inl (rw e (not_leb→lt _ _ f))
    later f j (inr k) = b j k

alone : (key : ℕ → ℕ) (x : ℕ) (xs : List ℕ) → xs ≡ [] → (j : ℕ) → Member j (x ∷ xs) → Before key x j
alone key x xs e j (inl q) = inr (ap key (sym q), omega arith)
alone key x xs e j (inr m) = absurd (subst (Member j) e m)

sort_by_key-Best :
    (key : ℕ → ℕ) (n : ℕ) (xs : List ℕ)
    → Rising n xs
    → ((xs ≡ []) × (sort_by_key key xs ≡ []))
      ⊎ ((y : ℕ) × (ys : List ℕ) × (sort_by_key key xs ≡ y ∷ ys) × Best key xs y)
unfolding sort_by_key
sort_by_key-Best key n [] r = inl (refl, refl)
sort_by_key-Best key n (x ∷ xs) r = elim (sort_by_key-Best key (suc x) xs r.1) [
  | inl (e, s) ↦ inr (x, [], rw s (unfold insert_by in refl), (inl refl, alone key x xs e))
  | inr (y, ys, s, b) ↦ inr (rw s (insert_by-Best key x xs y ys r.1 b))
]

-- A piece that is missing here and there at the peer.
abbrev pub Wanted : List PieceStatus → List Bool → ℕ → Type 0
Wanted ss peer_have j = (get_elem? ss j ≡ some missing) × (get_or peer_have j false ≡ true)

-- The candidates from `i` on are the wanted pieces, counted from `i`.
abbrev WantedFrom : ℕ → List PieceStatus → List Bool → ℕ → Type 0
WantedFrom i ss peer_have j =
    (k : ℕ) × (j ≡ i + k) × (get_elem? ss k ≡ some missing) × (get_or peer_have j false ≡ true)

candidates-Rising :
    (i n : ℕ) (ss : List PieceStatus) (peer_have : List Bool)
    → n ≤ i
    → Rising n (candidates i ss peer_have)
unfolding candidates
candidates-Rising i n [] peer_have h = tt
candidates-Rising i n (s ∷ ss) peer_have h =
    if_cases (Rising n) (is_missing s && get_or peer_have i false) _ _
      (λ t. (h, candidates-Rising (suc i) (suc i) ss peer_have (omega arith)))
      (λ f. candidates-Rising (suc i) n ss peer_have (omega arith))

missing_of : (s : PieceStatus) (b : Bool) → (is_missing s && b) ≡ true → (s ≡ missing) × (b ≡ true)
missing_of missing b h = (refl, h)
missing_of downloading b h = cc
missing_of complete b h = cc

cons_sound :
    (i : ℕ) (s : PieceStatus) (ss : List PieceStatus) (peer_have : List Bool) (j : ℕ)
    (rest : List ℕ)
    → (Member j rest → WantedFrom (suc i) ss peer_have j)
    → Member j (if is_missing s && get_or peer_have i false then i ∷ rest else rest)
    → WantedFrom i (s ∷ ss) peer_have j
cons_sound i s ss peer_have j rest ih =
    if_cases (λ l. Member j l → WantedFrom i (s ∷ ss) peer_have j)
      (is_missing s && get_or peer_have i false) _ _ hit (λ f m. later (ih m))
  where
    later : WantedFrom (suc i) ss peer_have j → WantedFrom i (s ∷ ss) peer_have j
    later (k, e, q, h) = (suc k, omega arith, q, h)

    hit :
        (is_missing s && get_or peer_have i false) ≡ true
        → Member j (i ∷ rest)
        → WantedFrom i (s ∷ ss) peer_have j
    hit t (inl e) = let (q, h) = missing_of s _ t in (0, omega arith, ap some q, rw e h)
    hit t (inr m) = later (ih m)

candidates_sound :
    (i : ℕ) (ss : List PieceStatus) (peer_have : List Bool) (j : ℕ)
    → Member j (candidates i ss peer_have)
    → WantedFrom i ss peer_have j
unfolding candidates
candidates_sound i [] peer_have j m = absurd m
candidates_sound i (s ∷ ss) peer_have j m =
    cons_sound i s ss peer_have j (candidates (suc i) ss peer_have)
      (candidates_sound (suc i) ss peer_have j) m

cons_complete :
    (i : ℕ) (s : PieceStatus) (ss : List PieceStatus) (peer_have : List Bool) (j : ℕ)
    → Member j (candidates (suc i) ss peer_have)
    → Member j (candidates i (s ∷ ss) peer_have)
unfolding candidates
cons_complete i s ss peer_have j m =
    if_cases (Member j) (is_missing s && get_or peer_have i false) _ _ (λ t. inr m) (λ f. m)

candidates_complete :
    (i : ℕ) (ss : List PieceStatus) (peer_have : List Bool) (k : ℕ)
    → get_elem? ss k ≡ some missing
    → get_or peer_have (i + k) false ≡ true
    → Member (i + k) (candidates i ss peer_have)
unfolding candidates
candidates_complete i [] peer_have k e h = cc
candidates_complete i (s ∷ ss) peer_have zero e h =
    let have_i : get_or peer_have i false ≡ true = rw (add-zero i) at h in
    rw (some-injective s missing e, have_i) (inl (omega arith))
candidates_complete i (s ∷ ss) peer_have (suc k) e h =
    let shift : suc i + k ≡ i + suc k = omega arith in
    cons_complete i s ss peer_have (i + suc k) (
      subst (λ (x : ℕ). Member x (candidates (suc i) ss peer_have)) shift
        (candidates_complete (suc i) ss peer_have k e (rw shift h)))

-- A piece is picked exactly when one is wanted; the piece picked is wanted, and no wanted piece is
-- rarer among the peers, or as rare and before it.
pub get_next_needed_piece_lem :
    (pm : PieceManager) (peer_have : List Bool) (availability : List ℕ)
    → ((get_next_needed_piece pm peer_have availability ≡ none)
        × ((j : ℕ) → ¬ Wanted pm.piece_status peer_have j))
      ⊎ ((i : ℕ) × (get_next_needed_piece pm peer_have availability ≡ some i)
          × Wanted pm.piece_status peer_have i
          × ((j : ℕ)
              → Wanted pm.piece_status peer_have j
              → Before (λ k. get_or availability k 0) i j))
unfolding get_next_needed_piece
get_next_needed_piece_lem pm peer_have availability =
    elim (sort_by_key-Best key 0 found (candidates-Rising 0 0 ss peer_have (omega arith))) [
      | inl (e, s) ↦
          inl (ap (λ (l : List ℕ). get_elem? l 0) s, λ j w. subst (Member j) e (complete_at j w))
      | inr (i, rest, s, (m, b)) ↦ inr (
        i,
        ap (λ (l : List ℕ). get_elem? l 0) s,
        sound_at i (candidates_sound 0 ss peer_have i m),
        λ j w. b j (complete_at j w),
      )
    ]
  where
    ss : List PieceStatus
    ss = pm.piece_status

    key : ℕ → ℕ
    key k = get_or availability k 0

    found : List ℕ
    found = candidates 0 ss peer_have

    complete_at : (j : ℕ) → Wanted ss peer_have j → Member j found
    complete_at j (e, h) =
        subst (λ (x : ℕ). Member x found) (add.zero j)
          (candidates_complete 0 ss peer_have j e (rw (add.zero j) h))

    sound_at : (i : ℕ) → WantedFrom 0 ss peer_have i → Wanted ss peer_have i
    sound_at i (k, e, q, h) = (rw (e, add.zero k) q, h)
