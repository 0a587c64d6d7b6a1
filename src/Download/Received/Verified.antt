-- ===== src/Download/Received/Verified.antt =====
-- A received block makes a piece complete only when the piece was verified.
use iron_peer_417project_pri.Base.{
  if◌then◌else◌, ℕ, ◌<◌, ltb, ltb→lt, ◌≡◌, refl, sym, ap, ◌∙◌, ◌⊎◌, inl, inr, List, [], ◌∷◌, none,
  some, some-injective, Bool, true, false, Result, ok, err, length, get_elem?, set,
  get_elem?-set_ne, get_elem?-set_self, ◌==◌, if_cases, Bool-cases, Option-cases, ==_iff,
  ==_false→ne, subst,
}
use iron_peer_417project_pri.Storage.Disk.{Disk}
use iron_peer_417project_pri.Storage.Files.{FileManager, IoError, panics, verify_piece}
use iron_peer_417project_pri.Download.Blocks.{PieceState}
use iron_peer_417project_pri.Download.Pieces.{
  PieceStatus, missing, downloading, complete, PieceManager, mark_complete, complete_from,
  reset_piece,
}
use iron_peer_417project_pri.Download.Received.{
  receive_in_states, find_state, Received, settle, check_state, on_piece,
}

-- A complete piece was complete before, or it is the piece `index`, which is announced, and `Is`
-- holds of the disk.
abbrev pub CompleteBecause : (Disk → Type 0) → List PieceStatus → ℕ → Received → Type 0
CompleteBecause Is before index r =
    (i : ℕ)
    → get_elem? r.piece_manager.piece_status i ≡ some complete
    → (get_elem? before i ≡ some complete) ⊎ ((i ≡ index) × (r.completed ≡ index ∷ []) × Is r.disk)

set_complete :
    (ss : List PieceStatus) (index i : ℕ)
    → get_elem? (set ss index complete) i ≡ some complete
    → (get_elem? ss i ≡ some complete) ⊎ (i ≡ index)
set_complete ss index i e = elim (Bool-cases (index == i)) [
  | inl t ↦ inr (sym ((==_iff index i).0 t))
  | inr f ↦ inl (sym (get_elem?-set_ne ss index i complete (==_false→ne index i f)) ∙ e)
]

set_missing :
    (ss : List PieceStatus) (index i : ℕ)
    → index < length ss
    → get_elem? (set ss index missing) i ≡ some complete
    → get_elem? ss i ≡ some complete
set_missing ss index i h e = elim (Bool-cases (index == i)) [
  | inl t ↦
      let same : index ≡ i = (==_iff index i).0 t in
      let self = get_elem?-set_self ss index missing h in
      let clash : some missing ≡ some complete =
        sym self
        ∙ subst (λ (j : ℕ). get_elem? (set ss index missing) j ≡ some complete) (sym same) e in
      cc
  | inr f ↦ sym (get_elem?-set_ne ss index i missing (==_false→ne index i f)) ∙ e
]

complete_from_complete :
    (pm : PieceManager) (index i : ℕ) (s : PieceStatus)
    → get_elem? (complete_from pm index s).piece_status i ≡ some complete
    → (get_elem? pm.piece_status i ≡ some complete) ⊎ (i ≡ index)
unfolding complete_from
complete_from_complete pm index i missing e = set_complete pm.piece_status index i e
complete_from_complete pm index i downloading e = set_complete pm.piece_status index i e
complete_from_complete pm index i complete e = inl e

mark_complete_complete :
    (pm : PieceManager) (index i : ℕ) {pm' : PieceManager}
    → mark_complete pm index ≡ some pm'
    → get_elem? pm'.piece_status i ≡ some complete
    → (get_elem? pm.piece_status i ≡ some complete) ⊎ (i ≡ index)
unfolding mark_complete
mark_complete_complete pm index i {pm' = pm'} m e =
    elim (Option-cases (get_elem? pm.piece_status index)) [
      | inl n ↦ absurd (none_some (rw (n, mark_complete) at m))
      | inr s ↦ complete_from_complete pm index i s.0 (
          subst (λ (q : PieceManager). get_elem? q.piece_status i ≡ some complete)
            (sym (some-injective _ _ (rw (s.1, mark_complete) at m))) e)
    ]
  where
    none_some : none ≡ some pm' → ⊥
    none_some h = cc

reset_piece_complete :
    (pm : PieceManager) (index i : ℕ) {pm' : PieceManager}
    → reset_piece pm index ≡ some pm'
    → get_elem? pm'.piece_status i ≡ some complete
    → get_elem? pm.piece_status i ≡ some complete
unfolding reset_piece
reset_piece_complete pm index i {pm' = pm'} h e =
    if_cases (λ o. o ≡ some pm' → get_elem? pm.piece_status i ≡ some complete)
      (ltb index (length pm.piece_status)) _ _
      (λ t q. set_missing pm.piece_status index i (ltb→lt _ _ t) (
        subst (λ (x : PieceManager). get_elem? x.piece_status i ≡ some complete)
          (sym (some-injective _ _ q)) e))
      (λ f q. cc) h

completed_of : Received → List ℕ
completed_of r = r.completed

disk_of : Received → Disk
disk_of r = r.disk

settle-CompleteBecause :
    (pm : PieceManager) (d : Disk) (index : ℕ) (answer : Result IoError Bool) (r : Received)
    → settle pm d index answer ≡ some r
    → CompleteBecause (λ x. (x ≡ d) × (answer ≡ ok true)) pm.piece_status index r
unfolding settle completed_of disk_of
settle-CompleteBecause pm d index (ok true) r h i e = elim (Option-cases (mark_complete pm index)) [
  | inl n ↦ let bad = rw (n, settle) at h in cc
  | inr m ↦
      let same = some-injective _ _ (rw (m.1, settle) at h) in
      marked m.0 same (
        mark_complete_complete pm index i m.1 (
          subst (λ (q : Received). get_elem? q.piece_manager.piece_status i ≡ some complete)
            (sym same) e))
]
  where
    marked :
        (pm' : PieceManager)
        → record { piece_manager = pm'; disk = d; completed = index ∷ [] } ≡ r
        → (get_elem? pm.piece_status i ≡ some complete) ⊎ (i ≡ index)
        → (get_elem? pm.piece_status i ≡ some complete)
          ⊎ ((i ≡ index)
              × (r.completed ≡ index ∷ [])
              × ((r.disk ≡ d) × (◌≡◌ {A = Result IoError Bool} (ok true) (ok true))))
    marked pm' same (inl c) = inl c
    marked pm' same (inr j) = inr (j, ap completed_of (sym same), (ap disk_of (sym same), refl))
settle-CompleteBecause pm d index (ok false) r h i e = elim (Option-cases (reset_piece pm index)) [
  | inl n ↦ let bad = rw (n, settle) at h in cc
  | inr m ↦
      let same = some-injective _ _ (rw (m.1, settle) at h) in
      inl (
        reset_piece_complete pm index i m.1 (
          subst (λ (q : Received). get_elem? q.piece_manager.piece_status i ≡ some complete)
            (sym same) e))
]
settle-CompleteBecause pm d index (err x) r h i e =
    let same = some-injective _ _ h in
    inl (
      subst (λ (q : Received). get_elem? q.piece_manager.piece_status i ≡ some complete) (sym same)
        e)

-- That piece `index` was verified on a disk: it has a hash, and `verify_piece` said true.
abbrev pub IsVerified : (List ℕ → List ℕ) → FileManager → List (List ℕ) → ℕ → Disk → Type 0
IsVerified sha1 m piece_hashes index d =
    (hash : List ℕ) × (get_elem? piece_hashes index ≡ some hash)
    × (verify_piece sha1 m index hash d ≡ ok true)

module _ (sha1 : List ℕ → List ℕ) (m : FileManager) (piece_hashes : List (List ℕ)) where
  check_state-CompleteBecause :
      (pm : PieceManager) (d : Disk) (index : ℕ) (p : PieceState) (r : Received)
      → check_state sha1 m piece_hashes pm d index p ≡ some r
      → CompleteBecause (IsVerified sha1 m piece_hashes index) pm.piece_status index r
  unfolding check_state
  check_state-CompleteBecause pm d index p r =
      if_cases
        (λ o.
          o ≡ some r
          → CompleteBecause (IsVerified sha1 m piece_hashes index) pm.piece_status index r)
        (p.downloaded_count == length p.blocks) _ _
        (λ t h. elim (Option-cases (get_elem? piece_hashes index)) [
          | inl n ↦ unchanged (rw n at h)
          | inr x ↦ calm x.0 x.1 (rw x.1 at h)
        ])
        (λ f. unchanged)
    where
      unchanged :
          some (record { piece_manager = pm; disk = d; completed = [] }) ≡ some r
          → CompleteBecause (IsVerified sha1 m piece_hashes index) pm.piece_status index r
      unchanged h i e = inl (
          subst (λ (q : Received). get_elem? q.piece_manager.piece_status i ≡ some complete)
            (sym (some-injective _ _ h)) e)

      verified :
          (hash : List ℕ)
          → get_elem? piece_hashes index ≡ some hash
          → settle pm d index (verify_piece sha1 m index hash d) ≡ some r
          → CompleteBecause (IsVerified sha1 m piece_hashes index) pm.piece_status index r
      verified hash x h i e =
          elim (settle-CompleteBecause pm d index (verify_piece sha1 m index hash d) r h i e) [
            | inl c ↦ inl c
            | inr a ↦ inr (
              a.0,
              a.1,
              subst (IsVerified sha1 m piece_hashes index) (sym a.2.0) (hash, x, a.2.1),
            )
          ]

      calm :
          (hash : List ℕ)
          → get_elem? piece_hashes index ≡ some hash
          → (if panics (verify_piece sha1 m index hash d)
              then none
              else settle pm d index (verify_piece sha1 m index hash d))
            ≡ some r
          → CompleteBecause (IsVerified sha1 m piece_hashes index) pm.piece_status index r
      calm hash e =
          if_cases
            (λ o.
              o ≡ some r
              → CompleteBecause (IsVerified sha1 m piece_hashes index) pm.piece_status index r)
            (panics (verify_piece sha1 m index hash d)) _ _ (λ t h. absurd cc)
            (λ f h. verified hash e h)

  -- A received block makes at most the piece that it belongs to complete, and only when
  -- `verify_piece` found the right digest on the disk as the block left it; then that piece is
  -- announced. Every other complete piece was complete before.
  pub on_piece-CompleteBecause :
      (pm : PieceManager) (index begin : ℕ) (block : List ℕ) (d : Disk) (r : Received)
      → on_piece sha1 m piece_hashes pm index begin block d ≡ some r
      → CompleteBecause (IsVerified sha1 m piece_hashes index) pm.piece_status index r
  unfolding on_piece
  on_piece-CompleteBecause pm index begin block d r h =
      let states = receive_in_states index begin pm.downloading_pieces in
      elim (Option-cases (find_state index states)) [
        | inl n ↦ λ i e. inl (
            subst (λ (q : Received). get_elem? q.piece_manager.piece_status i ≡ some complete)
              (sym (some-injective _ _ (rw (n, on_piece) at h))) e)
        | inr f ↦
            check_state-CompleteBecause (record pm { downloading_pieces = states }) _ index f.0 r
              (rw (f.1, on_piece) at h)
      ]
