-- ===== src/Download/Received/Invariant.antt =====
-- What every received block keeps, and when a piece becomes complete.
use iron_peer_417project_pri.Base.{
  if◌then◌else◌, ◌⊎◌, ℕ, ◌+◌, ◌<◌, ◌≡◌, refl, sym, ◌∙◌, ap, inl, inr, List, [], ◌∷◌, Option, none,
  some, Bool, true, false, Result, ok, err, length, get_elem?, set, get_elem?-lt_length, ◌==◌,
  if_cases, Option-cases, All, arith, lt→ltb,
}
use iron_peer_417project_pri.Storage.Disk.{Disk}
use iron_peer_417project_pri.Storage.Files.Panics.{CanRead, verify_piece_calm}
use iron_peer_417project_pri.Storage.Files.{FileManager, IoError, panics, verify_piece}
use iron_peer_417project_pri.Download.Blocks.{BlockInfo, PieceState}
use iron_peer_417project_pri.Download.Pieces.{
  PieceStatus, missing, downloading, complete, PieceManager, mark_complete, complete_from,
  reset_piece, without,
}
use iron_peer_417project_pri.Download.Pieces.Counting.{one_if, count_index}
use iron_peer_417project_pri.Download.Pieces.Invariant.{
  IsValid, active, mark_complete-IsValid, reset_piece-IsValid,
}
use iron_peer_417project_pri.Download.Received.{
  receive_block, receive_in_state, receive_in_states, find_state, Received, settle, check_state,
  on_piece,
}

-- How many blocks of a piece are downloaded.
abbrev pub count_downloaded : List BlockInfo → ℕ
count_downloaded [] = 0
count_downloaded (b ∷ bs) = one_if b.downloaded + count_downloaded bs

abbrev pub IsCounted : PieceState → Type 0
IsCounted p = p.downloaded_count ≡ count_downloaded p.blocks

count_downloaded-receive_block :
    (begin : ℕ) (bs : List BlockInfo)
    → count_downloaded (receive_block begin bs).0
      ≡ count_downloaded bs + one_if (receive_block begin bs).1
unfolding receive_block
count_downloaded-receive_block begin [] = refl
count_downloaded-receive_block begin (b ∷ bs) =
    ground (arith, count_downloaded-receive_block begin bs)

receive_in_state-IsCounted :
    (begin : ℕ) (p : PieceState) → IsCounted p → IsCounted (receive_in_state begin p)
unfolding receive_in_state
receive_in_state-IsCounted begin p h = ground (arith, count_downloaded-receive_block begin p.blocks)

receive_in_states-IsCounted :
    (index begin : ℕ) (ps : List PieceState)
    → All IsCounted ps
    → All IsCounted (receive_in_states index begin ps)
unfolding receive_in_states
receive_in_states-IsCounted index begin [] h = tt
receive_in_states-IsCounted index begin (p ∷ ps) h =
    if_cases (All IsCounted) (p.index == index) _ _
      (λ t. (receive_in_state-IsCounted begin p h.0, h.1))
      (λ f. (h.0, receive_in_states-IsCounted index begin ps h.1))

without-IsCounted :
    (index : ℕ) (ps : List PieceState) → All IsCounted ps → All IsCounted (without index ps)
unfolding without
without-IsCounted index [] h = tt
without-IsCounted index (p ∷ ps) h =
    if_cases (All IsCounted) (p.index == index) _ _ (λ t. without-IsCounted index ps h.1)
      (λ f. (h.0, without-IsCounted index ps h.1))

count_index-receive_in_states :
    (i index begin : ℕ) (ps : List PieceState)
    → count_index i (receive_in_states index begin ps) ≡ count_index i ps
unfolding count_index receive_in_states receive_in_state
count_index-receive_in_states i index begin [] = refl
count_index-receive_in_states i index begin (p ∷ ps) =
    if_cases (λ qs. count_index i qs ≡ one_if (p.index == i) + count_index i ps) (p.index == index)
      _ _ (λ t. refl)
      (λ f. ap (λ n. one_if (p.index == i) + n) (count_index-receive_in_states i index begin ps))

find_state-count_index :
    (index : ℕ) (ps : List PieceState) {p : PieceState}
    → find_state index ps ≡ some p
    → 0 < count_index index ps
unfolding find_state count_index
find_state-count_index index [] h = cc
find_state-count_index index (p ∷ ps) {p = r} h =
    if_cases (λ o. o ≡ some r → 0 < one_if (p.index == index) + count_index index ps)
      (p.index == index) _ _ (λ t q. rw t (omega arith))
      (λ f q. rw f (omega (arith, find_state-count_index index ps q))) h

active_pos : (o : Option PieceStatus) → 0 < active o → o ≡ some downloading
active_pos none h = absurd (omega arith)
active_pos (some missing) h = absurd (omega arith)
active_pos (some downloading) h = refl
active_pos (some complete) h = absurd (omega arith)

-- A manager that keeps its invariant, with right counts of downloaded blocks.
pub record IsSound (pm : PieceManager) : Type 0 where
  pub valid : IsValid pm
  pub counts : All IsCounted pm.downloading_pieces

received-IsSound :
    (pm : PieceManager) (index begin : ℕ)
    → IsSound pm
    → IsSound
        (record pm { downloading_pieces = receive_in_states index begin pm.downloading_pieces })
received-IsSound pm index begin s = record {
  valid = record {
    sized = s.valid.sized;
    counted = s.valid.counted;
    listed =
        λ i. count_index-receive_in_states i index begin pm.downloading_pieces ∙ s.valid.listed i;
  };
  counts = receive_in_states-IsCounted index begin pm.downloading_pieces s.counts;
}

mark_complete_downloading :
    (pm : PieceManager) (index : ℕ)
    → get_elem? pm.piece_status index ≡ some downloading
    → mark_complete pm index ≡ some (complete_from pm index downloading)
unfolding mark_complete
mark_complete_downloading pm index e = rw (e, mark_complete) refl

reset_piece_downloading :
    (pm : PieceManager) (index : ℕ)
    → get_elem? pm.piece_status index ≡ some downloading
    → reset_piece pm index
      ≡ some (record pm {
        piece_status = set pm.piece_status index missing;
        downloading_pieces = without index pm.downloading_pieces;
      })
unfolding reset_piece
reset_piece_downloading pm index e =
    rw (lt→ltb index (length pm.piece_status) (get_elem?-lt_length pm.piece_status index e)) refl

-- An answer that is there, with a sound manager.
abbrev pub Answers : Option Received → Type 0
Answers o = (r : Received) × (o ≡ some r) × IsSound r.piece_manager

settle-Answers :
    (pm : PieceManager) (d : Disk) (index : ℕ) (answer : Result IoError Bool)
    → IsSound pm
    → get_elem? pm.piece_status index ≡ some downloading
    → Answers (settle pm d index answer)
unfolding settle complete_from
settle-Answers pm d index (ok true) s e =
    let marked = mark_complete_downloading pm index e in
    (
      record {
        piece_manager = complete_from pm index downloading;
        disk = d;
        completed = index ∷ [];
      },
      rw (marked, settle) refl,
      record {
        valid = mark_complete-IsValid pm index s.valid marked;
        counts = without-IsCounted index pm.downloading_pieces s.counts;
      },
    )
settle-Answers pm d index (ok false) s e =
    let reset = reset_piece_downloading pm index e in
    (
      record {
        piece_manager = record pm {
          piece_status = set pm.piece_status index missing;
          downloading_pieces = without index pm.downloading_pieces;
        };
        disk = d;
        completed = [];
      },
      rw (reset, settle) refl,
      record {
        valid = reset_piece-IsValid pm index s.valid (λ c. let clash = sym e ∙ c in cc) reset;
        counts = without-IsCounted index pm.downloading_pieces s.counts;
      },
    )
settle-Answers pm d index (err x) s e = (_, refl, s)

-- A result, or a panic, which means that a piece cannot be read.
abbrev pub OrPanics : FileManager → Option Received → Type 0
OrPanics m o = ((CanRead m → ⊥) × (o ≡ none)) ⊎ Answers o

module _ (sha1 : List ℕ → List ℕ) (m : FileManager) (piece_hashes : List (List ℕ)) where
  verified-OrPanics :
      (pm : PieceManager) (d : Disk) (index : ℕ) (hash : List ℕ)
      → IsSound pm
      → get_elem? pm.piece_status index ≡ some downloading
      → OrPanics m (
          if panics (verify_piece sha1 m index hash d)
          then none
          else settle pm d index (verify_piece sha1 m index hash d))
  verified-OrPanics pm d index hash s e =
      if_cases (OrPanics m) (panics (verify_piece sha1 m index hash d)) _ _
        (λ t. inl (λ can. let calm = verify_piece_calm m can sha1 index hash d in absurd cc, refl))
        (λ f. inr (settle-Answers pm d index (verify_piece sha1 m index hash d) s e))

  check_state-OrPanics :
      (pm : PieceManager) (d : Disk) (index : ℕ) (p : PieceState)
      → IsSound pm
      → get_elem? pm.piece_status index ≡ some downloading
      → OrPanics m (check_state sha1 m piece_hashes pm d index p)
  unfolding check_state
  check_state-OrPanics pm d index p s e =
      if_cases (OrPanics m) (p.downloaded_count == length p.blocks) _ _
        (λ t. elim (Option-cases (get_elem? piece_hashes index)) [
          | inl n ↦ rw n (inr (_, refl, s))
          | inr h ↦ rw h.1 (verified-OrPanics pm d index h.0 s e)
        ])
        (λ f. inr (_, refl, s))

  pub on_piece-OrPanics :
      (pm : PieceManager) (index begin : ℕ) (block : List ℕ) (d : Disk)
      → IsSound pm
      → OrPanics m (on_piece sha1 m piece_hashes pm index begin block d)
  unfolding on_piece
  on_piece-OrPanics pm index begin block d s =
      let states = receive_in_states index begin pm.downloading_pieces in
      let s' = received-IsSound pm index begin s in
      elim (Option-cases (find_state index states)) [
        | inl n ↦ rw (n, on_piece) (inr (_, refl, s'))
        | inr f ↦
            rw (f.1, on_piece)
              (check_state-OrPanics (record pm { downloading_pieces = states }) _ index f.0 s'
                (active_pos (get_elem? pm.piece_status index)
                  (omega (arith, find_state-count_index index states f.1, s'.valid.listed index))))
      ]

  -- A block that is received, whatever it says, neither makes the manager panic nor breaks its
  -- invariant, where the pieces have at least a byte and at most `isize::MAX`: the statuses, the
  -- counter and the states agree, and each state counts its blocks.
  pub on_piece-Answers :
      (pm : PieceManager) (index begin : ℕ) (block : List ℕ) (d : Disk)
      → CanRead m
      → IsSound pm
      → Answers (on_piece sha1 m piece_hashes pm index begin block d)
  on_piece-Answers pm index begin block d can s =
      elim (on_piece-OrPanics pm index begin block d s) [ inl n ↦ absurd (n.0 can) | inr h ↦ h ]
