-- ===== src/Protodef/MetaInfo/Failures.antt =====
-- The torrent files on which `to_torrent_info` panics.
use Prim.Native.String.{String}
use iron_peer_417project_pri.Base.{
  ℕ, zero, suc, ◌+◌, ◌/◌, ◌%◌, ◌≤◌, ◌≡◌, ◌≢◌, ◌⊎◌, ◌↔◌, refl, sym, ◌∙◌, inl, inr, List, [], ◌∷◌,
  Option, none, some, Option-cases, Bool-cases, ◌==◌, ==_iff, if_cases, map, take, drop, length,
  length-take, length-drop, as_u64, arith,
}
use iron_peer_417project_pri.Base.Panic.{◌>>=◌}
use iron_peer_417project_pri.Paths.{FilePath}
use iron_peer_417project_pri.Protodef.MetaInfo.{
  FileDict, InfoDict, MetaInfo, hash_chunks, torrent_file, place_files, single_file, files_of,
  compute_info_hash, to_torrent_info,
}
use iron_peer_417project_pri.Protodef.MetaInfo.Layout.{
  lengths, listed, dict_length, hash_chunks-Splits,
}

-- The reasons of a panic: the dictionary cannot be encoded again; there is a file, and pieces have
-- no bytes; the digests are not a multiple of 20 bytes.
abbrev pub Panics : (InfoDict → Option (List ℕ)) → InfoDict → Type 0
Panics to_bytes info =
    (to_bytes info ≡ none)
    ⊎ (((info.piece_length ≡ 0) × (lengths info ≢ [])) ⊎ (length info.pieces % 20 ≢ 0))

none-some : {A : Type 0} {a : A} → ◌≡◌ {A = Option A} none (some a) → ⊥
none-some e = cc

-- A bind panics where one of its parts does.
>>=-none :
    {A B : Type 0} (o : Option A) (f : A → Option B)
    → (o >>= f ≡ none)
    → (o ≡ none) ⊎ ((a : A) × (o ≡ some a) × (f a ≡ none))
>>=-none none f e = inl refl
>>=-none (some a) f e = inr (a, refl, e)

hash_chunks-none :
    (fuel : ℕ) (bytes : List ℕ)
    → length bytes ≤ fuel
    → length bytes % 20 ≢ 0
    → hash_chunks fuel bytes ≡ none
unfolding hash_chunks
hash_chunks-none fuel [] le ragged = absurd (ragged refl)
hash_chunks-none zero (b ∷ bs) le ragged = absurd (omega arith)
hash_chunks-none (suc fuel) (b ∷ bs) le ragged =
    elim (Bool-cases (length (take 20 (b ∷ bs)) == 20)) [
      | inr f ↦ rw f refl
      | inl t ↦
          let full = (==_iff (length (take 20 (b ∷ bs))) 20).0 t in
          let later =
            hash_chunks-none fuel (drop 20 (b ∷ bs)) (omega (arith, length-drop 20 (b ∷ bs))) (λ e.
              ragged (omega (arith, e, full, length-drop 20 (b ∷ bs), length-take 20 (b ∷ bs)))) in
          rw (t, later) refl
    ]

hash_chunks_iff :
    (bytes : List ℕ) → (hash_chunks (length bytes) bytes ≡ none) ↔ (length bytes % 20 ≢ 0)
hash_chunks_iff bytes = (
  λ e whole.
      let found =
        hash_chunks-Splits (length bytes) (length bytes / 20) bytes (omega arith) (omega arith) in
      none-some (sym e ∙ found.1),
  hash_chunks-none (length bytes) bytes (omega arith),
)

place_files_iff :
    (path_of : String → FilePath) (name : String) (piece_length o : ℕ) (fs : List FileDict)
    → (place_files path_of name piece_length o fs ≡ none)
      ↔ ((piece_length ≡ 0) × (map dict_length fs ≢ []))
unfolding place_files
place_files_iff path_of name piece_length o [] = (λ e. absurd cc, λ h. absurd (h.1 refl))
place_files_iff path_of name piece_length o (f ∷ fs) = (
  if_cases (λ answer. answer ≡ none → (piece_length ≡ 0) × (map dict_length (f ∷ fs) ≢ []))
      (piece_length == 0) _ _ (λ t e. ((==_iff piece_length 0).0 t, λ k. cc))
      (λ g e.
        elim (>>=-none (place_files path_of name piece_length (as_u64 (o + f.length)) fs)
          (λ files. some (torrent_file path_of name piece_length o f ∷ files)) e) [
            | inl n ↦ (
              ((place_files_iff path_of name piece_length (as_u64 (o + f.length)) fs).0 n).0,
              λ k. cc,
            )
            | inr r ↦ absurd (none-some (sym r.2))
          ]),
  λ h. rw ((==_iff piece_length 0).1 h.0) refl,
)

single_file_iff :
    (path_of : String → FilePath) (info : InfoDict) (len : ℕ)
    → (single_file path_of info len ≡ none) ↔ ((info.piece_length ≡ 0) × (len ∷ [] ≢ []))
unfolding single_file
single_file_iff path_of info len = (
  if_cases (λ answer. answer ≡ none → (info.piece_length ≡ 0) × (len ∷ [] ≢ []))
      (info.piece_length == 0) _ _ (λ t e. ((==_iff info.piece_length 0).0 t, λ k. cc))
      (λ f e. absurd (none-some (sym e))),
  λ h. rw ((==_iff info.piece_length 0).1 h.0) refl,
)

files_of_iff :
    (path_of : String → FilePath) (info : InfoDict)
    → (files_of path_of info ≡ none) ↔ ((info.piece_length ≡ 0) × (lengths info ≢ []))
unfolding files_of
files_of_iff path_of info = by info.files info.length
  where
    by :
        (fs : Option (List FileDict)) (len : Option ℕ)
        → ((elim fs [
          | some file_dicts ↦ place_files path_of info.name info.piece_length 0 file_dicts
          | none ↦ elim len [ some n ↦ single_file path_of info n | none ↦ some [] ]
        ])
            ≡ none)
          ↔ ((info.piece_length ≡ 0) × (listed fs len ≢ []))
    by (some fs) len = place_files_iff path_of info.name info.piece_length 0 fs
    by none (some n) = single_file_iff path_of info n
    by none none = (λ e. absurd (none-some (sym e)), λ h. absurd (h.1 refl))

-- `to_torrent_info` panics exactly when the dictionary cannot be encoded again, or there is a file
-- and pieces have no bytes, or the digests are not a multiple of 20 bytes.
pub to_torrent_info_iff :
    (to_bytes : InfoDict → Option (List ℕ)) (sha1 : List ℕ → List ℕ) (path_of : String → FilePath)
    (mi : MetaInfo)
    → (to_torrent_info to_bytes sha1 path_of mi ≡ none) ↔ Panics to_bytes mi.info
unfolding to_torrent_info compute_info_hash
to_torrent_info_iff to_bytes sha1 path_of mi = (there, back)
  where
    there : to_torrent_info to_bytes sha1 path_of mi ≡ none → Panics to_bytes mi.info
    there e = elim (Option-cases (to_bytes mi.info)) [
      | inl n ↦ inl n
      | inr b ↦
          elim (>>=-none (files_of path_of mi.info) _
            (rw (b.1, to_torrent_info, compute_info_hash) at e)) [
              | inl n ↦ inr (inl ((files_of_iff path_of mi.info).0 n))
              | inr f ↦ elim (>>=-none (hash_chunks (length mi.info.pieces) mi.info.pieces) _ f.2) [
                | inl n ↦ inr (inr ((hash_chunks_iff mi.info.pieces).0 n))
                | inr h ↦ absurd (none-some (sym h.2))
              ]
            ]
    ]

    back : Panics to_bytes mi.info → to_torrent_info to_bytes sha1 path_of mi ≡ none
    back (inl n) = rw (n, to_torrent_info, compute_info_hash) refl
    back (inr (inl h)) = elim (Option-cases (to_bytes mi.info)) [
      | inl n ↦ rw (n, to_torrent_info, compute_info_hash) refl
      | inr b ↦
          rw (b.1, to_torrent_info, compute_info_hash, (files_of_iff path_of mi.info).1 h) refl
    ]
    back (inr (inr h)) = elim (Option-cases (to_bytes mi.info)) [
      | inl n ↦ rw (n, to_torrent_info, compute_info_hash) refl
      | inr b ↦ elim (Option-cases (files_of path_of mi.info)) [
        | inl n ↦ rw (b.1, to_torrent_info, compute_info_hash, n) refl
        | inr f ↦
            rw (b.1, to_torrent_info, compute_info_hash, f.1, (hash_chunks_iff mi.info.pieces).1 h)
              refl
      ]
    ]
