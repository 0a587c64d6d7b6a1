-- ===== src/Structs/Spans.antt =====
-- The spans of a piece over the files, in `TorrentInfo::get_piece_info`.
use iron_peer_417project_pri.Base.{
  ℕ, suc, ◌+◌, ◌-◌, ◌*◌, ◌≤◌, ◌≡◌, refl, sym, ◌∙◌, ap, List, [], ◌∷◌, ◌++◌, Option, some,
  some-injective, if_cases, leb, min, max, take, as_u64, IsU64, subst, Option-cases, inl, inr,
  zero_add, arith,
}
use iron_peer_417project_pri.Structs.TorrentInfo.{
  TorrentFile, TorrentInfo, FileSpan, PieceInfo, total_length, span_of, file_spans, get_piece_info,
  piece_length, piece_hash,
}

-- The bytes that some spans name together.
abbrev pub spans_length : List FileSpan → ℕ
spans_length [] = 0
spans_length (s ∷ ss) = s.length + spans_length ss

spans_length-append :
    (ss ts : List FileSpan) → spans_length (ss ++ ts) ≡ spans_length ss + spans_length ts
spans_length-append [] ts = omega arith
spans_length-append (s ∷ ss) ts = omega (arith, spans_length-append ss ts)

-- A file's span is what `[start, end)` and `[o, o + f.length)` have in common.
spans_length-span_of :
    (start end i o : ℕ) (f : TorrentFile)
    → IsU64 (o + f.length)
    → spans_length (span_of start end i o f) ≡ min end (o + f.length) - max start o
spans_length-span_of start end i o f small = ground arith

-- From file `i` on, which begins at `o`.
file_spans_lem :
    (start end : ℕ) (files : List TorrentFile) (i o : ℕ) (fs : List TorrentFile)
    → IsU64 (o + total_length fs)
    → start ≤ end
    → ((j : ℕ) → total_length (take (i + j) files) ≡ o + total_length (take j fs))
    → spans_length (file_spans start end files i fs) ≡ min end (o + total_length fs) - max start o
unfolding file_spans total_length
file_spans_lem start end files i o [] small h before = omega arith
file_spans_lem start end files i o (f ∷ fs) small h before =
    let same : i + 0 ≡ i = omega arith in
    let here : total_length (take i files) ≡ o + total_length (take 0 (f ∷ fs)) =
      subst (λ (k : ℕ). total_length (take k files) ≡ o + 0) same (before 0) in
    let place : as_u64 (total_length (take i files)) ≡ o = omega arith in
    let rest =
      file_spans_lem start end files (suc i) (o + f.length) fs (omega arith) h
        (λ j. further j (before (suc j))) in
    let joined =
      spans_length-append (span_of start end i o f) (file_spans start end files (suc i) fs) in
    let first = spans_length-span_of start end i o f (omega arith) in
    rw place (omega (arith, rest, joined, first))
  where
    further :
        (j : ℕ)
        → total_length (take (i + suc j) files) ≡ o + (f.length + total_length (take j fs))
        → total_length (take (suc i + j) files) ≡ o + f.length + total_length (take j fs)
    further j e =
        let same : suc i + j ≡ i + suc j = omega arith in
        ap (λ k. total_length (take k files)) same ∙ (e ∙ omega arith)

-- The spans that `get_piece_info` finds for a piece inside the files, whose lengths add up to a
-- u64, name together as many bytes as the piece has.
pub get_piece_info_lem :
    (t : TorrentInfo) (piece_index len : ℕ) (p : PieceInfo)
    → IsU64 (total_length t.files)
    → piece_length t piece_index ≡ some len
    → piece_index * t.piece_length + len ≤ total_length t.files
    → get_piece_info t piece_index ≡ some (some p)
    → (p.length ≡ len) × (spans_length p.file_spans ≡ len)
unfolding get_piece_info
get_piece_info_lem t i len p small measured inside =
    if_cases Claim (leb t.num_pieces i) _ _ (λ h e. absurd cc)
      (λ h e. elim (Option-cases (piece_hash t i)) [
        | inl n ↦ let bad = rw (measured, n) at e in absurd cc
        | inr k ↦
            subst (λ (q : PieceInfo). (q.length ≡ len) × (spans_length q.file_spans ≡ len))
              (some-injective _ _ (some-injective _ _ (rw (measured, k.1) at e))) (refl, sum)
      ])
  where
    Claim : Option (Option PieceInfo) → Type 0
    Claim o = o ≡ some (some p) → (p.length ≡ len) × (spans_length p.file_spans ≡ len)

    sum :
        spans_length (
          file_spans
            (as_u64 (i * t.piece_length))
            (as_u64 (as_u64 (i * t.piece_length) + len))
            t.files
            0
            t.files)
        ≡ len
    sum =
        let all =
          file_spans_lem (as_u64 (i * t.piece_length)) (as_u64 (as_u64 (i * t.piece_length) + len))
            t.files 0 0 t.files (omega arith) (omega arith)
            (λ j. ap (λ k. total_length (take k t.files)) (zero_add j) ∙ sym (zero_add _)) in
        omega (arith, all)
