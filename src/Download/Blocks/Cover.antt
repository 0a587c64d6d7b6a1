-- ===== src/Download/Blocks/Cover.antt =====
-- The blocks of a new piece cover it, in order and without a gap.
use iron_peer_417project_pri.Base.{
  ℕ, zero, suc, ◌+◌, ◌-◌, ◌*◌, ◌/◌, ◌≤◌, ◌<◌, ◌≡◌, refl, ◌⊎◌, inl, inr, List, [], ◌∷◌, false,
  length, arith, IsU64, IsU32, ◌^◌, ◌∙◌, as_u32, as_u64, ltb, if_cases, ltb→lt, not_ltb→le, subst,
  Bool-cases, le→not_ltb,
}
use iron_peer_417project_pri.Download.Blocks.{
  BlockInfo, block_size, block_len, cut_blocks, new_piece_state,
}

-- The blocks run from `o` to `e`, but for their `begin`, which is truncated to 32 bits: each begins where the one before ends, none is empty, all but
-- the last are of the full size, and none is asked for or there yet.
abbrev CoversTruncated : ℕ → ℕ → List BlockInfo → ℕ → Type 0
CoversTruncated index o [] e = o ≡ e
CoversTruncated index o (b ∷ bs) e =
    (b.index ≡ as_u32 index)
    × (b.begin ≡ as_u32 o)
    × (0 < b.length)
    × (b.length ≤ block_size)
    × ((b.length ≡ block_size) ⊎ (bs ≡ []))
    × (b.downloaded ≡ false)
    × (b.requested ≡ false)
    × CoversTruncated index (o + b.length) bs e

cut_blocks_end : (fuel index l o : ℕ) → l ≤ o → cut_blocks fuel index l o ≡ []
unfolding cut_blocks
cut_blocks_end zero index l o h = refl
cut_blocks_end (suc fuel) index l o h = rw (le→not_ltb o l h)

full_or_last :
    (fuel index l o : ℕ)
    → IsU64 l
    → o < l
    → (block_len l o ≡ block_size) ⊎ (cut_blocks fuel index l (as_u64 (o + block_len l o)) ≡ [])
full_or_last fuel index l o hl h = elim (Bool-cases (ltb (l - o) block_size)) [
  | inl t ↦ inr (cut_blocks_end fuel index l _ (omega (arith, ltb→lt _ _ t)))
  | inr f ↦ inl (omega (arith, not_ltb→le _ _ f))
]

cut_blocks-CoversTruncated :
    (fuel index l o : ℕ)
    → IsU64 l
    → o ≤ l
    → l ≤ fuel + o
    → CoversTruncated index o (cut_blocks fuel index l o) l
unfolding cut_blocks
cut_blocks-CoversTruncated zero index l o hl ho hf = omega arith
cut_blocks-CoversTruncated (suc fuel) index l o hl ho hf =
    if_cases (λ bs. CoversTruncated index o bs l) (ltb o l) _ _
      (λ t. (
        refl,
        refl,
        omega (arith, ltb→lt o l t),
        omega arith,
        full_or_last fuel index l o hl (ltb→lt o l t),
        refl,
        refl,
        subst
            (λ (x : ℕ).
              CoversTruncated index x (cut_blocks fuel index l (as_u64 (o + block_len l o))) l)
            (omega (arith, ltb→lt o l t))
            (cut_blocks-CoversTruncated fuel index l (as_u64 (o + block_len l o)) hl
              (omega (arith, ltb→lt o l t)) (omega (arith, ltb→lt o l t))),
      ))
      (λ f. omega (arith, not_ltb→le o l f))

new_piece_state-CoversTruncated :
    (index piece_length : ℕ)
    → IsU64 piece_length
    → CoversTruncated index 0 (new_piece_state index piece_length).blocks piece_length
unfolding new_piece_state
new_piece_state-CoversTruncated index l h =
    cut_blocks-CoversTruncated l index l 0 h (omega arith) (omega arith)

-- The blocks run from `o` to `e`: the first begins at `o`, each begins where the one before ends, and
-- the last ends at `e`; none is empty, all but the last are of the full size, and none is asked for
-- or there yet.
abbrev pub Covers : ℕ → ℕ → List BlockInfo → ℕ → Type 0
Covers index o [] e = o ≡ e
Covers index o (b ∷ bs) e =
    (b.index ≡ index)
    × (b.begin ≡ o)
    × (0 < b.length)
    × (b.length ≤ block_size)
    × ((b.length ≡ block_size) ⊎ (bs ≡ []))
    × (b.downloaded ≡ false)
    × (b.requested ≡ false)
    × Covers index (o + b.length) bs e

truncated_le : (bs : List BlockInfo) (index o e : ℕ) → CoversTruncated index o bs e → o ≤ e
truncated_le [] index o e h = omega arith
truncated_le (b ∷ bs) index o e (hi, hb, pos, le, full, hd, hr, rest) =
    omega (arith, truncated_le bs index (o + b.length) e rest)

as_u32_id : (x : ℕ) → IsU32 x → as_u32 x ≡ x
as_u32_id x h = omega arith

CoversTruncated-Covers :
    (bs : List BlockInfo) (index o e : ℕ)
    → IsU32 index
    → e ≤ 2 ^ 32
    → CoversTruncated index o bs e
    → Covers index o bs e
CoversTruncated-Covers [] index o e hi small h = h
CoversTruncated-Covers (b ∷ bs) index o e hi small (at, hb, pos, le, full, hd, hr, rest) =
    let within = truncated_le bs index (o + b.length) e rest in
    (
      at ∙ as_u32_id index hi,
      hb ∙ as_u32_id o (omega arith),
      pos,
      le,
      full,
      hd,
      hr,
      CoversTruncated-Covers bs index (o + b.length) e hi small rest,
    )

-- The blocks of a new piece of at most 2^32 bytes, whose index is a u32, run from 0 to its length
-- without a gap or an overlap: the first begins at 0, each begins where the one before ends, and the
-- last ends at the length. Each is nonempty, and of `BLOCK_SIZE` bytes but for the last; all carry
-- the piece's index and are still to be asked for.
pub new_piece_state-Covers :
    (index piece_length : ℕ)
    → IsU32 index
    → piece_length ≤ 2 ^ 32
    → Covers index 0 (new_piece_state index piece_length).blocks piece_length
new_piece_state-Covers index l hi h =
    CoversTruncated-Covers _ index 0 l hi h (new_piece_state-CoversTruncated index l (omega arith))

not_last :
    {n : ℕ} {c : BlockInfo} {bs : List BlockInfo}
    → (n ≡ block_size) ⊎ (c ∷ bs ≡ [])
    → n ≡ block_size
not_last (inl e) = e
not_last (inr e) = cc

length-CoversTruncated :
    (bs : List BlockInfo) (index o e : ℕ)
    → CoversTruncated index o bs e
    → (o + block_size * length bs < e + block_size) × (e ≤ o + block_size * length bs)
length-CoversTruncated [] index o e h = omega arith
length-CoversTruncated (b ∷ []) index o e (hi, hb, pos, le, full, hd, hr, rest) = omega arith
length-CoversTruncated (b ∷ c ∷ bs) index o e (hi, hb, pos, le, full, hd, hr, rest) =
    omega (arith, not_last full, length-CoversTruncated (c ∷ bs) index (o + b.length) e rest)

-- A new piece has as many blocks as `TorrentInfo::blocks_per_piece` says for its length.
pub new_piece_state-blocks :
    (index piece_length : ℕ)
    → IsU64 piece_length
    → length (new_piece_state index piece_length).blocks
      ≡ (piece_length + block_size - 1) / block_size
new_piece_state-blocks index l h =
    omega (arith, length-CoversTruncated _ index 0 l (new_piece_state-CoversTruncated index l h))
