-- ===== src/Peer/Connection/Reads.antt =====
-- `read_exact` takes its bytes and no more.
use iron_peer_417project_pri.Base.{
  ℕ, zero, suc, ◌+◌, ◌-◌, ◌≤◌, ◌<◌, ◌≡◌, refl, sym, ap, ◌∙◌, List, [], ◌∷◌, ◌++◌, Result, ok, err,
  length, length-append, length-take, ltb, if_cases, ltb→lt, not_ltb→le, append_assoc, arith,
}
use iron_peer_417project_pri.Protocol.Stream.{
  arrived, would_block, failed, Reader, Read, got, blocked, broken, read, pending, blocks,
  IsReliable, Reads, read-Reads,
}
use iron_peer_417project_pri.Peer.Connection.{
  PeerConnection, ReadError, on_read, read_loop, read_exact,
}

-- A call gives no more bytes than it has room for.
abbrev Fits : ℕ → Read → Type 0
Fits room (got bytes) = length bytes ≤ room
Fits room blocked = Unit {0}
Fits room broken = Unit {0}

read-Fits : (room : ℕ) (r : Reader) → Fits room (read room r).0
unfolding read
read-Fits room [] = omega arith
read-Fits room (arrived b bs ∷ es) = omega (arith, length-take room (b ∷ bs))
read-Fits room (would_block ∷ es) = tt
read-Fits room (failed ∷ es) = tt

-- What a loop of `read_exact` answers, when `len` bytes in all are wanted: that many bytes, the
-- next ones of the stream, which goes on behind them; or an error, and then the stream blocked,
-- failed or ended before.
abbrev pub ReadsExactly : ℕ → List ℕ → Reader → Result ReadError (List ℕ) × Reader → Type 0
ReadsExactly len so_far r (ok bytes, r') =
    (length bytes ≡ len)
    × (so_far ++ pending r ≡ bytes ++ pending r')
    × (blocks r' ≤ blocks r)
    × (IsReliable r → IsReliable r')
ReadsExactly len so_far r (err e, r') =
    IsReliable r → blocks r ≡ 0 → length so_far + length (pending r) < len

ReadsExactly-append :
    (len : ℕ) (so_far more : List ℕ) (r r' : Reader) (end : Result ReadError (List ℕ) × Reader)
    → pending r ≡ more ++ pending r'
    → blocks r' ≤ blocks r
    → (IsReliable r → IsReliable r')
    → ReadsExactly len (so_far ++ more) r' end
    → ReadsExactly len so_far r end
ReadsExactly-append len so_far more r r' (ok bytes, r'') p b i (l, e, b', i') = (
  l,
  ap (λ rest. so_far ++ rest) p ∙ (sym (append_assoc so_far more (pending r')) ∙ e),
  omega arith,
  λ h. i' (i h),
)
ReadsExactly-append len so_far more r r' (err x, r'') p b i h = λ j n. omega (
  arith,
  h (i j) (omega arith),
  length-append so_far more,
  ap length p,
  length-append more (pending r'),
)

on_read-ReadsExactly :
    (loop : List ℕ → Reader → Result ReadError (List ℕ) × Reader) (len : ℕ) (so_far : List ℕ)
    (r : Reader) (x : Read) (r' : Reader)
    → length so_far < len
    → Reads r x r'
    → Fits (len - length so_far) x
    → ((more : List ℕ)
        → 0 < length more
        → length (so_far ++ more) ≤ len
        → ReadsExactly len (so_far ++ more) r' (loop (so_far ++ more) r'))
    → ReadsExactly len so_far r (on_read loop so_far x r')
unfolding on_read pending
on_read-ReadsExactly loop len so_far r (got []) r' lt (e, e') fits next =
    λ i n. omega (arith, ap (λ s. length (pending s)) e)
on_read-ReadsExactly loop len so_far r (got (b ∷ bs)) r' lt (p, (le, i)) fits next =
    ReadsExactly-append len so_far (b ∷ bs) r r' _ p le i
      (next (b ∷ bs) (omega arith) (omega (arith, length-append so_far (b ∷ bs))))
on_read-ReadsExactly loop len so_far r blocked r' lt (p, less, later) fits next = λ i n. omega arith
on_read-ReadsExactly loop len so_far r broken r' lt un fits next = λ i n. absurd (un i)

read_loop-ReadsExactly :
    (fuel len : ℕ) (so_far : List ℕ) (r : Reader)
    → length so_far ≤ len
    → len ≤ length so_far + fuel
    → ReadsExactly len so_far r (read_loop fuel len so_far r)
unfolding read_loop
read_loop-ReadsExactly zero len so_far r le enough = (omega arith, refl, omega arith, λ i. i)
read_loop-ReadsExactly (suc fuel) len so_far r le enough =
    if_cases (ReadsExactly len so_far r) (ltb (length so_far) len) _ _
      (λ t.
        on_read-ReadsExactly (read_loop fuel len) len so_far r _ _ (ltb→lt _ _ t)
          (read-Reads (len - length so_far) r (omega (arith, ltb→lt _ _ t)))
          (read-Fits (len - length so_far) r)
          (λ more pos fits.
            read_loop-ReadsExactly fuel len (so_far ++ more) _ fits
              (omega (arith, length-append so_far more))))
      (λ f. (omega (arith, not_ltb→le _ _ f), refl, omega arith, λ i. i))

-- `read_exact` ends, and answers the next `len` bytes of the stream and leaves exactly those behind
-- them, in whatever chunks they arrive; it fails on a stream that neither blocks nor fails only
-- when fewer bytes are left.
pub read_exact-ReadsExactly :
    (len : ℕ) (c : PeerConnection)
    → ReadsExactly len [] c.reader ((read_exact len c).0, (read_exact len c).1.reader)
unfolding read_exact
read_exact-ReadsExactly len c =
    read_loop-ReadsExactly len len [] c.reader (omega arith) (omega arith)
