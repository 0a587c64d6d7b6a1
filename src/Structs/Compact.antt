-- ===== src/Structs/Compact.antt =====
-- The peers that are read from the compact form of a tracker's response, in `structs/peer.rs` and
-- in `structs/tracker.rs`.
use Prim.Native.String.{String}
use iron_peer_417project_pri.Base.{
  ℕ, zero, suc, ◌/◌, ◌%◌, ◌^◌, ◌≤◌, ◌<◌, ◌≡◌, refl, ap, ap₂, inl, inr,
  from_be_bytes16-to_be_bytes16, length-append, List, [], ◌∷◌, ◌++◌, Option, some, Bool-cases,
  length, take, drop, map, All, leb, leb→le, le→leb, lt→not_leb, length-take, IsU16, arith,
}
use iron_peer_417project_pri.Structs.Peer.{
  Peer, IpAddr, v4, new_peer, from_compact, push_some, compact_peers, from_compact_bytes,
}
use iron_peer_417project_pri.Structs.Tracker.{compact, TrackerResponse, parse_compact, parse_peers}

-- An IPv4 endpoint, its peer, and the six bytes that a tracker writes for it.
pub record Endpoint : Type 0 where
  pub a : ℕ
  pub b : ℕ
  pub c : ℕ
  pub d : ℕ
  pub port : ℕ

abbrev pub peer_of : Endpoint → Peer
peer_of e = new_peer (v4 (e.a ∷ e.b ∷ e.c ∷ e.d ∷ [])) e.port

abbrev pub compact_all : List Endpoint → List ℕ
compact_all [] = []
compact_all (e ∷ es) = e.a ∷ e.b ∷ e.c ∷ e.d ∷ e.port / 2 ^ 8 % 256 ∷ e.port % 256 ∷ compact_all es

six_bytes : (bytes : List ℕ) → length bytes ≡ 6 → (p : Peer) × (from_compact bytes ≡ some p)
unfolding from_compact
six_bytes bytes h = rw h (_, refl)

compact_peers_lem :
    (fuel : ℕ) (es : List Endpoint) (tail : List ℕ)
    → length es ≤ fuel
    → length tail < 6
    → All (λ e. IsU16 e.port) es
    → compact_peers fuel (compact_all es ++ tail) ≡ map peer_of es
unfolding compact_peers push_some from_compact
compact_peers_lem zero [] tail h short ports = refl
compact_peers_lem (suc fuel) [] tail h short ports = rw (lt→not_leb 6 (length tail) short) refl
compact_peers_lem zero (e ∷ es) tail h short ports = absurd (omega arith)
compact_peers_lem (suc fuel) (e ∷ es) tail h short ports =
    rw (le→leb 6 (length (compact_all (e ∷ es) ++ tail)) (omega arith)) (
      ap₂ ◌∷◌
        (ap (new_peer (v4 (e.a ∷ e.b ∷ e.c ∷ e.d ∷ [])))
          (from_be_bytes16-to_be_bytes16 e.port ports.0))
        (compact_peers_lem fuel es tail (omega arith) short ports.1))

more_bytes : (es : List Endpoint) → length es ≤ length (compact_all es)
more_bytes [] = omega arith
more_bytes (e ∷ es) = omega (arith, more_bytes es)

-- The compact data of a tracker, six bytes for each peer and up to five stray ones behind them, is
-- read as exactly those peers, in order.
pub from_compact_bytes-compact_all :
    (es : List Endpoint) (tail : List ℕ)
    → length tail < 6
    → All (λ e. IsU16 e.port) es
    → from_compact_bytes (compact_all es ++ tail) ≡ map peer_of es
unfolding from_compact_bytes
from_compact_bytes-compact_all es tail short ports =
    compact_peers_lem (length (compact_all es ++ tail)) es tail
      (omega (arith, more_bytes es, length-append (compact_all es) tail)) short ports

-- The loop of `parse_peers` finds the peers that the loop of `from_compact_bytes` finds.
parse_compact-compact_peers :
    (fuel : ℕ) (bytes : List ℕ) → parse_compact fuel bytes ≡ compact_peers fuel bytes
unfolding parse_compact compact_peers push_some
parse_compact-compact_peers zero bytes = refl
parse_compact-compact_peers (suc fuel) bytes = elim (Bool-cases (leb 6 (length bytes))) [
  | inl t ↦
      let six = six_bytes (take 6 bytes) (omega (arith, length-take 6 bytes, leb→le _ _ t)) in
      rw (t, six.1) (ap (λ ps. six.0 ∷ ps) (parse_compact-compact_peers fuel (drop 6 bytes)))
  | inr f ↦ rw f refl
]

-- `parse_peers` on compact data is `from_compact_bytes`, whatever the data: its branch for IPv6
-- peers is never taken.
pub parse_peers-from_compact_bytes :
    (parse_ip : String → Option IpAddr) (r : TrackerResponse) (bytes : List ℕ)
    → r.peers ≡ compact bytes
    → parse_peers parse_ip r ≡ from_compact_bytes bytes
unfolding parse_peers from_compact_bytes
parse_peers-from_compact_bytes parse_ip r bytes e =
    rw (e, parse_peers) (parse_compact-compact_peers (length bytes) bytes)
