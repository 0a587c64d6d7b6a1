-- ===== src/Structs/Peer.antt =====
-- src/structs/peer.rs: a peer's address, and the compact form of it in a tracker's response.
use iron_peer_417project_pri.Base.{
  ℕ, zero, suc, List, [], ◌∷◌, Option, none, some, if◌then◌else◌, leb, ◌==◌, length, take, drop,
  get_or, from_be_bytes16, Bool, true, false, ◌&&◌, same_bytes, ◌≡◌, refl, ==_iff, same_bytes_iff,
}

pub data IpAddr : Type 0 where
  v4 v6 : List ℕ → IpAddr

pub record SocketAddr : Type 0 where
  pub ip : IpAddr
  pub port : ℕ

pub record Peer : Type 0 where
  pub addr : SocketAddr

-- `Peer::new`
unfoldable pub new_peer : IpAddr → ℕ → Peer
new_peer ip port = record { addr = record { ip = ip; port = port } }

-- `SocketAddr::eq`
same_ip : IpAddr → IpAddr → Bool
same_ip (v4 a) (v4 b) = same_bytes a b
same_ip (v4 a) (v6 b) = false
same_ip (v6 a) (v4 b) = false
same_ip (v6 a) (v6 b) = same_bytes a b

unfoldable pub same_addr : SocketAddr → SocketAddr → Bool
unfolding same_ip
same_addr a b = same_ip a.ip b.ip && a.port == b.port

unfoldable pub from_compact : List ℕ → Option Peer
from_compact compact =
    if length compact == 6
    then some
        (new_peer (v4 (take 4 compact)) (from_be_bytes16 (get_or compact 4 0) (get_or compact 5 0)))
    else (if length compact == 18
        then some (
            new_peer (v6 (take 16 compact))
              (from_be_bytes16 (get_or compact 16 0) (get_or compact 17 0)))
        else none)

-- What a loop does with a peer that was found, or with none.
unfoldable pub push_some : Option Peer → List Peer → List Peer
push_some none peers = peers
push_some (some peer) peers = peer ∷ peers

-- The loop of `from_compact_bytes`: `rest` is `data[offset..]`, and a step takes at least a byte,
-- so that fuel for the length of the data is enough.
unfoldable pub compact_peers : ℕ → List ℕ → List Peer
compact_peers zero rest = []
compact_peers (suc fuel) rest =
    let peers = compact_peers fuel (drop 6 rest) in
    if leb 6 (length rest) then push_some (from_compact (take 6 rest)) peers else []

-- It never fails.
unfoldable pub from_compact_bytes : List ℕ → List Peer
from_compact_bytes bytes = compact_peers (length bytes) bytes

same_ip_refl : (a : IpAddr) → same_ip a a ≡ true
unfolding same_ip
same_ip_refl (v4 a) = (same_bytes_iff a a).1 refl
same_ip_refl (v6 a) = (same_bytes_iff a a).1 refl

pub same_addr_refl : (a : SocketAddr) → same_addr a a ≡ true
unfolding same_addr
same_addr_refl a = rw (same_ip_refl a.ip, (==_iff a.port a.port).1 refl) refl
