-- ===== src/Structs/Tracker.antt =====
-- src/structs/tracker.rs: the peers that a tracker's response names. The response itself is
-- decoded by serde.
use Prim.Native.String.{String}
use iron_peer_417project_pri.Base.{
  ℕ, zero, suc, List, [], ◌∷◌, Option, none, some, Bool, true, false, if◌then◌else◌, leb, length,
  take, drop,
}
use iron_peer_417project_pri.Structs.Peer.{Peer, IpAddr, new_peer, from_compact}

pub record PeerDict : Type 0 where
  pub peer_id : Option String
  pub ip : String
  pub port : ℕ

pub data PeerList : Type 0 where
  compact : List ℕ → PeerList
  non_compact : List PeerDict → PeerList

pub record TrackerResponse : Type 0 where
  pub warning_message : Option String
  pub min_interval : Option ℕ
  pub interval : ℕ
  pub tracker_id : Option String
  pub complete : Option ℕ
  pub incomplete : Option ℕ
  pub peers : PeerList
  pub failure_reason : Option String

-- What the deserializer calls the visitor of `PeerList` with: a text or a string of bytes, or a list
-- whose elements may fail to be a `PeerDict`.
pub data Visited : Type 0 where
  visit_str visit_bytes : List ℕ → Visited
  visit_seq : List (Option PeerDict) → Visited

-- `while let Some(peer) = seq.next_element::<PeerDict>()?`
unfoldable pub collect_peers : List (Option PeerDict) → Option (List PeerDict)
collect_peers [] = some []
collect_peers (none ∷ rest) = none
collect_peers (some peer ∷ rest) = elim (collect_peers rest) [
  | none ↦ none
  | some peers ↦ some (peer ∷ peers)
]

-- A none is an error of the deserializer.
unfoldable pub deserialize_peers : Visited → Option PeerList
deserialize_peers (visit_str v) = some (compact v)
deserialize_peers (visit_bytes v) = some (compact v)
deserialize_peers (visit_seq elements) = elim (collect_peers elements) [
  | none ↦ none
  | some peers ↦ some (non_compact peers)
]

no_items : {A : Type 0} → List A → Bool
no_items [] = true
no_items (x ∷ xs) = false

unfoldable pub is_empty : TrackerResponse → Bool
unfolding no_items
is_empty r = elim r.peers [ compact bytes ↦ no_items bytes | non_compact peers ↦ no_items peers ]

-- The loop of `parse_peers` over compact data: `rest` is `data[offset..]`.
unfoldable pub parse_compact : ℕ → List ℕ → List Peer
parse_compact zero rest = []
parse_compact (suc fuel) rest =
    let after_v4 = parse_compact fuel (drop 6 rest) in
    let after_v6 = parse_compact fuel (drop 18 rest) in
    if leb 6 (length rest)
    then elim (from_compact (take 6 rest)) [
      | some peer ↦ peer ∷ after_v4
      | none ↦
          if leb 18 (length rest)
          then elim (from_compact (take 18 rest)) [ some peer ↦ peer ∷ after_v6 | none ↦ [] ]
          else []
    ]
    else []

-- The `filter_map` over the dictionaries; `std` parses an address.
unfoldable pub parse_dicts : (String → Option IpAddr) → List PeerDict → List Peer
parse_dicts parse_ip [] = []
parse_dicts parse_ip (p ∷ ps) = elim (parse_ip p.ip) [
  | some ip ↦ new_peer ip p.port ∷ parse_dicts parse_ip ps
  | none ↦ parse_dicts parse_ip ps
]

unfoldable pub parse_peers : (String → Option IpAddr) → TrackerResponse → List Peer
parse_peers parse_ip r = elim r.peers [
  | compact bytes ↦ parse_compact (length bytes) bytes
  | non_compact peers ↦ parse_dicts parse_ip peers
]
