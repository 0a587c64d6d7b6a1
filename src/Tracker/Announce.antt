-- ===== src/Tracker/Announce.antt =====
-- src/tracker/announce.rs: `TrackerClient`, the announce over HTTP.
-- Text is a list of its bytes. The `url` crate, `serde_bencode` and `std`'s parser of IP addresses
-- are parameters, and so is `HttpClient::get`, which works on the state of the network.
pub mod Digits
pub mod Fields
pub mod Query
use Prim.Native.String.{String}
use iron_peer_417project_pri.Base.{
  ℕ, zero, suc, ◌+◌, ◌/◌, ◌%◌, List, [], ◌∷◌, ◌++◌, Option, none, some, Bool, true, false, ◌&&◌,
  ◌||◌, ◌==◌, ltb, if◌then◌else◌, Result, ok, err,
}
use iron_peer_417project_pri.Structs.Peer.{IpAddr, SocketAddr, Peer, same_addr}
use iron_peer_417project_pri.Structs.Tracker.{TrackerResponse, is_empty, parse_peers}

pub record ClientStats : Type 0 where
  pub uploaded : ℕ
  pub downloaded : ℕ
  pub left : ℕ

pub data AnnounceEvent : Type 0 where
  started completed stopped no_event : AnnounceEvent

pub record TrackerClient : Type 0 where
  pub peer_id : List ℕ
  pub port : ℕ

-- "-IP0100-", and twelve random bytes.
unfoldable pub generate_random_peerid : List ℕ → List ℕ
generate_random_peerid random = 45 ∷ 73 ∷ 80 ∷ 48 ∷ 49 ∷ 48 ∷ 48 ∷ 45 ∷ random

unfoldable pub with_default_peer_id : List ℕ → ℕ → TrackerClient
unfolding generate_random_peerid
with_default_peer_id random port = record { peer_id = generate_random_peerid random; port = port }

-- "started", "completed", "stopped"
unfoldable pub as_str : AnnounceEvent → Option (List ℕ)
as_str started = some (115 ∷ 116 ∷ 97 ∷ 114 ∷ 116 ∷ 101 ∷ 100 ∷ [])
as_str completed = some (99 ∷ 111 ∷ 109 ∷ 112 ∷ 108 ∷ 101 ∷ 116 ∷ 101 ∷ 100 ∷ [])
as_str stopped = some (115 ∷ 116 ∷ 111 ∷ 112 ∷ 112 ∷ 101 ∷ 100 ∷ [])
as_str no_event = none

-- `format!("{}", n)`, which has at most twenty digits for a u64.
unfoldable pub print_digits : ℕ → ℕ → List ℕ
print_digits zero n = []
print_digits (suc fuel) n =
    let front = print_digits fuel (n / 10) in
    if ltb n 10 then (48 + n) ∷ [] else front ++ ((48 + n % 10) ∷ [])

unfoldable pub decimal : ℕ → List ℕ
unfolding print_digits
decimal n = print_digits 20 n

-- `format!("%{:02X}", b)` for each byte.
abbrev pub hex : ℕ → ℕ
hex d = if ltb d 10 then 48 + d else 55 + d

unfoldable pub url_encode_bytes : List ℕ → List ℕ
url_encode_bytes [] = []
url_encode_bytes (b ∷ bs) = 37 ∷ hex (b / 16) ∷ hex (b % 16) ∷ url_encode_bytes bs

-- The keys of the query: "info_hash", "peer_id", "port", "uploaded", "downloaded", "left",
-- "compact", "event" and "numwant".
pub data Key : Type 0 where
  info_hash peer_id port uploaded downloaded left compact event numwant : Key

abbrev pub key : Key → List ℕ
key info_hash = 105 ∷ 110 ∷ 102 ∷ 111 ∷ 95 ∷ 104 ∷ 97 ∷ 115 ∷ 104 ∷ []
key peer_id = 112 ∷ 101 ∷ 101 ∷ 114 ∷ 95 ∷ 105 ∷ 100 ∷ []
key port = 112 ∷ 111 ∷ 114 ∷ 116 ∷ []
key uploaded = 117 ∷ 112 ∷ 108 ∷ 111 ∷ 97 ∷ 100 ∷ 101 ∷ 100 ∷ []
key downloaded = 100 ∷ 111 ∷ 119 ∷ 110 ∷ 108 ∷ 111 ∷ 97 ∷ 100 ∷ 101 ∷ 100 ∷ []
key left = 108 ∷ 101 ∷ 102 ∷ 116 ∷ []
key compact = 99 ∷ 111 ∷ 109 ∷ 112 ∷ 97 ∷ 99 ∷ 116 ∷ []
key event = 101 ∷ 118 ∷ 101 ∷ 110 ∷ 116 ∷ []
key numwant = 110 ∷ 117 ∷ 109 ∷ 119 ∷ 97 ∷ 110 ∷ 116 ∷ []

-- `format!("{}={}", …)`
abbrev pub part : Key → List ℕ → List ℕ
part k value = key k ++ (61 ∷ value)

-- The parts from the event on.
abbrev pub last_parts : Option (List ℕ) → List (List ℕ)
last_parts none = part numwant (53 ∷ 48 ∷ []) ∷ []
last_parts (some name) = part event name ∷ part numwant (53 ∷ 48 ∷ []) ∷ []

unfoldable pub query_parts : TrackerClient → List ℕ → ClientStats → AnnounceEvent → List (List ℕ)
query_parts c hash stats e =
    part info_hash (url_encode_bytes hash)
    ∷ part peer_id (url_encode_bytes c.peer_id)
    ∷ part port (decimal c.port)
    ∷ part uploaded (decimal stats.uploaded)
    ∷ part downloaded (decimal stats.downloaded)
    ∷ part left (decimal stats.left)
    ∷ part compact (49 ∷ [])
    ∷ last_parts (as_str e)

-- `query_parts.join("&")`
unfoldable pub join_parts : List (List ℕ) → List ℕ
join_parts [] = []
join_parts (p ∷ []) = p
join_parts (p ∷ q ∷ ps) = p ++ (38 ∷ join_parts (q ∷ ps))

unfoldable pub build_query : TrackerClient → List ℕ → ClientStats → AnnounceEvent → List ℕ
unfolding query_parts join_parts
build_query c hash stats e = join_parts (query_parts c hash stats e)

pub data AnnounceError : Type 0 where
  invalid_url http_failed undecodable invalid_response : AnnounceError
  tracker_error : String → AnnounceError

-- The checks of a response.
unfoldable pub check_response : TrackerResponse → Result AnnounceError TrackerResponse
check_response r = elim r.failure_reason [
  | some reason ↦ err (tracker_error reason)
  | none ↦ if r.interval == 0 && is_empty r then err invalid_response else ok r
]

module _ {U W : Type 0} (parse : List ℕ → Option U) (set_query : U → List ℕ → U)
    (url_text : U → List ℕ) (get : List ℕ → W → Option (List ℕ) × W)
    (from_bytes : List ℕ → Option TrackerResponse) where
  unfoldable pub build_announce_url :
      TrackerClient → List ℕ → List ℕ → ClientStats → AnnounceEvent → Option U
  build_announce_url c announce_url hash stats e = elim (parse announce_url) [
    | none ↦ none
    | some url ↦ some (set_query url (build_query c hash stats e))
  ]

  abbrev pub on_body : Option (List ℕ) × W → Result AnnounceError TrackerResponse × W
  on_body (none, w) = (err http_failed, w)
  on_body (some body, w) =
      (elim (from_bytes body) [ none ↦ err undecodable | some r ↦ check_response r ], w)

  unfoldable pub announce :
      TrackerClient
      → List ℕ
      → List ℕ
      → ClientStats
      → AnnounceEvent
      → W
      → Result AnnounceError TrackerResponse × W
  announce c announce_url hash stats e w = elim (build_announce_url c announce_url hash stats e) [
    | none ↦ (err invalid_url, w)
    | some url ↦ on_body (get (url_text url) w)
  ]

-- `seen_peers.insert(peer.addr)` for each peer; `seen` and `all_peers` grow together.
unfoldable pub is_seen : SocketAddr → List Peer → Bool
is_seen addr [] = false
is_seen addr (p ∷ ps) = same_addr p.addr addr || is_seen addr ps

unfoldable pub add_unseen : List Peer → List Peer → List Peer
add_unseen [] all_peers = all_peers
add_unseen (p ∷ ps) all_peers =
    if is_seen p.addr all_peers
    then add_unseen ps all_peers
    else add_unseen ps (all_peers ++ (p ∷ []))

-- The loop of `announce_to_trackers`, over what `announce` does for a tracker.
module _ {W : Type 0} (announce_to : List ℕ → W → Result AnnounceError TrackerResponse × W)
    (parse_ip : String → Option IpAddr) where
  abbrev pub add_response : Result AnnounceError TrackerResponse → List Peer → List Peer
  add_response (ok response) all_peers = add_unseen (parse_peers parse_ip response) all_peers
  add_response (err e) all_peers = all_peers

  unfoldable pub announce_each : List (List ℕ) → List Peer → W → List Peer × W
  announce_each [] all_peers w = (all_peers, w)
  announce_each (url ∷ urls) all_peers w =
      let (answer, w') = announce_to url w in announce_each urls (add_response answer all_peers) w'

  unfoldable pub announce_to_trackers : List (List ℕ) → W → List Peer × W
  announce_to_trackers tracker_urls w = announce_each tracker_urls [] w
