-- ===== src/Tracker/Tests.antt =====
-- Runs of the announces, and the theorems at concrete inputs.
use iron_peer_417project_pri.Base.{
  zero, suc, IsByte, Option, All, ℕ, ◌≡◌, refl, List, [], ◌∷◌, ◌++◌, some, ok, err, replicate,
  arith,
}
use iron_peer_417project_pri.Structs.Peer.{
  from_compact_bytes, compact_peers, push_some, new_peer, from_compact,
}
use iron_peer_417project_pri.Structs.Compact.{Endpoint, peer_of}
use iron_peer_417project_pri.Tracker.Text.{
  starts_with, split, push_front, parse_unsigned, parse_digits,
}
use iron_peer_417project_pri.Tracker.Announce.{
  TrackerClient, ClientStats, completed, print_digits, decimal, build_query,
}
use iron_peer_417project_pri.Tracker.Announce.Query.{Says, build_query-Says}
use iron_peer_417project_pri.Tracker.Announce.Fields.{ascii}
use iron_peer_417project_pri.Tracker.Http.Headers.{Header, content_length, other, line_of}
use iron_peer_417project_pri.Tracker.Http.Responses.{lines}
use iron_peer_417project_pri.Tracker.Udp.{
  Address, udp_scheme, invalid_port, parse_udp_url, connect_request, Announce, announce_request,
  announce, send_connect_request, exchange, send_to, send_by, recv_from, receive_of, check_connect,
  announce_with, check_announce,
}
use iron_peer_417project_pri.Tracker.Udp.Datagrams.{IsAnnounce}
use iron_peer_417project_pri.Tracker.Udp.Exchange.{
  Sent, connect_response, announce_response, client, Accepts, announce-announce_response,
  announce-Accepts,
}

-- "udp://t.me:80/a"
abbrev tracker_url : List ℕ
tracker_url = udp_scheme ++ (116 ∷ 46 ∷ 109 ∷ 101 ∷ 58 ∷ 56 ∷ 48 ∷ 47 ∷ 97 ∷ [])

abbrev tracker : Address
tracker = (116 ∷ 46 ∷ 109 ∷ 101 ∷ [], 80)

tracker_url_lem : parse_udp_url tracker_url ≡ ok tracker
unfolding parse_udp_url starts_with split push_front parse_unsigned parse_digits
tracker_url_lem = refl

-- A port that is not a u16.
port_too_large :
    parse_udp_url (udp_scheme ++ (97 ∷ 58 ∷ 54 ∷ 53 ∷ 53 ∷ 51 ∷ 54 ∷ [])) ≡ err invalid_port
unfolding parse_udp_url starts_with split push_front parse_unsigned parse_digits
port_too_large = refl

abbrev first_announce : Announce
first_announce = record {
  info_hash = replicate 20 7;
  peer_id = replicate 20 9;
  downloaded = 0;
  left = 8;
  uploaded = 0;
  port = 6881;
}

abbrev seeder : Endpoint
seeder = record { a = 10; b = 0; c = 0; d = 1; port = 6881 }

first_announce-IsAnnounce : IsAnnounce first_announce
first_announce-IsAnnounce = record {
  hash_whole = refl;
  id_whole = refl;
  downloaded_fits = omega arith;
  left_fits = omega arith;
  uploaded_fits = omega arith;
  port_fits = omega arith;
}

abbrev answers : List (Option (List ℕ))
answers = some (connect_response 5 300) ∷ some (announce_response 6 1800 0 1 (seeder ∷ [])) ∷ []

abbrev datagrams : List (Address × List ℕ)
datagrams = (tracker, connect_request 5) ∷ (tracker, announce_request 300 6 first_announce) ∷ []

announce_run :
    announce tracker_url first_announce 5 6 (client answers [])
    ≡ (ok (peer_of seeder ∷ []), client [] datagrams)
unfolding announce parse_udp_url starts_with split push_front parse_unsigned parse_digits
    send_connect_request exchange send_to send_by recv_from receive_of check_connect announce_with
    check_announce from_compact_bytes compact_peers push_some new_peer from_compact
announce_run = refl

announce-announce_response_example :
    (sent : List (Address × List ℕ)) × (announce tracker_url first_announce 5 6 (client answers [])
      ≡ (ok (peer_of seeder ∷ []), client [] sent))
    × Sent tracker 300 5 6 first_announce sent
announce-announce_response_example =
    announce-announce_response tracker_url tracker first_announce 5 300 6 1800 0 1 (seeder ∷ []) []
      tracker_url_lem first_announce-IsAnnounce (omega arith) (omega arith) (omega arith)
      (omega arith, tt) (omega arith)

announce-Accepts_example :
    Accepts 5 6 (client answers []) (client [] datagrams) (peer_of seeder ∷ [])
announce-Accepts_example =
    announce-Accepts tracker_url first_announce 5 6 (client answers []) (client [] datagrams)
      (peer_of seeder ∷ []) announce_run

-- "HTTP/1.1 200 OK", and three headers.
abbrev status : List ℕ
status = 72 ∷ 84 ∷ 84 ∷ 80 ∷ 47 ∷ 49 ∷ 46 ∷ 49 ∷ 32 ∷ 50 ∷ 48 ∷ 48 ∷ 32 ∷ 79 ∷ 75 ∷ 13 ∷ []

abbrev header : List Header
header = other (ascii "Server: x\r") ∷ content_length 5 ∷ content_length 2 ∷ []

abbrev response : List ℕ
response = line_of status ++ (lines header ++ (13 ∷ 10 ∷ 7 ∷ 8 ∷ 9 ∷ []))

abbrev this_client : TrackerClient
this_client = record { peer_id = replicate 20 200; port = 6881 }

abbrev this_stats : ClientStats
this_stats = record { uploaded = 0; downloaded = 12; left = 18446744073709551615 }

-- "6881"
decimal_lem : decimal 6881 ≡ 54 ∷ 56 ∷ 56 ∷ 49 ∷ []
unfolding decimal print_digits
decimal_lem = refl

build_query-Says_example :
    Says this_client
      (replicate 20 61)
      this_stats
      completed
      (build_query this_client (replicate 20 61) this_stats completed)
build_query-Says_example =
    build_query-Says this_client (replicate 20 61) this_stats completed
      (All-replicate 20 61 (omega arith)) (All-replicate 20 200 (omega arith)) (omega arith)
      (omega arith) (omega arith) (omega arith)
  where
    All-replicate : (n b : ℕ) → IsByte b → All IsByte (replicate n b)
    All-replicate zero b h = tt
    All-replicate (suc n) b h = (h, All-replicate n b h)
