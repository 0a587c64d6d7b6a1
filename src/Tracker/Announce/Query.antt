-- ===== src/Tracker/Announce/Query.antt =====
-- A tracker reads in the query what the client says.
use iron_peer_417project_pri.Base.{
  ℕ, ◌^◌, ◌≡◌, refl, ap, ◌∙◌, List, [], ◌∷◌, ◌++◌, Option, none, some, All, IsByte, IsU16, IsU64,
  arith,
}
use iron_peer_417project_pri.Tracker.Text.{parse_unsigned}
use iron_peer_417project_pri.Tracker.Announce.{
  TrackerClient, ClientStats, AnnounceEvent, started, completed, stopped, no_event, as_str, decimal,
  url_encode_bytes, Key, info_hash, peer_id, port, uploaded, downloaded, left, compact, event,
  numwant, part, last_parts, query_parts, join_parts, build_query,
}
use iron_peer_417project_pri.Tracker.Announce.Digits.{parse_unsigned-decimal}
use iron_peer_417project_pri.Tracker.Announce.Fields.{
  percent_decode, percent_decode-url_encode_bytes, IsPlain, decimal-IsPlain, encoded-IsPlain, parts,
  fields, field, fields_of, fields-join_parts, ascii,
}

-- The fields from the event on.
abbrev pub last_fields : AnnounceEvent → List (List (List ℕ))
last_fields started =
    (ascii "event" ∷ ascii "started" ∷ []) ∷ (ascii "numwant" ∷ ascii "50" ∷ []) ∷ []
last_fields completed =
    (ascii "event" ∷ ascii "completed" ∷ []) ∷ (ascii "numwant" ∷ ascii "50" ∷ []) ∷ []
last_fields stopped =
    (ascii "event" ∷ ascii "stopped" ∷ []) ∷ (ascii "numwant" ∷ ascii "50" ∷ []) ∷ []
last_fields no_event = (ascii "numwant" ∷ ascii "50" ∷ []) ∷ []

-- The pairs from the event on.
abbrev last_pairs : Option (List ℕ) → List (Key × List ℕ)
last_pairs none = (numwant, 53 ∷ 48 ∷ []) ∷ []
last_pairs (some name) = (event, name) ∷ (numwant, 53 ∷ 48 ∷ []) ∷ []

-- What a tracker that takes a query apart at `&` and `=` finds in it.
pub record Says (c : TrackerClient) (hash : List ℕ) (stats : ClientStats) (e : AnnounceEvent)
    (query : List ℕ) : Type 0 where
  pub hash_text : List ℕ
  pub id_text : List ℕ
  pub port_text : List ℕ
  pub uploaded_text : List ℕ
  pub downloaded_text : List ℕ
  pub left_text : List ℕ
  pub pairs :
      fields query
      ≡ (ascii "info_hash" ∷ hash_text ∷ [])
        ∷ (ascii "peer_id" ∷ id_text ∷ [])
        ∷ (ascii "port" ∷ port_text ∷ [])
        ∷ (ascii "uploaded" ∷ uploaded_text ∷ [])
        ∷ (ascii "downloaded" ∷ downloaded_text ∷ [])
        ∷ (ascii "left" ∷ left_text ∷ [])
        ∷ (ascii "compact" ∷ ascii "1" ∷ [])
        ∷ last_fields e
  pub says_hash : percent_decode hash_text ≡ hash
  pub says_id : percent_decode id_text ≡ c.peer_id
  pub says_port : parse_unsigned (2 ^ 16) port_text ≡ some c.port
  pub says_uploaded : parse_unsigned (2 ^ 64) uploaded_text ≡ some stats.uploaded
  pub says_downloaded : parse_unsigned (2 ^ 64) downloaded_text ≡ some stats.downloaded
  pub says_left : parse_unsigned (2 ^ 64) left_text ≡ some stats.left

last_parts-last_pairs : (o : Option (List ℕ)) → last_parts o ≡ parts (last_pairs o)
last_parts-last_pairs none = refl
last_parts-last_pairs (some name) = refl

last_pairs-last_fields : (e : AnnounceEvent) → fields_of (last_pairs (as_str e)) ≡ last_fields e
unfolding as_str
last_pairs-last_fields started = refl
last_pairs-last_fields completed = refl
last_pairs-last_fields stopped = refl
last_pairs-last_fields no_event = refl

last_pairs-IsPlain : (e : AnnounceEvent) → All (λ kv. IsPlain kv.1) (last_pairs (as_str e))
unfolding as_str
last_pairs-IsPlain started =
    (record { no_and = refl; no_equals = refl }, (record { no_and = refl; no_equals = refl }, tt))
last_pairs-IsPlain completed =
    (record { no_and = refl; no_equals = refl }, (record { no_and = refl; no_equals = refl }, tt))
last_pairs-IsPlain stopped =
    (record { no_and = refl; no_equals = refl }, (record { no_and = refl; no_equals = refl }, tt))
last_pairs-IsPlain no_event = (record { no_and = refl; no_equals = refl }, tt)

-- A tracker that takes the query of an announce apart at `&` and `=`, decodes the percent signs and
-- parses the numbers reads the info hash, the peer id, the port and the three numbers that the client
-- has, each under the name that the tracker knows it by, then compact=1, the name of the event where
-- there is one, and numwant=50, in this order, whatever the bytes of the hash and the id; the port is
-- a u16 and the numbers are u64.
pub build_query-Says :
    (c : TrackerClient) (hash : List ℕ) (stats : ClientStats) (e : AnnounceEvent)
    → All IsByte hash
    → All IsByte c.peer_id
    → IsU16 c.port
    → IsU64 stats.uploaded
    → IsU64 stats.downloaded
    → IsU64 stats.left
    → Says c hash stats e (build_query c hash stats e)
unfolding build_query query_parts
build_query-Says c hash stats e bytes id_bytes small up down rest = record {
  hash_text = url_encode_bytes hash;
  id_text = url_encode_bytes c.peer_id;
  port_text = decimal c.port;
  uploaded_text = decimal stats.uploaded;
  downloaded_text = decimal stats.downloaded;
  left_text = decimal stats.left;
  pairs =
      ap (λ l. fields (join_parts (front l))) (last_parts-last_pairs (as_str e))
      ∙ fields-join_parts (info_hash, url_encode_bytes hash)
          ((peer_id, url_encode_bytes c.peer_id)
            ∷ (port, decimal c.port)
            ∷ (uploaded, decimal stats.uploaded)
            ∷ (downloaded, decimal stats.downloaded)
            ∷ (left, decimal stats.left)
            ∷ (compact, 49 ∷ [])
            ∷ last_pairs (as_str e))
          (
            encoded-IsPlain hash bytes,
            (
              encoded-IsPlain c.peer_id id_bytes,
              (
                decimal-IsPlain c.port,
                (
                  decimal-IsPlain stats.uploaded,
                  (
                    decimal-IsPlain stats.downloaded,
                    (
                      decimal-IsPlain stats.left,
                      (record { no_and = refl; no_equals = refl }, last_pairs-IsPlain e),
                    ),
                  ),
                ),
              ),
            ),
          )
      ∙ ap (λ l. first_fields ++ l) (last_pairs-last_fields e);
  says_hash = percent_decode-url_encode_bytes hash bytes;
  says_id = percent_decode-url_encode_bytes c.peer_id id_bytes;
  says_port = parse_unsigned-decimal (2 ^ 16) c.port small (omega arith);
  says_uploaded = parse_unsigned-decimal (2 ^ 64) stats.uploaded up up;
  says_downloaded = parse_unsigned-decimal (2 ^ 64) stats.downloaded down down;
  says_left = parse_unsigned-decimal (2 ^ 64) stats.left rest rest;
}
  where
    front : List (List ℕ) → List (List ℕ)
    front l =
        part info_hash (url_encode_bytes hash)
        ∷ part peer_id (url_encode_bytes c.peer_id)
        ∷ part port (decimal c.port)
        ∷ part uploaded (decimal stats.uploaded)
        ∷ part downloaded (decimal stats.downloaded)
        ∷ part left (decimal stats.left)
        ∷ part compact (49 ∷ [])
        ∷ l

    first_fields : List (List (List ℕ))
    first_fields =
        field info_hash (url_encode_bytes hash)
        ∷ field peer_id (url_encode_bytes c.peer_id)
        ∷ field port (decimal c.port)
        ∷ field uploaded (decimal stats.uploaded)
        ∷ field downloaded (decimal stats.downloaded)
        ∷ field left (decimal stats.left)
        ∷ field compact (49 ∷ [])
        ∷ []
