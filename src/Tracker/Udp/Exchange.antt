-- ===== src/Tracker/Udp/Exchange.antt =====
-- An announce over UDP, with a tracker that follows the protocol, and with any other.
use iron_peer_417project_pri.Base.{
  ℕ, ◌*◌, ◌≤◌, ◌≡◌, refl, sym, ap, ◌∙◌, List, [], ◌∷◌, ◌++◌, Option, none, some, Bool, true, false,
  not, ◌==◌, ==_iff, if◌then◌else◌, if_cases, ltb, not_ltb→le, Result, ok, err, ok-injective,
  length, take, take_all, drop, append-nil, map, All, IsU16, IsU32, IsU64, to_be_bytes32,
  to_be_bytes64, from_be_bytes32-to_be_bytes32, arith,
}
use iron_peer_417project_pri.Structs.Peer.{Peer, from_compact_bytes}
use iron_peer_417project_pri.Structs.Compact.{
  Endpoint, peer_of, compact_all, from_compact_bytes-compact_all,
}
use iron_peer_417project_pri.Protocol.Codec.{u32_at}
use iron_peer_417project_pri.Tracker.Udp.{
  UdpError, Address, UdpTrackerClient, send_to, send_by, receive_of, recv_from, parse_udp_url,
  connect_request, check_connect, then_check, exchange, send_connect_request, Announce,
  announce_request, check_announce, announce_with, then_announce, announce,
}
use iron_peer_417project_pri.Tracker.Udp.Datagrams.{
  ReadsConnect, ReadsAnnounce, IsAnnounce, connect_request-ReadsConnect,
  announce_request-ReadsAnnounce,
}

-- What a tracker answers: its connection id; the interval, the numbers of leechers and seeders, and
-- the peers.
abbrev pub connect_response : ℕ → ℕ → List ℕ
connect_response transaction_id connection_id =
    to_be_bytes32 0 ++ (to_be_bytes32 transaction_id ++ to_be_bytes64 connection_id)

abbrev pub announce_response : ℕ → ℕ → ℕ → ℕ → List Endpoint → List ℕ
announce_response transaction_id interval leechers seeders es =
    to_be_bytes32 1
    ++ (to_be_bytes32 transaction_id
        ++ (to_be_bytes32 interval
            ++ (to_be_bytes32 leechers ++ (to_be_bytes32 seeders ++ compact_all es))))

self : (n : ℕ) → (n == n) ≡ true
self n = (==_iff n n).1 refl

check_connect-connect_response :
    (t n : ℕ) → IsU32 t → IsU64 n → check_connect t (connect_response t n) ≡ ok n
unfolding check_connect
check_connect-connect_response t n small_t small_n =
    rw (from_be_bytes32-to_be_bytes32 t small_t, self t) (ap ok (omega arith))

length-compact_all : (es : List Endpoint) → length (compact_all es) ≡ 6 * length es
length-compact_all [] = omega arith
length-compact_all (e ∷ es) = omega (arith, length-compact_all es)

check_announce-announce_response :
    (t i l s : ℕ) (es : List Endpoint)
    → IsU32 t
    → All (λ e. IsU16 e.port) es
    → check_announce t (announce_response t i l s es) ≡ ok (map peer_of es)
unfolding check_announce
check_announce-announce_response t i l s es small ports =
    let long : ltb (length (announce_response t i l s es)) 20 ≡ false = ground arith in
    rw (long, from_be_bytes32-to_be_bytes32 t small, self t)
      (ap ok (
        ap from_compact_bytes (sym (append-nil (compact_all es)))
        ∙ from_compact_bytes-compact_all es [] (omega arith) ports))

-- A client whose sends succeed.
abbrev pub client : List (Option (List ℕ)) → List (Address × List ℕ) → UdpTrackerClient
client datagrams sent = record { sends = []; datagrams = datagrams; sent = sent }

send_connect_request_lem :
    (address : Address) (t n : ℕ) (ds : List (Option (List ℕ))) (sent : List (Address × List ℕ))
    → IsU32 t
    → IsU64 n
    → send_connect_request address t (client (some (connect_response t n) ∷ ds) sent)
      ≡ (ok n, client ds (sent ++ ((address, connect_request t) ∷ [])))
unfolding send_connect_request exchange send_to send_by recv_from receive_of
send_connect_request_lem address t n ds sent small_t small_n =
    ap (λ answer. (answer, client ds (sent ++ ((address, connect_request t) ∷ []))))
      (check_connect-connect_response t n small_t small_n)

announce_with_lem :
    (address : Address) (n t : ℕ) (a : Announce) (i l s : ℕ) (es : List Endpoint)
    (ds : List (Option (List ℕ))) (sent : List (Address × List ℕ))
    → IsU32 t
    → All (λ e. IsU16 e.port) es
    → length es ≤ 338
    → announce_with address n t a (client (some (announce_response t i l s es) ∷ ds) sent)
      ≡ (ok (map peer_of es), client ds (sent ++ ((address, announce_request n t a) ∷ [])))
unfolding announce_with exchange send_to send_by recv_from receive_of
announce_with_lem address n t a i l s es ds sent small ports few =
    ap (λ answer. (answer, client ds (sent ++ ((address, announce_request n t a) ∷ []))))
      (ap (check_announce t)
          (take_all 2048 (announce_response t i l s es) (omega (arith, length-compact_all es)))
        ∙ check_announce-announce_response t i l s es small ports)

-- The two datagrams that an announce sends, as its tracker reads them.
pub record Sent (address : Address) (n t t' : ℕ) (a : Announce) (sent : List (Address × List ℕ))
    : Type 0 where
  pub first : List ℕ
  pub second : List ℕ
  pub datagrams : sent ≡ (address, first) ∷ (address, second) ∷ []
  pub connects : ReadsConnect t first
  pub announces : ReadsAnnounce n t' a second

-- With a tracker that answers the two requests, each with the request's transaction id, `announce`
-- answers exactly the peers that the tracker names, in order. It sends two datagrams: a connect, with
-- the protocol's number and the first transaction id, and an announce of 98 bytes, which carries the
-- connection id of the tracker's first answer, the second transaction id, the info hash, the peer
-- id, the three numbers and the port. The peers fit into the client's buffer when there are at most
-- 338 of them.
pub announce-announce_response :
    (url : List ℕ) (address : Address) (a : Announce) (t n t' i l s : ℕ) (es : List Endpoint)
    (ds : List (Option (List ℕ)))
    → parse_udp_url url ≡ ok address
    → IsAnnounce a
    → IsU32 t
    → IsU32 t'
    → IsU64 n
    → All (λ e. IsU16 e.port) es
    → length es ≤ 338
    → (sent : List (Address × List ℕ)) × (announce url a t t'
          (client (some (connect_response t n) ∷ some (announce_response t' i l s es) ∷ ds) [])
        ≡ (ok (map peer_of es), client ds sent))
      × Sent address n t t' a sent
unfolding announce
announce-announce_response url address a t n t' i l s es ds parsed is small small' small_n ports
      few =
    (
      (address, connect_request t) ∷ (address, announce_request n t' a) ∷ [],
      rw (parsed, announce)
          (ap (then_announce address t' a) (
              send_connect_request_lem address t n (some (announce_response t' i l s es) ∷ ds) []
                small small_n)
            ∙ announce_with_lem address n t' a i l s es ds ((address, connect_request t) ∷ [])
                small' ports few),
      record {
        first = connect_request t;
        second = announce_request n t' a;
        datagrams = refl;
        connects = connect_request-ReadsConnect t small;
        announces = announce_request-ReadsAnnounce n t' a is small_n small';
      },
    )

-- A response that was accepted: long enough, with the action and the transaction id of its request.
pub record Answers (action transaction_id len : ℕ) (response : List ℕ) : Type 0 where
  pub long : len ≤ length response
  pub same_action : u32_at 0 response ≡ action
  pub same_transaction : u32_at 4 response ≡ transaction_id

opposite : (b : Bool) → not b ≡ false → b ≡ true
opposite true h = refl
opposite false h = cc

module _ {ℓ} {A : Type ℓ} (action t len : ℕ) (short wrong other : UdpError) (value : A)
    (response : List ℕ) where
  -- The checks that the two kinds of response share.
  checks :
      (a : A)
      → (if ltb (length response) len
          then err short
          else if not (u32_at 0 response == action)
          then err wrong
          else if not (u32_at 4 response == t)
          then err other
          else ok value)
        ≡ ok a
      → Answers action t len response × (value ≡ a)
  checks a =
      if_cases Claim (ltb (length response) len) _ _ (λ p e. absurd cc)
        (λ p.
          if_cases Claim (not (u32_at 0 response == action)) _ _ (λ q e. absurd cc)
            (λ q.
              if_cases Claim (not (u32_at 4 response == t)) _ _ (λ r e. absurd cc)
                (λ r e. (
                  record {
                    long = not_ltb→le (length response) len p;
                    same_action = (==_iff (u32_at 0 response) action).0 (opposite _ q);
                    same_transaction = (==_iff (u32_at 4 response) t).0 (opposite _ r);
                  },
                  ok-injective e,
                ))))
    where
      Claim : Result UdpError A → Type ℓ
      Claim o = o ≡ ok a → Answers action t len response × (value ≡ a)

exchange_ok {ℓ} :
    {A : Type ℓ} (room : ℕ) (check : List ℕ → Result UdpError A) (address : Address)
    (request : List ℕ) (c : UdpTrackerClient) (a : A) (c' : UdpTrackerClient)
    → exchange room check address request c ≡ (ok a, c')
    → (r : List ℕ) × (c.datagrams ≡ some r ∷ c'.datagrams) × (check (take room r) ≡ ok a)
unfolding exchange send_to send_by recv_from receive_of
exchange_ok {A = A} room check address request c a c' e = by c.sends c.datagrams e
  where
    Claim : List (Option (List ℕ)) → Result UdpError A × UdpTrackerClient → Type ℓ
    Claim ds x =
        x ≡ (ok a, c') → (r : List ℕ) × (ds ≡ some r ∷ c'.datagrams) × (check (take room r) ≡ ok a)

    received :
        (ds : List (Option (List ℕ))) (b : UdpTrackerClient)
        → Claim ds (then_check check (receive_of room ds b).0, (receive_of room ds b).1)
    received [] b e = absurd cc
    received (none ∷ ds) b e = absurd cc
    received (some r ∷ ds) b e = (
      r,
      ap (λ (x : Result UdpError A × UdpTrackerClient). some r ∷ x.1.datagrams) e,
      ap (λ (x : Result UdpError A × UdpTrackerClient). x.0) e,
    )

    by :
        (bs : List Bool) (ds : List (Option (List ℕ)))
        → Claim ds (exchange room check address request (record c { sends = bs; datagrams = ds }))
    by [] ds =
        received ds
          (record c { sends = []; datagrams = ds; sent = c.sent ++ ((address, request) ∷ []) })
    by (true ∷ bs) ds =
        received ds
          (record c { sends = bs; datagrams = ds; sent = c.sent ++ ((address, request) ∷ []) })
    by (false ∷ bs) ds = λ e. absurd cc

-- What `announce` accepts: the two datagrams that came first, each of which answers its request.
pub record Accepts (t t' : ℕ) (c c' : UdpTrackerClient) (peers : List Peer) : Type 0 where
  pub first : List ℕ
  pub second : List ℕ
  pub taken : c.datagrams ≡ some first ∷ some second ∷ c'.datagrams
  pub connects : Answers 0 t 16 (take 16 first)
  pub announces : Answers 1 t' 20 (take 2048 second)
  pub named : from_compact_bytes (drop 20 (take 2048 second)) ≡ peers

-- `announce` answers peers only from two datagrams with the actions and the transaction ids of its
-- two requests, the first of at least 16 and the second of at least 20 bytes: they are the peers
-- behind the first 20 bytes of the second.
pub announce-Accepts :
    (url : List ℕ) (a : Announce) (t t' : ℕ) (c c' : UdpTrackerClient) (peers : List Peer)
    → announce url a t t' c ≡ (ok peers, c')
    → Accepts t t' c c' peers
unfolding announce send_connect_request announce_with check_connect check_announce
announce-Accepts url a t t' c c' peers = parsed (parse_udp_url url)
  where
    connected :
        (address : Address) (x : Result UdpError ℕ × UdpTrackerClient)
        → send_connect_request address t c ≡ x
        → then_announce address t' a x ≡ (ok peers, c')
        → Accepts t t' c c' peers
    connected address (err e, d) h k = absurd cc
    connected address (ok n, d) h k =
        let (r, taken, checked) =
          exchange_ok 16 (check_connect t) address (connect_request t) c n d h in
        let (r', taken', checked') =
          exchange_ok 2048 (check_announce t') address (announce_request n t' a) d peers c' k in
        let (connects, v) = checks 0 t 16 _ _ _ _ (take 16 r) n checked in
        let (announces, named) = checks 1 t' 20 _ _ _ _ (take 2048 r') peers checked' in
        record {
          first = r;
          second = r';
          taken = taken ∙ ap (λ ds. some r ∷ ds) taken';
          connects = connects;
          announces = announces;
          named = named;
        }

    parsed :
        (x : Result UdpError Address)
        → (elim x [
          | err e ↦ (err e, c)
          | ok address ↦ then_announce address t' a (send_connect_request address t c)
        ])
          ≡ (ok peers, c')
        → Accepts t t' c c' peers
    parsed (err e) k = absurd cc
    parsed (ok address) k = connected address (send_connect_request address t c) refl k
