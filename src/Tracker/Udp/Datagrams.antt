-- ===== src/Tracker/Udp/Datagrams.antt =====
-- What a tracker reads in the two datagrams of an announce over UDP.
use iron_peer_417project_pri.Base.{
  ℕ, ◌-◌, ◌/◌, ◌%◌, zero, suc, ◌+◌, ◌*◌, ◌^◌, ◌≡◌, refl, ap, ◌∙◌, List, [], ◌∷◌, ◌++◌, length, take,
  drop, get_or, IsU16, IsU32, IsU64, to_be_bytes16, to_be_bytes32, to_be_bytes64, length-append,
  take-append_exact, drop-append_exact, from_be_bytes32-to_be_bytes32, arith,
}
use iron_peer_417project_pri.Protocol.Codec.{u32_at}
use iron_peer_417project_pri.Tracker.Udp.{u64_at, connect_request, Announce, announce_request}

pub record ReadsConnect (t : ℕ) (bytes : List ℕ) : Type 0 where
  pub whole : length bytes ≡ 16
  pub protocol : u64_at 0 bytes ≡ 4497486125440
  pub action : u32_at 8 bytes ≡ 0
  pub transaction : u32_at 12 bytes ≡ t

-- Each field at its offset.
pub record ReadsAnnounce (n t : ℕ) (a : Announce) (bytes : List ℕ) : Type 0 where
  pub whole : length bytes ≡ 98
  pub connection : u64_at 0 bytes ≡ n
  pub action : u32_at 8 bytes ≡ 1
  pub transaction : u32_at 12 bytes ≡ t
  pub hash : take 20 (drop 16 bytes) ≡ a.info_hash
  pub id : take 20 (drop 36 bytes) ≡ a.peer_id
  pub says_downloaded : u64_at 0 (drop 56 bytes) ≡ a.downloaded
  pub says_left : u64_at 8 (drop 56 bytes) ≡ a.left
  pub says_uploaded : u64_at 16 (drop 56 bytes) ≡ a.uploaded
  pub no_event : u32_at 24 (drop 56 bytes) ≡ 0
  pub default_ip : u32_at 28 (drop 56 bytes) ≡ 0
  pub no_key : u32_at 32 (drop 56 bytes) ≡ 0
  pub any_number : u32_at 36 (drop 56 bytes) ≡ 4294967295
  pub says_port : get_or (drop 56 bytes) 40 0 * 256 + get_or (drop 56 bytes) 41 0 ≡ a.port

-- What the fields of an announce can be.
pub record IsAnnounce (a : Announce) : Type 0 where
  pub hash_whole : length a.info_hash ≡ 20
  pub id_whole : length a.peer_id ≡ 20
  pub downloaded_fits : IsU64 a.downloaded
  pub left_fits : IsU64 a.left
  pub uploaded_fits : IsU64 a.uploaded
  pub port_fits : IsU16 a.port

drop-append_more : (k n : ℕ) (xs ys : List ℕ) → k ≡ length xs + n → drop k (xs ++ ys) ≡ drop n ys
drop-append_more k n [] ys h = ap (λ i. drop i ys) (omega arith)
drop-append_more zero n (x ∷ xs) ys h = absurd (omega arith)
drop-append_more (suc k) n (x ∷ xs) ys h = drop-append_more k n xs ys (omega arith)

pub connect_request-ReadsConnect : (t : ℕ) → IsU32 t → ReadsConnect t (connect_request t)
unfolding connect_request
connect_request-ReadsConnect t h = record {
  whole = refl;
  protocol = refl;
  action = refl;
  transaction = from_be_bytes32-to_be_bytes32 t h;
}

-- The numbers behind the info hash and the peer id.
abbrev numbers : Announce → List ℕ
numbers a =
    to_be_bytes64 a.downloaded
    ++ (to_be_bytes64 a.left
        ++ (to_be_bytes64 a.uploaded
            ++ (to_be_bytes32 0
                ++ (to_be_bytes32 0
                    ++ (to_be_bytes32 0 ++ (to_be_bytes32 (2 ^ 32 - 1) ++ to_be_bytes16 a.port))))))

pub announce_request-ReadsAnnounce :
    (n t : ℕ) (a : Announce)
    → IsAnnounce a
    → IsU64 n
    → IsU32 t
    → ReadsAnnounce n t a (announce_request n t a)
unfolding announce_request
announce_request-ReadsAnnounce n t a is small_n small =
    let front : drop 36 (announce_request n t a) ≡ a.peer_id ++ numbers a =
      drop-append_exact 20 a.info_hash (a.peer_id ++ numbers a) is.hash_whole in
    let back : drop 56 (announce_request n t a) ≡ numbers a =
      drop-append_more 40 20 a.info_hash (a.peer_id ++ numbers a) (omega (arith, is.hash_whole))
      ∙ drop-append_exact 20 a.peer_id (numbers a) is.id_whole in
    record {
      whole = omega (
        arith,
        length-append a.info_hash (a.peer_id ++ numbers a),
        length-append a.peer_id (numbers a),
        is.hash_whole,
        is.id_whole,
      );
      connection = u64 n small_n;
      action = refl;
      transaction = from_be_bytes32-to_be_bytes32 t small;
      hash = take-append_exact 20 a.info_hash (a.peer_id ++ numbers a) is.hash_whole;
      id = ap (take 20) front ∙ take-append_exact 20 a.peer_id (numbers a) is.id_whole;
      says_downloaded = ap (u64_at 0) back ∙ u64 a.downloaded is.downloaded_fits;
      says_left = ap (u64_at 8) back ∙ u64 a.left is.left_fits;
      says_uploaded = ap (u64_at 16) back ∙ u64 a.uploaded is.uploaded_fits;
      no_event = ap (u32_at 24) back;
      default_ip = ap (u32_at 28) back;
      no_key = ap (u32_at 32) back;
      any_number = ap (u32_at 36) back;
      says_port =
          ap (λ bytes. get_or bytes 40 0 * 256 + get_or bytes 41 0) back ∙ u16 a.port is.port_fits;
    }
  where
    u64 : (x : ℕ) → IsU64 x → u64_at 0 (to_be_bytes64 x) ≡ x
    u64 x h = omega arith

    u16 : (x : ℕ) → IsU16 x → x / 2 ^ 8 % 256 * 256 + x % 256 ≡ x
    u16 x h = omega arith
