-- ===== src/Tracker/Announce/Fields.antt =====
-- A query taken apart at `&` and `=`, and what stands in its fields.
use Prim.Native.String.{String}
use Prim.Native.Char.{code}
use iron_peer_417project_pri.Tracker.Ascii.{fold}
use iron_peer_417project_pri.Base.{
  ◌⊎◌, inl, inr, ℕ, ◌+◌, ◌-◌, ◌*◌, ◌/◌, ◌%◌, ◌<◌, ◌≡◌, refl, ap, ap₂, ◌∙◌, List, [], ◌∷◌, ◌++◌,
  Bool, true, false, ◌||◌, ◌==◌, ltb, if◌then◌else◌, All, map, neither, IsByte, arith,
}
use iron_peer_417project_pri.Tracker.Text.{push_front, split}
use iron_peer_417project_pri.Tracker.Announce.{
  print_digits, decimal, hex, url_encode_bytes, Key, info_hash, peer_id, port, uploaded, downloaded,
  left, compact, event, numwant, key, part, join_parts,
}
use iron_peer_417project_pri.Tracker.Announce.Digits.{IsDigit, print_digits-IsDigit}

-- The value of a hexadecimal digit, and the bytes of a percent encoding.
abbrev pub of_hex : ℕ → ℕ
of_hex c = if ltb c 58 then c - 48 else c - 55

abbrev pub percent_decode : List ℕ → List ℕ
percent_decode [] = []
percent_decode (p ∷ []) = p ∷ []
percent_decode (p ∷ c ∷ []) = p ∷ c ∷ []
percent_decode (p ∷ c ∷ d ∷ bs) =
    let rest = percent_decode bs in
    let later = percent_decode (c ∷ d ∷ bs) in
    if p == 37 then (of_hex c * 16 + of_hex d) ∷ rest else p ∷ later

of_hex-hex : (d : ℕ) → d < 16 → of_hex (hex d) ≡ d
of_hex-hex d h = ground arith

pub percent_decode-url_encode_bytes :
    (bs : List ℕ) → All IsByte bs → percent_decode (url_encode_bytes bs) ≡ bs
unfolding url_encode_bytes
percent_decode-url_encode_bytes [] h = refl
percent_decode-url_encode_bytes (b ∷ bs) (h, hs) =
    let high = of_hex-hex (b / 16) (omega arith) in
    let low = of_hex-hex (b % 16) (omega arith) in
    ap₂ ◌∷◌ (omega (arith, high, low)) (percent_decode-url_encode_bytes bs hs)

-- Whether a byte is in a text.
abbrev pub has : ℕ → List ℕ → Bool
has at [] = false
has at (b ∷ bs) = b == at || has at bs

pub digits-lack :
    (at : ℕ) (text : List ℕ) → All IsDigit text → (at < 48) ⊎ (57 < at) → has at text ≡ false
digits-lack at [] h away = refl
digits-lack at (b ∷ bs) (h, hs) away =
    let here : (b == at) ≡ false = ground arith in rw (here, digits-lack at bs hs away) refl

pub decimal-lacks : (at n : ℕ) → (at < 48) ⊎ (57 < at) → has at (decimal n) ≡ false
unfolding decimal
decimal-lacks at n away = digits-lack at (print_digits 20 n) (print_digits-IsDigit 20 n) away

encoded-lacks :
    (at : ℕ) (bs : List ℕ)
    → All IsByte bs
    → (at ≡ 38) ⊎ (at ≡ 61)
    → has at (url_encode_bytes bs) ≡ false
unfolding url_encode_bytes
encoded-lacks at [] h which = refl
encoded-lacks at (b ∷ bs) (h, hs) which =
    let percent : (37 == at) ≡ false = ground arith in
    let high = hex-lacks (b / 16) (omega arith) in
    let low = hex-lacks (b % 16) (omega arith) in
    rw (percent, high, low, encoded-lacks at bs hs which) refl
  where
    hex-lacks : (d : ℕ) → d < 16 → (hex d == at) ≡ false
    hex-lacks d lt = ground arith

pub split-lacks : (at : ℕ) (xs : List ℕ) → has at xs ≡ false → split at xs ≡ xs ∷ []
unfolding split push_front
split-lacks at [] h = refl
split-lacks at (x ∷ xs) h =
    let (here, later) = neither (x == at) (has at xs) h in
    rw (here, split, split-lacks at xs later) refl

pub split-append :
    (at : ℕ) (xs ys : List ℕ) → has at xs ≡ false → split at (xs ++ (at ∷ ys)) ≡ xs ∷ split at ys
unfolding split push_front
split-append at [] ys h = let same : (at == at) ≡ true = ground arith in rw (same, split) refl
split-append at (x ∷ xs) ys h =
    let (here, later) = neither (x == at) (has at xs) h in
    rw (here, split, split-append at xs ys later) refl

split-join_parts :
    (p : List ℕ) (ps : List (List ℕ))
    → All (λ q. has 38 q ≡ false) (p ∷ ps)
    → split 38 (join_parts (p ∷ ps)) ≡ p ∷ ps
unfolding join_parts
split-join_parts p [] (h, hs) = split-lacks 38 p h
split-join_parts p (q ∷ ps) (h, hs) =
    split-append 38 p (join_parts (q ∷ ps)) h ∙ ap (λ l. p ∷ l) (split-join_parts q ps hs)

-- A key and its value, apart.
key-lacks : (k : Key) → has 61 (key k) ≡ false
key-lacks info_hash = refl
key-lacks peer_id = refl
key-lacks port = refl
key-lacks uploaded = refl
key-lacks downloaded = refl
key-lacks left = refl
key-lacks compact = refl
key-lacks event = refl
key-lacks numwant = refl

part-lacks : (k : Key) (v : List ℕ) → has 38 v ≡ false → has 38 (part k v) ≡ false
part-lacks info_hash v h = h
part-lacks peer_id v h = h
part-lacks port v h = h
part-lacks uploaded v h = h
part-lacks downloaded v h = h
part-lacks left v h = h
part-lacks compact v h = h
part-lacks event v h = h
part-lacks numwant v h = h

-- The keys and values of a query.
abbrev pub fields : List ℕ → List (List (List ℕ))
fields query = map (split 61) (split 38 query)

abbrev pub field : Key → List ℕ → List (List ℕ)
field k v = key k ∷ v ∷ []

split-part : (k : Key) (v : List ℕ) → has 61 v ≡ false → split 61 (part k v) ≡ field k v
split-part k v h =
    split-append 61 (key k) v (key-lacks k) ∙ ap (λ l. key k ∷ l) (split-lacks 61 v h)

-- A pair whose value has neither `&` nor `=`.
pub record IsPlain (v : List ℕ) : Type 0 where
  pub no_and : has 38 v ≡ false
  pub no_equals : has 61 v ≡ false

pub decimal-IsPlain : (n : ℕ) → IsPlain (decimal n)
decimal-IsPlain n = record {
  no_and = decimal-lacks 38 n (inl (omega arith));
  no_equals = decimal-lacks 61 n (inr (omega arith));
}

pub encoded-IsPlain : (bs : List ℕ) → All IsByte bs → IsPlain (url_encode_bytes bs)
encoded-IsPlain bs h = record {
  no_and = encoded-lacks 38 bs h (inl refl);
  no_equals = encoded-lacks 61 bs h (inr refl);
}

-- Some pairs, as the parts of a query and as its fields.
abbrev pub parts : List (Key × List ℕ) → List (List ℕ)
parts kvs = map (λ kv. part kv.0 kv.1) kvs

abbrev pub fields_of : List (Key × List ℕ) → List (List (List ℕ))
fields_of kvs = map (λ kv. field kv.0 kv.1) kvs

parts-lack :
    (kvs : List (Key × List ℕ))
    → All (λ kv. IsPlain kv.1) kvs
    → All (λ q. has 38 q ≡ false) (parts kvs)
parts-lack [] h = tt
parts-lack ((k, v) ∷ kvs) (h, hs) = (part-lacks k v h.no_and, parts-lack kvs hs)

split-parts :
    (kvs : List (Key × List ℕ))
    → All (λ kv. IsPlain kv.1) kvs
    → map (split 61) (parts kvs) ≡ fields_of kvs
split-parts [] h = refl
split-parts ((k, v) ∷ kvs) (h, hs) = ap₂ ◌∷◌ (split-part k v h.no_equals) (split-parts kvs hs)

pub fields-join_parts :
    (kv : Key × List ℕ) (kvs : List (Key × List ℕ))
    → All (λ x. IsPlain x.1) (kv ∷ kvs)
    → fields (join_parts (parts (kv ∷ kvs))) ≡ fields_of (kv ∷ kvs)
fields-join_parts kv kvs h =
    ap (map (split 61)) (split-join_parts (part kv.0 kv.1) (parts kvs) (parts-lack (kv ∷ kvs) h))
    ∙ split-parts (kv ∷ kvs) h

-- The bytes of a text.
abbrev pub ascii : String → List ℕ
ascii text = fold (λ c bs. code c ∷ bs) [] text
