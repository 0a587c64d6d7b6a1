-- ===== src/Peer/Handshake/Agreement.antt =====
-- When a handshake is accepted.
use iron_peer_417project_pri.Base.{
  ℕ, zero, suc, ◌+◌, ◌≡◌, ◌≢◌, ◌↔◌, refl, sym, ap, subst, ap₂, ◌∙◌, List, [], ◌∷◌, ◌++◌, some, true,
  false, if◌then◌else◌, ◌==◌, ==_iff, length, take, drop, get_or, replicate, ok, err, ok-injective,
  same_bytes, same_bytes_iff, take-append-drop, length-take, length-drop, take-append_exact,
  drop-append_exact, take_all, length-append, Bool-cases, inl, inr, ◌⊎◌, append_assoc, drop_all,
  arith,
}
use iron_peer_417project_pri.Peer.Handshake.{
  HandshakeError, other_torrent, protocol_string, protocol_string_len, handshake_bytes, validate,
  receive_handshake,
}

-- A handshake that says `info_hash` and `peer_id`, whatever its reserved bytes are.
abbrev pub Says : List ℕ → List ℕ → List ℕ → Type 0
Says info_hash peer_id handshake =
    (reserved : List ℕ) × (length reserved ≡ 8)
    × (handshake ≡ protocol_string_len ∷ (protocol_string ++ (reserved ++ (info_hash ++ peer_id))))

same_bytes_refl : (xs : List ℕ) → same_bytes xs xs ≡ true
same_bytes_refl xs = (same_bytes_iff xs xs).1 refl

same_bytes-false : (xs ys : List ℕ) → xs ≢ ys → same_bytes xs ys ≡ false
same_bytes-false xs ys ne = elim (Bool-cases (same_bytes xs ys)) [
  | inl t ↦ absurd (ne ((same_bytes_iff xs ys).0 t))
  | inr f ↦ f
]

hash_part :
    (reserved h p : List ℕ)
    → length reserved ≡ 8
    → length h ≡ 20
    → take 20 (drop 28 (protocol_string_len ∷ (protocol_string ++ (reserved ++ (h ++ p))))) ≡ h
hash_part reserved h p r l =
    ap (take 20) (drop-append_exact 8 reserved (h ++ p) r) ∙ take-append_exact 20 h p l

id_part :
    (reserved h p : List ℕ)
    → length reserved ≡ 8
    → length h ≡ 20
    → length p ≡ 20
    → take 20 (drop 48 (protocol_string_len ∷ (protocol_string ++ (reserved ++ (h ++ p))))) ≡ p
id_part reserved h p r l lp =
    ap (λ xs. take 20 (drop 28 xs)) (sym (append_assoc reserved h p))
    ∙ (ap (take 20)
          (drop-append_exact 28 (reserved ++ h) p (omega (arith, length-append reserved h, r, l)))
        ∙ take_all 20 p (omega arith))

validate-Says :
    (h p handshake : List ℕ)
    → length h ≡ 20
    → length p ≡ 20
    → Says h p handshake
    → validate h handshake ≡ ok p
unfolding validate
validate-Says h p handshake lh lp (reserved, r, e) =
    rw (e, hash_part reserved h p r lh, same_bytes_refl h, id_part reserved h p r lh lp) refl

drop-drop : (m n k : ℕ) (xs : List ℕ) → k ≡ n + m → drop m (drop n xs) ≡ drop k xs
drop-drop m zero k xs e = let same : m ≡ k = omega arith in ap (λ i. drop i xs) same
drop-drop m (suc n) k [] e = drop_all m [] (omega arith) ∙ sym (drop_all k [] (omega arith))
drop-drop m (suc n) zero (x ∷ xs) e = absurd (omega arith)
drop-drop m (suc n) (suc k) (x ∷ xs) e = drop-drop m n k xs (omega arith)

-- The parts of a handshake put together again.
parts-Says :
    (h p handshake : List ℕ)
    → length handshake ≡ 68
    → get_or handshake 0 0 ≡ protocol_string_len
    → take 19 (drop 1 handshake) ≡ protocol_string
    → take 20 (drop 28 handshake) ≡ h
    → take 20 (drop 48 handshake) ≡ p
    → Says h p handshake
parts-Says h p [] l n s eh ep = absurd (omega arith)
parts-Says h p (x ∷ xs) l n s eh ep = (
  take 8 (drop 19 xs),
  omega (arith, length-take 8 (drop 19 xs), length-drop 19 xs),
  ap₂ ◌∷◌ n (sym (take-append-drop 19 xs) ∙ ap₂ ◌++◌ s from_19),
)
  where
    from_47 : drop 47 xs ≡ p
    from_47 = sym (take_all 20 (drop 47 xs) (omega (arith, length-drop 47 xs))) ∙ ep

    from_27 : drop 27 xs ≡ h ++ p
    from_27 =
        sym (take-append-drop 20 (drop 27 xs)) ∙ ap₂ ◌++◌ eh (drop-drop 20 27 47 xs refl ∙ from_47)

    from_19 : drop 19 xs ≡ take 8 (drop 19 xs) ++ (h ++ p)
    from_19 =
        sym (take-append-drop 8 (drop 19 xs))
        ∙ ap (λ rest. take 8 (drop 19 xs) ++ rest) (drop-drop 8 19 27 xs refl ∙ from_27)

Says-refused :
    (h h' p handshake : List ℕ)
    → length h' ≡ 20
    → h ≢ h'
    → Says h' p handshake
    → validate h handshake ≡ err other_torrent
unfolding validate
Says-refused h h' p handshake l ne (reserved, r, e) =
    rw (e, hash_part reserved h' p r l, same_bytes-false h' h (λ same. ne (sym same))) refl

ok_err : {e : HandshakeError} {p : List ℕ} → err e ≡ ok p → ⊥
ok_err h = cc

Says-validate :
    (h p handshake : List ℕ)
    → length handshake ≡ 68
    → validate h handshake ≡ ok p
    → Says h p handshake
unfolding validate
Says-validate h p handshake l e =
    checked (Bool-cases (get_or handshake 0 0 == protocol_string_len))
      (Bool-cases (same_bytes (take 19 (drop 1 handshake)) protocol_string))
      (Bool-cases (same_bytes (take 20 (drop 28 handshake)) h))
  where
    checked :
        ((get_or handshake 0 0 == protocol_string_len) ≡ true)
          ⊎ ((get_or handshake 0 0 == protocol_string_len) ≡ false)
        → (same_bytes (take 19 (drop 1 handshake)) protocol_string ≡ true)
          ⊎ (same_bytes (take 19 (drop 1 handshake)) protocol_string ≡ false)
        → (same_bytes (take 20 (drop 28 handshake)) h ≡ true)
          ⊎ (same_bytes (take 20 (drop 28 handshake)) h ≡ false)
        → Says h p handshake
    checked (inr f) y z = absurd (ok_err (rw f at e))
    checked (inl t) (inr f) z = absurd (ok_err (rw (t, f) at e))
    checked (inl t) (inl u) (inr f) = absurd (ok_err (rw (t, u, f) at e))
    checked (inl t) (inl u) (inl v) =
        parts-Says h p handshake l ((==_iff _ _).0 t) ((same_bytes_iff _ _).0 u)
          ((same_bytes_iff _ _).0 v) (ok-injective (rw (t, u, v) at e))

-- A handshake of 68 bytes is accepted, with a peer id, exactly when it says this torrent's info
-- hash and that id; its reserved bytes may be anything.
pub validate_iff :
    (h p handshake : List ℕ)
    → length h ≡ 20
    → length p ≡ 20
    → length handshake ≡ 68
    → (validate h handshake ≡ ok p) ↔ Says h p handshake
validate_iff h p handshake lh lp l =
    (Says-validate h p handshake l, validate-Says h p handshake lh lp)

-- The handshake that another client sends is accepted, and its id learnt, when it is there for this
-- torrent, and is refused as that of another torrent otherwise.
pub receive_handshake-handshake_bytes :
    (h h' p : List ℕ)
    → length h ≡ 20
    → length h' ≡ 20
    → length p ≡ 20
    → receive_handshake (λ n. some (take n (handshake_bytes h' p))) h
      ≡ (if same_bytes h' h then ok p else err other_torrent)
unfolding receive_handshake handshake_bytes
receive_handshake-handshake_bytes h h' p lh lh' lp =
    ap (validate h) whole ∙ answer (Bool-cases (same_bytes h' h))
  where
    whole : take 68 (handshake_bytes h' p) ≡ handshake_bytes h' p
    whole = take_all 68 (handshake_bytes h' p) (omega (arith, length-append h' p))

    says : Says h' p (handshake_bytes h' p)
    says = (replicate 8 0, refl, refl)

    answer :
        (same_bytes h' h ≡ true) ⊎ (same_bytes h' h ≡ false)
        → validate h (handshake_bytes h' p) ≡ (if same_bytes h' h then ok p else err other_torrent)
    answer (inl t) =
        let same : h ≡ h' = sym ((same_bytes_iff h' h).0 t) in
        rw t (
          validate-Says h p (handshake_bytes h' p) lh lp
            (subst (λ (x : List ℕ). Says x p (handshake_bytes h' p)) (sym same) says))
    answer (inr f) = rw f (Says-refused h h' p (handshake_bytes h' p) lh' (λ e. differ e f) says)
      where
        differ : h ≡ h' → same_bytes h' h ≡ false → ⊥
        differ e g = let t = (same_bytes_iff h' h).1 (sym e) in cc
