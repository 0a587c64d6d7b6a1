-- ===== src/Protodef/MetaInfo/Layout.antt =====
-- Where the files of a torrent lie in its pieces, and what else `to_torrent_info` makes of a torrent
-- file.
use Prim.Native.String.{String}
use native.Mathlib.Nat.{mod-lt}
use native.Mathlib.Omega.{div_any}
use iron_peer_417project_pri.Base.{
  ℕ, zero, suc, ◌+◌, ◌*◌, ◌/◌, ◌%◌, ◌≤◌, ◌<◌, ◌≡◌, refl, ◌∙◌, ap, List, [], ◌∷◌, ◌++◌, Option, none,
  some, false, ◌==◌, ==_iff, map, All, take, drop, length, length-take, length-drop,
  take-append-drop, as_u64, IsU64, wrapping_pred, arith,
}
use iron_peer_417project_pri.Paths.{FilePath}
use iron_peer_417project_pri.Structs.TorrentInfo.{TorrentFile, TorrentInfo, total_length}
use iron_peer_417project_pri.Protodef.MetaInfo.{
  FileDict, InfoDict, MetaInfo, hash_chunks, torrent_file, place_files, single_file, files_of,
  compute_info_hash, torrent_of, to_torrent_info,
}

-- A file of the torrent begins at byte `o`, in the piece and at the offset it says, and its last
-- byte lies in the piece and at the offset it says.
pub record IsPlaced (piece_length o : ℕ) (f : TorrentFile) : Type 0 where
  pub first : piece_length * f.start_piece + f.piece_offset_start ≡ o
  pub first_inside : f.piece_offset_start < piece_length
  pub last : piece_length * f.end_piece + f.piece_offset_end + 1 ≡ o + f.length
  pub last_inside : f.piece_offset_end < piece_length

-- One behind the other, from byte `o` on.
abbrev pub ArePlaced : ℕ → ℕ → List TorrentFile → Type 0
ArePlaced piece_length o [] = Unit {0}
ArePlaced piece_length o (f ∷ fs) =
    IsPlaced piece_length o f × ArePlaced piece_length (o + f.length) fs

abbrev pub sum : List ℕ → ℕ
sum [] = 0
sum (n ∷ ns) = n + sum ns

abbrev pub concat : List (List ℕ) → List ℕ
concat [] = []
concat (bytes ∷ more) = bytes ++ concat more

abbrev pub file_length : TorrentFile → ℕ
file_length f = f.length

abbrev pub dict_length : FileDict → ℕ
dict_length f = f.length

-- The lengths of the files that a torrent file names.
abbrev pub listed : Option (List FileDict) → Option ℕ → List ℕ
listed (some file_dicts) len = map dict_length file_dicts
listed none (some len) = len ∷ []
listed none none = []

abbrev pub lengths : InfoDict → List ℕ
lengths info = listed info.files info.length

-- What the client knows of a torrent is what the torrent file says.
pub record Describes (info : InfoDict) (bencoded_digest : List ℕ) (t : TorrentInfo) : Type 0 where
  pub digest : t.info_hash ≡ bencoded_digest
  pub pieces : t.piece_length ≡ info.piece_length
  pub file_lengths : map file_length t.files ≡ lengths info
  pub placed : ArePlaced info.piece_length 0 t.files
  pub size : t.total_size ≡ sum (lengths info)
  pub hashes : concat t.piece_hashes ≡ info.pieces
  pub of_20_bytes : All (λ h. length h ≡ 20) t.piece_hashes
  pub as_many : t.num_pieces ≡ length t.piece_hashes

positive-IsPlaced :
    (path_of : String → FilePath) (name : String) (piece_length o : ℕ) (f : FileDict)
    → 0 < piece_length
    → 0 < f.length
    → IsU64 (o + f.length)
    → IsPlaced piece_length o (torrent_file path_of name piece_length o f)
unfolding torrent_file
positive-IsPlaced path_of name piece_length o f pos long small =
    let end : wrapping_pred (as_u64 (o + f.length)) + 1 ≡ o + f.length = omega arith in
    record {
      first = div_any o piece_length;
      first_inside = mod-lt o pos;
      last = ap (λ n. n + 1) (div_any (wrapping_pred (as_u64 (o + f.length))) piece_length) ∙ end;
      last_inside = mod-lt (wrapping_pred (as_u64 (o + f.length))) pos;
    }

sum-total_length : (fs : List TorrentFile) → total_length fs ≡ sum (map file_length fs)
unfolding total_length
sum-total_length [] = refl
sum-total_length (f ∷ fs) = ap (λ n. f.length + n) (sum-total_length fs)

-- Files that were placed, with their lengths.
abbrev Places : ℕ → ℕ → List ℕ → Option (List TorrentFile) → Type 0
Places piece_length o ns answer =
    (fs : List TorrentFile) × (answer ≡ some fs)
    × (map file_length fs ≡ ns)
    × ArePlaced piece_length o fs

pub not_zero : (n : ℕ) → 0 < n → (n == 0) ≡ false
not_zero n pos = ground arith

place_files-Places :
    (path_of : String → FilePath) (name : String) (piece_length o : ℕ) (fs : List FileDict)
    → 0 < piece_length
    → All (λ n. 0 < n) (map dict_length fs)
    → IsU64 (o + sum (map dict_length fs))
    → Places piece_length o (map dict_length fs) (place_files path_of name piece_length o fs)
unfolding place_files torrent_file
place_files-Places path_of name piece_length o [] pos long small = ([], refl, refl, tt)
place_files-Places path_of name piece_length o (f ∷ fs) pos (long, longs) small =
    let next : as_u64 (o + f.length) ≡ o + f.length = omega arith in
    let (files, e, l, p) =
      place_files-Places path_of name piece_length (o + f.length) fs pos longs (omega arith) in
    let rest : place_files path_of name piece_length (as_u64 (o + f.length)) fs ≡ some files =
      ap (λ k. place_files path_of name piece_length k fs) next ∙ e in
    (
      torrent_file path_of name piece_length o f ∷ files,
      rw (not_zero piece_length pos, rest) refl,
      ap (λ ns. f.length ∷ ns) l,
      (positive-IsPlaced path_of name piece_length o f pos long (omega arith), p),
    )

single_file-Places :
    (path_of : String → FilePath) (info : InfoDict) (len : ℕ)
    → 0 < info.piece_length
    → 0 < len
    → IsU64 len
    → Places info.piece_length 0 (len ∷ []) (single_file path_of info len)
unfolding single_file
single_file-Places path_of info len pos long small =
    let end : wrapping_pred len + 1 ≡ 0 + len = omega arith in
    let only : TorrentFile = record {
      path = path_of info.name;
      length = len;
      start_piece = 0;
      end_piece = wrapping_pred len / info.piece_length;
      piece_offset_start = 0;
      piece_offset_end = wrapping_pred len % info.piece_length;
      md5sum = info.md5sum;
    } in
    (
      only ∷ [],
      rw (not_zero info.piece_length pos) refl,
      refl,
      (
        record {
          first = omega arith;
          first_inside = pos;
          last = ap (λ n. n + 1) (div_any (wrapping_pred len) info.piece_length) ∙ end;
          last_inside = mod-lt (wrapping_pred len) pos;
        },
        tt,
      ),
    )

files_of-Places :
    (path_of : String → FilePath) (info : InfoDict)
    → 0 < info.piece_length
    → All (λ n. 0 < n) (lengths info)
    → IsU64 (sum (lengths info))
    → Places info.piece_length 0 (lengths info) (files_of path_of info)
unfolding files_of
files_of-Places path_of info pos longs small = cases info.files info.length longs small
  where
    cases :
        (fs : Option (List FileDict)) (len : Option ℕ)
        → All (λ n. 0 < n) (listed fs len)
        → IsU64 (sum (listed fs len))
        → Places info.piece_length 0 (listed fs len) (elim fs [
          | some file_dicts ↦ place_files path_of info.name info.piece_length 0 file_dicts
          | none ↦ elim len [ some n ↦ single_file path_of info n | none ↦ some [] ]
        ])
    cases (some fs) len l s =
        place_files-Places path_of info.name info.piece_length 0 fs pos l (omega arith)
    cases none (some n) l s = single_file-Places path_of info n pos l.0 (omega arith)
    cases none none l s = ([], refl, refl, tt)

-- The digests of the pieces, of which nothing is lost.
abbrev pub Splits : List ℕ → Option (List (List ℕ)) → Type 0
Splits bytes answer =
    (hs : List (List ℕ)) × (answer ≡ some hs)
    × (concat hs ≡ bytes)
    × All (λ h. length h ≡ 20) hs
    × (20 * length hs ≡ length bytes)

pub hash_chunks-Splits :
    (fuel k : ℕ) (bytes : List ℕ)
    → length bytes ≤ fuel
    → length bytes ≡ 20 * k
    → Splits bytes (hash_chunks fuel bytes)
unfolding hash_chunks
hash_chunks-Splits zero k [] le whole = ([], refl, refl, tt, refl)
hash_chunks-Splits zero k (b ∷ bs) le whole = absurd (omega arith)
hash_chunks-Splits (suc fuel) k [] le whole = ([], refl, refl, tt, refl)
hash_chunks-Splits (suc fuel) zero (b ∷ bs) le whole = absurd (omega arith)
hash_chunks-Splits (suc fuel) (suc k) (b ∷ bs) le whole =
    let full : length (take 20 (b ∷ bs)) ≡ 20 = omega (arith, length-take 20 (b ∷ bs)) in
    let (hs, e, c, l, n) =
      hash_chunks-Splits fuel k (drop 20 (b ∷ bs)) (omega (arith, length-drop 20 (b ∷ bs)))
        (omega (arith, length-drop 20 (b ∷ bs))) in
    (
      take 20 (b ∷ bs) ∷ hs,
      rw ((==_iff (length (take 20 (b ∷ bs))) 20).1 full, e) refl,
      ap (λ rest. take 20 (b ∷ bs) ++ rest) c ∙ take-append-drop 20 (b ∷ bs),
      (full, l),
      omega (arith, n, length-drop 20 (b ∷ bs)),
    )

-- A torrent file with pieces of at least a byte, whole digests, and files of at least a byte, whose
-- lengths add up to a u64, becomes a `TorrentInfo` without a panic. Its files are those of the
-- torrent file, one behind the other, and each says in which pieces and where in them its first and
-- its last byte lie; the total size is the sum of their lengths; the digests, of 20 bytes each, are
-- those of the torrent file, nothing lost, as many as there are pieces.
pub to_torrent_info-Describes :
    (to_bytes : InfoDict → Option (List ℕ)) (sha1 : List ℕ → List ℕ) (path_of : String → FilePath)
    (mi : MetaInfo) (bencoded : List ℕ) (k : ℕ)
    → to_bytes mi.info ≡ some bencoded
    → 0 < mi.info.piece_length
    → length mi.info.pieces ≡ 20 * k
    → All (λ n. 0 < n) (lengths mi.info)
    → IsU64 (sum (lengths mi.info))
    → (t : TorrentInfo) × (to_torrent_info to_bytes sha1 path_of mi ≡ some t)
      × Describes mi.info (sha1 bencoded) t
unfolding to_torrent_info compute_info_hash
to_torrent_info-Describes to_bytes sha1 path_of mi bencoded k encodes pos whole long small =
    let (files, e, l, p) = files_of-Places path_of mi.info pos long small in
    let (hs, c, all, each, n) =
      hash_chunks-Splits (length mi.info.pieces) k mi.info.pieces (omega arith) whole in
    let total = sum-total_length files ∙ ap sum l in
    (
      torrent_of mi (sha1 bencoded) files hs,
      rw (encodes, e, c) refl,
      record {
        digest = refl;
        pieces = refl;
        file_lengths = l;
        placed = p;
        size = omega (arith, total);
        hashes = all;
        of_20_bytes = each;
        as_many = omega (arith, n);
      },
    )
