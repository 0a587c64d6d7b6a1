-- ===== src/Client/Started.antt =====
-- The client from its start on.
use Prim.Native.String.{String}
use iron_peer_417project_pri.Base.{
  ℕ, zero, suc, ◌+◌, ◌≡◌, refl, sym, ap, ◌∙◌, subst, inl, inr, List, [], ◌∷◌, Option, none, some,
  some-injective, Option-cases, if_cases, ltb, ◌==◌, get_elem?, length, All, set, arith,
}
use iron_peer_417project_pri.Paths.{FilePath}
use iron_peer_417project_pri.Structs.Peer.{Peer}
use iron_peer_417project_pri.Structs.TorrentInfo.{TorrentInfo}
use iron_peer_417project_pri.Storage.Disk.{Disk}
use iron_peer_417project_pri.Storage.Files.{panics, FileManager, new_file_manager, verify_piece}
use iron_peer_417project_pri.Download.Blocks.{PieceState}
use iron_peer_417project_pri.Download.Pieces.{PieceManager, new, complete}
use iron_peer_417project_pri.Download.Pieces.Invariant.{IsValid}
use iron_peer_417project_pri.Download.Existing.{
  is_ok_true, found_piece, verify_from, verify_existing_pieces,
}
use iron_peer_417project_pri.Download.Existing.Found.{verify_existing_pieces_or}
use iron_peer_417project_pri.Download.Received.Invariant.{IsCounted}
use iron_peer_417project_pri.Download.Swarm.{DownloadManager, new_download_manager}
use iron_peer_417project_pri.Client.{
  Client, Start, panicked, no_peers, running, start_with, new_client, start_client,
}
use iron_peer_417project_pri.Client.Rounds.{IsWell, Runs, Runs-IsWell}

-- A manager, where there is one, that has the pieces under way that another has.
abbrev Keeps : List PieceState → Option (PieceManager × ℕ) → Type 0
Keeps ss none = Unit {0}
Keeps ss (some (pm, n)) = pm.downloading_pieces ≡ ss

module _ (sha1 : List ℕ → List ℕ) (m : FileManager) (piece_hashes : List (List ℕ)) (d : Disk) where
  verify_from-Keeps :
      (n i : ℕ) (pm : PieceManager) (count : ℕ)
      → Keeps pm.downloading_pieces (verify_from sha1 m piece_hashes d n i pm count)
  unfolding verify_from found_piece
  verify_from-Keeps zero i pm count = refl
  verify_from-Keeps (suc n) i pm count = elim (Option-cases (get_elem? piece_hashes i)) [
    | inl e ↦ rw (e, verify_from) (verify_from-Keeps n (suc i) pm count)
    | inr r ↦
        rw (r.1, verify_from)
          (if_cases (Keeps pm.downloading_pieces) (panics (verify_piece sha1 m i r.0 d)) _ _
            (λ stop. tt)
            (λ calm.
              if_cases (Keeps pm.downloading_pieces) (is_ok_true (verify_piece sha1 m i r.0 d)) _ _
                (λ t.
                  if_cases
                    (λ (o : Option PieceManager). Keeps pm.downloading_pieces (elim o [
                      | none ↦ none
                      | some pm' ↦ verify_from sha1 m piece_hashes d n (suc i) pm' (count + 1)
                    ]))
                    (ltb i (length pm.piece_status)) _ _
                    (λ u.
                      verify_from-Keeps n (suc i)
                        (record pm {
                          piece_status = set pm.piece_status i complete;
                          pieces_complete = pm.pieces_complete + 1;
                        })
                        (count + 1))
                    (λ u. tt))
                (λ f. verify_from-Keeps n (suc i) pm count)))
  ]

new-downloading : (n l t : ℕ) (pm : PieceManager) → new n l t ≡ some pm → pm.downloading_pieces ≡ []
unfolding new
new-downloading n l t pm =
    if_cases (λ o. o ≡ some pm → pm.downloading_pieces ≡ []) (l == 0) _ _ (λ e q. cc)
      (λ e q. ap (λ (p : PieceManager). p.downloading_pieces) (sym (some-injective _ _ q)))

module _ (tracker_urls : List String) where
  new_client-IsWell :
      (all_peers : List Peer) (dm : DownloadManager) (d : Disk)
      → IsValid dm.piece_manager
      → dm.piece_manager.downloading_pieces ≡ []
      → dm.peers ≡ []
      → dm.unchoked_peers ≡ 0
      → IsWell tracker_urls (new_client all_peers dm d)
  unfolding new_client
  new_client-IsWell all_peers dm d valid idle alone uncounted = record {
    sorted = record {
      healthy = record {
        sound = record { valid = valid; counts = subst (λ ss. All IsCounted ss) (sym idle) tt };
        bounded = rw alone tt;
        few = omega arith;
        unchoked = rw alone (omega arith);
      };
      distinct = rw alone tt;
    };
    inside = omega arith;
    in_order = refl;
    told = refl;
  }

  start_with-IsWell :
      (all_peers : List Peer) (dm : DownloadManager) (d : Disk) (c : Client)
      → IsWell tracker_urls (new_client all_peers dm d)
      → start_with all_peers dm d ≡ running c
      → IsWell tracker_urls c
  start_with-IsWell [] dm d c h e = absurd cc
  start_with-IsWell (p ∷ ps) dm d c h e = subst (IsWell tracker_urls) (running-injective _ _ e) h
    where
      client_of : Client → Start → Client
      client_of fallback panicked = fallback
      client_of fallback no_peers = fallback
      client_of fallback (running x) = x

      running-injective : (a b : Client) → running a ≡ running b → a ≡ b
      running-injective a b k = ap (client_of a) k

  module _ (sha1 : List ℕ → List ℕ) (output_dir : FilePath) (t : TorrentInfo) (peer_id : List ℕ)
      (d : Disk) where
    start_client-IsWell :
        (all_peers : List Peer) (c : Client)
        → start_client sha1 output_dir t peer_id d all_peers ≡ running c
        → IsWell tracker_urls c
    unfolding start_client new_download_manager verify_existing_pieces
    start_client-IsWell all_peers c e =
        elim (Option-cases (new t.num_pieces t.piece_length t.total_size)) [
          | inl n ↦ let bad = rw (n, start_client) at e in absurd cc
          | inr (pm, q) ↦
              elim (verify_existing_pieces_or sha1 (new_file_manager output_dir t) t.piece_hashes d
                t.num_pieces t.piece_length t.total_size pm q) [
                  | inl stop ↦ let bad = rw (q, start_client, stop.1) at e in absurd cc
                  | inr (pm', v, valid, which) ↦
                      let kept = subst (Keeps pm.downloading_pieces) v (
                        verify_from-Keeps sha1 (new_file_manager output_dir t) t.piece_hashes d
                          pm.total_pieces 0 pm 0) in
                      let dm : DownloadManager = record {
                        peers = [];
                        piece_manager = pm';
                        peer_id = peer_id;
                        info_hash = t.info_hash;
                        piece_hashes = t.piece_hashes;
                        unchoked_peers = 0;
                      } in
                      start_with-IsWell all_peers dm d c
                        (new_client-IsWell all_peers dm d valid
                          (kept ∙ new-downloading t.num_pieces t.piece_length t.total_size pm q)
                          refl refl)
                        (rw (q, start_client, v) at e)
                ]
        ]

    -- Whatever the torrent, what is on the disk, the peers that the trackers named and the
    -- connections that arrive, every state that the loop of the client reaches without a panic is in
    -- order: the download manager keeps its invariant, no two of its peers share an address, a
    -- connection was attempted to each of the first `peer_index` peers, in order and once for each,
    -- and the completion was announced to the HTTP trackers once, or not at all.
    pub Runs-start_client :
        (all_peers : List Peer) (c c' : Client)
        → start_client sha1 output_dir t peer_id d all_peers ≡ running c
        → Runs tracker_urls sha1 (new_file_manager output_dir t) c c'
        → IsWell tracker_urls c'
    Runs-start_client all_peers c c' e r =
        Runs-IsWell tracker_urls sha1 (new_file_manager output_dir t) r
          (start_client-IsWell all_peers c e)
