-- ===== src/Download/Tests.antt =====
-- Runs of the piece manager, and its theorems at concrete inputs.
use iron_peer_417project_pri.Base.{
  ℕ, ◌+◌, ◌/◌, ◌<◌, ◌≡◌, ◌↔◌, ◌⊎◌, refl, List, [], ◌∷◌, none, some, Bool, true, false, get_elem?,
  get_or, length, replicate, All, IsByte, arith,
}
use iron_peer_417project_pri.Download.Blocks.{new_piece_state}
use iron_peer_417project_pri.Download.Blocks.Cover.{
  Covers, new_piece_state-Covers, new_piece_state-blocks,
}
use iron_peer_417project_pri.Download.Pieces.{
  missing, downloading, complete, PieceManager, new, is_complete, without, mark_complete,
  candidates, insert_by, sort_by_key, get_next_needed_piece, start_downloading, reset_piece,
  set_bit, fill_bits, get_bitfield,
}
use iron_peer_417project_pri.Download.Pieces.Invariant.{
  IsValid, new-IsValid, mark_complete-IsValid, start_downloading-IsValid, reset_piece-IsValid,
  is_complete_iff,
}
use iron_peer_417project_pri.Download.Pieces.Rarest.{Wanted, Before, get_next_needed_piece_lem}
use iron_peer_417project_pri.Download.Pieces.Bitfield.{bit_at, is_complete_at, get_bitfield_lem}
use iron_peer_417project_pri.Download.Peers.{read_bits}
use iron_peer_417project_pri.Download.Peers.Bits.{read_bits-get_bitfield}

-- Three pieces of 40000 bytes, the last of 20000.
abbrev fresh : PieceManager
fresh = record {
  piece_status = missing ∷ missing ∷ missing ∷ [];
  pieces_complete = 0;
  total_pieces = 3;
  downloading_pieces = [];
  piece_length = 40000;
  last_piece_length = 20000;
}

-- After the first piece was completed, and with the last under way.
abbrev partly : PieceManager
partly = record fresh {
  piece_status = complete ∷ missing ∷ downloading ∷ [];
  pieces_complete = 1;
  downloading_pieces = new_piece_state 2 20000 ∷ [];
}

new-fresh : new 3 40000 100000 ≡ some fresh
unfolding new
new-fresh = refl

fresh-IsValid : IsValid fresh
fresh-IsValid = new-IsValid 3 40000 100000 new-fresh

first_done :
    mark_complete fresh 0
    ≡ some (record fresh { piece_status = complete ∷ missing ∷ missing ∷ []; pieces_complete = 1 })
unfolding mark_complete without
first_done = refl

last_started :
    start_downloading
      (record fresh { piece_status = complete ∷ missing ∷ missing ∷ []; pieces_complete = 1 })
      2
    ≡ some partly
unfolding start_downloading
last_started = refl

partly_sent : get_bitfield partly ≡ some (128 ∷ [])
unfolding get_bitfield fill_bits set_bit
partly_sent = refl

new-IsValid_example : IsValid fresh
new-IsValid_example = new-IsValid 3 40000 100000 new-fresh

abbrev one_done : PieceManager
one_done = record fresh { piece_status = complete ∷ missing ∷ missing ∷ []; pieces_complete = 1 }

one_done-IsValid : IsValid one_done
one_done-IsValid = mark_complete-IsValid fresh 0 fresh-IsValid first_done

partly-IsValid : IsValid partly
partly-IsValid = start_downloading-IsValid one_done 2 one_done-IsValid last_started

mark_complete-IsValid_example : IsValid one_done
mark_complete-IsValid_example = mark_complete-IsValid fresh 0 fresh-IsValid first_done

start_downloading-IsValid_example : IsValid partly
start_downloading-IsValid_example =
    start_downloading-IsValid one_done 2 one_done-IsValid last_started

reset_piece-IsValid_example :
    IsValid
      (record partly { piece_status = complete ∷ missing ∷ missing ∷ []; downloading_pieces = [] })
unfolding reset_piece without new_piece_state
reset_piece-IsValid_example = reset_piece-IsValid partly 2 partly-IsValid (λ e. cc) refl

is_complete_iff_example :
    (is_complete fresh ≡ true) ↔ ((i : ℕ) → i < 3 → get_elem? fresh.piece_status i ≡ some complete)
is_complete_iff_example = is_complete_iff fresh fresh-IsValid

-- The last piece is the rarest of those that the peer has.
abbrev offered : List Bool
offered = true ∷ true ∷ true ∷ []

rarest_run : get_next_needed_piece fresh offered (2 ∷ 2 ∷ 1 ∷ []) ≡ some 2
unfolding get_next_needed_piece sort_by_key insert_by candidates
rarest_run = refl

get_next_needed_piece_lem_example :
    ((get_next_needed_piece fresh offered (2 ∷ 2 ∷ 1 ∷ []) ≡ none)
      × ((j : ℕ) → ¬ Wanted fresh.piece_status offered j))
    ⊎ ((i : ℕ) × (get_next_needed_piece fresh offered (2 ∷ 2 ∷ 1 ∷ []) ≡ some i)
        × Wanted fresh.piece_status offered i
        × ((j : ℕ)
            → Wanted fresh.piece_status offered j
            → Before (λ k. get_or (2 ∷ 2 ∷ 1 ∷ []) k 0) i j))
get_next_needed_piece_lem_example = get_next_needed_piece_lem fresh offered (2 ∷ 2 ∷ 1 ∷ [])

get_bitfield_lem_example :
    (bits : List ℕ) × (get_bitfield partly ≡ some bits)
    × (length bits ≡ (3 + 7) / 8)
    × All IsByte bits
    × ((j : ℕ) → bit_at bits j ≡ is_complete_at partly.piece_status j)
get_bitfield_lem_example = get_bitfield_lem partly refl

read_bits-get_bitfield_example :
    read_bits 0 (128 ∷ []) (replicate 3 false) ≡ true ∷ false ∷ false ∷ []
read_bits-get_bitfield_example = read_bits-get_bitfield partly (128 ∷ []) refl partly_sent

new_piece_state-Covers_example : Covers 2 0 (new_piece_state 2 20000).blocks 20000
new_piece_state-Covers_example = new_piece_state-Covers 2 20000 (omega arith) (omega arith)

three_blocks : length (new_piece_state 1 40000).blocks ≡ 3
three_blocks = new_piece_state-blocks 1 40000 (omega arith)
