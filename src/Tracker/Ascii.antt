-- ===== src/Tracker/Ascii.antt =====
-- Texts as the bytes that they are made of, for what src/tracker/ sends and reads.
use Prim.Native.Char.{Char}
use Prim.Native.String.{String, [], ◌∷◌}

abbrev pub fold {ℓ} : {A : Type ℓ} → (Char → A → A) → A → String → A
fold f z [] = z
fold f z (c ∷ cs) = f c (fold f z cs)
