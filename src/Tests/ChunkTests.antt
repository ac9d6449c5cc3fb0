-- ===== src/Tests/ChunkTests.antt =====
-- Witnesses on chunking.
use danah_v.Prelude.{ℕ, ◌≡◌, List, [], ◌∷◌}
use danah_v.Chunking.{Piece, assemble}
use danah_v.Chunking.Overlap.{unglue, assemble-unglue}

abbrev ids : List ℕ
ids = 7 ∷ 8 ∷ 9 ∷ []

abbrev units : List Piece
units = (97 ∷ [], 3) ∷ (98 ∷ [], 2) ∷ (99 ∷ [], 4) ∷ []

assemble-unglue_example : unglue 2 [] (assemble 5 2 units [] 0) ≡ units
assemble-unglue_example = assemble-unglue 5 2 units
