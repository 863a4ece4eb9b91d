-- ===== src/Copying/Tests.antt =====
-- A file of four bytes, written in two pieces: its first byte comes twice.
use blueman_artifact.Prelude.{◌≡◌, arith, true, [], ◌∷◌, some}
use blueman_artifact.Ending.{done}
use blueman_artifact.Copying.{my_copy_file_range}
use blueman_artifact.Copying.Pieces.{my_copy_file_range-prefixes}

my_copy_file_range_example :
    my_copy_file_range
      (record { mapped = true; writes = some 3 ∷ some 1 ∷ []; unmapped = true })
      (1 ∷ 2 ∷ 3 ∷ 4 ∷ [])
      4
    ≡ done (true, 1 ∷ 2 ∷ 3 ∷ 1 ∷ [])
my_copy_file_range_example =
    my_copy_file_range-prefixes (1 ∷ 2 ∷ 3 ∷ 4 ∷ []) (3 ∷ []) 1 [] true (omega arith) (omega arith)
