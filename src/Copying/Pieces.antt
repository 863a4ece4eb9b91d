-- ===== src/Copying/Pieces.antt =====
-- What `my_copy_file_range` leaves in the output when the system writes in pieces.
use blueman_artifact.Prelude.{
  ℕ, ◌+◌, ◌-◌, ◌≤◌, ◌≡◌, refl, ap, ◌∙◌, arith, ltb, Bool, true, false, List, [], ◌∷◌, ◌++◌, Option,
  some, map, take, length,
}
use mathlib.Core.List.{append_assoc, append-nil}
use blueman_artifact.Ending.{done}
use blueman_artifact.Copying.{write_loop, my_copy_file_range}

abbrev pub sum : List ℕ → ℕ
sum [] = 0
sum (n ∷ ns) = n + sum ns

-- The first bytes of the file, once for each piece.
abbrev pub prefixes : List ℕ → List ℕ → List ℕ
prefixes [] mem = []
prefixes (n ∷ ns) mem = take n mem ++ prefixes ns mem

write_loop-prefixes :
    (ns : List ℕ) (mem out : List ℕ) (len last : ℕ) (rest : List (Option ℕ))
    → 1 ≤ last
    → sum ns + last ≡ len
    → write_loop (map some ns ++ (some last ∷ rest)) mem len out
      ≡ done (out ++ prefixes (ns ++ (last ∷ [])) mem)
unfolding write_loop
write_loop-prefixes [] mem out len last rest some_left e =
    let whole : ltb last len ≡ false = ground arith in rw (whole, append-nil (take last mem)) refl
write_loop-prefixes (n ∷ ns) mem out len last rest some_left e =
    let part : ltb n len ≡ true = ground arith in
    rw part (
      write_loop-prefixes ns mem (out ++ take n mem) (len - n) last rest some_left (omega arith)
      ∙ ap done (append_assoc out (take n mem) (prefixes (ns ++ (last ∷ [])) mem)))

-- When the file is mapped and the system takes its bytes in pieces, the last one of them not empty:
-- `my_copy_file_range` returns, with 0 if `munmap` succeeds, and the output has the first bytes of
-- the file once for each piece, as many as the piece has. With one piece that is the file.
pub my_copy_file_range-prefixes :
    (mem : List ℕ) (ns : List ℕ) (last : ℕ) (rest : List (Option ℕ)) (unmapped : Bool)
    → 1 ≤ last
    → sum ns + last ≡ length mem
    → my_copy_file_range
        (record { mapped = true; writes = map some ns ++ (some last ∷ rest); unmapped = unmapped })
        mem
        (length mem)
      ≡ done (unmapped, prefixes (ns ++ (last ∷ [])) mem)
unfolding my_copy_file_range
my_copy_file_range-prefixes mem ns last rest unmapped some_left e =
    rw (write_loop-prefixes ns mem [] (length mem) last rest some_left e) refl
