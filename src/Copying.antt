-- ===== src/Copying.antt =====
-- `my_copy_file_range` and `str_concat` of blueman-main/utils.c. The system's answers are arguments:
-- whether `mmap` and `munmap` succeed, and what each `write` returns.
pub mod Pieces
mod Tests
use blueman_artifact.Prelude.{
  ℕ, ◌+◌, ◌-◌, ◌*◌, ltb, if◌then◌else◌, Bool, true, false, List, [], ◌∷◌, ◌++◌, take, Option, none,
  some,
}
use blueman_artifact.Ending.{Ending, done, stuck, ◌>>=◌}

-- The answers of the system in one call; `none` among the writes is -1.
pub record Copying : Type 0 where
  pub mapped : Bool
  pub writes : List (Option ℕ)
  pub unmapped : Bool

-- The `while(1)`, up to `end`: what stands in the output. Each `write` starts at `in_mem` and is
-- given `len`. With no answer left the loop goes on writing.
unfoldable pub write_loop : List (Option ℕ) → List ℕ → ℕ → List ℕ → Ending (List ℕ)
write_loop [] in_mem len out = stuck
write_loop (none ∷ writes) in_mem len out = done out
write_loop (some n ∷ writes) in_mem len out =
    let more = write_loop writes in_mem (len - n) (out ++ take n in_mem) in
    if ltb n len then more else done (out ++ take n in_mem)

-- `true` is the result 0; the output file is empty at the start.
unfoldable pub my_copy_file_range : Copying → List ℕ → ℕ → Ending (Bool × List ℕ)
unfolding write_loop
my_copy_file_range sys in_mem len =
    if sys.mapped
    then (do out ← write_loop sys.writes in_mem len []; done (sys.unmapped, out))
    else done (false, [])

-- A string is its bytes, less the one at the end.
unfoldable pub str_concat : List ℕ → List ℕ → List ℕ
str_concat str1 str2 = str1 ++ str2
