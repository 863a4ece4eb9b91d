-- ===== src/Ending.antt =====
-- How a piece of blueman-main/btfuzz.c ends: with a value, in a loop or a wait that has no end, in
-- an access outside an array or through a null pointer, or in an `exit` for an error.
use blueman_artifact.Prelude.{Option, none, some}

pub data Ending (A : Type 0) : Type 0 where
  done : A → Ending A
  stuck : Ending A
  fault : Ending A
  exited : Ending A

infixl 5 ◌>>=◌
abbrev pub ◌>>=◌ : {A B : Type 0} → Ending A → (A → Ending B) → Ending B
done a >>= k = k a
stuck >>= k = stuck
fault >>= k = fault
exited >>= k = exited

abbrev pub or_fault : {A : Type 0} → Option A → Ending A
or_fault none = fault
or_fault (some a) = done a

abbrev pub or_exit : {A : Type 0} → Option A → Ending A
or_exit none = exited
or_exit (some a) = done a
