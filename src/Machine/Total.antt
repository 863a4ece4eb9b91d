-- ===== src/Machine/Total.antt =====
-- Total correctness of a run: it does not fault, and its result and final state have a property.
use blueman_artifact.Machine.{Machine, Run, ok, Cmd, and_then}

pub data Returns {A : Type 0} (P : A → Machine → Type 0) : Run A → Type 0 where
  returns : {a : A} {t : Machine} → P a t → Returns P (ok a t)

module _ {A : Type 0} {P : A → Machine → Type 0} where
  pub Returns-and_then :
      {B : Type 0} {Q : B → Machine → Type 0} {r : Run A} {k : A → Cmd B}
      → Returns P r
      → ((a : A) (t : Machine) → P a t → Returns Q (k a t))
      → Returns Q (and_then r k)
  Returns-and_then (returns p) next = next _ _ p

  pub Returns-mono :
      {Q : A → Machine → Type 0} {r : Run A}
      → Returns P r
      → ((a : A) (t : Machine) → P a t → Q a t)
      → Returns Q r
  Returns-mono (returns p) weaken = returns (weaken _ _ p)
