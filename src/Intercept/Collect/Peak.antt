-- ===== src/Intercept/Collect/Peak.antt =====
-- The first greatest number of a list, without a loop.
use blueman_artifact.Prelude.{ℕ, ◌≤◌, ◌<◌, ◌≡◌, refl, ap, ◌∙◌, arith, List, [], ◌∷◌, ◌++◌, length}
use mathlib.Core.List.{append_assoc}

abbrev pub AllLe : ℕ → List ℕ → Type 0
AllLe m [] = Unit
AllLe m (d ∷ ds) = (d ≤ m) × AllLe m ds

abbrev pub AllLt : ℕ → List ℕ → Type 0
AllLt m [] = Unit
AllLt m (d ∷ ds) = (d < m) × AllLt m ds

-- `m` stands at `i`, is greater than all before it, and at least as great as all after it; or all
-- numbers are 0.
pub data IsPeak (ds : List ℕ) (m i : ℕ) : Type 0 where
  all_zero : AllLe 0 ds → m ≡ 0 → i ≡ 0 → IsPeak ds m i
  peak :
      (before after : List ℕ)
      → ds ≡ before ++ (m ∷ after)
      → length before ≡ i
      → AllLt m before
      → AllLe m after
      → IsPeak ds m i

AllLe-snoc : (m d : ℕ) (ds : List ℕ) → AllLe m ds → d ≤ m → AllLe m (ds ++ (d ∷ []))
AllLe-snoc m d [] h le = (le, tt)
AllLe-snoc m d (e ∷ ds) (x, h) le = (x, AllLe-snoc m d ds h le)

AllLt-le : (m d : ℕ) (ds : List ℕ) → AllLe m ds → m < d → AllLt d ds
AllLt-le m d [] h lt = tt
AllLt-le m d (e ∷ ds) (x, h) lt = (omega arith, AllLt-le m d ds h lt)

AllLt-peak :
    (m d : ℕ) (before after : List ℕ)
    → AllLt m before
    → AllLe m after
    → m < d
    → AllLt d (before ++ (m ∷ after))
AllLt-peak m d [] after b a lt = (lt, AllLt-le m d after a lt)
AllLt-peak m d (e ∷ before) after (x, b) a lt = (omega arith, AllLt-peak m d before after b a lt)

pub IsPeak-snoc_gt :
    (ds : List ℕ) (m i d : ℕ) → IsPeak ds m i → m < d → IsPeak (ds ++ (d ∷ [])) d (length ds)
IsPeak-snoc_gt ds m i d (all_zero h e f) lt =
    peak ds [] refl refl (AllLt-le 0 d ds h (omega arith)) tt
IsPeak-snoc_gt ds m i d (peak before after e f b a) lt =
    peak ds [] refl refl (rw e (AllLt-peak m d before after b a lt)) tt

pub IsPeak-snoc_le : (ds : List ℕ) (m i d : ℕ) → IsPeak ds m i → d ≤ m → IsPeak (ds ++ (d ∷ [])) m i
IsPeak-snoc_le ds m i d (all_zero h e f) le = all_zero (AllLe-snoc 0 d ds h (omega arith)) e f
IsPeak-snoc_le ds m i d (peak before after e f b a) le =
    peak before (after ++ (d ∷ []))
      (ap (λ l. l ++ (d ∷ [])) e ∙ append_assoc before (m ∷ after) (d ∷ [])) f b
      (AllLe-snoc m d after a le)
