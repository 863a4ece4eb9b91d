-- ===== src/Coverage/NewBits.antt =====
-- `has_new_bits`: what it answers, and what it leaves in the virgin map.
use blueman_artifact.Prelude.{
  ℕ, ◌+◌, ◌*◌, ◌^◌, ◌≤◌, ◌<◌, ◌≡◌, ◌↔◌, ◌⊎◌, refl, sym, ap, ◌∙◌, arith, Bool-cases, Bool, true,
  false, inl, inr, ◌==◌, ltb, not, ◌&&◌, ◌||◌, if◌then◌else◌, List, [], ◌∷◌, length, bit_and,
}
use blueman_artifact.Coverage.{
  byte, hit_unseen, new_tuple, new_bits_word, new_bits_from, has_new_bits, get_total_coverage,
}
use blueman_artifact.Coverage.Count.{AllWords, sum_map, non_255, get_coverage-sum}
use blueman_artifact.Coverage.Round.{
  fresh, fresh_bytes, fresh_map, left_word, busy, word-busy, word-idle, left_word-sum,
  left_word-clear, skipped-fresh, no_common,
}

bit : Bool → ℕ
bit b = if b then 1 else 0

any_iff :
    (b₀ b₁ b₂ b₃ b₄ b₅ b₆ b₇ : Bool)
    → ((b₀ || b₁ || b₂ || b₃ || b₄ || b₅ || b₆ || b₇) ≡ true)
      ↔ (0 < bit b₀ + bit b₁ + bit b₂ + bit b₃ + bit b₄ + bit b₅ + bit b₆ + bit b₇)
unfolding bit
any_iff true b₁ b₂ b₃ b₄ b₅ b₆ b₇ = (λ e. omega arith, λ h. refl)
any_iff false true b₂ b₃ b₄ b₅ b₆ b₇ = (λ e. omega arith, λ h. refl)
any_iff false false true b₃ b₄ b₅ b₆ b₇ = (λ e. omega arith, λ h. refl)
any_iff false false false true b₄ b₅ b₆ b₇ = (λ e. omega arith, λ h. refl)
any_iff false false false false true b₅ b₆ b₇ = (λ e. omega arith, λ h. refl)
any_iff false false false false false true b₆ b₇ = (λ e. omega arith, λ h. refl)
any_iff false false false false false false true b₇ = (λ e. omega arith, λ h. refl)
any_iff false false false false false false false true = (λ e. omega arith, λ h. refl)
any_iff false false false false false false false false =
    (λ e. absurd (cc), λ h. absurd (omega arith))

fresh-bit : (c v k : ℕ) → fresh (byte k c) (byte k v) ≡ bit (hit_unseen c v k)
unfolding bit
fresh-bit c v k = ground arith

new_tuple_iff : (c v : ℕ) → (new_tuple c v ≡ true) ↔ (0 < fresh_bytes c v)
unfolding new_tuple
new_tuple_iff c v =
    rw
      (
        fresh-bit c v 0,
        fresh-bit c v 1,
        fresh-bit c v 2,
        fresh-bit c v 3,
        fresh-bit c v 4,
        fresh-bit c v 5,
        fresh-bit c v 6,
        fresh-bit c v 7,
      )
      (any_iff (hit_unseen c v 0) (hit_unseen c v 1) (hit_unseen c v 2) (hit_unseen c v 3)
        (hit_unseen c v 4) (hit_unseen c v 5) (hit_unseen c v 6) (hit_unseen c v 7))

-- `ret` after a round.
abbrev next_ret : ℕ → ℕ → ℕ → ℕ
next_ret c v ret = (new_bits_word c v ret).0

next_ret-two_iff :
    (c v ret : ℕ)
    → ret ≤ 2
    → (next_ret c v ret ≤ 2) × ((next_ret c v ret ≡ 2) ↔ ((ret ≡ 2) ⊎ (0 < fresh_bytes c v)))
next_ret-two_iff c v ret le = elim (Bool-cases (not (c == 0) && not (bit_and c v == 0))) [
  | inl e ↦
      rw (word-busy c v ret e, next_ret)
        (generic (new_tuple c v) (fresh_bytes c v) (new_tuple_iff c v))
  | inr e ↦
      rw (word-idle c v ret e, next_ret)
        (idle (fresh_bytes c v) (skipped-fresh c v (no_common c v e)))
]
  where
    generic :
        (b : Bool) (n : ℕ)
        → (b ≡ true) ↔ (0 < n)
        → ((if ltb ret 2 then (if b then 2 else 1) else ret) ≤ 2)
          × (((if ltb ret 2 then (if b then 2 else 1) else ret) ≡ 2) ↔ ((ret ≡ 2) ⊎ (0 < n)))
    generic b n iff = ground arith

    idle : (n : ℕ) → n ≡ 0 → (ret ≤ 2) × ((ret ≡ 2) ↔ ((ret ≡ 2) ⊎ (0 < n)))
    idle n z = ground arith

new_bits_from-sum :
    (cs vs : List ℕ) (ret : ℕ)
    → AllWords cs
    → length cs ≡ length vs
    → (length (new_bits_from cs vs ret).1 ≡ length vs)
      × (sum_map non_255 (new_bits_from cs vs ret).1 ≡ sum_map non_255 vs + fresh_map cs vs)
unfolding new_bits_from
new_bits_from-sum [] [] ret w e = (refl, omega arith)
new_bits_from-sum [] (v ∷ vs) ret w e = absurd (omega arith)
new_bits_from-sum (c ∷ cs) [] ret w e = absurd (omega arith)
new_bits_from-sum (c ∷ cs) (v ∷ vs) ret (w, ws) e =
    let rest = new_bits_from-sum cs vs (next_ret c v ret) ws (omega arith) in
    (omega arith, regroup _ _ _ _ _ _ (left_word-sum c v ret w) rest.1)
  where
    regroup : (a b x y p q : ℕ) → a ≡ x + p → b ≡ y + q → a + b ≡ x + y + (p + q)
    regroup a b x y p q e₁ e₂ = omega arith

new_bits_from-two_iff :
    (cs vs : List ℕ) (ret : ℕ)
    → ret ≤ 2
    → length cs ≡ length vs
    → ((new_bits_from cs vs ret).0 ≤ 2)
      × (((new_bits_from cs vs ret).0 ≡ 2) ↔ ((ret ≡ 2) ⊎ (0 < fresh_map cs vs)))
unfolding new_bits_from
new_bits_from-two_iff [] [] ret le e = (le, ground arith)
new_bits_from-two_iff [] (v ∷ vs) ret le e = absurd (omega arith)
new_bits_from-two_iff (c ∷ cs) [] ret le e = absurd (omega arith)
new_bits_from-two_iff (c ∷ cs) (v ∷ vs) ret le e =
    let first = next_ret-two_iff c v ret le in
    let rest = new_bits_from-two_iff cs vs (next_ret c v ret) first.0 (omega arith) in
    (rest.0, joined _ _ _ _ first.1 rest.1)
  where
    joined :
        (mid last p q : ℕ)
        → (mid ≡ 2) ↔ ((ret ≡ 2) ⊎ (0 < p))
        → (last ≡ 2) ↔ ((mid ≡ 2) ⊎ (0 < q))
        → (last ≡ 2) ↔ ((ret ≡ 2) ⊎ (0 < p + q))
    joined mid last p q i j = ground arith

-- A second pass over the same run finds nothing.
new_bits_from-again :
    (cs vs : List ℕ) (ret : ℕ)
    → AllWords cs
    → length cs ≡ length vs
    → new_bits_from cs (new_bits_from cs vs ret).1 0 ≡ (0, (new_bits_from cs vs ret).1)
unfolding new_bits_from
new_bits_from-again [] vs ret w e = refl
new_bits_from-again (c ∷ cs) [] ret w e = absurd (omega arith)
new_bits_from-again (c ∷ cs) (v ∷ vs) ret (w, ws) e =
    let v' = left_word c v ret in
    let idle : busy c v' ≡ false = ground (arith, left_word-clear c v ret w) in
    rw (word-idle c v' 0 idle, new_bits_from-again cs vs (next_ret c v ret) ws (omega arith))

module _ (trace virgin : List ℕ) (w : AllWords trace) (e : length trace ≡ length virgin) where
  -- For maps of one length, of fewer than 2 ^ 32 bytes, the run's of 64-bit words: `has_new_bits`
  -- returns at most 2, `get_total_coverage` grows by the number of bytes that the run has hit and
  -- that were 255, and the result is 2 exactly if it grows at all.
  pub get_total_coverage-has_new_bits :
      8 * length virgin < 2 ^ 32
      → let (ret, virgin') = has_new_bits trace virgin in
        (ret ≤ 2)
        × (get_total_coverage virgin' ≡ get_total_coverage virgin + fresh_map trace virgin)
        × ((ret ≡ 2) ↔ (get_total_coverage virgin < get_total_coverage virgin'))
  unfolding has_new_bits
  get_total_coverage-has_new_bits small =
      let sums = new_bits_from-sum trace virgin 0 w e in
      let two = new_bits_from-two_iff trace virgin 0 (omega arith) e in
      let before = get_coverage-sum virgin small in
      let after = get_coverage-sum (new_bits_from trace virgin 0).1 (omega (arith, sums)) in
      let grown : get_total_coverage (new_bits_from trace virgin 0).1
          ≡ get_total_coverage virgin + fresh_map trace virgin =
        after.1 ∙ sums.1 ∙ ap (λ t. t + fresh_map trace virgin) (sym before.1) in
      (two.0, grown, finish _ _ _ _ two.1 grown)
    where
      finish :
          (ret n a b : ℕ)
          → (ret ≡ 2) ↔ ((◌≡◌ {A = ℕ} 0 2) ⊎ (0 < n))
          → b ≡ a + n
          → (ret ≡ 2) ↔ (a < b)
      finish ret n a b i g = ground arith

  -- For maps of one length, the run's of 64-bit words: right after `has_new_bits`, the same run has
  -- no new bits. A second call returns 0 and leaves the virgin map as it is.
  pub has_new_bits-has_new_bits :
      has_new_bits trace (has_new_bits trace virgin).1 ≡ (0, (has_new_bits trace virgin).1)
  unfolding has_new_bits
  has_new_bits-has_new_bits = new_bits_from-again trace virgin 0 w e

  -- The map keeps its length.
  pub length-has_new_bits : length (has_new_bits trace virgin).1 ≡ length virgin
  unfolding has_new_bits
  length-has_new_bits = (new_bits_from-sum trace virgin 0 w e).0
