-- ===== src/Coverage/Count.antt =====
-- The counting loops of coverage.c skip whole words and test masks; here they are counts of bytes.
use blueman_artifact.Prelude.{
  ℕ, zero, suc, ◌+◌, ◌*◌, ◌/◌, ◌%◌, ◌^◌, ◌≤◌, ◌<◌, ◌≡◌, ap, ◌∙◌, arith, ==_iff, Bool-cases, inl,
  inr, ◌==◌, if◌then◌else◌, List, [], ◌∷◌, length, u32, bit_and,
}
use native.Mathlib.Nat.{one-le-pow, add_assoc, zero-add}
use blueman_artifact.Bits.{bit_and_fields, bit_and_mask, bit_and-zero}
use blueman_artifact.Coverage.{
  ff, byte, nonzero_in, count_word, count_bytes_from, non_255_in, count_non_255_word, halves,
  count_non_255_from, corpus_get_coverage, get_total_coverage,
}

-- A map whose words are `uint64_t`, with a number of bytes that an `int32_t` counts.
abbrev pub AllWords : List ℕ → Type 0
AllWords [] = Unit
AllWords (w ∷ ws) = (w < 2 ^ 64) × AllWords ws

split_word : (j v : ℕ) → v ≡ v / 2 ^ j * 2 ^ j + v % 2 ^ j
split_word j v = omega arith

masked : (k v : ℕ) → bit_and v (ff k) ≡ byte k v * 2 ^ (k * 8)
masked k v = ground (
  arith,
  one-le-pow (k * 8) 2,
  split_word (k * 8) v,
  bit_and_fields (k * 8) (v / 2 ^ (k * 8)) (v % 2 ^ (k * 8)) 255 0,
  bit_and-zero (v % 2 ^ (k * 8)),
  bit_and_mask 8 (v / 2 ^ (k * 8)),
)

-- 1 for a byte that has the property, and 0 otherwise.
abbrev pub nonzero : ℕ → ℕ
nonzero b = if b == 0 then 0 else 1

abbrev pub non_255 : ℕ → ℕ
non_255 b = if b == 255 then 0 else 1

strict : (x y p : ℕ) → x < y → 0 < p → x * p < y * p
strict x y p h q = grind arith

scaled : (x y p : ℕ) → 0 < p → (x * p == y * p) ≡ (x == y)
scaled x y p h = ground (arith, strict x y p, strict y x p)

nonzero_in-byte : (k v : ℕ) → nonzero_in v k ≡ nonzero (byte k v)
nonzero_in-byte k v = grind (arith, masked k v, one-le-pow (k * 8) 2)

non_255_in-byte : (k v : ℕ) → non_255_in v k ≡ non_255 (byte k v)
non_255_in-byte k v =
    rw (masked k v, scaled (byte k v) 255 (2 ^ (k * 8)) (one-le-pow (k * 8) 2 (omega arith)))

-- The sum of a measure over the eight bytes of a word, and over the words of a map.
abbrev pub sum_bytes : (ℕ → ℕ) → ℕ → ℕ
sum_bytes f w =
    f (byte 0 w)
    + f (byte 1 w)
    + f (byte 2 w)
    + f (byte 3 w)
    + f (byte 4 w)
    + f (byte 5 w)
    + f (byte 6 w)
    + f (byte 7 w)

abbrev pub sum_map : (ℕ → ℕ) → List ℕ → ℕ
sum_map f [] = 0
sum_map f (w ∷ ws) = sum_bytes f w + sum_map f ws

count_word-bytes : (w : ℕ) → count_word w ≡ sum_bytes nonzero w
unfolding count_word
count_word-bytes w = omega (
  arith,
  nonzero_in-byte 0 w,
  nonzero_in-byte 1 w,
  nonzero_in-byte 2 w,
  nonzero_in-byte 3 w,
  nonzero_in-byte 4 w,
  nonzero_in-byte 5 w,
  nonzero_in-byte 6 w,
  nonzero_in-byte 7 w,
)

-- The word of ones is skipped, and has no other byte than 255.
count_half-bytes :
    (h : ℕ)
    → count_non_255_word h
      ≡ non_255 (byte 0 h) + non_255 (byte 1 h) + non_255 (byte 2 h) + non_255 (byte 3 h)
unfolding count_non_255_word
count_half-bytes h = elim (Bool-cases (h == 0xffffffff)) [
  | inl e ↦ let ones : h ≡ 0xffffffff = (==_iff h 0xffffffff).0 e in rw (e, ones)
  | inr e ↦ rw e (
      omega
        (arith, non_255_in-byte 0 h, non_255_in-byte 1 h, non_255_in-byte 2 h, non_255_in-byte 3 h))
]

low_byte : (k w : ℕ) → k < 4 → byte k (w % 2 ^ 32) ≡ byte k w
low_byte zero w h = omega arith
low_byte (suc zero) w h = omega arith
low_byte (suc (suc zero)) w h = omega arith
low_byte (suc (suc (suc zero))) w h = omega arith
low_byte (suc (suc (suc (suc k)))) w h = absurd (omega arith)

high_byte : (k w : ℕ) → k < 4 → byte k (w / 2 ^ 32) ≡ byte (suc (suc (suc (suc k)))) w
high_byte zero w h = omega arith
high_byte (suc zero) w h = omega arith
high_byte (suc (suc zero)) w h = omega arith
high_byte (suc (suc (suc zero))) w h = omega arith
high_byte (suc (suc (suc (suc k)))) w h = absurd (omega arith)

-- The two words that a 64-bit word makes hold its bytes.
count_halves-bytes :
    (w : ℕ)
    → count_non_255_word (w % 2 ^ 32) + count_non_255_word (w / 2 ^ 32) ≡ sum_bytes non_255 w
count_halves-bytes w =
    rw
      (
        count_half-bytes (w % 2 ^ 32),
        count_half-bytes (w / 2 ^ 32),
        low_byte 0 w (omega arith),
        low_byte 1 w (omega arith),
        low_byte 2 w (omega arith),
        low_byte 3 w (omega arith),
        high_byte 0 w (omega arith),
        high_byte 1 w (omega arith),
        high_byte 2 w (omega arith),
        high_byte 3 w (omega arith),
      )
      (omega arith)

sum_bytes-le : (f : ℕ → ℕ) → ((b : ℕ) → f b ≤ 1) → (w : ℕ) → sum_bytes f w ≤ 8
sum_bytes-le f h w = omega (
  arith,
  h (byte 0 w),
  h (byte 1 w),
  h (byte 2 w),
  h (byte 3 w),
  h (byte 4 w),
  h (byte 5 w),
  h (byte 6 w),
  h (byte 7 w),
)

nonzero-le : (b : ℕ) → nonzero b ≤ 1
nonzero-le b = ground arith

non_255-le : (b : ℕ) → non_255 b ≤ 1
non_255-le b = ground arith

-- One round: a zero word is skipped, and has no byte to count.
count_bytes_step :
    (w ret : ℕ)
    → ret + 8 < 2 ^ 32
    → (if w == 0 then ret else u32 (ret + count_word w)) ≡ ret + sum_bytes nonzero w
count_bytes_step w ret h = elim (Bool-cases (w == 0)) [
  | inl e ↦ let zero_word : w ≡ 0 = (==_iff w 0).0 e in rw zero_word (omega arith)
  | inr e ↦
      rw (e, count_word-bytes w) (no_wrap (sum_bytes nonzero w) (sum_bytes-le nonzero nonzero-le w))
]
  where
    no_wrap : (n : ℕ) → n ≤ 8 → u32 (ret + n) ≡ ret + n
    no_wrap n le = omega arith

count_non_255_step :
    (a b ret : ℕ) → a + b ≤ 8 → ret + 8 < 2 ^ 32 → u32 (u32 (ret + a) + b) ≡ ret + (a + b)
count_non_255_step a b ret le h = omega arith

count_bytes_from-sum :
    (ws : List ℕ) (ret : ℕ)
    → ret + 8 * length ws < 2 ^ 32
    → count_bytes_from ws ret ≡ ret + sum_map nonzero ws
unfolding count_bytes_from
count_bytes_from-sum [] ret h = omega arith
count_bytes_from-sum (w ∷ ws) ret h =
    let n : ℕ = sum_bytes nonzero w in
    let le : n ≤ 8 = sum_bytes-le nonzero nonzero-le w in
    rw (count_bytes_step w ret (omega arith))
      (count_bytes_from-sum ws (ret + n) (fits n le) ∙ add_assoc ret n (sum_map nonzero ws))
  where
    fits : (n : ℕ) → n ≤ 8 → ret + n + 8 * length ws < 2 ^ 32
    fits n le = omega arith

count_non_255_from-sum :
    (ws : List ℕ) (ret : ℕ)
    → ret + 8 * length ws < 2 ^ 32
    → count_non_255_from (halves ws) ret ≡ ret + sum_map non_255 ws
unfolding count_non_255_from halves
count_non_255_from-sum [] ret h = omega arith
count_non_255_from-sum (w ∷ ws) ret h =
    let n : ℕ = sum_bytes non_255 w in
    let le : n ≤ 8 = sum_bytes-le non_255 non_255-le w in
    ap (count_non_255_from (halves ws)) (
      count_non_255_step (count_non_255_word (w % 2 ^ 32)) (count_non_255_word (w / 2 ^ 32)) ret
        (rw (count_halves-bytes w) le) (omega arith)
      ∙ ap (λ t. ret + t) (count_halves-bytes w))
    ∙ count_non_255_from-sum ws (ret + n) (fits n le)
    ∙ add_assoc ret n (sum_map non_255 ws)
  where
    fits : (n : ℕ) → n ≤ 8 → ret + n + 8 * length ws < 2 ^ 32
    fits n le = omega arith

-- On a map of fewer than 2 ^ 32 bytes, `corpus_get_coverage` returns the number of its bytes that
-- are not zero, and `get_total_coverage` the number of its bytes that are not 255.
pub get_coverage-sum :
    (map_words : List ℕ)
    → 8 * length map_words < 2 ^ 32
    → (corpus_get_coverage map_words ≡ sum_map nonzero map_words)
      × (get_total_coverage map_words ≡ sum_map non_255 map_words)
unfolding corpus_get_coverage get_total_coverage
get_coverage-sum ws h = (
  count_bytes_from-sum ws 0 (omega arith) ∙ zero-add (sum_map nonzero ws),
  count_non_255_from-sum ws 0 (omega arith) ∙ zero-add (sum_map non_255 ws),
)
