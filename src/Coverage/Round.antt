-- ===== src/Coverage/Round.antt =====
-- One round of `has_new_bits`: the word that it leaves, by its bytes.
use blueman_artifact.Prelude.{
  ℕ, zero, suc, ◌+◌, ◌-◌, ◌*◌, ◌/◌, ◌%◌, ◌^◌, ◌<◌, ◌≡◌, ◌↔◌, ap, ◌∙◌, arith, ==_iff, Bool-cases,
  Bool, true, false, inl, inr, ◌==◌, ltb, not, ◌&&◌, if◌then◌else◌, List, [], ◌∷◌, bit_and,
}
use blueman_artifact.Bits.{
  bit_and-div, bit_and-mod, bit_and_mask, bit_and-le_right, bit_and-clear, zero-bit_and,
}
use blueman_artifact.Coverage.{byte, new_tuple, new_bits_word}
use blueman_artifact.Coverage.Count.{sum_bytes, non_255}

byte-bit_and : (k a b : ℕ) → byte k (bit_and a b) ≡ bit_and (byte k a) (byte k b)
byte-bit_and k a b =
    ap (λ t. t % 256) (bit_and-div (k * 8) a b) ∙ bit_and-mod 8 (a / 2 ^ (k * 8)) (b / 2 ^ (k * 8))

byte-not : (k c : ℕ) → k < 8 → c < 2 ^ 64 → byte k (2 ^ 64 - 1 - c) ≡ 255 - byte k c
byte-not zero c h w = omega arith
byte-not (suc zero) c h w = omega arith
byte-not (suc (suc zero)) c h w = omega arith
byte-not (suc (suc (suc zero))) c h w = omega arith
byte-not (suc (suc (suc (suc zero)))) c h w = omega arith
byte-not (suc (suc (suc (suc (suc zero))))) c h w = omega arith
byte-not (suc (suc (suc (suc (suc (suc zero)))))) c h w = omega arith
byte-not (suc (suc (suc (suc (suc (suc (suc zero))))))) c h w = omega arith
byte-not (suc (suc (suc (suc (suc (suc (suc (suc k)))))))) c h w = absurd (omega arith)

-- A byte stays 255 under `& ~ y` exactly if it was 255 and `y` has no bit.
kept_iff : (x y : ℕ) → x < 256 → y < 256 → (bit_and x (255 - y) ≡ 255) ↔ ((x ≡ 255) × (y ≡ 0))
kept_iff x y hx hy = (
  λ e.
      let none_left : y ≡ 0 = omega (arith, bit_and-le_right 8 x (255 - y)) in
      (whole none_left e, none_left),
  λ (ex, ey). rw (ex, ey),
)
  where
    whole : y ≡ 0 → bit_and x (255 - y) ≡ 255 → x ≡ 255
    whole none_left e =
        let full : 255 - y ≡ 255 = omega arith in
        let same : bit_and x (255 - y) ≡ x % 256 = rw full (bit_and_mask 8 x) in omega arith

-- One for an unseen byte that the run has hit.
abbrev pub fresh : ℕ → ℕ → ℕ
fresh c v = if c == 0 then 0 else if v == 255 then 1 else 0

abbrev pub fresh_bytes : ℕ → ℕ → ℕ
fresh_bytes c v =
    fresh (byte 0 c) (byte 0 v)
    + fresh (byte 1 c) (byte 1 v)
    + fresh (byte 2 c) (byte 2 v)
    + fresh (byte 3 c) (byte 3 v)
    + fresh (byte 4 c) (byte 4 v)
    + fresh (byte 5 c) (byte 5 v)
    + fresh (byte 6 c) (byte 6 v)
    + fresh (byte 7 c) (byte 7 v)

abbrev pub fresh_map : List ℕ → List ℕ → ℕ
fresh_map [] vs = 0
fresh_map (c ∷ cs) [] = 0
fresh_map (c ∷ cs) (v ∷ vs) = fresh_bytes c v + fresh_map cs vs

-- In one byte of the word that the round leaves: cleared.
byte-cleared :
    (k c v : ℕ)
    → k < 8
    → c < 2 ^ 64
    → non_255 (byte k (bit_and v (2 ^ 64 - 1 - c)))
      ≡ non_255 (byte k v) + fresh (byte k c) (byte k v)
byte-cleared k c v h w = ground (
  arith,
  byte-bit_and k v (2 ^ 64 - 1 - c),
  byte-not k c h w,
  kept_iff (byte k v) (byte k c) (omega arith) (omega arith),
)

-- In one byte of a word that the round leaves alone.
byte-skipped : (k c v : ℕ) → bit_and c v ≡ 0 → fresh (byte k c) (byte k v) ≡ 0
byte-skipped k c v e =
    let empty : byte k (bit_and c v) ≡ 0 = rw e (omega arith) in
    ground (arith, empty, byte-bit_and k c v, bit_and_mask 8 (byte k c))

pub skipped-fresh : (c v : ℕ) → bit_and c v ≡ 0 → fresh_bytes c v ≡ 0
skipped-fresh c v e = omega (
  arith,
  byte-skipped 0 c v e,
  byte-skipped 1 c v e,
  byte-skipped 2 c v e,
  byte-skipped 3 c v e,
  byte-skipped 4 c v e,
  byte-skipped 5 c v e,
  byte-skipped 6 c v e,
  byte-skipped 7 c v e,
)

-- The word that a round leaves.
abbrev pub left_word : ℕ → ℕ → ℕ → ℕ
left_word c v ret = (new_bits_word c v ret).1

pub no_common : (c v : ℕ) → (not (c == 0) && not (bit_and c v == 0)) ≡ false → bit_and c v ≡ 0
no_common c v e = elim (Bool-cases (c == 0)) [
  | inl z ↦ let zero_word : c ≡ 0 = (==_iff c 0).0 z in rw zero_word (zero-bit_and v)
  | inr z ↦ ground arith
]

-- A round by its test.
abbrev pub busy : ℕ → ℕ → Bool
busy c v = not (c == 0) && not (bit_and c v == 0)

pub word-busy :
    (c v ret : ℕ)
    → busy c v ≡ true
    → new_bits_word c v ret
      ≡ ((if ltb ret 2 then (if new_tuple c v then 2 else 1) else ret), bit_and v (2 ^ 64 - 1 - c))
unfolding new_bits_word
word-busy c v ret e =
    ap
      (λ b.
        if b
        then (
          (if ltb ret 2 then (if new_tuple c v then 2 else 1) else ret),
          bit_and v (2 ^ 64 - 1 - c),
        )
        else (ret, v))
      e

pub word-idle : (c v ret : ℕ) → busy c v ≡ false → new_bits_word c v ret ≡ (ret, v)
unfolding new_bits_word
word-idle c v ret e =
    ap
      (λ b.
        if b
        then (
          (if ltb ret 2 then (if new_tuple c v then 2 else 1) else ret),
          bit_and v (2 ^ 64 - 1 - c),
        )
        else (ret, v))
      e

-- Each round adds the unseen bytes that it finds hit to the bytes that are not 255.
pub left_word-sum :
    (c v ret : ℕ)
    → c < 2 ^ 64
    → sum_bytes non_255 (left_word c v ret) ≡ sum_bytes non_255 v + fresh_bytes c v
left_word-sum c v ret w = elim (Bool-cases (not (c == 0) && not (bit_and c v == 0))) [
  | inl e ↦
      rw (word-busy c v ret e, left_word)
        (omega (
          arith,
          byte-cleared 0 c v (omega arith) w,
          byte-cleared 1 c v (omega arith) w,
          byte-cleared 2 c v (omega arith) w,
          byte-cleared 3 c v (omega arith) w,
          byte-cleared 4 c v (omega arith) w,
          byte-cleared 5 c v (omega arith) w,
          byte-cleared 6 c v (omega arith) w,
          byte-cleared 7 c v (omega arith) w,
        ))
  | inr e ↦ rw (word-idle c v ret e, left_word) (omega (arith, skipped-fresh c v (no_common c v e)))
]

-- After a round no bit of the run is left in the word.
pub left_word-clear : (c v ret : ℕ) → c < 2 ^ 64 → bit_and c (left_word c v ret) ≡ 0
left_word-clear c v ret w = elim (Bool-cases (not (c == 0) && not (bit_and c v == 0))) [
  | inl e ↦ rw (word-busy c v ret e, left_word) (bit_and-clear 64 c v w)
  | inr e ↦ rw (word-idle c v ret e, left_word) (no_common c v e)
]
