-- ===== src/Bits.antt =====
-- Laws of `&` and `|` on unsigned words of every width, from the recursion on binary digits.
-- A word of width `k` is a number below `2 ^ k`, and `~ a` on it is `2 ^ k - 1 - a`.
pub mod Step
use Step.{bit_and_step, bit_or_step}
use blueman_artifact.Prelude.{
  ℕ, zero, suc, ◌+◌, ◌-◌, ◌*◌, ◌/◌, ◌%◌, ◌^◌, ◌≤◌, ◌<◌, ◌≡◌, refl, ap, ◌∙◌, arith, bit_and, bit_or,
}
use Prim.Native.Nat.{bit_and-bitwise}
use native.Mathlib.Nat.{pow-suc, one-le-pow}

bit_and-zero_below : (n a : ℕ) → a ≤ n → bit_and a 0 ≡ 0
bit_and-zero_below n zero h = refl
bit_and-zero_below zero (suc a) h = absurd (omega arith)
bit_and-zero_below (suc n) (suc a) h =
    omega (arith, bit_and_step (suc a) 0, bit_and-zero_below n (suc a / 2) (omega arith))

pub bit_and-zero : (a : ℕ) → bit_and a 0 ≡ 0
bit_and-zero a = bit_and-zero_below a a (omega arith)

pub zero-bit_and : (a : ℕ) → bit_and 0 a ≡ 0
zero-bit_and a = omega (arith, bit_and-bitwise 0 a)

pub bit_and-one : (a : ℕ) → bit_and a 1 ≡ a % 2
bit_and-one a = omega (arith, bit_and_step a 1, bit_and-zero (a / 2))

pub bit_and_three : (a : ℕ) → bit_and a 3 ≡ a % 4
bit_and_three a = omega (arith, bit_and_step a 3, bit_and-one (a / 2))

pub bit_and_seven : (a : ℕ) → bit_and a 7 ≡ a % 8
bit_and_seven a = omega (arith, bit_and_step a 7, bit_and_three (a / 2))

pub bit_and-le_right : (k a b : ℕ) → b < 2 ^ k → bit_and a b ≤ b
bit_and-le_right zero a b h = let nil : b ≡ 0 = omega arith in rw (nil, bit_and-zero) (omega arith)
bit_and-le_right (suc k) a b h =
    omega (arith, bit_and_step a b, bit_and-le_right k (a / 2) (b / 2) (omega (arith, pow-suc 2 k)))

double : (q k : ℕ) → q * 2 ^ suc k ≡ 2 * (q * 2 ^ k)
double q k = omega (arith, ap (λ (t : ℕ). q * t) (pow-suc 2 k))

-- `&` goes by fields: the high part and the low part of the operands are joined apart.
pub bit_and_fields :
    (k a b c d : ℕ)
    → b < 2 ^ k
    → d < 2 ^ k
    → bit_and (a * 2 ^ k + b) (c * 2 ^ k + d) ≡ bit_and a c * 2 ^ k + bit_and b d
bit_and_fields zero a b c d hb hd = ground (arith, zero-bit_and d)
bit_and_fields (suc k) a b c d hb hd = ground (
  arith,
  double a k,
  double c k,
  double (bit_and a c) k,
  pow-suc 2 k,
  bit_and_step (a * 2 ^ suc k + b) (c * 2 ^ suc k + d),
  bit_and_step b d,
  bit_and_fields k a (b / 2) c (d / 2),
)

-- What a word has cleared by `& ~ c` has no bit in common with `c`.
pub bit_and-clear : (k c v : ℕ) → c < 2 ^ k → bit_and c (bit_and v (2 ^ k - 1 - c)) ≡ 0
bit_and-clear zero c v h = let nil : c ≡ 0 = omega arith in rw nil (zero-bit_and (bit_and v 0))
bit_and-clear (suc k) c v h = ground (
  arith,
  pow-suc 2 k,
  one-le-pow k 2,
  bit_and_step c (bit_and v (2 ^ suc k - 1 - c)),
  bit_and_step v (2 ^ suc k - 1 - c),
  bit_and-clear k (c / 2) (v / 2) (omega (arith, pow-suc 2 k)),
)

-- A word below the mask of `k` ones is kept by it.
bit_and_ones : (k a : ℕ) → a < 2 ^ k → bit_and a (2 ^ k - 1) ≡ a
bit_and_ones zero a h = let e : a ≡ 0 = omega arith in rw (e, bit_and-zero)
bit_and_ones (suc k) a h =
    ground
      (arith, pow-suc 2 k, one-le-pow k 2, bit_and_step a (2 ^ suc k - 1), bit_and_ones k (a / 2))

-- A mask of `k` ones is the remainder by `2 ^ k`.
pub bit_and_mask : (k a : ℕ) → bit_and a (2 ^ k - 1) ≡ a % 2 ^ k
bit_and_mask k a = ground (
  arith,
  one-le-pow k 2,
  bit_and_fields k (a / 2 ^ k) (a % 2 ^ k) 0 (2 ^ k - 1),
  bit_and-zero (a / 2 ^ k),
  bit_and_ones k (a % 2 ^ k),
)

field_div : (q p r : ℕ) → r < p → (q * p + r) / p ≡ q
field_div q p r h = grind arith

field_mod : (q p r : ℕ) → r < p → (q * p + r) % p ≡ r
field_mod q p r h = grind arith

-- The operands taken apart at bit `j`.
split_and :
    (j a b : ℕ)
    → bit_and a b ≡ bit_and (a / 2 ^ j) (b / 2 ^ j) * 2 ^ j + bit_and (a % 2 ^ j) (b % 2 ^ j)
split_and j a b =
    ground (arith, one-le-pow j 2, bit_and_fields j (a / 2 ^ j) (a % 2 ^ j) (b / 2 ^ j) (b % 2 ^ j))

low_fits : (j a b : ℕ) → bit_and (a % 2 ^ j) (b % 2 ^ j) < 2 ^ j
low_fits j a b =
    let fits : b % 2 ^ j < 2 ^ j = omega (arith, one-le-pow j 2) in
    omega (arith, bit_and-le_right j (a % 2 ^ j) (b % 2 ^ j) fits)

-- The bits from `j` on, and the `j` lowest bits, of a conjunction.
pub bit_and-div : (j a b : ℕ) → bit_and a b / 2 ^ j ≡ bit_and (a / 2 ^ j) (b / 2 ^ j)
bit_and-div j a b =
    ap (λ t. t / 2 ^ j) (split_and j a b)
    ∙ field_div (bit_and (a / 2 ^ j) (b / 2 ^ j)) (2 ^ j) _ (low_fits j a b)

pub bit_and-mod : (j a b : ℕ) → bit_and a b % 2 ^ j ≡ bit_and (a % 2 ^ j) (b % 2 ^ j)
bit_and-mod j a b =
    ap (λ t. t % 2 ^ j) (split_and j a b)
    ∙ field_mod (bit_and (a / 2 ^ j) (b / 2 ^ j)) (2 ^ j) _ (low_fits j a b)
