-- ===== src/Prelude/Bytes.antt =====
-- Little-endian words as lists of bytes, as `fwrite` and `memcpy` of an integer see them.
use Prim.Native.Nat.{ℕ, zero, suc, ◌+◌, ◌*◌, ◌/◌, ◌%◌, ◌^◌, ◌≤◌, ◌<◌}
use mathlib.Core.Path.{◌≡◌, refl, ap}
use mathlib.Core.List.{List, [], ◌∷◌, ◌++◌}
use mathlib.Core.Option.{Option, none, some}
use native.Mathlib.Omega.{arith}
use native.Mathlib.Nat.{pow-suc}
use blueman_artifact.Prelude.Tests.{leb, le→leb, if◌then◌else◌}
use blueman_artifact.Prelude.Arrays.{length, take, drop, take-append, drop-append, length-append}

-- The low `k` bytes of `v`.
unfoldable pub le_bytes : ℕ → ℕ → List ℕ
le_bytes zero v = []
le_bytes (suc k) v = v % 256 ∷ le_bytes k (v / 256)

unfoldable pub of_le : List ℕ → ℕ
of_le [] = 0
of_le (b ∷ bs) = b + 256 * of_le bs

pub length-le_bytes : (k v : ℕ) → length (le_bytes k v) ≡ k
unfolding le_bytes
length-le_bytes zero v = refl
length-le_bytes (suc k) v = ap suc (length-le_bytes k (v / 256))

pub of_le-le_bytes : (k v : ℕ) → v < 256 ^ k → of_le (le_bytes k v) ≡ v
unfolding le_bytes of_le
of_le-le_bytes zero v h = omega arith
of_le-le_bytes (suc k) v h =
    omega (arith, of_le-le_bytes k (v / 256) (omega (arith, pow-suc 256 k)))

module _ {ℓ} {A : Type ℓ} where
  -- The first `n` entries and the rest, if there are that many.
  unfoldable pub chunk : ℕ → List A → Option (List A × List A)
  chunk n xs = if leb n (length xs) then some (take n xs, drop n xs) else none

  pub chunk-append : (n : ℕ) (xs ys : List A) → length xs ≡ n → chunk n (xs ++ ys) ≡ some (xs, ys)
  unfolding chunk
  chunk-append n xs ys e = rw (
    ← e,
    le→leb (length xs) (length (xs ++ ys)) (omega (arith, length-append xs ys)),
    take-append xs ys,
    drop-append xs ys,
  )

  pub chunk-ok : (n : ℕ) (xs : List A) → n ≤ length xs → chunk n xs ≡ some (take n xs, drop n xs)
  unfolding chunk
  chunk-ok n xs h = rw (le→leb n (length xs) h)
