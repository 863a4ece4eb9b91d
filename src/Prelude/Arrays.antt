-- ===== src/Prelude/Arrays.antt =====
-- C arrays as lists with native indices, and little-endian words inside byte arrays.
use Prim.Native.Nat.{ℕ, zero, suc, ◌+◌, ◌-◌, ◌*◌, ◌/◌, ◌%◌, ◌^◌, ◌≤◌, ◌<◌, min}
use mathlib.Core.Path.{◌≡◌, refl, ap, ◌∙◌}
use mathlib.Core.Logic.{◌≢◌, ◌⊎◌, inl}
use mathlib.Core.List.{List, [], ◌∷◌, ◌++◌}
use mathlib.Core.Option.{Option, none, some}
use native.Mathlib.Omega.{arith}
use native.Mathlib.Nat.{pow-suc}

module _ {ℓ} {A : Type ℓ} where
  abbrev pub length : List A → ℕ
  length [] = 0
  length (_ ∷ xs) = suc (length xs)

  abbrev pub get_elem? : List A → ℕ → Option A
  get_elem? [] _ = none
  get_elem? (x ∷ _) zero = some x
  get_elem? (_ ∷ xs) (suc i) = get_elem? xs i

  abbrev pub get_or : List A → ℕ → A → A
  get_or [] _ d = d
  get_or (x ∷ _) zero _ = x
  get_or (_ ∷ xs) (suc i) d = get_or xs i d

  -- A write out of bounds changes nothing.
  abbrev pub set : List A → ℕ → A → List A
  set [] _ _ = []
  set (_ ∷ xs) zero v = v ∷ xs
  set (x ∷ xs) (suc i) v = x ∷ set xs i v

  abbrev pub take : ℕ → List A → List A
  take zero _ = []
  take (suc n) [] = []
  take (suc n) (x ∷ xs) = x ∷ take n xs

  abbrev pub drop : ℕ → List A → List A
  drop zero xs = xs
  drop (suc n) [] = []
  drop (suc n) (x ∷ xs) = drop n xs

  abbrev pub replicate : ℕ → A → List A
  replicate zero a = []
  replicate (suc n) a = a ∷ replicate n a

  pub length-set : (xs : List A) (i : ℕ) (v : A) → length (set xs i v) ≡ length xs
  length-set [] i v = refl
  length-set (x ∷ xs) zero v = refl
  length-set (x ∷ xs) (suc i) v = ap suc (length-set xs i v)

  pub get_or-set_self :
      (xs : List A) (i : ℕ) (v d : A) → i < length xs → get_or (set xs i v) i d ≡ v
  get_or-set_self [] i v d h = absurd (omega arith)
  get_or-set_self (x ∷ xs) zero v d h = refl
  get_or-set_self (x ∷ xs) (suc i) v d h = get_or-set_self xs i v d (omega arith)

  pub get_or-set_ne :
      (xs : List A) (i j : ℕ) (v d : A) → i ≢ j → get_or (set xs i v) j d ≡ get_or xs j d
  get_or-set_ne [] i j v d h = refl
  get_or-set_ne (x ∷ xs) zero zero v d h = absurd (h refl)
  get_or-set_ne (x ∷ xs) zero (suc j) v d h = refl
  get_or-set_ne (x ∷ xs) (suc i) zero v d h = refl
  get_or-set_ne (x ∷ xs) (suc i) (suc j) v d h = get_or-set_ne xs i j v d (λ e. h (ap suc e))

  pub get_elem?-eq-get_or :
      (xs : List A) (i : ℕ) (d : A) → i < length xs → get_elem? xs i ≡ some (get_or xs i d)
  get_elem?-eq-get_or [] i d h = absurd (omega arith)
  get_elem?-eq-get_or (x ∷ xs) zero d h = refl
  get_elem?-eq-get_or (x ∷ xs) (suc i) d h = get_elem?-eq-get_or xs i d (omega arith)

  pub length-append : (xs ys : List A) → length (xs ++ ys) ≡ length xs + length ys
  length-append [] ys = omega arith
  length-append (x ∷ xs) ys = omega (arith, length-append xs ys)

  pub length-take : (n : ℕ) (xs : List A) → length (take n xs) ≡ min n (length xs)
  length-take zero xs = omega arith
  length-take (suc n) [] = omega arith
  length-take (suc n) (x ∷ xs) = omega (arith, length-take n xs)

  pub length-drop : (n : ℕ) (xs : List A) → length (drop n xs) ≡ length xs - n
  length-drop zero xs = omega arith
  length-drop (suc n) [] = omega arith
  length-drop (suc n) (x ∷ xs) = omega (arith, length-drop n xs)

  pub length-replicate : (n : ℕ) (a : A) → length (replicate n a) ≡ n
  length-replicate zero a = refl
  length-replicate (suc n) a = ap suc (length-replicate n a)

  pub take-append : (xs ys : List A) → take (length xs) (xs ++ ys) ≡ xs
  take-append [] ys = refl
  take-append (x ∷ xs) ys = ap (λ l. x ∷ l) (take-append xs ys)

  pub drop-append : (xs ys : List A) → drop (length xs) (xs ++ ys) ≡ ys
  drop-append [] ys = refl
  drop-append (x ∷ xs) ys = drop-append xs ys

  pub take-all : (n : ℕ) (xs : List A) → length xs ≤ n → take n xs ≡ xs
  take-all zero [] h = refl
  take-all zero (x ∷ xs) h = absurd (omega arith)
  take-all (suc n) [] h = refl
  take-all (suc n) (x ∷ xs) h = ap (λ l. x ∷ l) (take-all n xs (omega arith))

  pub take-append_le : (n : ℕ) (xs ys : List A) → n ≤ length xs → take n (xs ++ ys) ≡ take n xs
  take-append_le zero xs ys h = refl
  take-append_le (suc n) [] ys h = absurd (omega arith)
  take-append_le (suc n) (x ∷ xs) ys h = ap (λ l. x ∷ l) (take-append_le n xs ys (omega arith))

-- The `k`-byte little-endian word at index `i`, and the array with such a word stored.
abbrev pub peek : List ℕ → ℕ → ℕ → ℕ
peek xs i zero = 0
peek xs i (suc k) = get_or xs i 0 + 256 * peek xs (suc i) k

abbrev pub poke : List ℕ → ℕ → ℕ → ℕ → List ℕ
poke xs i zero v = xs
poke xs i (suc k) v = poke (set xs i (v % 256)) (suc i) k (v / 256)

pub length-poke : (k : ℕ) (xs : List ℕ) (i v : ℕ) → length (poke xs i k v) ≡ length xs
length-poke zero xs i v = refl
length-poke (suc k) xs i v =
    length-poke k (set xs i (v % 256)) (suc i) (v / 256) ∙ length-set xs i (v % 256)

pub get_or-poke_outside :
    (k : ℕ) (xs : List ℕ) (i v j : ℕ)
    → (j < i) ⊎ (i + k ≤ j)
    → get_or (poke xs i k v) j 0 ≡ get_or xs j 0
get_or-poke_outside zero xs i v j h = refl
get_or-poke_outside (suc k) xs i v j h =
    get_or-poke_outside k (set xs i (v % 256)) (suc i) (v / 256) j (omega arith)
    ∙ get_or-set_ne xs i j (v % 256) 0 (omega arith)

pub peek-congr :
    (k : ℕ) (xs ys : List ℕ) (i : ℕ)
    → ((j : ℕ) → i ≤ j → j < i + k → get_or xs j 0 ≡ get_or ys j 0)
    → peek xs i k ≡ peek ys i k
peek-congr zero xs ys i h = refl
peek-congr (suc k) xs ys i h = omega (
  arith,
  h i (omega arith) (omega arith),
  peek-congr k xs ys (suc i) (λ j p q. h j (omega arith) (omega arith)),
)

-- A word that a store does not meet is kept.
pub peek-poke_disjoint :
    (n k : ℕ) (xs : List ℕ) (i j v : ℕ)
    → (j + n ≤ i) ⊎ (i + k ≤ j)
    → peek (poke xs i k v) j n ≡ peek xs j n
peek-poke_disjoint n k xs i j v h =
    peek-congr n (poke xs i k v) xs j (λ l p q. get_or-poke_outside k xs i v l (omega arith))

-- A word that fits comes back.
pub peek-poke_self :
    (k : ℕ) (xs : List ℕ) (i v : ℕ) → i + k ≤ length xs → v < 256 ^ k → peek (poke xs i k v) i k ≡ v
peek-poke_self zero xs i v h lt = omega arith
peek-poke_self (suc k) xs i v h lt =
    let ys : List ℕ = set xs i (v % 256) in
    omega (
      arith,
      get_or-poke_outside k ys (suc i) (v / 256) i (inl (omega arith)),
      get_or-set_self xs i (v % 256) 0 (omega arith),
      peek-poke_self k ys (suc i) (v / 256) (omega (arith, length-set xs i (v % 256)))
          (omega (arith, pow-suc 256 k)),
    )

-- Every entry is a byte.
abbrev pub AllBytes : List ℕ → Type 0
AllBytes xs = (j : ℕ) → get_or xs j 0 < 256

pub AllBytes-poke : (k : ℕ) (xs : List ℕ) (i v : ℕ) → AllBytes xs → AllBytes (poke xs i k v)
AllBytes-poke zero xs i v h = h
AllBytes-poke (suc k) xs i v h =
    AllBytes-poke k (set xs i (v % 256)) (suc i) (v / 256) (stored xs i h)
  where
    stored : (ys : List ℕ) (l : ℕ) → AllBytes ys → AllBytes (set ys l (v % 256))
    stored [] l p j = omega arith
    stored (y ∷ ys) zero p zero = omega arith
    stored (y ∷ ys) zero p (suc j) = p (suc j)
    stored (y ∷ ys) (suc l) p zero = p zero
    stored (y ∷ ys) (suc l) p (suc j) = stored ys l (λ m. p (suc m)) j

pub peek-lt : (k : ℕ) (xs : List ℕ) (i : ℕ) → AllBytes xs → peek xs i k < 256 ^ k
peek-lt zero xs i h = omega arith
peek-lt (suc k) xs i h = omega (arith, h i, peek-lt k xs (suc i) h, pow-suc 256 k)
