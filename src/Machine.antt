-- ===== src/Machine.antt =====
-- What the mutators of blueman-main/mutator/ run on: one block of bytes (the packet that they are
-- handed) and the C library's `rand`. A pointer into the packet is an index into the block.
pub mod Touches
pub mod Total
use blueman_artifact.Prelude.{
  ℕ, zero, suc, ◌+◌, ◌%◌, ◌≤◌, ◌==◌, leb, if◌then◌else◌, List, length, peek, poke,
}

-- `draws i` is what the call of `rand()` after the next `i` will return: a parameter of every run.
pub record Machine : Type 0 where
  pub mem : List ℕ
  pub draws : ℕ → ℕ

-- `fault` is an access outside the block, or a remainder by zero: undefined behaviour in C.
pub data Run (A : Type 0) : Type 0 where
  ok : A → Machine → Run A
  fault : Run A

abbrev pub Cmd : Type 0 → Type 0
Cmd A = Machine → Run A

module _ {A : Type 0} where
  abbrev pub pure : A → Cmd A
  pure a s = ok a s

  abbrev pub failed : Cmd A
  failed s = fault

module _ {A B : Type 0} where
  abbrev pub and_then : Run A → (A → Cmd B) → Run B
  and_then (ok a s) k = k a s
  and_then fault k = fault

  infixl 5 ◌>>=◌ ◌>>◌
  abbrev pub ◌>>=◌ : Cmd A → (A → Cmd B) → Cmd B
  ◌>>=◌ m k s = and_then (m s) k

  abbrev pub ◌>>◌ : Cmd A → Cmd B → Cmd B
  m >> n = m >>= λ _. n

-- The state after one call of `rand()`.
abbrev pub drawn : Machine → Machine
drawn s = record s { draws = λ i. s.draws (suc i) }

-- The library's `rand()`.
unfoldable pub rand : Cmd ℕ
rand s = ok (s.draws 0) (drawn s)

-- `rand() % n`
unfoldable pub rand_mod : ℕ → Cmd ℕ
unfolding rand
rand_mod n = if n == 0 then failed else rand >>= λ r. pure (r % n)

-- The `k`-byte little-endian word at index `i`.
unfoldable pub load : ℕ → ℕ → Cmd ℕ
load k i s = if leb (i + k) (length s.mem) then ok (peek s.mem i k) s else fault

-- Its low `k` bytes are stored, so this is also the cast to the word's width.
unfoldable pub store : ℕ → ℕ → ℕ → Cmd (Unit {0})
store k i v s =
    if leb (i + k) (length s.mem) then ok tt (record s { mem = poke s.mem i k v }) else fault

-- `for(int i = 0 ; i < n ; i++)` around a body that does not name `i`.
unfoldable pub times : ℕ → Cmd (Unit {0}) → Cmd (Unit {0})
times zero body = pure tt
times (suc n) body = body >>= λ _. times n body

-- The same, for a body that does: `left` rounds, the first at `i`.
unfoldable pub for_from : ℕ → ℕ → (ℕ → Cmd (Unit {0})) → Cmd (Unit {0})
for_from zero i body = pure tt
for_from (suc left) i body = body i >>= λ _. for_from left (i + 1) body
