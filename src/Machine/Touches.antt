-- ===== src/Machine/Touches.antt =====
-- Commands that return, and write at most the bytes from `lo` up to `hi`.
use blueman_artifact.Prelude.{
  ◌%◌, ℕ, zero, suc, ◌+◌, ◌%◌, ◌≤◌, ◌<◌, ◌≡◌, refl, ◌∙◌, ◌⊎◌, arith, Bool, true, false, ◌==◌,
  if◌then◌else◌, length, get_or, length-poke, get_or-poke_outside, AllBytes, AllBytes-poke, le→leb,
}
use blueman_artifact.Machine.{
  ok, drawn, Machine, Cmd, pure, ◌>>=◌, rand, rand_mod, load, store, times, for_from,
}
use blueman_artifact.Machine.Total.{Returns, returns, Returns-and_then, Returns-mono}

pub record Frame (lo hi : ℕ) (s t : Machine) : Type 0 where
  pub same_length : length t.mem ≡ length s.mem
  pub outside : (j : ℕ) → (j < lo) ⊎ (hi ≤ j) → get_or t.mem j 0 ≡ get_or s.mem j 0
  pub bytes : AllBytes s.mem → AllBytes t.mem

pub Frame-refl : (lo hi : ℕ) (s : Machine) → Frame lo hi s s
Frame-refl lo hi s = record { same_length = refl; outside = λ j h. refl; bytes = λ h. h }

pub Frame-trans :
    {lo hi : ℕ} {s t u : Machine} → Frame lo hi s t → Frame lo hi t u → Frame lo hi s u
Frame-trans f g = record {
  same_length = g.same_length ∙ f.same_length;
  outside = λ j h. g.outside j h ∙ f.outside j h;
  bytes = λ h. g.bytes (f.bytes h);
}

pub Frame-widen :
    {lo hi : ℕ} {lo' hi' : ℕ} {s t : Machine}
    → lo' ≤ lo
    → hi ≤ hi'
    → Frame lo hi s t
    → Frame lo' hi' s t
Frame-widen p q f = record {
  same_length = f.same_length;
  outside = λ j h. f.outside j (omega arith);
  bytes = f.bytes;
}

-- From every state whose block reaches up to `hi` the command returns, its result satisfies `P`,
-- and it changes no byte outside `lo` to `hi`.
pub record Touches {A : Type 0} (lo hi : ℕ) (P : A → Type 0) (c : Cmd A) : Type 0 where
  pub run : (s : Machine) → hi ≤ length s.mem → Returns (λ a t. P a × Frame lo hi s t) (c s)

module _ {A : Type 0} {lo hi : ℕ} where
  pub Touches-pure : {P : A → Type 0} {a : A} → P a → Touches lo hi P (pure a)
  Touches-pure p = record { run = λ s h. returns (p, Frame-refl lo hi s) }

  pub Touches-bind :
      {B : Type 0} {P : A → Type 0} {Q : B → Type 0} {c : Cmd A} {k : A → Cmd B}
      → Touches lo hi P c
      → ((a : A) → P a → Touches lo hi Q (k a))
      → Touches lo hi Q (c >>= k)
  Touches-bind {B} {P} {Q} {c} {k} first next = record {
    run = λ s h. Returns-and_then (first.run s h) λ a t p.
        Returns-mono ((next a p.0).run t (omega (arith, p.1.same_length)))
          λ b u q. (q.0, Frame-trans p.1 q.1);
  }

  pub Touches-mono :
      {P Q : A → Type 0} {c : Cmd A} → Touches lo hi P c → ((a : A) → P a → Q a) → Touches lo hi Q c
  Touches-mono t weaken = record {
    run = λ s h. Returns-mono (t.run s h) λ a u p. (weaken a p.0, p.1);
  }

  pub Touches-widen :
      {lo' hi' : ℕ} {P : A → Type 0} {c : Cmd A}
      → lo ≤ lo'
      → hi' ≤ hi
      → Touches lo' hi' P c
      → Touches lo hi P c
  Touches-widen p q t = record {
    run = λ s h. Returns-mono (t.run s (omega arith)) λ a u r. (r.0, Frame-widen p q r.1);
  }

  pub Touches-if :
      {P : A → Type 0} (b : Bool) {c d : Cmd A}
      → (b ≡ true → Touches lo hi P c)
      → (b ≡ false → Touches lo hi P d)
      → Touches lo hi P (if b then c else d)
  Touches-if true yes_case no_case = yes_case refl
  Touches-if false yes_case no_case = no_case refl

module _ {lo hi : ℕ} where
  pub Touches-rand : Touches lo hi (λ _. Unit) rand
  unfolding rand
  Touches-rand = record {
    run = λ s h. returns (tt, record { same_length = refl; outside = λ j q. refl; bytes = λ q. q });
  }

  pub Touches-rand_mod : {n : ℕ} → 0 < n → Touches lo hi (λ r. r < n) (rand_mod n)
  unfolding rand_mod
  Touches-rand_mod {n} pos =
      Touches-if (n == 0) (λ e. absurd (ground arith))
        λ e.
          Touches-bind Touches-rand λ r u. let small : r % n < n = omega arith in Touches-pure small

  pub Touches-load : (k i : ℕ) → i + k ≤ hi → Touches lo hi (λ _. Unit) (load k i)
  unfolding load
  Touches-load k i fits = record {
    run =
        λ s h. rw (le→leb (i + k) (length s.mem) (omega arith)) (returns (tt, Frame-refl lo hi s));
  }

  pub Touches-store : (k i v : ℕ) → lo ≤ i → i + k ≤ hi → Touches lo hi (λ _. Unit) (store k i v)
  unfolding store
  Touches-store k i v from fits = record {
    run = λ s h. rw (le→leb (i + k) (length s.mem) (omega arith)) (
        returns (
          tt,
          record {
            same_length = length-poke k s.mem i v;
            outside = λ j q. get_or-poke_outside k s.mem i v j (omega arith);
            bytes = AllBytes-poke k s.mem i v;
          },
        ));
  }

  pub Touches-times :
      {body : Cmd (Unit {0})} (n : ℕ)
      → Touches lo hi (λ _. Unit) body
      → Touches lo hi (λ _. Unit) (times n body)
  unfolding times
  Touches-times zero t = Touches-pure tt
  Touches-times (suc n) t = Touches-bind t λ a u. Touches-times n t

  pub Touches-for_from :
      {body : ℕ → Cmd (Unit {0})} (left i : ℕ)
      → ((j : ℕ) → i ≤ j → j < i + left → Touches lo hi (λ _. Unit) (body j))
      → Touches lo hi (λ _. Unit) (for_from left i body)
  unfolding for_from
  Touches-for_from zero i t = Touches-pure tt
  Touches-for_from (suc left) i t =
      Touches-bind (t i (omega arith) (omega arith))
        λ a u. Touches-for_from left (i + 1) (λ j p q. t j (omega arith) (omega arith))

pub rand_mod-ok : (n : ℕ) (s : Machine) → 0 < n → rand_mod n s ≡ ok (s.draws 0 % n) (drawn s)
unfolding rand_mod
rand_mod-ok n s pos = let e : (n == 0) ≡ false = ground arith in rw e
