-- ===== src/Processes/Started.antt =====
-- Four children that have been started, and what the end of a child changes.
use blueman_artifact.Prelude.{
  ℕ, ◌≡◌, ◌≢◌, ◌⊎◌, inl, inr, refl, sym, ap, ◌∙◌, arith, ◌==◌, if◌then◌else◌, Bool, true, false,
  some,
}
use blueman_artifact.Ending.{done}
use blueman_artifact.Processes.{
  Life, absent, alive, ended, System, Pids, start_processes, wait_for, kill_if, kill_and_wait,
}

twice :
    (b : Bool) (l l' l'' : Life)
    → l'' ≡ (if b then absent else l')
    → l' ≡ (if b then ended else l)
    → l'' ≡ (if b then absent else l)
twice true l l' l'' e d = e
twice false l l' l'' e d = e ∙ d

module _ (sys : System) where
  -- Child `p` is gone, and the others are as they were.
  abbrev pub Removed : ℕ → sys.S → sys.S → Type 0
  Removed p s s' = (u : ℕ) → sys.life u s' ≡ (if u == p then absent else sys.life u s)

  pub wait_for-Removed :
      (p : ℕ) (s s' : sys.S)
      → sys.waitpid p s ≡ some s'
      → (wait_for sys p s ≡ done s') × Removed p s s'
  wait_for-Removed p s s' e = (rw (wait_for, e) refl, sys.waited s s' p e)

  pub kill-Removed :
      (p : ℕ) (s : sys.S)
      → sys.life p s ≢ absent
      → (s' : sys.S) × (wait_for sys p (sys.kill p s).1 ≡ done s') × Removed p s s'
  kill-Removed p s there =
      let (found, rest) = sys.killed s p there in
      let self : (p == p) ≡ true = ground arith in
      let gone : sys.life p (sys.kill p s).1 ≡ ended =
        rest p ∙ ap (λ b. if b then ended else sys.life p s) self in
      let (s', e) = sys.waits (sys.kill p s).1 p (λ q. absurd (cc)) in
      let (waited, removed) = wait_for-Removed p (sys.kill p s).1 s' e in
      (
        s',
        waited,
        λ u.
            twice (u == p) (sys.life u s) (sys.life u (sys.kill p s).1) (sys.life u s') (removed u)
              (rest u),
      )

  pub kill_and_wait-Removed :
      (p : ℕ) (s : sys.S)
      → sys.life p s ≢ absent
      → (s' : sys.S) × (kill_and_wait sys (some p) s ≡ done s') × Removed p s s'
  kill_and_wait-Removed p s there =
      let (s', e, removed) = kill-Removed p s there in
      (s', rw ((sys.killed s p there).0, e) refl, removed)

  -- The interceptor has been killed once or twice, or ends by itself.
  pub interceptor-Removed :
      (attack_error crash : Bool) (p : ℕ) (s : sys.S)
      → (attack_error ≡ true) ⊎ (crash ≡ true) ⊎ (sys.ends p ≡ true)
      → sys.life p s ≢ absent
      → (s' : sys.S) × (wait_for sys p (kill_if sys crash p (kill_if sys attack_error p s))
          ≡ done s')
        × Removed p s s'
  interceptor-Removed true false p s h there = kill-Removed p s there
  interceptor-Removed false true p s h there = kill-Removed p s there
  interceptor-Removed true true p s h there =
      let first = (sys.killed s p there).1 in
      let self : (p == p) ≡ true = ground arith in
      let gone : sys.life p (sys.kill p s).1 ≡ ended =
        first p ∙ ap (λ b. if b then ended else sys.life p s) self in
      let (s', e, removed) = kill-Removed p (sys.kill p s).1 (λ q. absurd (cc)) in
      (
        s',
        e,
        λ u.
            twice (u == p) (sys.life u s) (sys.life u (sys.kill p s).1) (sys.life u s') (removed u)
              (first u),
      )
  interceptor-Removed false false p s (inl e) there = absurd (cc)
  interceptor-Removed false false p s (inr (inl e)) there = absurd (cc)
  interceptor-Removed false false p s (inr (inr e)) there =
      let (s', waited) = sys.waits_for s p e in
      let (one, removed) = wait_for-Removed p s s' waited in (s', one, removed)

-- A change at one child, seen from this child and from any other.
pub changed :
    (sys : System) (p : ℕ) (l : Life) (s s' : sys.S)
    → ((u : ℕ) → sys.life u s' ≡ (if u == p then l else sys.life u s))
    → (sys.life p s' ≡ l) × ((u : ℕ) → u ≢ p → sys.life u s' ≡ sys.life u s)
changed sys p l s s' h =
    let self : (p == p) ≡ true = ground arith in
    (
      h p ∙ ap (λ b. if b then l else sys.life p s) self,
      λ u apart.
          let other : (u == p) ≡ false = ground arith in
          h u ∙ ap (λ b. if b then l else sys.life u s) other,
    )

apart : (sys : System) (p q : ℕ) (s : sys.S) → sys.life q s ≡ alive → sys.life p s ≡ absent → q ≢ p
apart sys p q s there gone e =
    let same : sys.life q s ≡ sys.life p s = ap (λ u. sys.life u s) e in absurd (cc)

-- The four processes have been started.
module _ (sys : System) (s s₁ s₂ s₃ s₄ : sys.S) (p : Pids) (f₁ : sys.fork s ≡ some (p.bsim_pid, s₁))
    (f₂ : sys.fork s₁ ≡ some (p.target_pid, s₂)) (f₃ : sys.fork s₂ ≡ some (p.attacker_pid, s₃))
    (f₄ : sys.fork s₃ ≡ some (p.interceptor_pid, s₄)) where
  pub start_processes-ok : start_processes sys s ≡ some (p, s₄)
  unfolding start_processes
  start_processes-ok = rw (f₁, f₂, f₃, f₄) refl

  -- All four run, and are different children.
  abbrev pub Running : Type 0
  Running =
      (sys.life p.bsim_pid s₄ ≡ alive)
      × (sys.life p.target_pid s₄ ≡ alive)
      × (sys.life p.attacker_pid s₄ ≡ alive)
      × (sys.life p.interceptor_pid s₄ ≡ alive)
      × (p.bsim_pid ≢ p.target_pid)
      × (p.bsim_pid ≢ p.attacker_pid)
      × (p.bsim_pid ≢ p.interceptor_pid)
      × (p.target_pid ≢ p.attacker_pid)
      × (p.target_pid ≢ p.interceptor_pid)
      × (p.attacker_pid ≢ p.interceptor_pid)

  pub running : Running
  running =
      let (new₁, add₁) = sys.forked s s₁ p.bsim_pid f₁ in
      let (new₂, add₂) = sys.forked s₁ s₂ p.target_pid f₂ in
      let (new₃, add₃) = sys.forked s₂ s₃ p.attacker_pid f₃ in
      let (new₄, add₄) = sys.forked s₃ s₄ p.interceptor_pid f₄ in
      let (b₁, _) = changed sys p.bsim_pid alive s s₁ add₁ in
      let (t₂, old₂) = changed sys p.target_pid alive s₁ s₂ add₂ in
      let (a₃, old₃) = changed sys p.attacker_pid alive s₂ s₃ add₃ in
      let (i₄, old₄) = changed sys p.interceptor_pid alive s₃ s₄ add₄ in
      let bt = apart sys p.target_pid p.bsim_pid s₁ b₁ new₂ in
      let b₂ = old₂ p.bsim_pid bt ∙ b₁ in
      let ba = apart sys p.attacker_pid p.bsim_pid s₂ b₂ new₃ in
      let ta = apart sys p.attacker_pid p.target_pid s₂ t₂ new₃ in
      let b₃ = old₃ p.bsim_pid ba ∙ b₂ in
      let t₃ = old₃ p.target_pid ta ∙ t₂ in
      let bi = apart sys p.interceptor_pid p.bsim_pid s₃ b₃ new₄ in
      let ti = apart sys p.interceptor_pid p.target_pid s₃ t₃ new₄ in
      let ai = apart sys p.interceptor_pid p.attacker_pid s₃ a₃ new₄ in
      (
        old₄ p.bsim_pid bi ∙ b₃,
        old₄ p.target_pid ti ∙ t₃,
        old₄ p.attacker_pid ai ∙ a₃,
        i₄,
        bt,
        ba,
        bi,
        ta,
        ti,
        ai,
      )

  -- Any other child is as it was before they were started, and none of them was there.
  pub others :
      (u : ℕ)
      → (u ≢ p.bsim_pid)
      → (u ≢ p.target_pid)
      → (u ≢ p.attacker_pid)
      → (u ≢ p.interceptor_pid)
      → sys.life u s₄ ≡ sys.life u s
  others u nb nt na ni =
      (changed sys p.interceptor_pid alive s₃ s₄ (sys.forked s₃ s₄ p.interceptor_pid f₄).1).1 u ni
      ∙ (changed sys p.attacker_pid alive s₂ s₃ (sys.forked s₂ s₃ p.attacker_pid f₃).1).1 u na
      ∙ (changed sys p.target_pid alive s₁ s₂ (sys.forked s₁ s₂ p.target_pid f₂).1).1 u nt
      ∙ (changed sys p.bsim_pid alive s s₁ (sys.forked s s₁ p.bsim_pid f₁).1).1 u nb

  -- None of them was there before.
  pub new_ones :
      (sys.life p.bsim_pid s ≡ absent)
      × (sys.life p.target_pid s ≡ absent)
      × (sys.life p.attacker_pid s ≡ absent)
      × (sys.life p.interceptor_pid s ≡ absent)
  new_ones =
      let (_, _, _, _, bt, ba, bi, ta, ti, ai) = running in
      let (new₁, add₁) = sys.forked s s₁ p.bsim_pid f₁ in
      let (new₂, add₂) = sys.forked s₁ s₂ p.target_pid f₂ in
      let (new₃, add₃) = sys.forked s₂ s₃ p.attacker_pid f₃ in
      let (new₄, add₄) = sys.forked s₃ s₄ p.interceptor_pid f₄ in
      let (_, old₁) = changed sys p.bsim_pid alive s s₁ add₁ in
      let (_, old₂) = changed sys p.target_pid alive s₁ s₂ add₂ in
      let (_, old₃) = changed sys p.attacker_pid alive s₂ s₃ add₃ in
      (
        new₁,
        sym (old₁ p.target_pid (λ e. bt (sym e))) ∙ new₂,
        sym (old₂ p.attacker_pid (λ e. ta (sym e)) ∙ old₁ p.attacker_pid (λ e. ba (sym e))) ∙ new₃,
        sym (
              old₃ p.interceptor_pid (λ e. ai (sym e))
              ∙ old₂ p.interceptor_pid (λ e. ti (sym e))
              ∙ old₁ p.interceptor_pid (λ e. bi (sym e)))
            ∙ new₄,
      )
