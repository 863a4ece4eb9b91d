-- ===== src/Processes/Reaped.antt =====
-- Which children are left when an execution ends, and when the fuzzer is stopped.
use blueman_artifact.Prelude.{
  ℕ, ◌≡◌, ◌≢◌, ◌⊎◌, inl, inr, refl, sym, ap, ◌∙◌, arith, ◌==◌, Bool, true, Bool-cases, some,
}
use blueman_artifact.Ending.{done}
use blueman_artifact.Processes.{
  absent, alive, System, Pids, PidVars, start_processes, end_processes, cleanup_fuzzer_env,
}
use blueman_artifact.Processes.Started.{
  Removed, wait_for-Removed, kill-Removed, kill_and_wait-Removed, interceptor-Removed, changed,
  running, others, new_ones, start_processes-ok,
}

-- The four processes have been started.
module _ (sys : System) (s s₁ s₂ s₃ s₄ : sys.S) (p : Pids) (f₁ : sys.fork s ≡ some (p.bsim_pid, s₁))
    (f₂ : sys.fork s₁ ≡ some (p.target_pid, s₂)) (f₃ : sys.fork s₂ ≡ some (p.attacker_pid, s₃))
    (f₄ : sys.fork s₃ ≡ some (p.interceptor_pid, s₄)) where
  gone_or_kept :
      (q u : ℕ) (r r' : sys.S)
      → sys.life q s ≡ absent
      → Removed sys q r r'
      → (sys.life u r' ≡ sys.life u s) ⊎ ((u ≢ q) × (sys.life u r' ≡ sys.life u r))
  gone_or_kept q u r r' new d =
      let (gone, kept) = changed sys q absent r r' d in
      elim (Bool-cases (u == q)) [
        | inl e ↦
            let same : u ≡ q = ground arith in
            inl (ap (λ v. sys.life v r') same ∙ gone ∙ sym (ap (λ v. sys.life v s) same ∙ new))
        | inr e ↦ let other : u ≢ q = ground arith in inr (other, kept u other)
      ]

  -- The four are removed in this order.
  all-Removed :
      (r₁ r₂ r₃ r₄ : sys.S)
      → Removed sys p.target_pid s₄ r₁
      → Removed sys p.bsim_pid r₁ r₂
      → Removed sys p.attacker_pid r₂ r₃
      → Removed sys p.interceptor_pid r₃ r₄
      → (u : ℕ) → sys.life u r₄ ≡ sys.life u s
  all-Removed r₁ r₂ r₃ r₄ d₁ d₂ d₃ d₄ u =
      let (new_b, new_t, new_a, new_i) = new_ones sys s s₁ s₂ s₃ s₄ p f₁ f₂ f₃ f₄ in
      elim (gone_or_kept p.interceptor_pid u r₃ r₄ new_i d₄) [
        | inl e ↦ e
        | inr (ni, e₄) ↦ elim (gone_or_kept p.attacker_pid u r₂ r₃ new_a d₃) [
          | inl e ↦ e₄ ∙ e
          | inr (na, e₃) ↦ elim (gone_or_kept p.bsim_pid u r₁ r₂ new_b d₂) [
            | inl e ↦ e₄ ∙ e₃ ∙ e
            | inr (nb, e₂) ↦ elim (gone_or_kept p.target_pid u s₄ r₁ new_t d₁) [
              | inl e ↦ e₄ ∙ e₃ ∙ e₂ ∙ e
              | inr (nt, e₁) ↦
                  e₄ ∙ e₃ ∙ e₂ ∙ e₁ ∙ others sys s s₁ s₂ s₃ s₄ p f₁ f₂ f₃ f₄ u nb nt na ni
            ]
          ]
        ]
      ]

  three-Removed :
      (r₁ r₂ r₃ : sys.S)
      → Removed sys p.bsim_pid s₄ r₁
      → Removed sys p.attacker_pid r₁ r₂
      → Removed sys p.interceptor_pid r₂ r₃
      → (u : ℕ) → u ≢ p.target_pid
      → sys.life u r₃ ≡ sys.life u s
  three-Removed r₁ r₂ r₃ d₁ d₂ d₃ u nt =
      let (new_b, new_t, new_a, new_i) = new_ones sys s s₁ s₂ s₃ s₄ p f₁ f₂ f₃ f₄ in
      elim (gone_or_kept p.interceptor_pid u r₂ r₃ new_i d₃) [
        | inl e ↦ e
        | inr (ni, g₃) ↦ elim (gone_or_kept p.attacker_pid u r₁ r₂ new_a d₂) [
          | inl e ↦ g₃ ∙ e
          | inr (na, g₂) ↦ elim (gone_or_kept p.bsim_pid u s₄ r₁ new_b d₁) [
            | inl e ↦ g₃ ∙ g₂ ∙ e
            | inr (nb, g₁) ↦ g₃ ∙ g₂ ∙ g₁ ∙ others sys s s₁ s₂ s₃ s₄ p f₁ f₂ f₃ f₄ u nb nt na ni
          ]
        ]
      ]

  alive-there : (q : ℕ) (r : sys.S) → sys.life q r ≡ alive → sys.life q r ≢ absent
  alive-there q r e d = absurd (cc)

  -- In an execution whose four processes have been started: if the target ends, and the interceptor
  -- ends or is killed, then the calls of `fuzz_one` return, and the fuzzer has the same children as
  -- before the execution, in the same state: none of the four runs on or is left to be waited for.
  pub end_processes-reaped :
      (attack_error crash : Bool)
      → sys.ends p.target_pid ≡ true
      → (attack_error ≡ true) ⊎ (crash ≡ true) ⊎ (sys.ends p.interceptor_pid ≡ true)
      → (start_processes sys s ≡ some (p, s₄))
        × ((t : sys.S) × (end_processes sys attack_error crash p s₄ ≡ done t)
            × ((u : ℕ) → sys.life u t ≡ sys.life u s))
  unfolding end_processes
  end_processes-reaped attack_error crash ends killed =
      let (live_b, live_t, live_a, live_i, bt, ba, bi, ta, ti, ai) =
        running sys s s₁ s₂ s₃ s₄ p f₁ f₂ f₃ f₄ in
      let (r₁, w₁) = sys.waits_for s₄ p.target_pid ends in
      let (e₁, d₁) = wait_for-Removed sys p.target_pid s₄ r₁ w₁ in
      let (_, k₁) = changed sys p.target_pid absent s₄ r₁ d₁ in
      let (r₂, e₂, d₂) =
        kill-Removed sys p.bsim_pid r₁ (alive-there p.bsim_pid r₁ (k₁ p.bsim_pid bt ∙ live_b)) in
      let (_, k₂) = changed sys p.bsim_pid absent r₁ r₂ d₂ in
      let (r₃, e₃, d₃) = kill-Removed sys p.attacker_pid r₂ (
        alive-there p.attacker_pid r₂
          (k₂ p.attacker_pid (λ e. ba (sym e)) ∙ k₁ p.attacker_pid (λ e. ta (sym e)) ∙ live_a)) in
      let (_, k₃) = changed sys p.attacker_pid absent r₂ r₃ d₃ in
      let (r₄, e₄, d₄) = interceptor-Removed sys attack_error crash p.interceptor_pid r₃ killed (
        alive-there p.interceptor_pid r₃ (
          k₃ p.interceptor_pid (λ e. ai (sym e))
          ∙ k₂ p.interceptor_pid (λ e. bi (sym e))
          ∙ k₁ p.interceptor_pid (λ e. ti (sym e))
          ∙ live_i)) in
      (
        start_processes-ok sys s s₁ s₂ s₃ s₄ p f₁ f₂ f₃ f₄,
        (r₄, rw (e₁, e₂, e₃, e₄) refl, all-Removed r₁ r₂ r₃ r₄ d₁ d₂ d₃ d₄),
      )

  abbrev variables : PidVars
  variables = record {
    bsim = some p.bsim_pid;
    attacker = some p.attacker_pid;
    interceptor = some p.interceptor_pid;
  }

  -- If the fuzzer is stopped while the four run, the clean-up returns, and of the fuzzer's children
  -- the target still runs and every other is as it was before the execution.
  pub cleanup_fuzzer_env-leaves_target :
      (t : sys.S) × (cleanup_fuzzer_env sys variables s₄ ≡ done t)
      × (sys.life p.target_pid t ≡ alive)
      × ((u : ℕ) → u ≢ p.target_pid → sys.life u t ≡ sys.life u s)
  unfolding cleanup_fuzzer_env
  cleanup_fuzzer_env-leaves_target =
      let (live_b, live_t, live_a, live_i, bt, ba, bi, ta, ti, ai) =
        running sys s s₁ s₂ s₃ s₄ p f₁ f₂ f₃ f₄ in
      let (r₁, e₁, d₁) =
        kill_and_wait-Removed sys p.bsim_pid s₄ (alive-there p.bsim_pid s₄ live_b) in
      let (_, k₁) = changed sys p.bsim_pid absent s₄ r₁ d₁ in
      let (r₂, e₂, d₂) =
        kill_and_wait-Removed sys p.attacker_pid r₁
          (alive-there p.attacker_pid r₁ (k₁ p.attacker_pid (λ e. ba (sym e)) ∙ live_a)) in
      let (_, k₂) = changed sys p.attacker_pid absent r₁ r₂ d₂ in
      let (r₃, e₃, d₃) = kill_and_wait-Removed sys p.interceptor_pid r₂ (
        alive-there p.interceptor_pid r₂ (
          k₂ p.interceptor_pid (λ e. ai (sym e))
          ∙ k₁ p.interceptor_pid (λ e. bi (sym e))
          ∙ live_i)) in
      let (_, k₃) = changed sys p.interceptor_pid absent r₂ r₃ d₃ in
      (
        r₃,
        rw (e₁, e₂, e₃) refl,
        k₃ p.target_pid ti ∙ k₂ p.target_pid ta ∙ k₁ p.target_pid (λ e. bt (sym e)) ∙ live_t,
        three-Removed r₁ r₂ r₃ d₁ d₂ d₃,
      )
