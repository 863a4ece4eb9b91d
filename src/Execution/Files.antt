-- ===== src/Execution/Files.antt =====
-- No two error files have one name, and the counters count them.
use blueman_artifact.Prelude.{ℕ, ◌+◌, ◌≤◌, ◌<◌, ◌≡◌, ◌≢◌, ap, arith, [], ◌∷◌}
use blueman_artifact.Execution.{
  Dir, output_crash, output_crash_log, output_timeout, output_timeout_log, output_attack_err_corpus,
  output_attack_err_log, ErrorFile, Fuzzer,
}
use blueman_artifact.Execution.Saved.{Files, Written, no_log, with_log}

-- The first number that is free in each directory.
abbrev pub free : (crash timeout attack : ℕ) → Dir → ℕ
free crash timeout attack output_crash = crash
free crash timeout attack output_crash_log = crash
free crash timeout attack output_timeout = timeout
free crash timeout attack output_timeout_log = timeout
free crash timeout attack output_attack_err_corpus = attack
free crash timeout attack output_attack_err_log = attack

abbrev pub AllBelow : (Dir → ℕ) → Files → Type 0
AllBelow slot [] = Unit
AllBelow slot ((e, bytes) ∷ files) = (e.number < slot e.dir) × AllBelow slot files

-- Another file has another directory or another number, so another name.
abbrev pub Other : ErrorFile → ErrorFile → Type 0
Other e d = e.dir ≡ d.dir → e.number ≢ d.number

abbrev pub AllOther : ErrorFile → Files → Type 0
AllOther e [] = Unit
AllOther e ((d, bytes) ∷ files) = Other e d × AllOther e files

abbrev pub AllDistinct : Files → Type 0
AllDistinct [] = Unit
AllDistinct ((e, bytes) ∷ files) = AllOther e files × AllDistinct files

pub AllBelow-mono :
    (slot slot' : Dir → ℕ) (files : Files)
    → ((d : Dir) → slot d ≤ slot' d)
    → AllBelow slot files
    → AllBelow slot' files
AllBelow-mono slot slot' [] le h = tt
AllBelow-mono slot slot' ((e, bytes) ∷ files) le (lt, h) =
    (omega (arith, le e.dir), AllBelow-mono slot slot' files le h)

AllOther-free :
    (slot : Dir → ℕ) (e : ErrorFile) (files : Files)
    → e.number ≡ slot e.dir
    → AllBelow slot files
    → AllOther e files
AllOther-free slot e [] n h = tt
AllOther-free slot e ((d, bytes) ∷ files) n (lt, h) = (
  λ same eq. absurd (let up : slot e.dir ≡ slot d.dir = ap slot same in omega arith),
  AllOther-free slot e files n h,
)

-- A file that takes the free number of its directory, and its log in another directory.
Written-AllBelow :
    (slot slot' : Dir → ℕ) (e l : ErrorFile) (old new : Files)
    → ((d : Dir) → slot d ≤ slot' d)
    → e.number < slot' e.dir
    → l.number < slot' l.dir
    → AllBelow slot old
    → Written e l old new
    → AllBelow slot' new
Written-AllBelow slot slot' e l old _ le lt lt' h (no_log bytes) =
    (lt, AllBelow-mono slot slot' old le h)
Written-AllBelow slot slot' e l old _ le lt lt' h (with_log bytes out) =
    (lt', (lt, AllBelow-mono slot slot' old le h))

Written-AllDistinct :
    (slot : Dir → ℕ) (e l : ErrorFile) (old new : Files)
    → e.number ≡ slot e.dir
    → l.number ≡ slot l.dir
    → l.dir ≢ e.dir
    → AllBelow slot old
    → AllDistinct old
    → Written e l old new
    → AllDistinct new
Written-AllDistinct slot e l old _ n n' apart below h (no_log bytes) =
    (AllOther-free slot e old n below, h)
Written-AllDistinct slot e l old _ n n' apart below h (with_log bytes out) = (
  ((λ same. absurd (apart same)), AllOther-free slot l old n' below),
  (AllOther-free slot e old n below, h),
)

-- 1 for a file that holds packets.
abbrev pub holds_pkts : Dir → ℕ
holds_pkts output_crash = 1
holds_pkts output_timeout = 1
holds_pkts output_attack_err_corpus = 1
holds_pkts _ = 0

abbrev pub saved_runs : Files → ℕ
saved_runs [] = 0
saved_runs ((e, bytes) ∷ files) = holds_pkts e.dir + saved_runs files

Written-saved_runs :
    (e l : ErrorFile) (old new : Files)
    → holds_pkts e.dir ≡ 1
    → holds_pkts l.dir ≡ 0
    → Written e l old new
    → saved_runs new ≡ 1 + saved_runs old
Written-saved_runs e l old _ one none (no_log bytes) = omega arith
Written-saved_runs e l old _ one none (with_log bytes out) = omega arith

-- The files, the counters, and bounds of the numbers in use.
pub record IsLedger (crash timeout attack : ℕ) (f : Fuzzer) : Type 0 where
  pub below : AllBelow (free crash timeout f.attack_error_count) f.error_files
  pub distinct : AllDistinct f.error_files
  pub counted : saved_runs f.error_files ≡ f.crash_count + f.timeout_count + f.attack_error_count
  pub crashes : f.crash_count ≤ crash
  pub timeouts : f.timeout_count ≤ timeout
  pub attacks : f.attack_error_count ≤ attack

pub free_mono :
    (c t a c' t' a' : ℕ) → c ≤ c' → t ≤ t' → a ≤ a' → (d : Dir) → free c t a d ≤ free c' t' a' d
free_mono c t a c' t' a' x y z output_crash = x
free_mono c t a c' t' a' x y z output_crash_log = x
free_mono c t a c' t' a' x y z output_timeout = y
free_mono c t a c' t' a' x y z output_timeout_log = y
free_mono c t a c' t' a' x y z output_attack_err_corpus = z
free_mono c t a c' t' a' x y z output_attack_err_log = z

-- A run is saved under the free number of a directory, and one counter goes up.
pub Written-IsLedger :
    (c t b c' t' b' : ℕ) (f g : Fuzzer) (e l : ErrorFile)
    → IsLedger c t b f
    → c ≤ c'
    → t ≤ t'
    → f.attack_error_count ≤ g.attack_error_count
    → g.crash_count ≤ c'
    → g.timeout_count ≤ t'
    → g.attack_error_count ≤ b'
    → g.crash_count + g.timeout_count + g.attack_error_count
      ≡ 1 + (f.crash_count + f.timeout_count + f.attack_error_count)
    → holds_pkts e.dir ≡ 1
    → holds_pkts l.dir ≡ 0
    → e.number ≡ free c t f.attack_error_count e.dir
    → l.number ≡ free c t f.attack_error_count l.dir
    → e.number < free c' t' g.attack_error_count e.dir
    → l.number < free c' t' g.attack_error_count l.dir
    → Written e l f.error_files g.error_files
    → IsLedger c' t' b' g
Written-IsLedger c t b c' t' b' f g e l h cs ts as' gc gt ga sum one none ne nl lte ltl w =
    let slot = free c t f.attack_error_count in
    let slot' = free c' t' g.attack_error_count in
    let apart : l.dir ≢ e.dir = λ same. (let z = ap holds_pkts same in absurd (omega arith)) in
    let more = Written-saved_runs e l f.error_files g.error_files one none w in
    record {
      below =
          Written-AllBelow slot slot' e l f.error_files g.error_files
            (free_mono c t f.attack_error_count c' t' g.attack_error_count cs ts as') lte ltl
            h.below w;
      distinct =
          Written-AllDistinct slot e l f.error_files g.error_files ne nl apart h.below h.distinct w;
      counted = omega (arith, h.counted, more, sum);
      crashes = gc;
      timeouts = gt;
      attacks = ga;
    }
