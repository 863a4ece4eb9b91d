-- ===== src/Coverage/Setup.antt =====
-- The maps before the first run, and before each run.
use blueman_artifact.Prelude.{
  ℕ, zero, suc, ◌*◌, ◌^◌, ◌<◌, ◌≡◌, refl, ap, ◌∙◌, arith, List, [], ◌∷◌, length, replicate,
  length-replicate,
}
use blueman_artifact.Coverage.{
  new_bits_word, new_bits_from, has_new_bits, corpus_get_coverage, get_total_coverage, map_words,
  setup_shm, clean_trace_bits,
}
use blueman_artifact.Coverage.Count.{sum_map, nonzero, non_255, get_coverage-sum}

sum_map-ones : (n : ℕ) → sum_map non_255 (replicate n 18446744073709551615) ≡ 0
sum_map-ones zero = refl
sum_map-ones (suc n) = omega (arith, sum_map-ones n)

sum_map-zeros : (n : ℕ) → sum_map nonzero (replicate n 0) ≡ 0
sum_map-zeros zero = refl
sum_map-zeros (suc n) = omega (arith, sum_map-zeros n)

length-clean_trace_bits : (trace : List ℕ) → length (clean_trace_bits trace) ≡ length trace
unfolding clean_trace_bits
length-clean_trace_bits [] = refl
length-clean_trace_bits (w ∷ ws) = ap (λ n. suc n) (length-clean_trace_bits ws)

sum_map-clean_trace_bits : (trace : List ℕ) → sum_map nonzero (clean_trace_bits trace) ≡ 0
unfolding clean_trace_bits
sum_map-clean_trace_bits [] = refl
sum_map-clean_trace_bits (w ∷ ws) = omega (arith, sum_map-clean_trace_bits ws)

new_bits_from-clean_trace_bits :
    (trace virgin : List ℕ)
    → length trace ≡ length virgin
    → new_bits_from (clean_trace_bits trace) virgin 0 ≡ (0, virgin)
unfolding clean_trace_bits new_bits_from new_bits_word
new_bits_from-clean_trace_bits [] virgin e = refl
new_bits_from-clean_trace_bits (c ∷ cs) [] e = absurd (omega arith)
new_bits_from-clean_trace_bits (c ∷ cs) (v ∷ vs) e =
    ap (λ r. (r.0, v ∷ r.1)) (new_bits_from-clean_trace_bits cs vs (omega arith))

ones-coverage :
    (n : ℕ)
    → 8 * n < 2 ^ 32
    → (length (replicate {A = ℕ} n 18446744073709551615) ≡ n)
      × (get_total_coverage (replicate n 18446744073709551615) ≡ 0)
ones-coverage n small =
    let e : length (replicate {A = ℕ} n 18446744073709551615) ≡ n =
      length-replicate {A = ℕ} n 18446744073709551615 in
    (e, (get_coverage-sum (replicate n 18446744073709551615) (omega (arith, e))).1 ∙ sum_map-ones n)

zeros-coverage :
    (n : ℕ)
    → 8 * n < 2 ^ 32
    → (length (replicate {A = ℕ} n 0) ≡ n) × (corpus_get_coverage (replicate n 0) ≡ 0)
zeros-coverage n small =
    let e : length (replicate {A = ℕ} n 0) ≡ n = length-replicate {A = ℕ} n 0 in
    (e, (get_coverage-sum (replicate n 0) (omega (arith, e))).0 ∙ sum_map-zeros n)

pub setup_shm-coverage :
    (length setup_shm.0 ≡ map_words)
    × (length setup_shm.1 ≡ map_words)
    × (get_total_coverage setup_shm.0 ≡ 0)
    × (corpus_get_coverage setup_shm.1 ≡ 0)
unfolding setup_shm
setup_shm-coverage =
    let (n, total) = ones-coverage map_words (omega arith) in
    let (m, hit) = zeros-coverage map_words (omega arith) in (n, m, total, hit)

-- After `setup_shm` both maps have 2 ^ 14 words, nothing is covered in total, and no byte of the trace
-- is hit. For a trace of fewer than 2 ^ 32 bytes, whatever it holds, `clean_trace_bits` leaves a
-- trace of the same length with a coverage of 0, in which `has_new_bits` finds nothing, for any
-- virgin map of this length, and changes nothing.
pub clean_trace_bits-setup_shm :
    (trace virgin : List ℕ)
    → 8 * length trace < 2 ^ 32
    → length trace ≡ length virgin
    → let (virgin_bits, trace_bits) = setup_shm in
      (length virgin_bits ≡ map_words)
      × (length trace_bits ≡ map_words)
      × (get_total_coverage virgin_bits ≡ 0)
      × (corpus_get_coverage trace_bits ≡ 0)
      × (length (clean_trace_bits trace) ≡ length trace)
      × (corpus_get_coverage (clean_trace_bits trace) ≡ 0)
      × (has_new_bits (clean_trace_bits trace) virgin ≡ (0, virgin))
unfolding has_new_bits
clean_trace_bits-setup_shm trace virgin small e =
    let (n, m, total, hit) = setup_shm-coverage in
    let same = length-clean_trace_bits trace in
    (
      n,
      m,
      total,
      hit,
      same,
      (get_coverage-sum (clean_trace_bits trace) (omega (arith, same))).0
          ∙ sum_map-clean_trace_bits trace,
      new_bits_from-clean_trace_bits trace virgin e,
    )
