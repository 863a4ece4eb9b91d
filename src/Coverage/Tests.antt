-- ===== src/Coverage/Tests.antt =====
-- The coverage maps on two words.
use blueman_artifact.Prelude.{ℕ, ◌+◌, ◌≤◌, ◌<◌, ◌≡◌, ◌↔◌, refl, arith, List, [], ◌∷◌}
use blueman_artifact.Coverage.{has_new_bits, new_bits_word, corpus_get_coverage, get_total_coverage}
use blueman_artifact.Coverage.Count.{AllWords, sum_map, nonzero, non_255, get_coverage-sum}
use blueman_artifact.Coverage.Round.{fresh_map}
use blueman_artifact.Coverage.NewBits.{get_total_coverage-has_new_bits}

-- A run that hits two bytes of two words, the first of them for the first time.
abbrev run : List ℕ
run = 1 ∷ 256 ∷ []

abbrev map_before : List ℕ
map_before = 18446744073709551615 ∷ 18446744073709551103 ∷ []

run-AllWords : AllWords run
run-AllWords = (omega arith, (omega arith, tt))

-- The first byte was 255: the answer is 2, and one byte more is covered.
has_new_bits_test :
    has_new_bits run map_before ≡ (2, 18446744073709551614 ∷ 18446744073709550847 ∷ [])
unfolding has_new_bits new_bits_word
has_new_bits_test = refl

get_coverage_example :
    (corpus_get_coverage run ≡ sum_map nonzero run) × (get_total_coverage run ≡ sum_map non_255 run)
get_coverage_example = get_coverage-sum run (omega arith)

coverage_grows_example :
    let (ret, virgin') = has_new_bits run map_before in
    (ret ≤ 2)
    × (get_total_coverage virgin' ≡ get_total_coverage map_before + fresh_map run map_before)
    × ((ret ≡ 2) ↔ (get_total_coverage map_before < get_total_coverage virgin'))
coverage_grows_example =
    get_total_coverage-has_new_bits run map_before run-AllWords refl (omega arith)
