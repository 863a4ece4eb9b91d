-- ===== src/Coverage.antt =====
-- blueman-main/coverage.c: the coverage maps. A map is its list of 64-bit words (MAP_SIZE >> 3 of
-- them); byte `k` of a word is the one at its `k`-th address, the machine being little-endian.
pub mod Count
pub mod Round
pub mod NewBits
pub mod Setup
mod Tests
use blueman_artifact.Prelude.{
  ℕ, zero, suc, ◌+◌, ◌-◌, ◌*◌, ◌/◌, ◌%◌, ◌^◌, ◌==◌, ltb, if◌then◌else◌, Bool, true, false, ◌&&◌,
  ◌||◌, not, List, [], ◌∷◌, u32, ◌<<<◌, bit_and, replicate,
}

-- `FF(_b)`
abbrev pub ff : ℕ → ℕ
ff b = 0xff <<< (b * 8)

abbrev pub byte : ℕ → ℕ → ℕ
byte k w = w / 2 ^ (k * 8) % 256

abbrev pub hit_unseen : ℕ → ℕ → ℕ → Bool
hit_unseen current virgin k = not (byte k current == 0) && byte k virgin == 0xff

-- The condition under which `has_new_bits` sets `ret` to 2.
unfoldable pub new_tuple : ℕ → ℕ → Bool
new_tuple c v =
    hit_unseen c v 0
    || hit_unseen c v 1
    || hit_unseen c v 2
    || hit_unseen c v 3
    || hit_unseen c v 4
    || hit_unseen c v 5
    || hit_unseen c v 6
    || hit_unseen c v 7

-- One round of `has_new_bits`: `ret` and the word of the virgin map.
unfoldable pub new_bits_word : ℕ → ℕ → ℕ → ℕ × ℕ
unfolding new_tuple
new_bits_word c v ret =
    if not (c == 0) && not (bit_and c v == 0)
    then ((if ltb ret 2 then (if new_tuple c v then 2 else 1) else ret), bit_and v (2 ^ 64 - 1 - c))
    else (ret, v)

-- The loop over both maps; they have the same length.
unfoldable pub new_bits_from : List ℕ → List ℕ → ℕ → ℕ × List ℕ
new_bits_from [] vs ret = (ret, vs)
new_bits_from (c ∷ cs) [] ret = (ret, [])
new_bits_from (c ∷ cs) (v ∷ vs) ret =
    let (ret', v') = new_bits_word c v ret in
    let (final, vs') = new_bits_from cs vs ret' in (final, v' ∷ vs')

-- The result and the new virgin map.
unfoldable pub has_new_bits : List ℕ → List ℕ → ℕ × List ℕ
unfolding new_bits_from
has_new_bits trace_bits virgin_map = new_bits_from trace_bits virgin_map 0

-- `!!(v & FF(k))`
abbrev pub nonzero_in : ℕ → ℕ → ℕ
nonzero_in v k = if bit_and v (ff k) == 0 then 0 else 1

unfoldable pub count_word : ℕ → ℕ
count_word v =
    nonzero_in v 0
    + nonzero_in v 1
    + nonzero_in v 2
    + nonzero_in v 3
    + nonzero_in v 4
    + nonzero_in v 5
    + nonzero_in v 6
    + nonzero_in v 7

unfoldable pub count_bytes_from : List ℕ → ℕ → ℕ
unfolding count_word
count_bytes_from [] ret = ret
count_bytes_from (v ∷ vs) ret =
    count_bytes_from vs (if v == 0 then ret else u32 (ret + count_word v))

unfoldable pub count_bytes : List ℕ → ℕ
unfolding count_bytes_from
count_bytes mem = count_bytes_from mem 0

-- `if ((v & FF(k)) != FF(k)) ret++`
abbrev pub non_255_in : ℕ → ℕ → ℕ
non_255_in v k = if bit_and v (ff k) == ff k then 0 else 1

unfoldable pub count_non_255_word : ℕ → ℕ
count_non_255_word v =
    if v == 0xffffffff then 0 else non_255_in v 0 + non_255_in v 1 + non_255_in v 2 + non_255_in v 3

-- The map as the 32-bit words that `count_non_255_bytes` reads.
unfoldable pub halves : List ℕ → List ℕ
halves [] = []
halves (w ∷ ws) = w % 2 ^ 32 ∷ w / 2 ^ 32 ∷ halves ws

unfoldable pub count_non_255_from : List ℕ → ℕ → ℕ
unfolding count_non_255_word
count_non_255_from [] ret = ret
count_non_255_from (v ∷ vs) ret = count_non_255_from vs (u32 (ret + count_non_255_word v))

unfoldable pub count_non_255_bytes : List ℕ → ℕ
unfolding halves count_non_255_from
count_non_255_bytes mem = count_non_255_from (halves mem) 0

-- `corpus_get_coverage` and `get_total_coverage`, of the maps that they read.
unfoldable pub corpus_get_coverage : List ℕ → ℕ
unfolding count_bytes
corpus_get_coverage trace_bits = count_bytes trace_bits

unfoldable pub get_total_coverage : List ℕ → ℕ
unfolding count_non_255_bytes
get_total_coverage virgin_bits = count_non_255_bytes virgin_bits

-- MAP_SIZE in words.
abbrev pub map_words : ℕ
map_words = 16384

-- The two `memset`s of `setup_shm`: the virgin map and the trace map.
unfoldable pub setup_shm : List ℕ × List ℕ
setup_shm = (replicate map_words 18446744073709551615, replicate map_words 0)

unfoldable pub clean_trace_bits : List ℕ → List ℕ
clean_trace_bits [] = []
clean_trace_bits (w ∷ ws) = 0 ∷ clean_trace_bits ws
