-- ===== src/AflMutator/Blocks/Region.antt =====
-- Every case of the AFL-style havoc stays inside the buffer, and so does the length that it leaves.
use blueman_artifact.Prelude.{
  ℕ, zero, suc, ◌+◌, ◌-◌, ◌/◌, ◌^◌, ◌≤◌, ◌<◌, ◌≡◌, arith, min, ltb, ltb→ge, leb, ◌==◌, ◌&&◌, not,
  if◌then◌else◌, bit_xor, u8, u32, sub_u32,
}
use blueman_artifact.Machine.{Cmd, pure, ◌>>◌}
use blueman_artifact.Machine.Touches.{
  Touches, Touches-pure, Touches-bind, Touches-if, Touches-rand_mod, Touches-load, Touches-store,
  Touches-widen,
}
use blueman_artifact.AflMutator.{minus, plus}
use blueman_artifact.AflMutator.Region.{store_big_endian-Touches, afl_case-Touches}
use blueman_artifact.AflMutator.Blocks.{
  memmove, memset, block_range, choose_block_len, load_big_endian, arith_dword, xor_byte,
  delete_block, fill_block, insert_block, overwrite_block, block_case, afl_switch,
}

-- The bounds of a block are in order.
abbrev Bounds : ℕ × ℕ → Type 0
Bounds (low, high) = (1 ≤ low) × (low ≤ high) × (high ≤ 1500)

-- A block is not empty, and fits.
abbrev IsBlock : ℕ → ℕ → Type 0
IsBlock limit k = (1 ≤ k) × (k ≤ limit)

module _ {lo hi : ℕ} where
  memmove-Touches :
      (dst src k : ℕ)
      → lo ≤ dst
      → dst + k ≤ hi
      → src + k ≤ hi
      → Touches lo hi (λ _. Unit) (memmove dst src k)
  unfolding memmove
  memmove-Touches dst src k from fits readable =
      Touches-bind (Touches-load k src readable) λ bytes u. Touches-store k dst bytes from fits

  memset-Touches : (i c k : ℕ) → lo ≤ i → i + k ≤ hi → Touches lo hi (λ _. Unit) (memset i c k)
  unfolding memset
  memset-Touches i c zero from fits = Touches-pure tt
  memset-Touches i c (suc k) from fits =
      Touches-bind (Touches-store 1 i c from (omega arith))
        λ a u. memset-Touches (i + 1) c k (omega arith) (omega arith)

  block_range-Touches : (rlim : ℕ) → Touches lo hi Bounds (block_range rlim)
  unfolding block_range
  block_range-Touches zero = Touches-pure (omega arith)
  block_range-Touches (suc zero) = Touches-pure (omega arith)
  block_range-Touches (suc (suc n)) =
      Touches-bind (Touches-rand_mod (omega arith)) λ r u.
        Touches-if (r == 0) (λ e. Touches-pure (omega arith)) (λ e. Touches-pure (omega arith))

  choose_block_len-Touches :
      (limit : ℕ)
      → 1 ≤ limit
      → limit < 2 ^ 32
      → Touches lo hi (IsBlock limit) (choose_block_len limit)
  unfolding choose_block_len
  choose_block_len-Touches limit pos word =
      Touches-if (leb limit 1) (λ e. Touches-pure (omega arith))
        λ e. Touches-bind (Touches-rand_mod (omega arith)) λ rlim u.
          Touches-bind (block_range-Touches rlim) λ range b.
            let more : 1 < limit = ground arith in
            let low : ℕ = if leb limit range.0 then 1 else range.0 in
            let ordered : (1 ≤ low) × (low ≤ min range.1 limit) = ground arith in
            Touches-bind (Touches-rand_mod (omega arith)) λ r below. Touches-pure (omega arith)

load_big_endian-Touches :
    {lo hi : ℕ} (i : ℕ) → i + 4 ≤ hi → Touches lo hi (λ _. Unit) (load_big_endian i)
unfolding load_big_endian
load_big_endian-Touches i fits = Touches-bind (Touches-load 1 i (omega arith)) λ b₀ u.
    Touches-bind (Touches-load 1 (i + 1) (omega arith)) λ b₁ u.
      Touches-bind (Touches-load 1 (i + 2) (omega arith))
        λ b₂ u. Touches-bind (Touches-load 1 (i + 3) (omega arith)) λ b₃ u. Touches-pure tt

module _ (p n max_bytes_len : ℕ) (within : n ≤ max_bytes_len) (word : max_bytes_len < 2 ^ 32) where
  -- A length within the buffer, and not zero if the old one was not.
  abbrev pub IsLength : ℕ → Type 0
  IsLength k = (k ≤ max_bytes_len) × (1 ≤ n → 1 ≤ k)

  arith_dword-Touches :
      (change : ℕ → ℕ → ℕ) → Touches p (p + max_bytes_len) (λ _. Unit) (arith_dword change p n)
  unfolding arith_dword
  arith_dword-Touches change =
      Touches-if (ltb n 4) (λ e. Touches-pure tt)
        λ e.
          let room = ltb→ge n 4 e in
          Touches-bind (Touches-rand_mod (omega arith)) λ pos below.
            Touches-bind (Touches-rand_mod (omega arith)) λ r u.
              Touches-bind (Touches-rand_mod (omega arith)) λ little v.
                Touches-if (little == 0)
                  (λ z. Touches-bind (load_big_endian-Touches (p + pos) (omega arith)) λ original w.
                    Touches-widen (omega arith) (omega arith)
                      (store_big_endian-Touches (p + pos) (u32 (change original (r + 1)))))
                  (λ z. Touches-bind (Touches-load 4 (p + pos) (omega arith)) λ old w.
                    Touches-store 4 (p + pos) (change old (r + 1)) (omega arith) (omega arith))

  xor_byte-Touches : Touches p (p + max_bytes_len) (λ _. Unit) (xor_byte p n)
  unfolding xor_byte
  xor_byte-Touches =
      Touches-if (n == 0) (λ e. Touches-pure tt)
        λ e.
          let pos : 0 < n = ground arith in
          Touches-bind (Touches-rand_mod pos) λ b below.
            Touches-bind (Touches-rand_mod (omega arith)) λ r u.
              Touches-bind (Touches-load 1 (p + b) (omega arith)) λ old v.
                Touches-store 1 (p + b) (bit_xor old (u8 (r + 1))) (omega arith) (omega arith)

  delete_block-Touches : Touches p (p + max_bytes_len) IsLength (delete_block p n)
  unfolding delete_block
  delete_block-Touches =
      Touches-if (ltb n 2) (λ e. Touches-pure (within, λ h. h))
        λ e.
          let room = ltb→ge n 2 e in
          Touches-bind (choose_block_len-Touches (n / 2) (omega arith) (omega arith)) λ chosen c.
            let del_len : ℕ = if leb n chosen then 1 else chosen in
            let some_left : (1 ≤ del_len) × (del_len < n) = ground arith in
            Touches-bind (Touches-rand_mod (omega arith)) λ del_from below.
              Touches-bind
                (memmove-Touches (p + del_from) (p + del_from + del_len)
                  (sub_u32 (sub_u32 n del_from) del_len) (omega arith) (omega arith) (omega arith))
                λ a u. Touches-pure (omega arith)

  fill_block-Touches :
      (insert_at insert_len : ℕ)
      → insert_at ≤ n
      → n + insert_len ≤ max_bytes_len
      → Touches p (p + max_bytes_len) (λ _. Unit) (fill_block p n insert_at insert_len)
  unfolding fill_block
  fill_block-Touches insert_at insert_len inside fits =
      Touches-bind (Touches-rand_mod (omega arith)) λ q u.
        Touches-if (ltb q 3 && not (n == 0))
          (λ e.
            let pos : 0 < n = ground arith in
            Touches-bind (Touches-rand_mod pos) λ clone_from below.
              let clone_len : ℕ = min insert_len (sub_u32 n clone_from) in
              Touches-bind
                (memmove-Touches (p + insert_at) (p + clone_from) clone_len (omega arith)
                  (omega arith) (omega arith))
                λ a v.
                  Touches-if (ltb clone_len insert_len)
                    (λ z. Touches-bind (Touches-rand_mod (omega arith)) λ c w.
                      memset-Touches (p + insert_at + clone_len) c (insert_len - clone_len)
                        (omega arith) (omega arith))
                    (λ z. Touches-pure tt))
          (λ e.
            Touches-bind (Touches-rand_mod (omega arith))
              λ c w. memset-Touches (p + insert_at) c insert_len (omega arith) (omega arith))

  insert_block-Touches : Touches p (p + max_bytes_len) IsLength (insert_block p max_bytes_len n)
  unfolding insert_block
  insert_block-Touches =
      Touches-if (sub_u32 max_bytes_len n == 0) (λ e. Touches-pure (within, λ h. h))
        λ e.
          let room : 1 ≤ sub_u32 max_bytes_len n = ground arith in
          let left : sub_u32 max_bytes_len n ≡ max_bytes_len - n = omega arith in
          Touches-bind
            (choose_block_len-Touches (min 64 (sub_u32 max_bytes_len n)) (omega arith)
              (omega arith))
            λ chosen c.
              let insert_len : ℕ = if chosen == 0 then 1 else chosen in
              let fits : n + insert_len ≤ max_bytes_len = ground arith in
              Touches-bind (Touches-rand_mod (omega arith)) λ insert_at below.
                Touches-bind
                  (memmove-Touches (p + insert_at + insert_len) (p + insert_at)
                    (sub_u32 n insert_at) (omega arith) (omega arith) (omega arith))
                  λ a u.
                    Touches-bind (fill_block-Touches insert_at insert_len (omega arith) fits)
                      λ b v. Touches-pure (omega arith)

  overwrite_block-Touches : Touches p (p + max_bytes_len) (λ _. Unit) (overwrite_block p n)
  unfolding overwrite_block
  overwrite_block-Touches =
      Touches-if (ltb n 2) (λ e. Touches-pure tt)
        λ e.
          let room = ltb→ge n 2 e in
          Touches-bind (choose_block_len-Touches (sub_u32 n 1) (omega arith) (omega arith))
            λ copy_len c. Touches-bind (Touches-rand_mod (omega arith)) λ copy_to below.
              Touches-bind (Touches-rand_mod (omega arith)) λ q u.
                Touches-if (ltb q 3)
                  (λ z. Touches-bind (Touches-rand_mod (omega arith)) λ copy_from low.
                    Touches-if (copy_from == copy_to) (λ s. Touches-pure tt)
                      λ s.
                        memmove-Touches (p + copy_to) (p + copy_from) copy_len (omega arith)
                          (omega arith) (omega arith))
                  (λ z.
                    Touches-bind (Touches-rand_mod (omega arith))
                      λ v w. memset-Touches (p + copy_to) v copy_len (omega arith) (omega arith))

  kept-Touches :
      {c : Cmd (Unit {0})}
      → Touches p (p + max_bytes_len) (λ _. Unit) c
      → Touches p (p + max_bytes_len) IsLength (c >> pure n)
  kept-Touches t = Touches-bind t λ a u. Touches-pure (within, λ h. h)

  block_case-Touches :
      (c : ℕ) → Touches p (p + max_bytes_len) IsLength (block_case p max_bytes_len n c)
  unfolding block_case
  block_case-Touches zero = kept-Touches (arith_dword-Touches minus)
  block_case-Touches (suc zero) = kept-Touches (arith_dword-Touches plus)
  block_case-Touches (suc (suc zero)) = kept-Touches xor_byte-Touches
  block_case-Touches (suc (suc (suc zero))) = delete_block-Touches
  block_case-Touches (suc (suc (suc (suc zero)))) = delete_block-Touches
  block_case-Touches (suc (suc (suc (suc (suc zero))))) = insert_block-Touches
  block_case-Touches (suc (suc (suc (suc (suc (suc zero)))))) = kept-Touches overwrite_block-Touches
  block_case-Touches (suc (suc (suc (suc (suc (suc (suc _))))))) = Touches-pure (within, λ h. h)

-- For a length within a buffer below 2 ^ 28 bytes, every case of the switch, also those that
-- `rand() % 8` does not reach, returns for every run of the random numbers, with no access outside
-- the buffer. The length that it leaves is within the buffer, and is not zero if the old one was not.
pub afl_switch-Touches :
    (p n max_bytes_len : ℕ) (within : n ≤ max_bytes_len) (small : max_bytes_len < 2 ^ 28) (c : ℕ)
    → Touches p
        (p + max_bytes_len)
        (λ k. (k ≤ max_bytes_len) × (1 ≤ n → 1 ≤ k))
        (afl_switch p max_bytes_len n c)
unfolding afl_switch
afl_switch-Touches p n max_bytes_len within small c =
    Touches-if (ltb c 8)
      (λ e.
        kept-Touches p n max_bytes_len within (omega arith)
          (Touches-widen (omega arith) (omega arith) (afl_case-Touches p n (omega arith) c)))
      (λ e. block_case-Touches p n max_bytes_len within (omega arith) (c - 8))
