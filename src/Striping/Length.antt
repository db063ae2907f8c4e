-- ===== src/Striping/Length.antt =====
-- StripedBlockUtil::getInternalBlockLength and lastCellSize: how many bytes of a block group lie in
-- one of its internal blocks.
use libhdfs.Prelude.{
  ℕ, zero, suc, ◌+◌, ◌-◌, ◌*◌, ◌/◌, ◌%◌, ◌^◌, ◌≤◌, ◌<◌, ◌≡◌, refl, ◌∙◌, sym, ap, ◌||◌, arith, ltb,
  ◌==◌, if◌then◌else◌, Result, ok, throw, fault, ◌>>=◌, invalid_parameter, i32, cast32, i32_pos,
  i32_large, cast32_pos, dec_lt, div_of_sum, mod_of_sum,
}
use libhdfs.Prelude.Int.{ℤ, pos, pos_part, ltb_ℤ, leb_ℤ, ◌+ℤ◌, ◌-ℤ◌, ◌*ℤ◌}
use mathlib.Core.Path.{fun_ext}
use libhdfs.Prelude.Int.{+ℤ_pos, -ℤ_pos, *ℤ_pos}

-- lastCellSize. `size -= i * cellSize; if (size < 0) size = 0;` is the subtraction that stops at 0.
unfoldable pub last_cell_size : ℕ → ℕ → ℕ → ℕ → ℕ
last_cell_size size cell_size num_data_blocks i =
    let size' = if ltb i num_data_blocks then size - i * cell_size else size in
    if ltb cell_size size' then cell_size else size'

-- The body of getInternalBlockLength behind its guard, so on numbers that are not negative.
unfoldable pub checked_block_length : ℕ → ℕ → ℕ → ℕ → Result ℤ
checked_block_length data_size cell_size num_data_blocks idx =
    i32 (pos cell_size *ℤ pos num_data_blocks) >>= λ z.
    let stripe_size = pos_part z in
    let last_stripe_data_len = data_size % stripe_size in
    if last_stripe_data_len == 0 then ok (pos (data_size / num_data_blocks)) else (do
      let num_stripes = cast32 ((data_size - 1) / stripe_size + 1)
      full_stripes ← i32 (num_stripes -ℤ pos 1)
      full_cells ← i32 (full_stripes *ℤ pos cell_size)
      i32 (full_cells +ℤ pos (last_cell_size last_stripe_data_len cell_size num_data_blocks idx)))

unfoldable pub get_internal_block_length : ℤ → ℤ → ℤ → ℤ → Result ℤ
get_internal_block_length data_size cell_size num_data_blocks idx =
    if ltb_ℤ data_size (pos 0)
      || (leb_ℤ cell_size (pos 0) || (leb_ℤ num_data_blocks (pos 0) || ltb_ℤ idx (pos 0)))
    then throw invalid_parameter
    else checked_block_length (pos_part data_size) (pos_part cell_size) (pos_part num_data_blocks)
        (pos_part idx)

-- The bytes of data block `i` when `q` stripes are full, and the last one holds `m` full cells and
-- `r` bytes more.
abbrev pub share : ℕ → ℕ → ℕ → ℕ → ℕ → ℕ
share c q m r i = q * c + (if ltb i m then c else if i == m then r else 0)

last_cell_size-below :
    (c k m r i : ℕ) → i < k → r < c → i < m → last_cell_size (m * c + r) c k i ≡ c
unfolding last_cell_size
last_cell_size-below c k m r i hk hr h = let e : i * c + c ≤ m * c = grind arith in ground arith

last_cell_size-at : (c k r i : ℕ) → i < k → r < c → last_cell_size (i * c + r) c k i ≡ r
unfolding last_cell_size
last_cell_size-at c k r i hk hr = ground arith

last_cell_size-above :
    (c k m r i : ℕ) → i < k → r < c → m < i → last_cell_size (m * c + r) c k i ≡ 0
unfolding last_cell_size
last_cell_size-above c k m r i hk hr h = let e : m * c + c ≤ i * c = grind arith in ground arith

pub last_cell_size-share :
    (c k m r i : ℕ)
    → i < k
    → r < c
    → last_cell_size (m * c + r) c k i ≡ (if ltb i m then c else if i == m then r else 0)
last_cell_size-share c k m r i hk hr = elim (dec_lt i m) [
  | yes p ↦ last_cell_size-below c k m r i hk hr p ∙ ground arith
  | no p ↦ elim (dec_lt m i) [
    | yes p' ↦ last_cell_size-above c k m r i hk hr p' ∙ ground arith
    | no p' ↦ let e : m ≡ i = omega arith in rw e (last_cell_size-at c k r i hk hr ∙ ground arith)
  ]
]

pub last_cell_size-le : (s c k i : ℕ) → last_cell_size s c k i ≤ c
unfolding last_cell_size
last_cell_size-le s c k i = ground arith

last_cell_size-zero : (c k i : ℕ) → last_cell_size 0 c k i ≡ 0
unfolding last_cell_size
last_cell_size-zero c k i = ground arith

-- The three checked operations behind the guard, where the block fits an `int32_t`.
checked_sum :
    (q c l : ℕ)
    → 0 < c
    → l ≤ c
    → q * c + c < 2 ^ 31
    → (i32 (cast32 (q + 1) -ℤ pos 1) >>= λ f. i32 (f *ℤ pos c) >>= λ g. i32 (g +ℤ pos l))
      ≡ ok (pos (q * c + l))
checked_sum q c l hc hl h =
    let small : q + 1 < 2 ^ 31 = grind arith in
    let back : q + 1 - 1 ≡ q = omega arith in
    rw (
      cast32_pos (q + 1) small,
      -ℤ_pos (q + 1) 1 (omega arith),
      back,
      i32_pos q (omega arith),
      *ℤ_pos q c,
      i32_pos (q * c) (omega arith),
      +ℤ_pos (q * c) l,
      i32_pos (q * c + l) (omega arith),
    )

guard_passed :
    (d c k i : ℕ)
    → 0 < c
    → 0 < k
    → get_internal_block_length (pos d) (pos c) (pos k) (pos i) ≡ checked_block_length d c k i
unfolding get_internal_block_length
guard_passed d c k i hc hk = ground arith

-- A group that ends at a stripe's end, and one that does not.
full_stripes_only :
    (d c k i : ℕ)
    → c * k < 2 ^ 31
    → d % (c * k) ≡ 0
    → checked_block_length d c k i ≡ ok (pos (d / k))
unfolding checked_block_length
full_stripes_only d c k i h1 e = rw (*ℤ_pos c k, i32_pos (c * k) h1, e)

partial_stripe :
    (d c k i q s : ℕ)
    → c * k < 2 ^ 31
    → q * c + c < 2 ^ 31
    → 0 < c
    → (d - 1) / (c * k) ≡ q
    → d % (c * k) ≡ suc s
    → checked_block_length d c k i ≡ ok (pos (q * c + last_cell_size (suc s) c k i))
unfolding checked_block_length
partial_stripe d c k i q s h1 h2 hc eq es =
    rw
      (
        *ℤ_pos c k,
        i32_pos (c * k) h1,
        eq,
        es,
        checked_sum q c (last_cell_size (suc s) c k i) hc (last_cell_size-le (suc s) c k i) h2,
      )
      (ground arith)

-- `d` bytes as `q` full stripes, `m` full cells and `r` bytes more.
module _ (c k q m r : ℕ) (hm : m < k) (hr : r < c) where
  cells_in_stripe : m * c + r < c * k
  cells_in_stripe = grind arith

  layout-mod : (q * (c * k) + (m * c + r)) % (c * k) ≡ m * c + r
  layout-mod = mod_of_sum q (c * k) (m * c + r) cells_in_stripe

  layout-div : (q * (c * k) + (m * c + r)) / (c * k) ≡ q
  layout-div = div_of_sum q (c * k) (m * c + r) cells_in_stripe

  layout-div-pred : 0 < m * c + r → (q * (c * k) + (m * c + r) - 1) / (c * k) ≡ q
  layout-div-pred h =
      let e : q * (c * k) + (m * c + r) - 1 ≡ q * (c * k) + (m * c + r - 1) = omega arith in
      let b : m * c + r - 1 < c * k = omega (arith, cells_in_stripe) in
      rw e (div_of_sum q (c * k) (m * c + r - 1) b)

  layout-div-blocks : m * c + r ≡ 0 → (q * (c * k) + (m * c + r)) / k ≡ q * c
  layout-div-blocks h =
      let e : q * (c * k) + (m * c + r) ≡ q * c * k + 0 = grind arith in
      rw e (div_of_sum (q * c) k 0 (omega arith))

  block_length_of_rest :
      (i s : ℕ)
      → c * k < 2 ^ 31
      → q * c + c < 2 ^ 31
      → m * c + r ≡ s
      → checked_block_length (q * (c * k) + (m * c + r)) c k i
        ≡ ok (pos (q * c + last_cell_size (m * c + r) c k i))
  block_length_of_rest i zero h1 h2 e =
      full_stripes_only _ c k i h1 (layout-mod ∙ e)
      ∙ ap (λ l. ok (pos l)) (layout-div-blocks e ∙ omega (arith, nothing_left))
    where
      nothing_left : last_cell_size (m * c + r) c k i ≡ 0
      nothing_left = rw e (last_cell_size-zero c k i)
  block_length_of_rest i (suc s) h1 h2 e =
      partial_stripe _ c k i q s h1 h2 (omega arith) (layout-div-pred (omega arith))
        (layout-mod ∙ e)
      ∙ ap (λ l. ok (pos (q * c + last_cell_size l c k i))) (sym e)

  -- getInternalBlockLength of a data block, by the layout of the group.
  pub get_internal_block_length-share :
      (i : ℕ)
      → i < k
      → c * k < 2 ^ 31
      → q * c + c < 2 ^ 31
      → get_internal_block_length (pos (q * (c * k) + (m * c + r))) (pos c) (pos k) (pos i)
        ≡ ok (pos (share c q m r i))
  get_internal_block_length-share i hi h1 h2 =
      guard_passed _ c k i (omega arith) (omega arith)
      ∙ block_length_of_rest i (m * c + r) h1 h2 refl
      ∙ ap (λ l. ok (pos (q * c + l))) (last_cell_size-share c k m r i hi hr)

last_cell_size_parity :
    (s c k i : ℕ) → 0 < k → k ≤ i → last_cell_size s c k i ≡ last_cell_size s c k 0
unfolding last_cell_size
last_cell_size_parity s c k i hk h = ground arith

checked_parity :
    (d c k i : ℕ) → 0 < k → k ≤ i → checked_block_length d c k i ≡ checked_block_length d c k 0
unfolding checked_block_length
checked_parity d c k i hk h =
    ap
      (λ (f : ℕ → ℕ). i32 (pos c *ℤ pos k) >>= λ z.
        if d % pos_part z == 0
        then ok (pos (d / k))
        else (i32 (cast32 ((d - 1) / pos_part z + 1) -ℤ pos 1) >>= λ x.
            i32 (x *ℤ pos c) >>= λ y. i32 (y +ℤ pos (f (d % pos_part z)))))
      (fun_ext λ s. last_cell_size_parity s c k i hk h)

-- On any arguments, valid or not, a parity block is given the length of the first data block.
pub internal_block_length-parity :
    (d c : ℤ) (k i : ℕ)
    → 0 < k
    → k ≤ i
    → get_internal_block_length d c (pos k) (pos i) ≡ get_internal_block_length d c (pos k) (pos 0)
unfolding get_internal_block_length
internal_block_length-parity d c k i hk h =
    rw (checked_parity (pos_part d) (pos_part c) k i hk h) (ground arith)

large_sum :
    (q c l : ℕ)
    → 0 < c
    → q + 1 < 2 ^ 31
    → 2 ^ 31 ≤ q * c
    → (i32 (cast32 (q + 1) -ℤ pos 1) >>= λ f. i32 (f *ℤ pos c) >>= λ g. i32 (g +ℤ pos l)) ≡ fault
large_sum q c l hc hq h =
    let back : q + 1 - 1 ≡ q = omega arith in
    rw (
      cast32_pos (q + 1) hq,
      -ℤ_pos (q + 1) 1 (omega arith),
      back,
      i32_pos q (omega arith),
      *ℤ_pos q c,
      i32_large (q * c) h,
    )

-- A group whose last stripe is partial and whose blocks hold 2 GiB or more in full cells makes the
-- product `(numStripes - 1) * cellSize` overflow its `int32_t`.
pub internal_block_length-overflow :
    (d c k i s : ℕ)
    → 0 < c
    → 0 < k
    → c * k < 2 ^ 31
    → d % (c * k) ≡ suc s
    → (d - 1) / (c * k) + 1 < 2 ^ 31
    → 2 ^ 31 ≤ (d - 1) / (c * k) * c
    → get_internal_block_length (pos d) (pos c) (pos k) (pos i) ≡ fault
internal_block_length-overflow d c k i s hc hk h1 es h2 h3 =
    guard_passed d c k i hc hk
    ∙ unfold checked_block_length in
      rw
        (
          *ℤ_pos c k,
          i32_pos (c * k) h1,
          es,
          large_sum ((d - 1) / (c * k)) c (last_cell_size (suc s) c k i) hc h2 h3,
        )
        (ground arith)
