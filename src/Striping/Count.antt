-- ===== src/Striping/Count.antt =====
-- getInternalBlockLength against an independent description: the bytes of the group are counted one
-- by one, byte `o` of the group being in the data block `o / cellSize % dataBlkNum`.
use libhdfs.Prelude.{
  ℕ, zero, suc, ◌+◌, ◌-◌, ◌*◌, ◌/◌, ◌%◌, ◌^◌, ◌≤◌, ◌<◌, ◌≡◌, refl, sym, ◌∙◌, ap, arith, ltb, ◌==◌,
  if◌then◌else◌, Result, ok, ◌>>=◌, div_of_sum, mod_of_sum,
}
use libhdfs.Prelude.Int.{ℤ, pos, ◌+ℤ◌, +ℤ_pos}
use libhdfs.Striping.Length.{share, get_internal_block_length, get_internal_block_length-share}
use native.Mathlib.Nat.{mod-lt, div-add-mod', div-lt_iff_lt-mul, mul_comm}

-- How many of the first `d` bytes of a group lie in data block `i`.
unfoldable pub bytes_in_block : ℕ → ℕ → ℕ → ℕ → ℕ
bytes_in_block c k i zero = 0
bytes_in_block c k i (suc d) = bytes_in_block c k i d + (if d / c % k == i then 1 else 0)

module _ (c k i : ℕ) where
  block_of_byte : (q m r : ℕ) → m < k → r < c → (q * (c * k) + (m * c + r)) / c % k ≡ m
  block_of_byte q m r hm hr =
      let e : q * (c * k) + (m * c + r) ≡ (q * k + m) * c + r = grind arith in
      rw (e, div_of_sum (q * k + m) c r hr) (mod_of_sum q k m hm)

  -- One byte more at cell `m` of the last stripe.
  next_byte :
      (d q m r : ℕ)
      → m < k
      → r < c
      → d ≡ q * (c * k) + (m * c + r)
      → bytes_in_block c k i d ≡ share c q m r i
      → bytes_in_block c k i (suc d) ≡ share c q m r i + (if m == i then 1 else 0)
  unfolding bytes_in_block
  next_byte d q m r hm hr e ih =
      let b : d / c % k ≡ m = rw e (block_of_byte q m r hm hr) in rw (b, ih)

  -- The three ways in which the byte before lies.
  same_cell : (q m r : ℕ) → share c q m r i + (if m == i then 1 else 0) ≡ share c q m (suc r) i
  same_cell q m r = ground arith

  cell_before :
      (q m : ℕ) → 0 < c → share c q m (c - 1) i + (if m == i then 1 else 0) ≡ share c q (suc m) 0 i
  cell_before q m hc = ground arith

  stripe_before :
      (q : ℕ)
      → 0 < c
      → i < k
      → share c q (k - 1) (c - 1) i + (if (k - 1) == i then 1 else 0) ≡ share c (suc q) 0 0 i
  stripe_before q hc hi = ground arith

  stripe_pos : 0 < c → 0 < k → 0 < c * k
  stripe_pos hc hk = grind arith

  last_byte_of_stripe :
      (q : ℕ)
      → 0 < c
      → 0 < k
      → suc (q * (c * k) + ((k - 1) * c + (c - 1))) ≡ suc q * (c * k) + (0 * c + 0)
  last_byte_of_stripe q hc hk =
      let e : k ≡ (k - 1) + 1 = omega arith in
      let g : c * k ≡ (k - 1) * c + c = ap (λ t. c * t) e ∙ omega arith in omega arith

  bytes_in_block_at :
      (d q m r : ℕ)
      → i < k
      → m < k
      → r < c
      → d ≡ q * (c * k) + (m * c + r)
      → bytes_in_block c k i d ≡ share c q m r i
  bytes_in_block_at zero (suc q) m r hi hm hr e =
      absurd (omega (arith, stripe_pos (omega arith) (omega arith)))
  bytes_in_block_at zero zero (suc m) r hi hm hr e = absurd (omega arith)
  bytes_in_block_at zero zero zero (suc r) hi hm hr e = absurd (omega arith)
  bytes_in_block_at zero zero zero zero hi hm hr e = unfold bytes_in_block in ground arith
  bytes_in_block_at (suc d) q m (suc r) hi hm hr e =
      next_byte d q m r hm (omega arith) (omega arith)
        (bytes_in_block_at d q m r hi hm (omega arith) (omega arith))
      ∙ same_cell q m r
  bytes_in_block_at (suc d) q (suc m) zero hi hm hr e =
      let e' : d ≡ q * (c * k) + (m * c + (c - 1)) = omega arith in
      next_byte d q m (c - 1) (omega arith) (omega arith) e'
        (bytes_in_block_at d q m (c - 1) hi (omega arith) (omega arith) e')
      ∙ cell_before q m hr
  bytes_in_block_at (suc d) (suc q) zero zero hi hm hr e =
      let e' : d ≡ q * (c * k) + ((k - 1) * c + (c - 1)) =
        omega (arith, last_byte_of_stripe q hr hm) in
      next_byte d q (k - 1) (c - 1) (omega arith) (omega arith) e'
        (bytes_in_block_at d q (k - 1) (c - 1) hi (omega arith) (omega arith) e')
      ∙ stripe_before q hr hi
  bytes_in_block_at (suc d) zero zero zero hi hm hr e = absurd (omega arith)

-- Every byte count, in the layout that the code's divisions find.
module _ (c k d : ℕ) (hc : 0 < c) (hk : 0 < k) where
  last_stripe_cells : d % (c * k) / c < k
  last_stripe_cells = (div-lt_iff_lt-mul {k = c} hc).1 (
      let e : c * k ≡ k * c = mul_comm c k in
      omega (arith, mod-lt d {m = c * k} (stripe_pos c k 0 hc hk)))

  layout_of : d ≡ d / (c * k) * (c * k) + (d % (c * k) / c * c + d % (c * k) % c)
  layout_of = omega (arith, div-add-mod' d (c * k), div-add-mod' (d % (c * k)) c)

-- getInternalBlockLength of a data block is the number of the group's bytes that lie in that block,
-- where the stripe size and the block's full cells fit an `int32_t`.
pub internal_block_length-counts :
    (c k d i : ℕ)
    → 0 < c
    → i < k
    → c * k < 2 ^ 31
    → d / (c * k) * c + c < 2 ^ 31
    → get_internal_block_length (pos d) (pos c) (pos k) (pos i) ≡ ok (pos (bytes_in_block c k i d))
internal_block_length-counts c k d i hc hi h1 h2 =
    let hk : 0 < k = omega arith in
    let cells : d % (c * k) / c < k = last_stripe_cells c k d hc hk in
    let rest : d % (c * k) % c < c = mod-lt (d % (c * k)) hc in
    let e = layout_of c k d hc hk in
    ap (λ n. get_internal_block_length (pos n) (pos c) (pos k) (pos i)) e
    ∙ get_internal_block_length-share c k (d / (c * k)) (d % (c * k) / c) (d % (c * k) % c) cells
        rest i hi h1 h2
    ∙ ap (λ n. ok (pos n)) (sym (bytes_in_block_at c k i d _ _ _ hi cells rest e))

-- The bytes of the first `n` data blocks.
bytes_in_blocks : ℕ → ℕ → ℕ → ℕ → ℕ
bytes_in_blocks c k zero d = 0
bytes_in_blocks c k (suc n) d = bytes_in_blocks c k n d + bytes_in_block c k n d

bytes_in_blocks_none : (c k n : ℕ) → bytes_in_blocks c k n 0 ≡ 0
unfolding bytes_in_blocks bytes_in_block
bytes_in_blocks_none c k zero = refl
bytes_in_blocks_none c k (suc n) = omega (arith, bytes_in_blocks_none c k n)

-- A byte lies in one block, so it adds one to the blocks up to that one.
bytes_in_blocks_next :
    (c k n d : ℕ)
    → bytes_in_blocks c k n (suc d) ≡ bytes_in_blocks c k n d + (if ltb (d / c % k) n then 1 else 0)
unfolding bytes_in_blocks bytes_in_block
bytes_in_blocks_next c k zero d = ground arith
bytes_in_blocks_next c k (suc n) d = ground (arith, bytes_in_blocks_next c k n d)

bytes_in_blocks_all : (c k d : ℕ) → 0 < k → bytes_in_blocks c k k d ≡ d
bytes_in_blocks_all c k zero hk = bytes_in_blocks_none c k k
bytes_in_blocks_all c k (suc d) hk =
    let b : d / c % k < k = mod-lt (d / c) hk in
    bytes_in_blocks_next c k k d ∙ ground (arith, bytes_in_blocks_all c k d hk)

-- The sum of getInternalBlockLength over the first `n` data blocks.
abbrev pub total_length : ℕ → ℕ → ℕ → ℕ → Result ℤ
total_length c k d zero = ok (pos 0)
total_length c k d (suc n) = do
  sum ← total_length c k d n
  len ← get_internal_block_length (pos d) (pos c) (pos k) (pos n)
  ok (sum +ℤ len)

total_length-bytes :
    (c k d n : ℕ)
    → 0 < c
    → n ≤ k
    → c * k < 2 ^ 31
    → d / (c * k) * c + c < 2 ^ 31
    → total_length c k d n ≡ ok (pos (bytes_in_blocks c k n d))
unfolding bytes_in_blocks
total_length-bytes c k d zero hc hn h1 h2 = refl
total_length-bytes c k d (suc n) hc hn h1 h2 = rw (
  total_length-bytes c k d n hc (omega arith) h1 h2,
  internal_block_length-counts c k d n hc hn h1 h2,
  +ℤ_pos (bytes_in_blocks c k n d) (bytes_in_block c k n d),
)

-- The lengths that getInternalBlockLength gives the data blocks of a group add up to the group's
-- size, where the stripe size and a block's full cells fit an `int32_t`.
pub total_length-group :
    (c k d : ℕ)
    → 0 < c
    → 0 < k
    → c * k < 2 ^ 31
    → d / (c * k) * c + c < 2 ^ 31
    → total_length c k d k ≡ ok (pos d)
total_length-group c k d hc hk h1 h2 =
    total_length-bytes c k d k hc (omega arith) h1 h2
    ∙ ap (λ n. ok (pos n)) (bytes_in_blocks_all c k d hk)
