-- ===== src/LocatedBlocks/Scan.antt =====
-- LocatedBlocksImpl::findBlock against a look at every block.
use libhdfs.Prelude.{
  ℕ, suc, ◌+◌, ◌-◌, ◌<◌, ◌≤◌, ◌≡◌, refl, ◌∙◌, sym, ap, arith, ltb, leb, ◌==◌, ◌&&◌, if◌then◌else◌,
  true, false, inl, inr, Bool-cases, List, [], ◌∷◌, Option, none, some, Result, ok, ◌>>=◌,
  get_elem?,
}
use libhdfs.LocatedBlocks.{
  LocatedBlock, LocatedBlocks, lower_bound, back, deref, choose, if_inside, begins_after,
  find_block,
}

-- The blocks hold something each, and lie behind `start` one after the other.
abbrev pub AreInOrder : ℕ → List LocatedBlock → Type 0
AreInOrder start [] = Unit
AreInOrder start (b ∷ bs) =
    (start ≤ b.offset) × (0 < b.num_bytes) × AreInOrder (b.offset + b.num_bytes) bs

-- Looking at every block in turn.
abbrev pub scan : ℕ → List LocatedBlock → Option LocatedBlock
scan position [] = none
scan position (b ∷ bs) =
    if leb b.offset position && ltb position (b.offset + b.num_bytes)
    then some b
    else scan position bs

scan_before :
    (position start : ℕ) (bs : List LocatedBlock)
    → AreInOrder start bs
    → position < start
    → scan position bs ≡ none
scan_before position start [] o h = refl
scan_before position start (b ∷ bs) (a, n, o) h =
    let t : (leb b.offset position && ltb position (b.offset + b.num_bytes)) ≡ false =
      ground arith in
    rw t (scan_before position (b.offset + b.num_bytes) bs o (omega arith))

choose-suc :
    (position k : ℕ) (b c : LocatedBlock) (bs : List LocatedBlock) (o : Option LocatedBlock)
    → choose position (b ∷ c ∷ bs) (suc (suc k)) o ≡ choose position (c ∷ bs) (suc k) o
unfolding choose back deref
choose-suc position k b c bs none = refl
choose-suc position k b c bs (some d) =
    let e : suc (suc k) - 1 ≡ suc k = omega arith in
    let f : suc k - 1 ≡ k = omega arith in
    let s : (suc (suc k) == 0) ≡ false = ground arith in
    let t : (suc k == 0) ≡ false = ground arith in rw (e, f, s, t) refl

search : ℕ → List LocatedBlock → Result (Option LocatedBlock)
search position bs =
    let bound = lower_bound position bs in
    choose position bs bound (get_elem? bs bound) >>= λ b. ok (if_inside position b)

search-first :
    (position : ℕ) (b : LocatedBlock) (bs : List LocatedBlock)
    → 0 < b.num_bytes
    → b.offset ≡ position
    → search position (b ∷ bs) ≡ ok (some b)
unfolding search choose lower_bound if_inside
search-first position b bs n e = ground arith

search-last :
    (position : ℕ) (b : LocatedBlock)
    → b.offset < position
    → search position (b ∷ []) ≡ ok (if_inside position b)
unfolding search choose lower_bound back
search-last position b h = ground arith

search-between :
    (position : ℕ) (b c : LocatedBlock) (bs : List LocatedBlock)
    → b.offset < position
    → position < c.offset
    → search position (b ∷ c ∷ bs) ≡ ok (if_inside position b)
unfolding search choose lower_bound deref
search-between position b c bs h k = ground arith

search-second :
    (position : ℕ) (b c : LocatedBlock) (bs : List LocatedBlock)
    → 0 < c.num_bytes
    → b.offset < position
    → c.offset ≡ position
    → search position (b ∷ c ∷ bs) ≡ ok (some c)
unfolding search choose lower_bound if_inside
search-second position b c bs n h e = ground arith

search-skip :
    (position : ℕ) (b c : LocatedBlock) (bs : List LocatedBlock)
    → b.offset < position
    → c.offset < position
    → search position (b ∷ c ∷ bs) ≡ search position (c ∷ bs)
unfolding search lower_bound
search-skip position b c bs h k =
    let s : ltb b.offset position ≡ true = ground arith in
    let t : ltb c.offset position ≡ true = ground arith in
    rw (s, t)
      (ap (λ r. r >>= λ b. ok (if_inside position b))
        (choose-suc position (lower_bound position bs) b c bs
          (get_elem? bs (lower_bound position bs))))

scan_skip :
    (position : ℕ) (b : LocatedBlock) (bs : List LocatedBlock)
    → b.offset + b.num_bytes ≤ position
    → scan position (b ∷ bs) ≡ scan position bs
scan_skip position b bs h = ground arith

scan_here :
    (position : ℕ) (b : LocatedBlock) (bs : List LocatedBlock)
    → b.offset ≤ position
    → scan position bs ≡ none
    → if_inside position b ≡ scan position (b ∷ bs)
unfolding if_inside
scan_here position b bs h e = ground arith

scan_first :
    (position : ℕ) (b : LocatedBlock) (bs : List LocatedBlock)
    → 0 < b.num_bytes
    → b.offset ≡ position
    → some b ≡ scan position (b ∷ bs)
scan_first position b bs n e = ground arith

later_block :
    (position : ℕ) (b c : LocatedBlock) (bs : List LocatedBlock)
    → 0 < c.num_bytes
    → b.offset < position
    → c.offset ≤ position
    → search position (b ∷ c ∷ bs) ≡ search position (c ∷ bs)
later_block position b c bs n h k = elim (Bool-cases (c.offset == position)) [
  | inl e ↦
      search-second position b c bs n h (ground arith)
      ∙ sym (search-first position c bs n (ground arith))
  | inr e ↦ search-skip position b c bs h (ground arith)
]

search-scan :
    (position start : ℕ) (b : LocatedBlock) (bs : List LocatedBlock)
    → AreInOrder start (b ∷ bs)
    → b.offset < position
    → search position (b ∷ bs) ≡ ok (scan position (b ∷ bs))
search-scan position start b [] (a, n, o) h =
    search-last position b h ∙ ap ok (scan_here position b [] (omega arith) refl)
search-scan position start b (c ∷ bs) (a, n, (next, m, o)) h =
    elim (Bool-cases (ltb c.offset position)) [
      | inl e ↦
          later_block position b c bs m h (ground arith)
          ∙ search-scan position (b.offset + b.num_bytes) c bs (next, m, o) (ground arith)
          ∙ ap ok (sym (scan_skip position b (c ∷ bs) (ground arith)))
      | inr e ↦ elim (Bool-cases (c.offset == position)) [
        | inl f ↦
            search-second position b c bs m h (ground arith)
            ∙ ap ok (
                scan_first position c bs m (ground arith)
                ∙ sym (scan_skip position b (c ∷ bs) (ground arith)))
        | inr f ↦
            search-between position b c bs h (ground arith)
            ∙ ap ok (
                scan_here position b (c ∷ bs) (omega arith)
                  (scan_before position c.offset (c ∷ bs) (omega arith, m, o) (ground arith)))
      ]
    ]

search_all :
    (position : ℕ) (bs : List LocatedBlock)
    → AreInOrder 0 bs
    → (if begins_after position bs then ok none else search position bs) ≡ ok (scan position bs)
unfolding begins_after
search_all position [] o = refl
search_all position (b ∷ bs) (a, n, o) = elim (Bool-cases (ltb position b.offset)) [
  | inl e ↦
      rw e (ap ok (sym (scan_before position b.offset (b ∷ bs) (omega arith, n, o) (ground arith))))
  | inr e ↦ rw e (elim (Bool-cases (b.offset == position)) [
    | inl f ↦
        search-first position b bs n (ground arith)
        ∙ ap ok (scan_first position b bs n (ground arith))
    | inr f ↦ search-scan position 0 b bs (a, n, o) (ground arith)
  ])
]

-- For blocks in order, findBlock gives the block that holds the position, as a look at every block
-- would find it, and no block where none does; from the end of the file on it gives the last block.
-- None of its assertions fails.
pub find_block-scan :
    (lb : LocatedBlocks) (position : ℕ)
    → AreInOrder 0 lb.blocks
    → find_block lb position
      ≡ ok (if ltb position lb.file_length then scan position lb.blocks else lb.last_block)
unfolding find_block
find_block-scan lb position o = elim (Bool-cases (ltb position lb.file_length)) [
  | inr e ↦ rw e refl
  | inl e ↦ rw e (unfold search in search_all position lb.blocks o)
]
