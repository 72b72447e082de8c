-- ===== src/Legacy/Made.antt =====
-- cb_array: the array that it makes, all of whose blocks are free.
use simple_as_pi.Common.{
  ℕ, zero, suc, ◌+◌, ◌-◌, ◌*◌, ◌/◌, ◌%◌, ◌^◌, ◌≤◌, ◌<◌, ◌≡◌, ◌∙◌, refl, ◌⊎◌, inl, false, arith,
  ◌==◌, update,
}
use simple_as_pi.Legacy.Blocks.{word_of, bottom_of, fill_words, link_blocks, with_head, cb_array}
use simple_as_pi.Heap.{Words}
use simple_as_pi.Legacy.FreeBlocks.{
  block_at, IsArray, count_from, word-plain, block_inside, FreeList-from, link_blocks-outside,
  link_blocks-FreeList,
}

fill_words-outside : (n p q : ℕ) (m : Words) → (q < p) ⊎ (p + 4 * n ≤ q) → fill_words n p m q ≡ m q
unfolding fill_words
fill_words-outside zero p q m out = refl
fill_words-outside (suc n) p q m out =
    let apart : (q == p) ≡ false = ground (arith, out) in
    let out' : (q < p + 4) ⊎ (p + 4 + 4 * n ≤ q) = ground (arith, out) in
    fill_words-outside n (p + 4) q (update m p 0x77665544) out' ∙ rw apart refl

last_block :
    (n words bottom : ℕ)
    → 2 ≤ words
    → block_at bottom words (suc n) < 2 ^ 32
    → word_of bottom (((suc n + (2 ^ 32 - 1)) % 2 ^ 32 * words + 1) % 2 ^ 32)
      ≡ block_at bottom words n + 4
last_block n words bottom wide fits =
    let inside = block_inside bottom words n (suc n) (omega arith) in
    let product : suc n * 1 ≤ suc n * words = grind arith in
    let last : (suc n + (2 ^ 32 - 1)) % 2 ^ 32 ≡ n = omega (arith, product, fits) in
    let index : (n * words + 1) % 2 ^ 32 ≡ n * words + 1 = omega (arith, inside, fits, wide) in
    let plain = word-plain bottom (n * words + 1) (omega (arith, inside, fits, wide)) in
    let shape : bottom + 4 * (n * words + 1) ≡ block_at bottom words n + 4 = omega arith in
    rw (last, index, plain) shape

-- What is filled and what the head takes is below the end of the blocks.
with_head-outside :
    (num words result q : ℕ) (m : Words)
    → block_at (bottom_of result) words num < 2 ^ 32
    → (q < result) ⊎ (block_at (bottom_of result) words num ≤ q)
    → with_head result num
        (4 * words)
        (fill_words ((num * (4 * words) + 12) % 2 ^ 32 / 4) result m)
        q
      ≡ m q
with_head-outside num words result q m fits out =
    let product : num * (4 * words) ≡ 4 * (num * words) = grind arith in
    let filled : (num * (4 * words) + 12) % 2 ^ 32 / 4 ≡ 3 + num * words =
      omega (arith, product, fits) in
    let not0 : (q == result) ≡ false = ground (arith, out) in
    let not4 : (q == result + 4) ≡ false = ground (arith, out) in
    let not8 : (q == result + 8) ≡ false = ground (arith, out) in
    rw (not8, not4, not0, filled)
      (fill_words-outside (3 + num * words) result q m (ground (arith, out)))

-- The list of blocks behind a head that is written.
linked-outside :
    (n words result q : ℕ) (m : Words)
    → 2 ≤ words
    → block_at (bottom_of result) words (suc n) < 2 ^ 32
    → (q < bottom_of result) ⊎ (block_at (bottom_of result) words (suc n) ≤ q)
    → update
        (link_blocks (suc n) 0 0 (4 * words) words (bottom_of result) m)
        (block_at (bottom_of result) words n + 4)
        0
        q
      ≡ m q
linked-outside n words result q m wide fits out =
    let bottom = bottom_of result in
    let inside = block_inside bottom words n (suc n) (omega arith) in
    let apart : (q == block_at bottom words n + 4) ≡ false = ground (arith, out, inside, wide) in
    rw apart (
      link_blocks-outside (suc n) 0 0 words bottom (suc n) q m (omega arith) wide fits
        (ground (arith, out)))

-- What cb_array returns, `made`, is an array of free blocks in the order of their addresses, in
-- memory that was `m`.
abbrev pub IsMade : ℕ → ℕ → ℕ → Words → ℕ × Words → Type 0
IsMade num words result m made =
    (made.0 ≡ result)
    × IsArray result words num made.1 (count_from 0 num)
    × ((q : ℕ) → (q < result) ⊎ (block_at (bottom_of result) words num ≤ q) → made.1 q ≡ m q)

IsMade-of :
    (num words result : ℕ) (m m' : Words) (made : ℕ × Words)
    → made ≡ (result, m')
    → IsArray result words num m' (count_from 0 num)
    → ((q : ℕ) → (q < result) ⊎ (block_at (bottom_of result) words num ≤ q) → m' q ≡ m q)
    → IsMade num words result m made
IsMade-of num words result m m' made e array outside = rw e (refl, array, outside)

-- cb_array for some blocks of a size that makes a whole number of words, two or more, with the
-- number and flag of each, at a result below 4 GiB with its blocks, which take at most 2 GiB: it
-- returns that address, where the head tells the number and the size of the blocks; the free
-- blocks are all of them, in the order of their addresses, each marked as free with its offset;
-- and memory outside of the array is as it was.
pub cb_array-IsMade :
    (num words size result : ℕ) (m : Words)
    → size + 4 ≡ 4 * words
    → 2 ≤ words
    → 0 < num
    → block_at (bottom_of result) words num < 2 ^ 32
    → 4 * (num * words) ≤ 2 ^ 31
    → IsMade num words result m (cb_array num size result m)
unfolding cb_array
cb_array-IsMade zero words size result m whole wide some_blocks fits small = ground arith
cb_array-IsMade (suc n) words size result m whole wide some_blocks fits small =
    let quarter : 4 * words / 4 ≡ words = omega arith in
    let given : (result == 0xffffffff) ≡ false = ground (arith, fits) in
    let num = suc n in
    let bottom = bottom_of result in
    let m2 =
      with_head result num (4 * words)
        (fill_words ((num * (4 * words) + 12) % 2 ^ 32 / 4) result m) in
    let m' =
      update (link_blocks num 0 0 (4 * words) words bottom m2) (block_at bottom words n + 4) 0 in
    let keeps : (q : ℕ) → (q < bottom) ⊎ (block_at bottom words num ≤ q) → m' q ≡ m2 q =
      λ q out. linked-outside n words result q m2 wide fits out in
    let total : m2 result ≡ num = ground arith in
    let size_there : m2 (result + 4) ≡ 4 * words = ground arith in
    let first_there : m2 (result + 8) ≡ block_at bottom words 0 = ground arith in
    let free =
      link_blocks-FreeList n 0 n 0 words bottom num m2 (omega arith) (omega arith) (omega arith)
        wide fits small in
    IsMade-of num words result m m' (cb_array num size result m)
      (rw (given, whole, quarter, last_block n words bottom wide fits) refl)
      (
        keeps result (inl (omega arith)) ∙ total,
        keeps (result + 4) (inl (omega arith)) ∙ size_there,
        FreeList-from bottom words num (m' (result + 8)) (block_at bottom words 0) m'
            (count_from 0 num) (keeps (result + 8) (inl (omega arith)) ∙ first_there) free,
      )
      (λ q out. keeps q (ground (arith, out)) ∙ with_head-outside num words result q m fits out)
