-- ===== src/Legacy/FreeBlocks.antt =====
-- cb_array and cba_free: the list of the free blocks of an array, and the loop that makes it.
use simple_as_pi.Common.{
  ℕ, zero, suc, ◌+◌, ◌*◌, ◌%◌, ◌^◌, ◌≤◌, ◌<◌, ◌≡◌, ◌∙◌, ap, refl, ◌⊎◌, inl, true, false, List, [],
  ◌∷◌, arith, ◌==◌, update,
}
use simple_as_pi.Legacy.Blocks.{word_of, bottom_of, link_block, link_blocks}
use simple_as_pi.Heap.{Words}
use simple_as_pi.Kernel.{set_bit}

-- The address of a block, in an array of blocks of `words` words.
abbrev pub block_at : ℕ → ℕ → ℕ → ℕ
block_at bottom words i = bottom + 4 * (i * words)

-- The free blocks from the address `p` on are those numbered `is`, of `num`.
abbrev pub FreeList : ℕ → ℕ → ℕ → Words → ℕ → List ℕ → Type 0
FreeList bottom words num m p [] = p ≡ 0
FreeList bottom words num m p (i ∷ is) =
    (p ≡ block_at bottom words i)
    × (i < num)
    × (m p ≡ 2 ^ 31 + 4 * (i * words))
    × FreeList bottom words num m (m (p + 4)) is

-- `block` is an array of `num` blocks of `words` words, of which those numbered `is` are free.
abbrev pub IsArray : ℕ → ℕ → ℕ → Words → List ℕ → Type 0
IsArray block words num m is =
    (m block ≡ num)
    × (m (block + 4) ≡ 4 * words)
    × FreeList (bottom_of block) words num m (m (block + 8)) is

-- `n` numbers from `i` on.
abbrev pub count_from : ℕ → ℕ → List ℕ
count_from i zero = []
count_from i (suc n) = i ∷ count_from (suc i) n

pub word-plain : (bottom i : ℕ) → bottom + 4 * i < 2 ^ 32 → word_of bottom i ≡ bottom + 4 * i
unfolding word_of
word-plain bottom i h = omega arith

next_block :
    (bottom words i : ℕ) → block_at bottom words (suc i) ≡ block_at bottom words i + 4 * words
next_block bottom words i = grind arith

-- The block `i` lies before the end of `num` blocks.
pub block_inside :
    (bottom words i num : ℕ)
    → i < num
    → block_at bottom words i + 4 * words ≤ bottom + 4 * (num * words)
block_inside bottom words i num h =
    let product : suc i * words ≤ num * words = grind arith in
    let step : suc i * words ≡ i * words + words = grind arith in omega (arith, product, step)

pub link_blocks-outside :
    (n i offset words bottom num q : ℕ) (m : Words)
    → i + n ≤ num
    → 2 ≤ words
    → bottom + 4 * (num * words) < 2 ^ 32
    → (q < block_at bottom words i) ⊎ (block_at bottom words num ≤ q)
    → link_blocks n i offset (4 * words) words bottom m q ≡ m q
unfolding link_blocks
link_blocks-outside zero i offset words bottom num q m le wide fits out = refl
link_blocks-outside (suc n) i offset words bottom num q m le wide fits out =
    let inside = block_inside bottom words i num (omega (arith, le)) in
    let next = next_block bottom words i in
    let first = word-plain bottom (i * words) (omega (arith, inside, fits)) in
    let second = word-plain bottom (i * words + 1) (omega (arith, inside, fits, wide)) in
    let out' : (q < block_at bottom words (suc i)) ⊎ (block_at bottom words num ≤ q) =
      ground (arith, out, next) in
    let not_first : (q == word_of bottom (i * words)) ≡ false =
      ground (arith, out, first, inside) in
    let not_second : (q == word_of bottom (i * words + 1)) ≡ false =
      ground (arith, out, second, inside, wide) in
    let m' = link_block i offset words bottom m in
    let here : m' q ≡ m q = rw (not_second, not_first) refl in
    link_blocks-outside n (suc i) ((offset + 4 * words) % 2 ^ 32) words bottom num q m'
      (omega (arith, le)) wide fits out'
    ∙ here

link_block-written :
    (i offset words bottom num : ℕ) (m : Words)
    → i < num
    → offset ≡ 4 * (i * words)
    → 2 ≤ words
    → bottom + 4 * (num * words) < 2 ^ 32
    → 4 * (num * words) ≤ 2 ^ 31
    → (link_block i offset words bottom m (block_at bottom words i) ≡ 2 ^ 31 + 4 * (i * words))
      × (link_block i offset words bottom m (block_at bottom words i + 4)
          ≡ block_at bottom words (suc i))
link_block-written i offset words bottom num m less at wide fits small =
    let inside = block_inside bottom words i num less in
    let next = next_block bottom words i in
    let first = word-plain bottom (i * words) (omega (arith, inside, fits)) in
    let second = word-plain bottom (i * words + 1) (omega (arith, inside, fits, wide)) in
    let third = word-plain bottom (suc i * words) (omega (arith, next, inside, fits)) in
    let flag : set_bit (2 ^ 31) offset ≡ 2 ^ 31 + 4 * (i * words) =
      ground (arith, at, inside, small, wide) in
    let same : (block_at bottom words i == word_of bottom (i * words)) ≡ true =
      ground (arith, first) in
    let apart : (block_at bottom words i == word_of bottom (i * words + 1)) ≡ false =
      ground (arith, second) in
    let there : (block_at bottom words i + 4 == word_of bottom (i * words + 1)) ≡ true =
      ground (arith, second) in
    (rw (apart, same) flag, rw there third)

pub link_blocks-FreeList :
    (n i l offset words bottom num : ℕ) (m : Words)
    → l ≡ i + n
    → l < num
    → offset ≡ 4 * (i * words)
    → 2 ≤ words
    → bottom + 4 * (num * words) < 2 ^ 32
    → 4 * (num * words) ≤ 2 ^ 31
    → FreeList bottom words num
        (update
          (link_blocks (suc n) i offset (4 * words) words bottom m)
          (block_at bottom words l + 4)
          0)
        (block_at bottom words i)
        (count_from i (suc n))
unfolding link_blocks
link_blocks-FreeList zero i l offset words bottom num m end less at wide fits small =
    let w =
      link_block-written i offset words bottom num m (omega (arith, end, less)) at wide fits
        small in
    let same : l ≡ i = omega (arith, end) in
    let apart : (block_at bottom words i == block_at bottom words l + 4) ≡ false =
      ground (arith, ap (λ x. x * words) same) in
    let there : (block_at bottom words i + 4 == block_at bottom words l + 4) ≡ true =
      ground (arith, ap (λ x. x * words) same) in
    (refl, omega (arith, end, less), rw apart w.0, rw there refl)
link_blocks-FreeList (suc n) i l offset words bottom num m end less at wide fits small =
    let inner : i < num = omega (arith, end, less) in
    let w = link_block-written i offset words bottom num m inner at wide fits small in
    let m' = link_block i offset words bottom m in
    let next = next_block bottom words i in
    let later = block_inside bottom words i l (omega (arith, end)) in
    let keeps : (q : ℕ)
        → q < block_at bottom words (suc i)
        → link_blocks (suc n) (suc i) ((offset + 4 * words) % 2 ^ 32) (4 * words) words bottom m' q
          ≡ m' q =
      λ q lt.
        link_blocks-outside (suc n) (suc i) ((offset + 4 * words) % 2 ^ 32) words bottom num q m'
          (omega (arith, end, less)) wide fits (inl lt) in
    let inner_end = block_inside bottom words i num inner in
    let at' : (offset + 4 * words) % 2 ^ 32 ≡ 4 * (suc i * words) =
      let step : suc i * words ≡ i * words + words = grind arith in
      omega (arith, at, step, small, inner_end) in
    let ih =
      link_blocks-FreeList n (suc i) l ((offset + 4 * words) % 2 ^ 32) words bottom num m'
        (omega (arith, end)) less at' wide fits small in
    let apart : (block_at bottom words i == block_at bottom words l + 4) ≡ false =
      ground (arith, later) in
    let apart4 : (block_at bottom words i + 4 == block_at bottom words l + 4) ≡ false =
      ground (arith, later, wide) in
    (
      refl,
      inner,
      rw (apart, keeps (block_at bottom words i) (omega (arith, next, wide))) w.0,
      rw (apart4, keeps (block_at bottom words i + 4) (omega (arith, next, wide)), w.1) ih,
    )

pub FreeList-from :
    (bottom words num p q : ℕ) (m : Words) (is : List ℕ)
    → p ≡ q
    → FreeList bottom words num m q is
    → FreeList bottom words num m p is
FreeList-from bottom words num p q m is same h = rw same h
