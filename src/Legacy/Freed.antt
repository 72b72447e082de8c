-- ===== src/Legacy/Freed.antt =====
-- cba_free: a block that is taken becomes the first of the free ones.
use simple_as_pi.Common.{
  ℕ, ◌+◌, ◌-◌, ◌*◌, ◌/◌, ◌%◌, ◌^◌, ◌≤◌, ◌<◌, ◌≡◌, ◌≢◌, ◌∙◌, refl, ◌⊎◌, inl, inr, true, false, none,
  some, List, [], ◌∷◌, arith, ◌==◌, ltb, leb, update, has, Bool-cases,
}
use simple_as_pi.Heap.{Words}
use simple_as_pi.Legacy.Blocks.{word_of, bottom_of, cba_free}
use simple_as_pi.Legacy.FreeBlocks.{
  block_at, FreeList, IsArray, word-plain, block_inside, FreeList-from,
}

blocks_apart :
    (bottom words i j : ℕ)
    → 2 ≤ words
    → (i == j) ≡ false
    → (block_at bottom words j + 8 ≤ block_at bottom words i)
      ⊎ (block_at bottom words i + 8 ≤ block_at bottom words j)
blocks_apart bottom words i j wide apart = elim (Bool-cases (ltb i j)) [
  | inl less ↦ inr (
      let inside = block_inside bottom words i j (ground (arith, less)) in
      omega (arith, inside, wide))
  | inr more ↦ inl (
      let inside = block_inside bottom words j i (ground (arith, more, apart)) in
      omega (arith, inside, wide))
]

-- A list that `i` is not in is not touched by what is stored in the block numbered `i`.
FreeList-outside :
    (bottom words num i p : ℕ) (m m' : Words) (is : List ℕ)
    → 2 ≤ words
    → has i is ≡ false
    → ((q : ℕ)
        → bottom ≤ q
        → (q + 4 ≤ block_at bottom words i) ⊎ (block_at bottom words i + 8 ≤ q)
        → m' q ≡ m q)
    → FreeList bottom words num m p is
    → FreeList bottom words num m' p is
FreeList-outside bottom words num i p m m' [] wide new keeps h = h
FreeList-outside bottom words num i p m m' (j ∷ is) wide new keeps h =
    let apart = blocks_apart bottom words i j wide (ground (arith, new)) in
    let first : m' p ≡ m p = keeps p (omega (arith, h.0)) (ground (arith, apart, h.0)) in
    let second : m' (p + 4) ≡ m (p + 4) =
      keeps (p + 4) (omega (arith, h.0)) (ground (arith, apart, h.0)) in
    (
      h.0,
      h.1,
      first ∙ h.2,
      FreeList-from bottom words num (m' (p + 4)) (m (p + 4)) m' is second (
          FreeList-outside bottom words num i (m (p + 4)) m m' is wide (ground (arith, new)) keeps
            h.3),
    )

-- What cba_free computes from a block of an array.
array_top :
    (block words num : ℕ) (m : Words)
    → m block ≡ num
    → m (block + 4) ≡ 4 * words
    → block_at (bottom_of block) words num < 2 ^ 32
    → word_of (bottom_of block) (m (block + 4) * m block % 2 ^ 32 / 4)
      ≡ block_at (bottom_of block) words num
array_top block words num m total size fits =
    let product : 4 * words * num ≡ 4 * (num * words) = grind arith in
    let whole : 4 * words * num % 2 ^ 32 / 4 ≡ num * words = omega (arith, product, fits) in
    rw (total, size, whole) (word-plain (bottom_of block) (num * words) fits)

-- The word of the block numbered `i` is `w`.
module _ (block words num i : ℕ) (m : Words) (total : m block ≡ num)
    (size : m (block + 4) ≡ 4 * words) (wide : 2 ≤ words) (less : i < num)
    (fits : block_at (bottom_of block) words num < 2 ^ 32)
    (small : 4 * (num * words) ≤ 2 ^ 31) where
  cba_free_taken :
      m (block_at (bottom_of block) words i) ≡ 4 * (i * words)
      → cba_free block (block_at (bottom_of block) words i + 4) m
        ≡ some (
            update
              (update
                (update m (block_at (bottom_of block) words i) (2 ^ 31 + 4 * (i * words)))
                (block_at (bottom_of block) words i + 4)
                (m (block + 8)))
              (block + 8)
              (block_at (bottom_of block) words i))
  unfolding cba_free
  cba_free_taken taken =
      let bottom = bottom_of block in
      let inside = block_inside bottom words i num less in
      let container : (block_at bottom words i + 4 + (2 ^ 32 - 4)) % 2 ^ 32
          ≡ block_at bottom words i =
        omega (arith, inside, fits, wide) in
      let low : leb bottom (block_at bottom words i) ≡ true = ground arith in
      let below : ltb (block_at bottom words i) (block_at bottom words num) ≡ true =
        ground (arith, inside, wide) in
      let clear : (4 * (i * words) / 2 ^ 31 % 2 == 0) ≡ true =
        ground (arith, inside, small, wide) in
      let quarter : 4 * (i * words) / 4 ≡ i * words = omega arith in
      let plain = word-plain bottom (i * words) (omega (arith, inside, fits)) in
      let same : (block_at bottom words i == block_at bottom words i) ≡ true = ground arith in
      let flag : 4 * (i * words) + 2 ^ 31 ≡ 2 ^ 31 + 4 * (i * words) = omega arith in
      let top = array_top block words num m total size fits in
      rw (container, top, low, below, taken, clear, quarter, plain, same, flag) refl

  cba_free_free :
      m (block_at (bottom_of block) words i) ≡ 2 ^ 31 + 4 * (i * words)
      → cba_free block (block_at (bottom_of block) words i + 4) m ≡ none
  unfolding cba_free
  cba_free_free free =
      let bottom = bottom_of block in
      let inside = block_inside bottom words i num less in
      let container : (block_at bottom words i + 4 + (2 ^ 32 - 4)) % 2 ^ 32
          ≡ block_at bottom words i =
        omega (arith, inside, fits, wide) in
      let low : leb bottom (block_at bottom words i) ≡ true = ground arith in
      let below : ltb (block_at bottom words i) (block_at bottom words num) ≡ true =
        ground (arith, inside, wide) in
      let set : ((2 ^ 31 + 4 * (i * words)) / 2 ^ 31 % 2 == 0) ≡ false =
        ground (arith, inside, small, wide) in
      rw (container, array_top block words num m total size fits, low, below, free, set) refl

-- The block numbered `i` of an array is freed: the memory is `m'`, the block is the first of the
-- free ones, before those numbered `is`, and it cannot be freed again.
abbrev pub IsFreed : ℕ → ℕ → ℕ → ℕ → List ℕ → Words → Words → Type 0
IsFreed block words num i is m m' =
    let p = block_at (bottom_of block) words i in
    (cba_free block (p + 4) m ≡ some m')
    × IsArray block words num m' (i ∷ is)
    × (cba_free block (p + 4) m' ≡ none)
    × ((q : ℕ) → q ≢ p → q ≢ p + 4 → q ≢ block + 8 → m' q ≡ m q)

-- cba_free of a block that is taken and holds its offset, of an array below 4 GiB of at most 2 GiB
-- of blocks of two words or more, whose free blocks are those listed: it succeeds, the array has
-- the same blocks, of which this one is the first that is free and the listed ones are behind it,
-- in order; no other word of memory has changed; and to free the block once more stops in PANIC.
pub cba_free-IsFreed :
    (block words num i : ℕ) (is : List ℕ) (m : Words)
    → IsArray block words num m is
    → i < num
    → has i is ≡ false
    → m (block_at (bottom_of block) words i) ≡ 4 * (i * words)
    → 2 ≤ words
    → block_at (bottom_of block) words num < 2 ^ 32
    → 4 * (num * words) ≤ 2 ^ 31
    → (m' : Words) × IsFreed block words num i is m m'
cba_free-IsFreed block words num i is m array less new taken wide fits small =
    let bottom = bottom_of block in
    let p = block_at bottom words i in
    let m' =
      update (update (update m p (2 ^ 31 + 4 * (i * words))) (p + 4) (m (block + 8))) (block + 8)
        p in
    let total : m' block ≡ num = ground (arith, array.0) in
    let size : m' (block + 4) ≡ 4 * words = ground (arith, array.1) in
    let head : m' (block + 8) ≡ p = ground arith in
    let word : m' p ≡ 2 ^ 31 + 4 * (i * words) = ground arith in
    let next : m' (p + 4) ≡ m (block + 8) = ground arith in
    let rest =
      FreeList-outside bottom words num i (m (block + 8)) m m' is wide new
        (λ q low apart. ground (arith, low, apart)) array.2 in
    (
      m',
      (
        cba_free_taken block words num i m array.0 array.1 wide less fits small taken,
        (
          total,
          size,
          FreeList-from bottom words num (m' (block + 8)) p m' (i ∷ is) head (
            refl,
            less,
            word,
            FreeList-from bottom words num (m' (p + 4)) (m (block + 8)) m' is next rest,
          ),
        ),
        cba_free_free block words num i m' total size wide less fits small word,
        λ q ne ne4 ne8. ground (arith, ne, ne4, ne8),
      ),
    )
