-- ===== src/Heap/Allocate.antt =====
-- A heap whose memory has never been freed: one free block, of which heap_allocate takes the end.
use simple_as_pi.Common.{
  ℕ, suc, ◌+◌, ◌-◌, ◌*◌, ◌/◌, ◌%◌, ◌^◌, ◌≤◌, ◌<◌, ◌≡◌, true, false, arith, ◌==◌, ltb, leb, update,
}
use simple_as_pi.Heap.{
  Words, Outcome, returns, magic_heap, magic_used, heap_initialise, carve, fit_loop, first_fit,
  block_size, heap_allocate,
}

-- The heap at `base` has one free block, of `size` bytes, and lies below the top of memory.
pub record IsHeap (base size : ℕ) (m : Words) : Type 0 where
  pub magic : m base ≡ magic_heap
  pub free : m (base + 4) ≡ base + 8
  pub alone : m (base + 8) ≡ base + 8
  pub bytes : m (base + 8 + 8) ≡ size
  pub low : 12 ≤ size
  pub top : base + 8 + size < 2 ^ 32

-- heap_initialise, of 20 bytes or more that end below 2^32, makes a heap of one free block, of all
-- the bytes but for the heap's own record.
pub heap_initialise-IsHeap :
    (base size : ℕ) (m : Words)
    → 20 ≤ size
    → base + size < 2 ^ 32
    → IsHeap base (size - 8) (heap_initialise base size m)
unfolding heap_initialise
heap_initialise-IsHeap base size m low top = record {
  magic = ground arith;
  free = ground arith;
  alone = ground arith;
  bytes = ground arith;
  low = omega arith;
  top = omega arith;
}

-- The block that heap_allocate gives for `bytes` bytes, from `size` bytes of free memory.
pub record Allocated (base size bytes : ℕ) (m : Words) (o : Outcome) : Type 0 where
  pub at : ℕ
  pub after : Words
  pub ends : o ≡ returns at after
  pub rest : ℕ
  pub is : IsHeap base rest after
  -- the block ends where the free memory ended, and the rest of that lies below its header
  pub below : base + 8 + rest + 8 ≡ at
  pub holds : at + bytes ≤ base + 8 + size
  pub used : after (at - 8) ≡ magic_used
  pub others : (a : ℕ) → base + 8 + size ≤ a → after a ≡ m a

-- The memory after a block of `n` bytes is taken from the end of the free block.
abbrev carved : ℕ → ℕ → ℕ → Words → Words
carved base size n m =
    update (update (update m (base + 8 + size - n) magic_used) (base + 8 + size - n + 4) n)
      (base + 8 + 8) (size - n)

carve-carved :
    (base size n : ℕ) (m : Words)
    → IsHeap base size m
    → 16 ≤ n
    → n + 32 < size
    → carve (base + 8) n m ≡ returns (base + 8 + size - n + 8) (carved base size n m)
unfolding carve
carve-carved base size n m h low fits =
    let end : (base + 8 + size) % 2 ^ 32 ≡ base + 8 + size = omega (arith, h.top) in
    let b : (base + 8 + size + 2 ^ 32 - n) % 2 ^ 32 ≡ base + 8 + size - n = omega (arith, h.top) in
    let far : (base + 8 + 8 == base + 8 + size - n) ≡ false = ground arith in
    let far' : (base + 8 + 8 == base + 8 + size - n + 4) ≡ false = ground arith in
    let same : (base + 8 + size - n + 4 == base + 8 + size - n + 4) ≡ true = ground arith in
    let back : (base + 8 + size - n + n) % 2 ^ 32 ≡ base + 8 + size = omega (arith, h.top) in
    let whole : (base + 8 + size == base + 8 + size) ≡ true = ground arith in
    let left : (size + 2 ^ 32 - n) % 2 ^ 32 ≡ size - n = omega (arith, h.top) in
    let up : (base + 8 + size - n + 8) % 2 ^ 32 ≡ base + 8 + size - n + 8 = omega (arith, h.top) in
    let sz : m (base + 8 + 8) ≡ size = h.bytes in
    simp (sz, end, b, far, far', same, back, whole, left, up)

-- heap_allocate, of a heap of one free block, for bytes that do not make the size wrap and leave
-- more than 55 bytes: it returns the address of so many bytes at the end of the free block, behind
-- a header, the heap is one free block below the header, and memory above the heap is as it was.
pub heap_allocate-Allocated :
    (fuel base size bytes : ℕ) (m : Words)
    → IsHeap base size m
    → bytes + 23 < 2 ^ 32
    → bytes + 55 < size
    → Allocated base size bytes m (heap_allocate (suc fuel) base bytes m)
unfolding heap_allocate first_fit fit_loop block_size
heap_allocate-Allocated fuel base size bytes m h word fits =
    let n = (bytes + 8 + 15) % 2 ^ 32 / 16 * 16 in
    let no_wrap : (bytes + 8 + 15) % 2 ^ 32 ≡ bytes + 23 = omega arith in
    let low : 16 ≤ n = omega arith in
    let enough : bytes + 8 ≤ n = omega arith in
    let small : n + 32 < size = omega arith in
    let valid : (m base == magic_heap) ≡ true = ground (arith, h.magic) in
    let head : (base + 8 == 0) ≡ false = ground arith in
    let more : (leb size ((n + 32) % 2 ^ 32)) ≡ false = ground (arith, h.top) in
    let fit : ltb n size ≡ true = ground arith in
    let inexact : (size == n) ≡ false = ground arith in
    record {
      at = base + 8 + size - n + 8;
      after = carved base size n m;
      ends = simp (
        valid,
        h.free,
        head,
        h.bytes,
        fit,
        more,
        inexact,
        carve-carved base size n m h low small,
      );
      rest = size - n;
      is = record {
        magic = ground (arith, h.magic);
        free = ground (arith, h.free);
        alone = ground (arith, h.alone);
        bytes = ground arith;
        low = omega arith;
        top = omega (arith, h.top);
      };
      below = omega arith;
      holds = omega arith;
      used = ground arith;
      others = λ a up. ground arith;
    }

-- The memory after a block of no bytes is taken: its header is above the heap.
abbrev pub overrun : ℕ → ℕ → Words → Words
overrun base size m =
    update (update (update m (base + 8 + size) magic_used) (base + 8 + size + 4) 0) (base + 8 + 8)
      size

carve_nothing :
    (base size : ℕ) (m : Words)
    → IsHeap base size m
    → base + 16 + size < 2 ^ 32
    → carve (base + 8) 0 m ≡ returns (base + 8 + size + 8) (overrun base size m)
unfolding carve
carve_nothing base size m h top =
    let end : (base + 8 + size) % 2 ^ 32 ≡ base + 8 + size = omega arith in
    let b : (base + 8 + size + 2 ^ 32 - 0) % 2 ^ 32 ≡ base + 8 + size = omega arith in
    let far : (base + 8 + 8 == base + 8 + size) ≡ false = ground (arith, h.low) in
    let far' : (base + 8 + 8 == base + 8 + size + 4) ≡ false = ground (arith, h.low) in
    let same : (base + 8 + size + 4 == base + 8 + size + 4) ≡ true = ground arith in
    let back : (base + 8 + size + 0) % 2 ^ 32 ≡ base + 8 + size = omega arith in
    let whole : (base + 8 + size == base + 8 + size) ≡ true = ground arith in
    let left : (size + 2 ^ 32 - 0) % 2 ^ 32 ≡ size = omega arith in
    let up : (base + 8 + size + 8) % 2 ^ 32 ≡ base + 8 + size + 8 = omega arith in
    let sz : m (base + 8 + 8) ≡ size = h.bytes in
    simp (sz, end, b, far, far', same, back, whole, left, up)

-- heap_allocate for between 2^32 - 23 and 2^32 - 8 bytes, of a heap of one free block of more than
-- 32 bytes: the size that it works out wraps to 0, so it returns an address above the heap, and
-- has written the header there.
pub heap_allocate_wraps :
    (fuel base size bytes : ℕ) (m : Words)
    → IsHeap base size m
    → 32 < size
    → base + 16 + size < 2 ^ 32
    → 2 ^ 32 ≤ bytes + 23
    → bytes + 7 < 2 ^ 32
    → (heap_allocate (suc fuel) base bytes m ≡ returns (base + 8 + size + 8) (overrun base size m))
      × (overrun base size m (base + 8 + size) ≡ magic_used)
unfolding heap_allocate first_fit fit_loop block_size
heap_allocate_wraps fuel base size bytes m h some_space top big word =
    let nothing : (bytes + 8 + 15) % 2 ^ 32 / 16 * 16 ≡ 0 = omega arith in
    let valid : (m base == magic_heap) ≡ true = ground (arith, h.magic) in
    let head : (base + 8 == 0) ≡ false = ground arith in
    let more : (leb size 32) ≡ false = ground arith in
    let fit : ltb 0 size ≡ true = ground arith in
    let inexact : (size == 0) ≡ false = ground arith in
    (
      simp (
        valid,
        h.free,
        head,
        h.bytes,
        nothing,
        fit,
        more,
        inexact,
        carve_nothing base size m h top,
      ),
      ground (arith, h.low),
    )
