-- ===== src/Heap.antt =====
-- SimpleHeap/heap.c: the heap, on the words of memory by their address. The lock of the list
-- around heap_allocate is that of Mpsafe.
pub mod Allocate
use simple_as_pi.Common.{
  ℕ, zero, suc, ◌+◌, ◌-◌, ◌*◌, ◌/◌, ◌%◌, ◌^◌, Bool, not, ◌&&◌, ◌==◌, ltb, leb, if◌then◌else◌,
  update,
}

-- Words of memory.
abbrev pub Words : Type 0
Words = ℕ → ℕ

pub data Outcome : Type 0 where
  returns : ℕ → Words → Outcome
  panic : Outcome
  runs_on : Outcome

abbrev pub magic_heap : ℕ
magic_heap = 0x50414548

abbrev pub magic_used : ℕ
magic_used = 0x44455355

-- struct free_heap_block: next, prev and size; struct heap_block: magic and size; struct heap:
-- magic and free.
abbrev pub next_of : ℕ → Words → ℕ
next_of f m = m f

abbrev pub size_of_free : ℕ → Words → ℕ
size_of_free f m = m (f + 8)

unfoldable pub heap_initialise : ℕ → ℕ → Words → Words
heap_initialise base size m =
    let free = base + 8 in
    update
      (update (update (update (update m base magic_heap) (base + 4) free) free free) (free + 4)
        free)
      (free + 8) ((size + 2 ^ 32 - 8) % 2 ^ 32)

-- A block of `size` bytes from the end of the free block `f`.
unfoldable pub carve : ℕ → ℕ → Words → Outcome
carve f size m =
    let end = (f + size_of_free f m) % 2 ^ 32 in
    let b = (end + 2 ^ 32 - size) % 2 ^ 32 in
    let m' = update (update m b magic_used) (b + 4) size in
    if (f + size_of_free f m') % 2 ^ 32 == (b + m' (b + 4)) % 2 ^ 32
    then returns ((b + 8) % 2 ^ 32)
        (update m' (f + 8) ((size_of_free f m' + 2 ^ 32 - size) % 2 ^ 32))
    else panic

-- The `do` loop of first_fit.
unfoldable pub fit_loop : ℕ → ℕ → ℕ → ℕ → Words → Outcome
fit_loop zero head f size m = runs_on
fit_loop (suc fuel) head f size m =
    let have = size_of_free f m in
    let size' : ℕ = if ltb size have && leb have ((size + 32) % 2 ^ 32) then have else size in
    let rest = fit_loop fuel head (next_of f m) size' m in
    if have == size'
    then panic
    else if ltb size' have
    then carve f size' m
    else if next_of f m == head
    then returns 0 m
    else rest

unfoldable pub first_fit : ℕ → ℕ → ℕ → Words → Outcome
first_fit fuel head size m = if head == 0 then returns 0 m else fit_loop fuel head head size m

-- (size + sizeof( heap_block ) + 15) & ~15
unfoldable pub block_size : ℕ → ℕ
block_size size = (size + 8 + 15) % 2 ^ 32 / 16 * 16

unfoldable pub heap_allocate : ℕ → ℕ → ℕ → Words → Outcome
heap_allocate fuel base size m =
    if m base == magic_heap then first_fit fuel (m (base + 4)) (block_size size) m else panic

unfoldable pub heap_free : ℕ → ℕ → Words → Outcome
heap_free base mem m = returns 0 m
