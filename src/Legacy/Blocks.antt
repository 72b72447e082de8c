-- ===== src/Legacy/Blocks.antt =====
-- Legacy/kernel_swis.c, cb_array and cba_free: an array of blocks, with a list of the free ones.
-- Memory is words by address; the address that system_heap_allocate returns is a parameter.
use simple_as_pi.Common.{
  ℕ, zero, suc, ◌+◌, ◌-◌, ◌*◌, ◌/◌, ◌%◌, ◌^◌, ◌&&◌, Option, none, some, ◌==◌, ltb, leb,
  if◌then◌else◌, update,
}
use simple_as_pi.Heap.{Words}
use simple_as_pi.Kernel.{set_bit}

-- &blocks[i]
unfoldable pub word_of : ℕ → ℕ → ℕ
word_of bottom i = (bottom + 4 * i) % 2 ^ 32

-- &(block[1].total)
abbrev pub bottom_of : ℕ → ℕ
bottom_of block = block + 12

-- `p[i] = 0x77665544` for `n` words.
unfoldable pub fill_words : ℕ → ℕ → Words → Words
fill_words zero p m = m
fill_words (suc n) p m = fill_words n (p + 4) (update m p 0x77665544)

-- The flag and offset of a block, and the address of the next.
abbrev pub link_block : ℕ → ℕ → ℕ → ℕ → Words → Words
link_block i offset words bottom m =
    update (update m (word_of bottom (i * words)) (set_bit (2 ^ 31) offset))
      (word_of bottom (i * words + 1)) (word_of bottom (suc i * words))

-- The loop that makes `n` blocks, from the one numbered `i` on.
unfoldable pub link_blocks : ℕ → ℕ → ℕ → ℕ → ℕ → ℕ → Words → Words
link_blocks zero i offset container_size words bottom m = m
link_blocks (suc n) i offset container_size words bottom m =
    link_blocks n (suc i) ((offset + container_size) % 2 ^ 32) container_size words bottom
      (link_block i offset words bottom m)

abbrev alloc_size : ℕ → ℕ → ℕ
alloc_size num size = (num * (size + 4) + 12) % 2 ^ 32

-- The words of the cba_head.
abbrev pub with_head : ℕ → ℕ → ℕ → Words → Words
with_head result num container_size m =
    update (update (update m result num) (result + 4) container_size) (result + 8)
      (bottom_of result)

-- blocks[last * words + 1] = 0
abbrev end_list : ℕ → ℕ → ℕ → Words → Words
end_list num words bottom m =
    let last = (num + (2 ^ 32 - 1)) % 2 ^ 32 in
    update m (word_of bottom ((last * words + 1) % 2 ^ 32)) 0

-- `result` is what system_heap_allocate returns. The array, 0 for none, and the memory.
unfoldable pub cb_array : ℕ → ℕ → ℕ → Words → ℕ × Words
cb_array num size result m =
    let container_size = size + 4 in
    let words = container_size / 4 in
    let bottom = bottom_of result in
    if result == 0xffffffff then (0, m) else (
      result,
      end_list num words bottom (
          link_blocks num 0 0 container_size words bottom
            (with_head result num container_size (fill_words (alloc_size num size / 4) result m))),
    )

-- `none`: PANIC.
unfoldable pub cba_free : ℕ → ℕ → Words → Option Words
cba_free block unwanted m =
    let bottom = bottom_of block in
    let top = word_of bottom (m (block + 4) * m block % 2 ^ 32 / 4) in
    let container = (unwanted + (2 ^ 32 - 4)) % 2 ^ 32 in
    if leb bottom container && ltb container top
    then if m container / 2 ^ 31 % 2 == 0
      then if word_of bottom (m container / 4) == container
        then some (
            update
              (update (update m container (set_bit (2 ^ 31) (m container))) (container + 4)
                (m (block + 8)))
              (block + 8) container)
        else none
      else none
    else none
