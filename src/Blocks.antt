-- ===== src/Blocks.antt =====
-- OSTask/ostask.h, app_memory_block: an entry of a slot's tables of mapped memory, and
-- unmap_and_free and insert_pipe_in_gap (OSTask/pipes.c) on the table of pipes.
pub mod Unmap
use simple_as_pi.Common.{
  ℕ, zero, suc, ◌+◌, ◌-◌, ◌*◌, ◌/◌, ◌%◌, ◌^◌, Bool, true, false, not, ◌&&◌, Option, none, some,
  ◌==◌, ltb, leb, if◌then◌else◌, update,
}

pub record Block : Type 0 where
  pub page_base : ℕ
  pub pages : ℕ
  pub va_page : ℕ
  pub device : Bool
  pub read_only : Bool

-- slot->pipe_mem, by index.
abbrev pub Table : Type 0
Table = ℕ → Block

-- number_of( slot->pipe_mem )
abbrev pub table_size : ℕ
table_size = 100

unfoldable pub top_of : Block → ℕ
top_of b = (b.va_page + b.pages) * 2 ^ 12 % 2 ^ 32

-- The `while` of insert_pipe_in_gap: the index and the address that it ends with; `none`: PANIC.
unfoldable pub gap_loop : ℕ → ℕ → ℕ → ℕ → ℕ → Table → Option (ℕ × ℕ)
gap_loop zero i va size top t = none
gap_loop (suc fuel) i va size top t =
    let va' = top_of (t i) in
    let rest = gap_loop fuel (suc i) va' size top t in
    if not ((t i).pages == 0) && ltb i table_size
    then if leb top ((va' + size) % 2 ^ 32) then none else rest
    else some (i, va)

-- The entries for a mapping of `size` bytes at `va`: two of half the size, of the same memory, if
-- it is double mapped.
unfoldable pub fill : ℕ → ℕ → ℕ → ℕ → Bool → Bool → Table → Table
fill i va size memory double_mapped sender t =
    let half = size / 2 in
    let entry = λ (at_va pages : ℕ).
      let b : Block = record {
        page_base = memory / 2 ^ 12;
        pages = pages / 2 ^ 12;
        va_page = at_va / 2 ^ 12;
        device = false;
        read_only = not sender;
      } in
      b in
    if double_mapped
    then update (update t i (entry va half)) (suc i) (entry (va + half) half)
    else update t i (entry va size)

-- `while (block->va_page != page) block++;`; `none`: still running.
unfoldable pub find_page : ℕ → ℕ → ℕ → Table → Option ℕ
find_page zero page i t = none
find_page (suc fuel) page i t =
    let rest = find_page fuel page (suc i) t in if (t i).va_page == page then some i else rest

-- `do { block++; block[0] = block[remove]; } while (block->pages != 0);`, from `block` one before
-- the entry `i`.
unfoldable pub close_gap : ℕ → ℕ → ℕ → Table → Option Table
close_gap zero remove i t = none
close_gap (suc fuel) remove i t =
    let t' = update t i (t (i + remove)) in
    let rest = close_gap fuel remove (suc i) t' in if (t' i).pages == 0 then some t' else rest

abbrev pub close_from : ℕ → ℕ → Table → Option ℕ → Option Table
close_from fuel remove t none = none
close_from fuel remove t (some i) = close_gap fuel remove i t

unfoldable pub unmap_and_free : ℕ → ℕ → Bool → Table → Option Table
unmap_and_free fuel va double_mapped t =
    close_from fuel (if double_mapped then 2 else 1) t (find_page fuel (va / 2 ^ 12) 0 t)
