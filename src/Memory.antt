-- ===== src/Memory.antt =====
-- OSTask/memory.c: the table of a slot's application memory, slot->app_mem, and what stands at an
-- address. claim_contiguous_memory, the table of pipes, walk_global_tree and the linker's limits
-- are parameters.
pub mod Insert
pub mod Contents
pub mod Global
pub mod Release
pub mod Top
use simple_as_pi.Common.{
  ℕ, zero, suc, ◌+◌, ◌-◌, ◌*◌, ◌/◌, ◌%◌, ◌^◌, Bool, true, false, not, ◌&&◌, Option, none, some,
  ◌==◌, ltb, leb, if◌then◌else◌, update,
}
use simple_as_pi.Blocks.{Block, Table, table_size, top_of}
use simple_as_pi.Pipe.{sub32}
use simple_as_pi.Mmu.{Mmu, MemoryPages, walk_global_tree}

-- number_of( slot->app_mem )
abbrev pub app_size : ℕ
app_size = 30

-- The first `while` of find_block; `none`: still running.
unfoldable pub place_loop : ℕ → ℕ → ℕ → Table → Option ℕ
place_loop zero page i t = none
place_loop (suc fuel) page i t =
    let rest = place_loop fuel page (suc i) t in
    if not ((t i).pages == 0) && ltb (t i).va_page page then rest else some i

-- `for (int j = ...; j > i; j--)` of find_block. Entry 30, behind the table, is written if the
-- table is full.
unfoldable pub shift : ℕ → ℕ → Table → Table
shift zero i t = t
shift (suc j) i t =
    let t' = if ltb 0 (t j).pages then update t (suc j) (t j) else t in
    let rest = shift j i t' in if ltb i (suc j) then rest else t

abbrev pub make_room : Table → Option ℕ → Option (ℕ × Table)
make_room t none = none
make_room t (some i) = some (i, if (t i).pages == 0 then t else shift app_size i t)

-- The index of the block that is returned, and the table.
unfoldable pub find_block : ℕ → ℕ → Table → Option (ℕ × Table)
find_block fuel va t = make_room t (place_loop fuel (va / 2 ^ 12) 0 t)

-- The four fields that are stored; read_only stays.
abbrev pub store_block : ℕ → ℕ → ℕ → Bool → Option (ℕ × Table) → Option Table
store_block page base pages device_memory none = none
store_block page base pages device_memory (some (i, t)) = some (
    update t i
      (record (t i) { va_page = page; pages = pages; page_base = base; device = device_memory }))

unfoldable pub map_device_pages : ℕ → ℕ → ℕ → ℕ → Table → Option Table
map_device_pages fuel va page_base pages t =
    store_block (va / 2 ^ 12) page_base pages true (find_block fuel va t)

-- The `while` of app_memory_top that finds the top.
unfoldable pub top_loop : ℕ → ℕ → ℕ → Table → Option ℕ
top_loop zero i top t = none
top_loop (suc fuel) i top t =
    let rest = top_loop fuel (suc i) (top_of (t i)) t in
    if not ((t i).pages == 0) && leb (t i).va_page (top / 2 ^ 12) then rest else some top

-- `while (slot->app_mem[i].pages != 0 && new > top_of( &slot->app_mem[i] )) i++`
unfoldable pub keep_loop : ℕ → ℕ → ℕ → Table → Option ℕ
keep_loop zero new i t = none
keep_loop (suc fuel) new i t =
    let rest = keep_loop fuel new (suc i) t in
    if not ((t i).pages == 0) && ltb (top_of (t i)) new then rest else some i

-- One round of the loop that releases memory.
unfoldable pub cut : ℕ → Block → Block
cut page b =
    if ltb b.va_page page then record b { pages = page - b.va_page } else record b { pages = 0 }

unfoldable pub release_loop : ℕ → ℕ → ℕ → Table → Option Table
release_loop zero page i t = none
release_loop (suc fuel) page i t =
    let rest = release_loop fuel page (suc i) (update t i (cut page (t i))) in
    if (t i).pages == 0 then some t else rest

abbrev pub release_from : ℕ → ℕ → Table → Option ℕ → Option Table
release_from fuel page t none = none
release_from fuel page t (some i) = release_loop fuel page i t

abbrev pub with_top : ℕ → Option Table → Option (ℕ × Table)
with_top top none = none
with_top top (some t) = some (top, t)

-- (new + 0xfff) & ~0xfff
abbrev pub round_up : ℕ → ℕ
round_up new = (new + 0xfff) % 2 ^ 32 / 2 ^ 12 * 2 ^ 12

-- claim: claim_contiguous_memory
module _ (claim : ℕ → ℕ) where
  -- With the top of the memory known, and `new` rounded up.
  abbrev pub set_top : ℕ → ℕ → Table → Option ℕ → Option (ℕ × Table)
  set_top fuel new t none = none
  set_top fuel new t (some top) =
      let pages = (new - top) / 2 ^ 12 in
      if ltb top new
      then with_top new
          (store_block (top / 2 ^ 12) (claim pages) pages false (find_block fuel top t))
      else if ltb new top
      then with_top new (release_from fuel (new / 2 ^ 12) t (keep_loop fuel new 0 t))
      else some (top, t)

  abbrev pub same_top : Table → Option ℕ → Option (ℕ × Table)
  same_top t none = none
  same_top t (some top) = some (top, t)

  unfoldable pub app_memory_top : ℕ → ℕ → Table → Option (ℕ × Table)
  app_memory_top fuel new t =
      let found = top_loop fuel 0 0x8000 t in
      if new == 0 then same_top t found else set_top fuel (round_up new) t found

unfoldable pub in_range : ℕ → ℕ → ℕ → Bool
in_range n low above = leb low n && ltb n above

-- The `while` loops of block_containing on a table of `size` entries; the index they end with.
unfoldable pub search_loop : ℕ → ℕ → ℕ → ℕ → Table → Option ℕ
unfolding in_range
search_loop zero size va i t = none
search_loop (suc fuel) size va i t =
    let rest = search_loop fuel size va (suc i) t in
    if not ((t i).pages == 0)
      && not (in_range va ((t i).va_page * 2 ^ 12 % 2 ^ 32) (top_of (t i)))
      && ltb i size
    then rest
    else some i

-- app_memory_limit, pipes_base and pipes_top, which the linker sets.
pub record Limits : Type 0 where
  pub app_top : ℕ
  pub pipes_bottom : ℕ
  pub pipes_end : ℕ

pub data Lookup : Type 0 where
  found : Block → Lookup
  panic : Lookup
  runs_on : Lookup

abbrev pub entry_at : Table → Option ℕ → Lookup
entry_at t none = runs_on
entry_at t (some i) = found (t i)

abbrev pub no_block : Block
no_block = record { page_base = 0; pages = 0; va_page = 0; device = false; read_only = false }

-- The last branch, on what walk_global_tree gives.
abbrev pub global_block : Option MemoryPages → Lookup
global_block none = panic
global_block (some area) =
    if area.number_of_pages == 0
    then found no_block
    else if not (area.virtual_base % 2 ^ 12 == 0)
    then panic
    else found (record no_block {
      pages = area.number_of_pages;
      va_page = area.virtual_base / 2 ^ 12;
      page_base = area.base_page;
    })

-- The tables of the running task's slot: app_mem and pipe_mem.
unfoldable pub block_containing : ℕ → Limits → Mmu → Table → Table → ℕ → Lookup
block_containing fuel l mmu app pipes va =
    if ltb va l.app_top
    then entry_at app (search_loop fuel app_size va 0 app)
    else if leb l.pipes_bottom va && ltb va l.pipes_end
    then entry_at pipes (search_loop fuel table_size va 0 pipes)
    else global_block (walk_global_tree mmu va)

pub data Answer : Type 0 where
  answer : ℕ → Answer
  panic : Answer
  runs_on : Answer

-- TaskOpPhysicalFromVirtual: r0 of the caller.
unfoldable pub physical_in : Lookup → ℕ → ℕ → Answer
physical_in runs_on va length = Answer.runs_on
physical_in panic va length = Answer.panic
physical_in (found b) va length =
    if b.pages == 0
    then Answer.panic
    else if ltb (b.pages * 2 ^ 12 % 2 ^ 32)
        ((sub32 va (b.va_page * 2 ^ 12 % 2 ^ 32) + length) % 2 ^ 32)
    then Answer.panic
    else answer (sub32 ((b.page_base * 2 ^ 12 + va) % 2 ^ 32) (b.va_page * 2 ^ 12 % 2 ^ 32))

unfoldable pub physical_from_virtual : ℕ → Limits → Mmu → Table → Table → ℕ → ℕ → Answer
physical_from_virtual fuel l mmu app pipes va length =
    physical_in (block_containing fuel l mmu app pipes va) va length
