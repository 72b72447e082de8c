-- ===== src/Mmu.antt =====
-- Processor/VMSAv6/mmu.c: walk_global_tree, on the words of the translation tables.
use simple_as_pi.Common.{ℕ, ◌+◌, ◌*◌, ◌/◌, ◌%◌, ◌^◌, Option, none, some, ◌==◌, if◌then◌else◌}

-- The tables, and where the linker and mmu_establish_resources put them.
pub record Mmu : Type 0 where
  -- global_translation_table.entry
  pub global_entry : ℕ → ℕ
  -- local_kernel_page_table[0] and VMSAv6_Level2_Tables
  pub local_kernel_page_table : ℕ
  pub level2_tables : ℕ
  -- shared.mmu.l2tables_phys_base, a page
  pub l2tables_phys_base : ℕ
  -- entry of the second level table at an address
  pub l2_entry : ℕ → ℕ → ℕ

pub record MemoryPages : Type 0 where
  pub virtual_base : ℕ
  pub base_page : ℕ
  pub number_of_pages : ℕ

-- The fields of arm32_ptr and of the entries, by their bits.
abbrev pub section_of : ℕ → ℕ
section_of p = p / 2 ^ 20

abbrev pub page_of : ℕ → ℕ
page_of p = p / 2 ^ 12 % 2 ^ 8

abbrev pub page_table_base : ℕ → ℕ
page_table_base entry = entry / 2 ^ 10 % 2 ^ 22

unfoldable pub shared_table : Mmu → ℕ → ℕ
shared_table m entry = section_of m.level2_tables * 2 ^ 20 + page_table_base entry * 2 ^ 10 % 2 ^ 20

-- `none`: PANIC.
unfoldable pub mapped_table : Mmu → ℕ → Option ℕ
unfolding shared_table
mapped_table m entry =
    if section_of (page_table_base entry * 2 ^ 10) == section_of (m.l2tables_phys_base * 2 ^ 12)
    then some (shared_table m entry)
    else if page_table_base entry % 4 == 0
    then some m.local_kernel_page_table
    else none

abbrev pub no_pages : MemoryPages
no_pages = record { virtual_base = 0; base_page = 0; number_of_pages = 0 }

-- A small page, or nothing.
abbrev pub pages_at : ℕ → ℕ → Option MemoryPages
pages_at va l2 =
    if l2 % 4 == 0
    then some no_pages
    else if l2 % 4 == 1
    then none
    else some (record { number_of_pages = 1; virtual_base = va / 2 ^ 12; base_page = l2 / 2 ^ 12 })

abbrev pub pages_in : Mmu → ℕ → Option ℕ → Option MemoryPages
pages_in m va none = none
pages_in m va (some table) = pages_at va (m.l2_entry table (page_of va))

unfoldable pub walk_global_tree : Mmu → ℕ → Option MemoryPages
unfolding mapped_table
walk_global_tree m va =
    let l1 = m.global_entry (section_of va) in
    if l1 % 4 == 0
    then some no_pages
    else if l1 % 4 == 1
    then pages_in m va (mapped_table m l1)
    else some (record {
      number_of_pages = 256;
      virtual_base = section_of va * 2 ^ 20;
      base_page = l1 / 2 ^ 20 * 2 ^ 8;
    })
