-- ===== src/Memory/Global.antt =====
-- TaskOpPhysicalFromVirtual on the global area: sections and small pages of the translation tables.
use simple_as_pi.Common.{
  ℕ, ◌+◌, ◌*◌, ◌/◌, ◌%◌, ◌^◌, ◌≤◌, ◌<◌, ◌≡◌, ◌≢◌, refl, true, false, some, arith, ◌==◌, ltb, leb,
  ◌&&◌,
}
use simple_as_pi.Blocks.{Table}
use simple_as_pi.Mmu.{Mmu, section_of, page_of, mapped_table, walk_global_tree}
use simple_as_pi.Memory.{
  Limits, Answer, answer, block_containing, physical_in, physical_from_virtual,
}

-- The address is neither the application's nor a pipe's.
pub record IsGlobal (l : Limits) (va : ℕ) : Type 0 where
  pub above : l.app_top ≤ va
  pub apart : (leb l.pipes_bottom va && ltb va l.pipes_end) ≡ false
  pub word : va < 2 ^ 32

module _ (fuel : ℕ) (l : Limits) (mmu : Mmu) (app pipes : Table) where
  -- An address in a section is at the same offset of its memory.
  pub section_translates :
      (va size : ℕ)
      → IsGlobal l va
      → 1 < mmu.global_entry (section_of va) % 4
      → mmu.global_entry (section_of va) < 2 ^ 32
      → va % 2 ^ 20 + size ≤ 2 ^ 20
      → physical_from_virtual fuel l mmu app pipes va size
        ≡ answer (mmu.global_entry (section_of va) / 2 ^ 20 * 2 ^ 20 + va % 2 ^ 20)
  unfolding physical_from_virtual block_containing physical_in walk_global_tree
  section_translates va size g section fits inside =
      let outside : ltb va l.app_top ≡ false = ground (arith, g.above) in
      let l1 = mmu.global_entry (section_of va) in
      let mapped : (l1 % 4 == 0) ≡ false = ground arith in
      let no_table : (l1 % 4 == 1) ≡ false = ground arith in
      let aligned : (section_of va * 2 ^ 20 % 2 ^ 12 == 0) ≡ true = ground arith in
      let start : section_of va * 2 ^ 20 / 2 ^ 12 * 2 ^ 12 % 2 ^ 32 ≡ section_of va * 2 ^ 20 =
        ground (arith, g.word) in
      rw (outside, g.apart, mapped, no_table, aligned, start) (ground (arith, g.word))

  -- PhysicalFromVirtual for an address that is neither the application's nor a pipe's, and that a
  -- table of pages maps to a small page whose number is not a multiple of 4096, stops in PANIC:
  -- walk_global_tree gives the number of the page for its address.
  pub small_page_panics :
      (va size table : ℕ)
      → IsGlobal l va
      → mmu.global_entry (section_of va) % 4 ≡ 1
      → mapped_table mmu (mmu.global_entry (section_of va)) ≡ some table
      → 1 < mmu.l2_entry table (page_of va) % 4
      → va / 2 ^ 12 % 2 ^ 12 ≢ 0
      → physical_from_virtual fuel l mmu app pipes va size ≡ Answer.panic
  unfolding physical_from_virtual block_containing physical_in walk_global_tree
  small_page_panics va size table g tables found small odd =
      let outside : ltb va l.app_top ≡ false = ground (arith, g.above) in
      let l1 = mmu.global_entry (section_of va) in
      let l2 = mmu.l2_entry table (page_of va) in
      let mapped : (l1 % 4 == 0) ≡ false = ground arith in
      let is_table : (l1 % 4 == 1) ≡ true = ground arith in
      let page : (l2 % 4 == 0) ≡ false = ground arith in
      let is_small : (l2 % 4 == 1) ≡ false = ground arith in
      let not_base : (va / 2 ^ 12 % 2 ^ 12 == 0) ≡ false = ground arith in
      rw (outside, g.apart, mapped, is_table, found, page, is_small, not_base) refl
