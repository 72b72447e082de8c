-- ===== src/Tests/Memory.antt =====
-- A slot with 16 pages from 0x8000, and physical memory with one free section and some free pages.
use simple_as_pi.Common.{
  ℕ, ◌*◌, ◌^◌, ◌≡◌, ◌≢◌, refl, true, false, inl, inr, some, [], ◌∷◌, arith, ◌==◌, leb, ◌&&◌,
  if◌then◌else◌, update,
}
use simple_as_pi.Blocks.{Block, Table}
use simple_as_pi.Mmu.{Mmu, mapped_table}
use simple_as_pi.Memory.{
  Limits, found, no_block, block_containing, map_device_pages, app_memory_top, Answer,
  physical_from_virtual,
}
use simple_as_pi.Memory.Insert.{Lists, stored}
use simple_as_pi.Memory.Contents.{
  Gives, block_at, block_containing-Gives, Mapped, map_device_pages-Mapped,
}
use simple_as_pi.Memory.Global.{small_page_panics}
use simple_as_pi.Memory.Release.{keep}
use simple_as_pi.Memory.Top.{app_memory_top_grows, app_memory_top_shrinks}
use simple_as_pi.RawMemory.{
  RawMemory, Freed, freed, free_contiguous_memory, claimed, clear_bits, claim_contiguous_memory,
  claim_sections, claim_words, search_word, word_loop, count_leading_zeros, count_leading_ones,
  section_words,
}
use simple_as_pi.RawMemory.Sections.{
  Claims, is_free, claim_contiguous_memory-Claims, free_contiguous_memory-claim_contiguous_memory,
}
use simple_as_pi.RawMemory.Pages.{
  InRange, ClaimsPages, claim_contiguous_memory-ClaimsPages, free_contiguous_memory_never_ends,
  free_contiguous_memory_ends,
}

abbrev first : Block
first = record { page_base = 0x1000; pages = 16; va_page = 8; device = false; read_only = false }

abbrev app : Table
app i = if i == 0 then first else no_block

abbrev unused : Table
unused i = no_block

app-Lists : Lists app (first ∷ [])
app-Lists = record { maps = (refl, omega arith, refl); rest = λ j a b. ground arith }

abbrev limits : Limits
limits = record { app_top = 0x4000_0000; pipes_bottom = 0x7000_0000; pipes_end = 0x8000_0000 }

-- A table of pages at 0xf00 for the section 0xfc0, and a small page in it.
abbrev tables : Mmu
tables = record {
  global_entry = λ section. if section == 0xfc0 then 0xf01 else 0;
  local_kernel_page_table = 0xf00;
  level2_tables = 0xf00;
  l2tables_phys_base = 0;
  l2_entry = λ table page. if page == 1 then 0x5002 else 0;
}

map_device_pages-Mapped_example :
    (u : Table) × (map_device_pages 5 0x4000 0x3f200 2 app ≡ some u)
    × Mapped 5 limits tables unused u (stored 4 0x3f200 2 true app (first ∷ [])) (first ∷ [])
map_device_pages-Mapped_example =
    map_device_pages-Mapped 5 limits tables unused 0x4000 0x3f200 2 (first ∷ []) app app-Lists
      (omega arith) (omega arith) (omega arith) (omega arith, tt) (omega arith)
      (inr (omega arith), tt)

block_containing-Gives_example :
    (b : Block) × (block_containing 5 limits tables app unused 0x9004 ≡ found b)
    × Gives (block_at (first ∷ []) 9) b
block_containing-Gives_example =
    block_containing-Gives 5 limits tables app unused 0x9004 (first ∷ []) (omega arith) app-Lists
      (omega arith) (omega arith) (omega arith, tt)

app_memory_top_grows_example :
    (u : Table) × (app_memory_top (λ pages. 0x2000) 5 0x1f123 app ≡ some (0x20000, u))
    × Lists u (first ∷ stored 24 0x2000 8 false app (first ∷ []) ∷ [])
    × (app_memory_top (λ pages. 0x2000) 5 0 u ≡ some (0x20000, u))
app_memory_top_grows_example =
    app_memory_top_grows (λ pages. 0x2000) 5 0x1f123 (first ∷ []) app app-Lists (omega arith)
      (omega arith) (refl, omega arith, tt) (omega arith) (omega arith)

app_memory_top_shrinks_example :
    (u : Table) × (app_memory_top (λ pages. 0) 5 0x9001 app ≡ some (0xa000, u))
    × Lists u (keep 10 (first ∷ []))
    × (app_memory_top (λ pages. 0) 5 0 u ≡ some (0xa000, u))
app_memory_top_shrinks_example =
    app_memory_top_shrinks (λ pages. 0) 5 0x9001 (first ∷ []) app app-Lists (omega arith)
      (refl, omega arith, tt) (omega arith) (omega arith) (omega arith) (omega arith)

in_table : mapped_table tables 0xf01 ≡ some 0xc00
unfolding mapped_table
in_table = refl

small_page_panics_example :
    physical_from_virtual 5 limits tables app unused 0xfc00_1004 4 ≡ Answer.panic
small_page_panics_example =
    small_page_panics 5 limits tables app unused 0xfc00_1004 4 0xc00
      (record { above = omega arith; apart = refl; word = omega arith }) refl in_table (omega arith)
      (omega arith)

-- The sections 3 and 4 are free, and 20 pages at 0x1234.
abbrev raw : RawMemory
raw = record {
  sections = λ word bit. (word == 0) && leb 3 bit && leb bit 4;
  early =
      λ i. if i == 0 then record { base = 0x1234; count = 20 } else record { base = 0; count = 0 };
}

raw_range : InRange raw
raw_range i = ground arith

claim_contiguous_memory-Claims_example :
    Claims 2 0 (section_words * 32) raw (claim_contiguous_memory 512 raw)
claim_contiguous_memory-Claims_example =
    claim_contiguous_memory-Claims 2 raw (omega arith) (omega arith)

claim_contiguous_memory-ClaimsPages_example : ClaimsPages 7 raw (claim_contiguous_memory 7 raw)
claim_contiguous_memory-ClaimsPages_example =
    claim_contiguous_memory-ClaimsPages 7 raw (omega arith) (omega arith) raw_range

free_contiguous_memory_never_ends_example :
    free_contiguous_memory 1000 0x180 0x80 raw ≡ Freed.runs_on
free_contiguous_memory_never_ends_example =
    free_contiguous_memory_never_ends 1000 0x180 0x80 raw (omega arith) (omega arith) (omega arith)

free_contiguous_memory_ends_example : free_contiguous_memory 2 0x200 0x180 raw ≢ Freed.runs_on
free_contiguous_memory_ends_example =
    free_contiguous_memory_ends 0 0x200 0x180 raw (inl refl) (omega arith)

abbrev claimed_two : RawMemory
claimed_two = record raw { sections = update raw.sections 0 (clear_bits 3 2 (raw.sections 0)) }

claims_two : claim_contiguous_memory (2 * 2 ^ 8) raw ≡ claimed (3 * 2 ^ 8) claimed_two
unfolding claim_contiguous_memory claim_sections claim_words search_word word_loop
    count_leading_zeros count_leading_ones
claims_two = refl

free_contiguous_memory-claim_contiguous_memory_example :
    (back : RawMemory) × (free_contiguous_memory 1 0x300 0x200 claimed_two ≡ freed back)
    × ((n : ℕ) → is_free back.sections n ≡ is_free raw.sections n)
    × (back.early ≡ raw.early)
free_contiguous_memory-claim_contiguous_memory_example =
    free_contiguous_memory-claim_contiguous_memory 0 2 3 raw claimed_two (omega arith) (omega arith)
      claims_two
