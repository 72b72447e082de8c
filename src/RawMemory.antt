-- ===== src/RawMemory.antt =====
-- RawMemory/raw_memory_manager.c: free physical memory, by pages in early_released_pages and by
-- sections of 256 pages in words of bits. The calls' claim of shared.rawmemory.lock is not modelled.
pub mod Words
pub mod Sections
pub mod Pages
use simple_as_pi.Common.{
  ℕ, zero, suc, ◌+◌, ◌-◌, ◌*◌, ◌/◌, ◌%◌, ◌^◌, Bool, true, false, not, ◌&&◌, ◌||◌, Option, none,
  some, ◌==◌, ltb, leb, if◌then◌else◌, update,
}
use simple_as_pi.Pipe.{sub32}

-- A word of 32 bits, each by its distance from the top.
abbrev pub Bits : Type 0
Bits = ℕ → Bool

-- v << n, where n may be 32
abbrev pub shift_left : ℕ → Bits → Bits
shift_left n v j = if ltb (j + n) 32 then v (j + n) else false

abbrev pub complement : Bits → Bits
complement v j = not (v j)

-- The top `n` bits of the word, as far as they are clear.
abbrev pub clear_for : ℕ → ℕ → Bits → ℕ
clear_for zero k v = 0
clear_for (suc n) k v = if v k then 0 else suc (clear_for n (suc k) v)

unfoldable pub count_leading_zeros : Bits → ℕ
count_leading_zeros v = clear_for 32 0 v

unfoldable pub count_leading_ones : Bits → ℕ
unfolding count_leading_zeros
count_leading_ones v = count_leading_zeros (complement v)

-- An entry of early_released_pages: 24 bits of base, 8 bits of count.
pub record Early : Type 0 where
  pub base : ℕ
  pub count : ℕ

pub record RawMemory : Type 0 where
  pub sections : ℕ → Bits
  pub early : ℕ → Early

-- number_of( shared.rawmemory.early_released_pages ) and of the words of sections
abbrev pub entries : ℕ
entries = 32

abbrev pub section_words : ℕ
section_words = 128

-- contiguous_memory_unavailable
abbrev pub unavailable : ℕ
unavailable = 0xffffffff

pub data Freed : Type 0 where
  freed : RawMemory → Freed
  panic : Freed
  runs_on : Freed

abbrev pub then_free : Freed → (RawMemory → Freed) → Freed
then_free (freed r) f = f r
then_free panic f = panic
then_free runs_on f = runs_on

unfoldable pub section_aligned : ℕ → Bool
section_aligned base_page = base_page % 2 ^ 8 == 0

abbrev pub set_bits : ℕ → Bits → (ℕ → Bits) → ℕ → Bits
set_bits i mask s = update s i (λ j. s i j || mask j)

-- `while (first_index < last_index) sections[first_index++] = 0xffffffff`, `n` times.
unfoldable pub set_words : ℕ → ℕ → (ℕ → Bits) → ℕ → Bits
set_words zero first s = s
set_words (suc n) first s = set_words n (suc first) (update s first (λ j. true))

-- The branch of free_contiguous_memory that releases whole sections.
unfoldable pub free_sections : ℕ → ℕ → (ℕ → Bits) → ℕ → Bits
free_sections section count s =
    let first_index = section / 32 in
    let last_index = (section + count) / 32 in
    let in_first_word = section % 32 in
    let in_last_word = (section + count) % 32 in
    let first_bits : Bits = λ j. leb in_first_word j in
    let last_bits : Bits = λ j. ltb j in_last_word in
    if first_index == last_index
    then set_bits first_index (λ j. first_bits j && last_bits j) s
    else let s1 = set_bits first_index first_bits s in
      let s2 = if in_last_word == 0 then s1 else set_bits last_index last_bits s1 in
      set_words (last_index - suc first_index) (suc first_index) s2

-- The loop that stores fewer than 256 pages, all in one section; `none`: no entry is free.
unfoldable pub empty_entry : ℕ → ℕ → (ℕ → Early) → Option ℕ
empty_entry zero i e = none
empty_entry (suc n) i e =
    let rest = empty_entry n (suc i) e in if (e i).count == 0 then some i else rest

abbrev pub store_at : ℕ → ℕ → RawMemory → Option ℕ → Freed
store_at base pages r none = panic
store_at base pages r (some i) =
    freed (record r {
      early = update r.early i (record { base = base % 2 ^ 24; count = pages % 2 ^ 8 });
    })

unfoldable pub store_pages : ℕ → ℕ → RawMemory → Freed
store_pages base pages r =
    if pages == 0 then freed r else store_at base pages r (empty_entry entries 0 r.early)

-- With the pages of the first section freed.
abbrev pub free_rest : (ℕ → ℕ → RawMemory → Freed) → ℕ → ℕ → RawMemory → Freed
free_rest free base pages r =
    if not (base % 2 ^ 8 == 0)
    then panic
    else if ltb 0xff pages
    then then_free (free base (pages / 2 ^ 8 * 2 ^ 8) r)
        (store_pages ((base + pages / 2 ^ 8 * 2 ^ 8) % 2 ^ 32) (pages % 2 ^ 8))
    else store_pages base pages r

-- The body of free_contiguous_memory, on what its calls of itself do.
unfoldable pub free_body : (ℕ → ℕ → RawMemory → Freed) → ℕ → ℕ → RawMemory → Freed
unfolding section_aligned
free_body free base pages r =
    if section_aligned base && section_aligned pages
    then freed (record r { sections = free_sections (base / 2 ^ 8) (pages / 2 ^ 8) r.sections })
    else if base / 2 ^ 8 == (base + pages) % 2 ^ 32 / 2 ^ 8
    then store_pages base pages r
    else if base % 2 ^ 8 == 0
    then free_rest free base pages r
    else let in_first_section = 0x100 - base % 2 ^ 8 in
      then_free (free base in_first_section r)
        (free_rest free ((base + in_first_section) % 2 ^ 32) (sub32 pages in_first_section))

unfoldable pub free_contiguous_memory : ℕ → ℕ → ℕ → RawMemory → Freed
free_contiguous_memory zero base pages r = runs_on
free_contiguous_memory (suc fuel) base pages r =
    free_body (free_contiguous_memory fuel) base pages r

-- Where the search in a word ends: at a run of free sections, or behind the last.
pub data Found : Type 0 where
  found_at : ℕ → Found
  nowhere : Found
  searching : Found

-- A shift by 32 gives 0, as the processor's does; C leaves it undefined.
-- `while (l0 < 32 && result == contiguous_memory_unavailable)`
unfoldable pub word_loop : ℕ → ℕ → ℕ → Bits → Found
word_loop zero required l0 section = searching
word_loop (suc fuel) required l0 section =
    let l1 = count_leading_ones (shift_left l0 section) in
    let next = l0 + (l1 + count_leading_zeros (shift_left (l0 + l1) section)) in
    let rest = word_loop fuel required next section in
    if ltb l0 32 then (if leb required l1 then found_at l0 else rest) else nowhere

-- The search from the first free section of a word.
unfoldable pub search_word : ℕ → Bits → Found
search_word required section = word_loop 33 required (count_leading_zeros section) section

pub data Claimed : Type 0 where
  claimed : ℕ → RawMemory → Claimed
  panic : Claimed
  runs_on : Claimed

-- `sections[i] &= ~mask`, the mask of `required` bits from l0.
abbrev pub clear_bits : ℕ → ℕ → Bits → Bits
clear_bits l0 required v j = v j && not (leb l0 j && ltb j (l0 + required))

abbrev pub claim_found : ℕ → ℕ → RawMemory → Claimed → Found → Claimed
claim_found required i r rest searching = runs_on
claim_found required i r rest nowhere = rest
claim_found required i r rest (found_at l0) =
    claimed ((i * 32 + l0) * 2 ^ 8)
      (record r { sections = update r.sections i (clear_bits l0 required (r.sections i)) })

-- `while (i < limit && result == contiguous_memory_unavailable)`, for `n` words from `i`.
unfoldable pub claim_words : ℕ → ℕ → ℕ → RawMemory → Claimed
claim_words zero required i r = claimed unavailable r
claim_words (suc n) required i r =
    claim_found required i r (claim_words n required (suc i) r)
      (search_word required (r.sections i))

unfoldable pub claim_sections : ℕ → RawMemory → Claimed
claim_sections required r =
    if leb 32 required then panic else claim_words section_words required 0 r

-- The search of early_released_pages: the entry with enough pages, or the last empty one passed.
pub data Entry : Type 0 where
  enough : ℕ → Entry
  passed : Option ℕ → Entry

unfoldable pub entry_loop : ℕ → ℕ → ℕ → Option ℕ → (ℕ → Early) → Entry
entry_loop zero pages i empty e = passed empty
entry_loop (suc n) pages i empty e =
    let rest = entry_loop n pages (suc i) (if (e i).count == 0 then some i else empty) e in
    if ltb (e i).count pages then rest else enough i

abbrev pub early_entry : ℕ → ℕ → Early
early_entry base count = record { base = base % 2 ^ 24; count = count % 2 ^ 8 }

-- A section of which the first pages are claimed and the others stored.
abbrev pub split_section : ℕ → ℕ → Claimed → Claimed
split_section pages i panic = panic
split_section pages i runs_on = runs_on
split_section pages i (claimed section r) =
    if section == unavailable
    then claimed unavailable r
    else claimed section
        (record r { early = update r.early i (early_entry (section + pages) (0x100 - pages)) })

abbrev pub claim_pages : ℕ → RawMemory → Entry → Claimed
claim_pages pages r (passed none) = claimed unavailable r
claim_pages pages r (passed (some i)) = split_section pages i (claim_sections 1 r)
claim_pages pages r (enough i) = claimed (r.early i).base (record r {
  early = update r.early i (early_entry ((r.early i).base + pages) ((r.early i).count - pages));
})

unfoldable pub claim_contiguous_memory : ℕ → RawMemory → Claimed
unfolding section_aligned
claim_contiguous_memory pages r =
    if section_aligned pages
    then claim_sections (pages / 2 ^ 8) r
    else if leb 0x100 pages
    then panic
    else claim_pages pages r (entry_loop entries pages 0 none r.early)
