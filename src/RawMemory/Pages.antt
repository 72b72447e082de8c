-- ===== src/RawMemory/Pages.antt =====
-- Fewer than 256 pages: what a claim takes, and which releases end.
use simple_as_pi.Common.{
  ℕ, zero, suc, ◌+◌, ◌-◌, ◌*◌, ◌/◌, ◌%◌, ◌^◌, ◌≤◌, ◌<◌, ◌≡◌, ◌≢◌, ◌⊎◌, refl, Bool, true, false, not,
  ◌&&◌, inl, inr, Bool-cases, Option, none, some, arith, ◌==◌, ltb, leb, if◌then◌else◌,
}
use simple_as_pi.RawMemory.{
  Early, RawMemory, entries, unavailable, Freed, free_body, free_contiguous_memory, store_at,
  store_pages, free_rest, free_sections, Entry, enough, passed, entry_loop, split_section,
  claim_pages, Claimed, claimed, claim_sections, section_words, claim_contiguous_memory,
}
use simple_as_pi.RawMemory.Sections.{among, Takes, Claims, claim_contiguous_memory-Claims}

-- A release of pages that start inside a section and reach its end, or go beyond it, calls itself
-- without end: it is still running after any number of calls.
pub free_contiguous_memory_never_ends :
    (fuel base pages : ℕ) (r : RawMemory)
    → base % 2 ^ 8 ≢ 0
    → 2 ^ 8 ≤ base % 2 ^ 8 + pages
    → base + pages < 2 ^ 32
    → free_contiguous_memory fuel base pages r ≡ Freed.runs_on
unfolding free_contiguous_memory free_body
free_contiguous_memory_never_ends zero base pages r inside over small = refl
free_contiguous_memory_never_ends (suc fuel) base pages r inside over small =
    let unaligned : (base % 2 ^ 8 == 0) ≡ false = ground arith in
    let crosses : (base / 2 ^ 8 == (base + pages) % 2 ^ 32 / 2 ^ 8) ≡ false = ground arith in
    let again =
      free_contiguous_memory_never_ends fuel base (0x100 - base % 2 ^ 8) r inside (omega arith)
        (omega arith) in
    rw (unaligned, crosses, again) refl

-- The entry holds the page.
abbrev pub holds : Early → ℕ → Bool
holds e page = among e.base e.count page

-- Every entry before `n` has fewer pages.
abbrev pub Short : ℕ → ℕ → (ℕ → Early) → Type 0
Short n pages e = (j : ℕ) → j < n → (e j).count < pages

-- Where the search of the first `top` entries ends.
abbrev Searches : ℕ → ℕ → (ℕ → Early) → Entry → Type 0
Searches top pages e (enough k) = (k < top) × (pages ≤ (e k).count) × Short k pages e
Searches top pages e (passed none) = Short top pages e
Searches top pages e (passed (some k)) = (k < top) × ((e k).count ≡ 0) × Short top pages e

abbrev Seen : ℕ → (ℕ → Early) → Option ℕ → Type 0
Seen i e none = Unit {0}
Seen i e (some k) = (k < i) × ((e k).count ≡ 0)

Seen-next :
    (i : ℕ) (e : ℕ → Early) (empty : Option ℕ)
    → Seen i e empty
    → Seen (suc i) e (if (e i).count == 0 then some i else empty)
Seen-next i e none seen = ground arith
Seen-next i e (some k) seen = ground arith

entry_loop-Searches :
    (n i top pages : ℕ) (empty : Option ℕ) (e : ℕ → Early)
    → i + n ≡ top
    → Seen i e empty
    → Short i pages e
    → Searches top pages e (entry_loop n pages i empty e)
unfolding entry_loop
entry_loop-Searches zero i top pages none e last seen short = λ j h. short j (omega arith)
entry_loop-Searches zero i top pages (some k) e last seen short =
    (omega arith, seen.1, λ j h. short j (omega arith))
entry_loop-Searches (suc n) i top pages empty e last seen short =
    elim (Bool-cases (ltb (e i).count pages)) [
      | inr found ↦ rw found (omega arith, ground (arith, found), short)
      | inl fewer ↦ rw fewer (
          entry_loop-Searches n (suc i) top pages _ e (omega arith) (Seen-next i e empty seen)
            λ j h. ground (arith, short j))
    ]

-- Every entry is a range of pages that its fields can hold.
abbrev pub InRange : RawMemory → Type 0
InRange r = (i : ℕ) → ((r.early i).base + (r.early i).count < 2 ^ 24) × ((r.early i).count < 2 ^ 8)

-- The pages are the first of the first entry that has enough, which keeps the rest.
pub record FromEntry (pages page : ℕ) (r r' : RawMemory) : Type 0 where
  pub entry : ℕ
  pub first : Short entry pages r.early
  pub start : page ≡ (r.early entry).base
  pub had : (p : ℕ) → among page pages p ≡ true → holds (r.early entry) p ≡ true
  pub rest :
      (p : ℕ) → holds (r'.early entry) p ≡ (holds (r.early entry) p && not (among page pages p))
  pub others : (j : ℕ) → j ≢ entry → r'.early j ≡ r.early j
  pub sections : r'.sections ≡ r.sections

-- No entry has enough: the pages are the first of a section, which an empty entry has the rest of.
pub record FromSection (pages page : ℕ) (r r' : RawMemory) : Type 0 where
  pub short : Short entries pages r.early
  pub entry : ℕ
  pub was_empty : (r.early entry).count ≡ 0
  pub section : ℕ
  pub start : page ≡ section * 2 ^ 8
  pub takes : Takes 1 section r (record r' { early = r.early })
  pub rest :
      (p : ℕ) → holds (r'.early entry) p ≡ ((p / 2 ^ 8 == section) && not (among page pages p))
  pub others : (j : ℕ) → j ≢ entry → r'.early j ≡ r.early j

-- What a claim of fewer than 256 pages comes to.
abbrev pub ClaimsPages : ℕ → RawMemory → Claimed → Type 0
ClaimsPages pages r Claimed.panic = ⊥
ClaimsPages pages r Claimed.runs_on = ⊥
ClaimsPages pages r (claimed page r') =
    FromEntry pages page r r'
    ⊎ FromSection pages page r r'
    ⊎ ((page ≡ unavailable) × (r' ≡ r) × Short entries pages r.early)

ClaimsPages-entry :
    (pages k : ℕ) (r : RawMemory)
    → InRange r
    → Searches entries pages r.early (enough k)
    → ClaimsPages pages r (claim_pages pages r (enough k))
ClaimsPages-entry pages k r range (low, has, short) = inl (record {
  entry = k;
  first = short;
  start = refl;
  had = λ p h. ground arith;
  rest = λ p. ground (arith, range k);
  others = λ j h. ground arith;
  sections = refl;
})

ClaimsPages-section :
    (pages k : ℕ) (r : RawMemory) (c : Claimed)
    → 0 < pages
    → pages < 2 ^ 8
    → (r.early k).count ≡ 0
    → Short entries pages r.early
    → Claims 1 0 (section_words * 32) r c
    → ClaimsPages pages r (split_section pages k c)
ClaimsPages-section pages k r Claimed.panic pos few empty short c = c
ClaimsPages-section pages k r Claimed.runs_on pos few empty short c = c
ClaimsPages-section pages k r (claimed page r') pos few empty short (inr (e, same, no_run)) =
    let failed : (page == unavailable) ≡ true = ground arith in
    rw failed (inr (inr (refl, same, short)))
ClaimsPages-section pages k r (claimed page r') pos few empty short
      (inl (section, e, low, high, takes)) =
    let given : (page == unavailable) ≡ false = ground arith in
    rw given (
      inr (
        inl (record {
          short = short;
          entry = k;
          was_empty = empty;
          section = section;
          start = e;
          takes = record {
            were_free = takes.were_free;
            are_taken = takes.are_taken;
            in_word = takes.in_word;
            others = refl;
          };
          rest = λ p. ground arith;
          others = λ j h. ground (arith, takes.others);
        })))

ClaimsPages-claim_pages :
    (pages : ℕ) (r : RawMemory) (f : Entry)
    → 0 < pages
    → pages < 2 ^ 8
    → InRange r
    → Searches entries pages r.early f
    → Claims 1 0 (section_words * 32) r (claim_sections 1 r)
    → ClaimsPages pages r (claim_pages pages r f)
ClaimsPages-claim_pages pages r (enough k) pos few range s c = ClaimsPages-entry pages k r range s
ClaimsPages-claim_pages pages r (passed none) pos few range s c = inr (inr (refl, refl, s))
ClaimsPages-claim_pages pages r (passed (some k)) pos few range s c =
    ClaimsPages-section pages k r _ pos few s.1 s.2 c

-- A claim of 1 to 255 pages, where every entry of early_released_pages is a range that its fields
-- can hold: it gives the first pages of the first entry that has enough, which keeps the rest; or,
-- where none has, the first pages of a free section, which is taken and of which an empty entry
-- has the rest; or it gives contiguous_memory_unavailable and changes nothing, and then no entry
-- has enough.
pub claim_contiguous_memory-ClaimsPages :
    (pages : ℕ) (r : RawMemory)
    → 0 < pages
    → pages < 2 ^ 8
    → InRange r
    → ClaimsPages pages r (claim_contiguous_memory pages r)
unfolding claim_contiguous_memory
claim_contiguous_memory-ClaimsPages pages r pos few range =
    let odd : (pages % 2 ^ 8 == 0) ≡ false = ground arith in
    let fits : leb 0x100 pages ≡ false = ground arith in
    let searched =
      entry_loop-Searches entries 0 entries pages none r.early refl tt
        (λ j h. absurd (omega arith)) in
    rw (odd, fits)
      (ClaimsPages-claim_pages pages r _ pos few range searched
        (claim_contiguous_memory-Claims 1 r (omega arith) (omega arith)))

store_at-ends :
    (base pages : ℕ) (r : RawMemory) (i : Option ℕ) → store_at base pages r i ≢ Freed.runs_on
store_at-ends base pages r none h = cc
store_at-ends base pages r (some i) h = cc

store_pages-ends : (base pages : ℕ) (r : RawMemory) → store_pages base pages r ≢ Freed.runs_on
unfolding store_pages
store_pages-ends base pages r = elim (Bool-cases (pages == 0)) [
  | inl nothing ↦ rw nothing (λ h. cc)
  | inr something ↦ rw something (store_at-ends base pages r _)
]

free_rest-ends :
    (free : ℕ → ℕ → RawMemory → Freed) (base pages : ℕ) (r r' : RawMemory)
    → base % 2 ^ 8 ≡ 0
    → free base (pages / 2 ^ 8 * 2 ^ 8) r ≡ Freed.freed r'
    → free_rest free base pages r ≢ Freed.runs_on
free_rest-ends free base pages r r' aligned e =
    let a : (base % 2 ^ 8 == 0) ≡ true = ground arith in
    elim (Bool-cases (ltb 0xff pages)) [
      | inl sections ↦ rw (a, sections, e) (store_pages-ends _ _ r')
      | inr few ↦ rw (a, few) (store_pages-ends base pages r)
    ]

free_body-whole :
    (free : ℕ → ℕ → RawMemory → Freed) (base pages : ℕ) (r : RawMemory)
    → base % 2 ^ 8 ≡ 0
    → (r' : RawMemory) × (free_body free base (pages / 2 ^ 8 * 2 ^ 8) r ≡ Freed.freed r')
unfolding free_body
free_body-whole free base pages r aligned =
    let a : (base % 2 ^ 8 == 0) ≡ true = ground arith in
    let b : (pages / 2 ^ 8 * 2 ^ 8 % 2 ^ 8 == 0) ≡ true = ground arith in
    let r' : RawMemory = record r {
      sections = free_sections (base / 2 ^ 8) (pages / 2 ^ 8 * 2 ^ 8 / 2 ^ 8) r.sections;
    } in
    (r', rw (a, b) refl)

free_body-ends :
    (free : ℕ → ℕ → RawMemory → Freed) (base pages : ℕ) (r : RawMemory)
    → (base % 2 ^ 8 ≡ 0) ⊎ (base % 2 ^ 8 + pages < 2 ^ 8)
    → base + pages < 2 ^ 32
    → (base % 2 ^ 8 ≡ 0 → (r' : RawMemory) × (free base (pages / 2 ^ 8 * 2 ^ 8) r ≡ Freed.freed r'))
    → free_body free base pages r ≢ Freed.runs_on
unfolding free_body
free_body-ends free base pages r which small sections =
    elim (Bool-cases ((base % 2 ^ 8 == 0) && (pages % 2 ^ 8 == 0))) [
      | inl whole ↦ rw whole (λ h. cc)
      | inr odd ↦ elim (Bool-cases (base / 2 ^ 8 == (base + pages) % 2 ^ 32 / 2 ^ 8)) [
        | inl inside ↦ rw (odd, inside) (store_pages-ends base pages r)
        | inr crosses ↦
            let start : base % 2 ^ 8 ≡ 0 = ground arith in
            let a : (base % 2 ^ 8 == 0) ≡ true = ground arith in
            let (r', e) = sections start in
            let rest = free_rest-ends free base pages r r' start e in
            rw (odd, crosses, a) (rw a at rest)
      ]
    ]

-- A release of pages that start at a section, or end before the end of the section that they start
-- in, is not left running: two calls deep are enough.
pub free_contiguous_memory_ends :
    (fuel base pages : ℕ) (r : RawMemory)
    → (base % 2 ^ 8 ≡ 0) ⊎ (base % 2 ^ 8 + pages < 2 ^ 8)
    → base + pages < 2 ^ 32
    → free_contiguous_memory (suc (suc fuel)) base pages r ≢ Freed.runs_on
unfolding free_contiguous_memory
free_contiguous_memory_ends fuel base pages r which small =
    free_body-ends (free_body (free_contiguous_memory fuel)) base pages r which small
      (free_body-whole (free_contiguous_memory fuel) base pages r)
