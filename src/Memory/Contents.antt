-- ===== src/Memory/Contents.antt =====
-- block_containing and TaskOpPhysicalFromVirtual: what is found at an address is what the list of
-- blocks has there.
use simple_as_pi.Common.{
  ℕ, zero, suc, ◌+◌, ◌-◌, ◌*◌, ◌/◌, ◌%◌, ◌^◌, ◌≤◌, ◌<◌, ◌≡◌, ◌≢◌, ◌⊎◌, refl, Bool, true, false, inl,
  inr, Bool-cases, Option, none, some, List, [], ◌∷◌, arith, ◌==◌, ltb, leb, ◌&&◌, if◌then◌else◌,
  length,
}
use simple_as_pi.Blocks.{Block, Table, top_of}
use simple_as_pi.Blocks.Unmap.{Maps}
use simple_as_pi.Mmu.{Mmu}
use simple_as_pi.Memory.{
  app_size, in_range, search_loop, Limits, found, block_containing, answer, physical_from_virtual,
  physical_in, map_device_pages,
}
use simple_as_pi.Memory.Insert.{Lists, insert, length-insert, stored, map_device_pages-Lists}

-- The page is one of the block's.
abbrev pub covers : Block → ℕ → Bool
covers b page = leb b.va_page page && ltb page (b.va_page + b.pages)

-- The first block of the list that has the page.
abbrev pub block_at : List Block → ℕ → Option Block
block_at [] page = none
block_at (b ∷ bs) page = if covers b page then some b else block_at bs page

-- Every block ends below 4 GiB.
abbrev pub Fit : List Block → Type 0
Fit [] = Unit {0}
Fit (b ∷ bs) = (b.va_page + b.pages < 2 ^ 20) × Fit bs

-- No block of the list shares a page with `c`.
abbrev pub Clear : Block → List Block → Type 0
Clear c [] = Unit {0}
Clear c (b ∷ bs) =
    ((b.va_page + b.pages ≤ c.va_page) ⊎ (c.va_page + c.pages ≤ b.va_page)) × Clear c bs

-- What the entry that a search ends with is: the block, or an entry without pages.
abbrev pub Gives : Option Block → Block → Type 0
Gives none b = b.pages ≡ 0
Gives (some c) b = b ≡ c

in_range-covers :
    (b : Block) (va : ℕ)
    → b.va_page + b.pages < 2 ^ 20
    → in_range va (b.va_page * 2 ^ 12 % 2 ^ 32) (top_of b) ≡ covers b (va / 2 ^ 12)
unfolding in_range top_of
in_range-covers b va fit = ground arith

search_loop-Gives :
    (fuel va i : ℕ) (bs : List Block) (t : Table)
    → length bs < fuel
    → i + length bs ≤ app_size
    → Fit bs
    → Maps t i bs
    → (k : ℕ) × (search_loop fuel app_size va i t ≡ some k)
      × Gives (block_at bs (va / 2 ^ 12)) (t k)
unfolding search_loop
search_loop-Gives zero va i bs t f room fit m = absurd (omega arith)
search_loop-Gives (suc fuel) va i [] t f room fit m = (i, ground arith, m)
search_loop-Gives (suc fuel) va i (b ∷ bs) t f room fit m =
    let same : in_range va ((t i).va_page * 2 ^ 12 % 2 ^ 32) (top_of (t i))
        ≡ covers b (va / 2 ^ 12) =
      rw m.0 (in_range-covers b va fit.0) in
    let used : ((t i).pages == 0) ≡ false = ground (arith, m.0, m.1) in
    let inside : ltb i app_size ≡ true = ground arith in
    let ih = search_loop-Gives fuel va (suc i) bs t (omega arith) (omega arith) fit.1 m.2 in
    elim (Bool-cases (covers b (va / 2 ^ 12))) [
      | inl hit ↦ (i, rw (used, same, hit) refl, rw hit m.0)
      | inr miss ↦ (ih.0, rw (used, same, miss, inside) ih.1, rw miss ih.2)
    ]

-- block_containing at an address of the application, where the table lists fewer blocks than it
-- has entries, all of which end below 4 GiB, with fuel for it: it finds the first block of the
-- list that covers the address, and an entry without pages if there is none.
pub block_containing-Gives :
    (fuel : ℕ) (l : Limits) (mmu : Mmu) (app pipes : Table) (va : ℕ) (bs : List Block)
    → va < l.app_top
    → Lists app bs
    → length bs < fuel
    → length bs < app_size
    → Fit bs
    → (b : Block) × (block_containing fuel l mmu app pipes va ≡ found b)
      × Gives (block_at bs (va / 2 ^ 12)) b
unfolding block_containing
block_containing-Gives fuel l mmu app pipes va bs below m f room fit =
    let (k, e, g) = search_loop-Gives fuel va 0 bs app f (omega arith) fit m.maps in
    let app_area : ltb va l.app_top ≡ true = ground arith in (app k, rw (app_area, e) refl, g)

-- A block that is put among blocks which it is clear of has its pages, and the others have theirs.
block_at-insert :
    (c : Block) (bs : List Block) (page : ℕ)
    → Clear c bs
    → block_at (insert c bs) page ≡ (if covers c page then some c else block_at bs page)
block_at-insert c [] page h = refl
block_at-insert c (b ∷ bs) page h = ground (arith, h.0, block_at-insert c bs page h.1)

Fit-insert :
    (c : Block) (bs : List Block) → c.va_page + c.pages < 2 ^ 20 → Fit bs → Fit (insert c bs)
Fit-insert c [] h fit = (h, fit)
Fit-insert c (b ∷ bs) h fit = ground (arith, Fit-insert c bs h fit.1, fit.0)

-- The address in a block that it covers, in physical memory.
physical_in-block :
    (b : Block) (va size : ℕ)
    → b.va_page + b.pages < 2 ^ 20
    → covers b (va / 2 ^ 12) ≡ true
    → va + size ≤ (b.va_page + b.pages) * 2 ^ 12
    → physical_in (found b) va size
      ≡ answer ((b.page_base * 2 ^ 12 + (va - b.va_page * 2 ^ 12)) % 2 ^ 32)
unfolding physical_in
physical_in-block b va size fit hit in_block = ground arith

-- What a slot has after the pages are mapped.
pub record Mapped (fuel : ℕ) (l : Limits) (mmu : Mmu) (pipes u : Table) (c : Block)
    (bs : List Block) : Type 0 where
  pub lists : Lists u (insert c bs)
  -- the physical addresses of the pages
  pub translates :
      (va size : ℕ)
      → va < l.app_top
      → covers c (va / 2 ^ 12) ≡ true
      → va + size ≤ (c.va_page + c.pages) * 2 ^ 12
      → physical_from_virtual fuel l mmu u pipes va size
        ≡ answer ((c.page_base * 2 ^ 12 + (va - c.va_page * 2 ^ 12)) % 2 ^ 32)
  -- elsewhere, what was there
  pub keeps :
      (va : ℕ)
      → va < l.app_top
      → covers c (va / 2 ^ 12) ≡ false
      → (b : Block) × (block_containing fuel l mmu u pipes va ≡ found b)
        × Gives (block_at bs (va / 2 ^ 12)) b

module _ (fuel : ℕ) (l : Limits) (mmu : Mmu) (pipes : Table) where
  Mapped-of :
      (u : Table) (c : Block) (bs : List Block)
      → Lists u (insert c bs)
      → suc (length bs) < fuel
      → suc (length bs) < app_size
      → Fit bs
      → c.va_page + c.pages < 2 ^ 20
      → Clear c bs
      → Mapped fuel l mmu pipes u c bs
  unfolding physical_from_virtual
  Mapped-of u c bs lists f room fit fits clear =
      let finds = λ (va : ℕ) (below : va < l.app_top).
        block_containing-Gives fuel l mmu u pipes va (insert c bs) below lists
          (omega (arith, length-insert c bs)) (omega (arith, length-insert c bs))
          (Fit-insert c bs fits fit) in
      record {
        lists = lists;
        translates = λ va size below hit in_block.
            let (b, e, g) = finds va below in
            let at : block_at (insert c bs) (va / 2 ^ 12) ≡ some c =
              rw (block_at-insert c bs (va / 2 ^ 12) clear, hit) refl in
            let same : b ≡ c = rw at at g in
            rw (e, same) (physical_in-block c va size fits hit in_block);
        keeps = λ va below miss.
            let (b, e, g) = finds va below in
            let at : block_at (insert c bs) (va / 2 ^ 12) ≡ block_at bs (va / 2 ^ 12) =
              rw (block_at-insert c bs (va / 2 ^ 12) clear, miss) refl in
            (b, e, rw at at g);
      }

  -- map_device_pages, for at least one page below 4 GiB clear of all blocks of a slot, with two
  -- entries of the table free and fuel for it: the table then holds the new block and the old ones
  -- in the order of their addresses; PhysicalFromVirtual gives the device's address for every
  -- address of the new pages that it is asked for with a size that stays in them; and at any other
  -- address of the application what is found is what the slot had there.
  pub map_device_pages-Mapped :
      (va base pages : ℕ) (bs : List Block) (t : Table)
      → Lists t bs
      → suc (length bs) < fuel
      → suc (length bs) < app_size
      → pages ≢ 0
      → Fit bs
      → va / 2 ^ 12 + pages < 2 ^ 20
      → Clear (stored (va / 2 ^ 12) base pages true t bs) bs
      → (u : Table) × (map_device_pages fuel va base pages t ≡ some u)
        × Mapped fuel l mmu pipes u (stored (va / 2 ^ 12) base pages true t bs) bs
  map_device_pages-Mapped va base pages bs t lists f room some_pages fit fits clear =
      let (u, e, after) =
        map_device_pages-Lists fuel va base pages bs t lists (omega arith) room some_pages in
      (u, e, Mapped-of u _ bs after f room fit fits clear)
