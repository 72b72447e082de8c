-- ===== src/Memory/Top.antt =====
-- app_memory_top: the memory of an application in one piece from 0x8000.
use simple_as_pi.Common.{
  ℕ, zero, suc, ◌+◌, ◌-◌, ◌*◌, ◌/◌, ◌^◌, ◌≤◌, ◌<◌, ◌≡◌, ◌≢◌, refl, true, false, inl, inr,
  Bool-cases, some, List, [], ◌∷◌, ◌++◌, arith, ◌==◌, ltb, leb, length,
}
use simple_as_pi.Blocks.{Block, Table, top_of}
use simple_as_pi.Blocks.Unmap.{Maps}
use simple_as_pi.Memory.{app_size, top_loop, keep_loop, release_loop, round_up, app_memory_top}
use simple_as_pi.Memory.Insert.{Lists, insert, length-insert, stored, store_block-Lists}
use simple_as_pi.Memory.Release.{
  Runs, end_of, end_of-le, top_of-block, top_loop-end_of, keep, release-Released, Runs-keep,
}

-- A block at the end of a run goes behind the others.
insert_at_end :
    (page : ℕ) (bs : List Block) (c : Block)
    → Runs page bs
    → c.va_page ≡ end_of page bs
    → insert c bs ≡ bs ++ c ∷ []
insert_at_end page [] c r e = refl
insert_at_end page (b ∷ bs) c r e =
    let le = end_of-le (page + b.pages) bs in
    let below : ltb b.va_page c.va_page ≡ true = ground (arith, r.0, r.1) in
    rw (below, insert_at_end (page + b.pages) bs c r.2 e) refl

Runs-snoc :
    (page : ℕ) (bs : List Block) (c : Block)
    → Runs page bs
    → c.va_page ≡ end_of page bs
    → c.pages ≢ 0
    → Runs page (bs ++ c ∷ []) × (end_of page (bs ++ c ∷ []) ≡ end_of page bs + c.pages)
Runs-snoc page [] c r e n = ((e, n, tt), refl)
Runs-snoc page (b ∷ bs) c r e n =
    let (r', e') = Runs-snoc (page + b.pages) bs c r.2 e n in ((r.0, r.1, r'), e')

-- The two loops that release memory, and what they leave of a run from `page`.
cut_off :
    (fuel page new q : ℕ) (bs : List Block) (t : Table)
    → Lists t bs
    → length bs < fuel
    → Runs page bs
    → end_of page bs < 2 ^ 20
    → q ≤ end_of page bs
    → length (keep q bs) ≤ length bs
    → new ≡ q * 2 ^ 12
    → (stops : ℕ) × (u : Table) × (keep_loop fuel new 0 t ≡ some stops)
      × (release_loop fuel q stops t ≡ some u)
      × Lists u (keep q bs)
cut_off fuel page new q bs t l f r fits le shorter whole =
    let (u, cuts) = release-Released fuel fuel page q 0 bs t f f l.maps r fits le in
    (
      cuts.stops,
      u,
      rw whole cuts.keeps,
      cuts.releases,
      record {
        maps = cuts.maps;
        rest = λ j a c. elim (Bool-cases (ltb j (length bs))) [
          | inl old ↦ cuts.gone j (omega arith) (ground arith)
          | inr free ↦ rw (cuts.same j (inr (ground arith))) (l.rest j (ground arith) c)
        ];
      },
    )

-- The first page of an application.
abbrev pub first_page : ℕ
first_page = 8

top_loop-stops :
    (fuel : ℕ) (device next : Block) (bs : List Block) (t : Table)
    → Maps t 0 (device ∷ next ∷ bs)
    → 1 < fuel
    → device.va_page ≤ first_page
    → device.va_page + device.pages < next.va_page
    → next.va_page < 2 ^ 20
    → top_loop fuel 0 0x8000 t ≡ some ((device.va_page + device.pages) * 2 ^ 12)
unfolding top_loop
top_loop-stops zero device next bs t m f low gap fits = absurd (omega arith)
top_loop-stops (suc zero) device next bs t m f low gap fits = absurd (omega arith)
top_loop-stops (suc (suc fuel)) device next bs t m f low gap fits =
    let top : top_of (t 0) ≡ (device.va_page + device.pages) * 2 ^ 12 =
      rw m.0 (top_of-block device device.va_page refl (omega arith)) in
    let used : ((t 0).pages == 0) ≡ false = ground (arith, m.0, m.1) in
    let first : leb (t 0).va_page 8 ≡ true = ground (arith, m.0) in
    let behind : leb (t 1).va_page ((device.va_page + device.pages) * 2 ^ 12 / 2 ^ 12) ≡ false =
      ground (arith, m.2.0) in
    let more : ((t 1).pages == 0) ≡ false = ground (arith, m.2.0, m.2.1) in
    rw (used, first, top, more, behind) refl

module _ (claim : ℕ → ℕ) (fuel : ℕ) where
  -- The top of a run is where its last block ends.
  app_memory_top-reads :
      (bs : List Block) (t : Table)
      → Lists t bs
      → length bs < fuel
      → Runs first_page bs
      → end_of first_page bs < 2 ^ 20
      → app_memory_top claim fuel 0 t ≡ some (end_of first_page bs * 2 ^ 12, t)
  unfolding app_memory_top
  app_memory_top-reads bs t l f r fits =
      let top = top_loop-end_of fuel 0 first_page bs t f l.maps r fits in rw top refl

  -- app_memory_top for more than an application has, below 4 GiB less a page, where its blocks run
  -- from 0x8000 without a gap, two entries of the table are free and there is fuel for it: it
  -- returns the size rounded up to pages, the pages in between are claimed and are one more block
  -- at the end of the table, and asked for the top it gives that back.
  pub app_memory_top_grows :
      (new : ℕ) (bs : List Block) (t : Table)
      → Lists t bs
      → suc (length bs) < fuel
      → suc (length bs) < app_size
      → Runs first_page bs
      → end_of first_page bs * 2 ^ 12 < new
      → new < 2 ^ 32 - 2 ^ 12
      → let last = end_of first_page bs in
        let pages = (round_up new - last * 2 ^ 12) / 2 ^ 12 in
        (u : Table) × (app_memory_top claim fuel new t ≡ some (round_up new, u))
        × Lists u (bs ++ stored last (claim pages) pages false t bs ∷ [])
        × (app_memory_top claim fuel 0 u ≡ some (round_up new, u))
  unfolding app_memory_top
  app_memory_top_grows new bs t l f room r above small =
      let last = end_of first_page bs in
      let pages = (round_up new - last * 2 ^ 12) / 2 ^ 12 in
      let c = stored last (claim pages) pages false t bs in
      let top = top_loop-end_of fuel 0 first_page bs t (omega arith) l.maps r (omega arith) in
      let not_zero : (new == 0) ≡ false = ground arith in
      let higher : ltb (last * 2 ^ 12) (round_up new) ≡ true = ground arith in
      let page : last * 2 ^ 12 / 2 ^ 12 ≡ last = omega arith in
      let some_pages : pages ≢ 0 = ground arith in
      let at_end = insert_at_end first_page bs c r refl in
      let (u, e, lists) =
        store_block-Lists fuel (last * 2 ^ 12) (claim pages) pages false bs t l (omega arith) room
          some_pages in
      let lists' : Lists u (bs ++ c ∷ []) = rw at_end at (rw page at lists) in
      let (runs, end) = Runs-snoc first_page bs c r refl some_pages in
      let longer : length (bs ++ c ∷ []) ≡ suc (length bs) = rw at_end at (length-insert c bs) in
      let end' : end_of first_page (bs ++ c ∷ []) * 2 ^ 12 ≡ round_up new = omega (arith, end) in
      let reads =
        app_memory_top-reads (bs ++ c ∷ []) u lists' (omega (arith, longer)) runs
          (omega (arith, end')) in
      (u, rw (not_zero, top, higher, e) refl, lists', rw end' at reads)

  -- app_memory_top for at least 0x8000 and less than an application has, where its blocks run from
  -- 0x8000 without a gap, with fuel for the table: it returns the size rounded up to pages, the
  -- table keeps the blocks below it, the last of them cut off there, and asked for the top it
  -- gives that back.
  pub app_memory_top_shrinks :
      (new : ℕ) (bs : List Block) (t : Table)
      → Lists t bs
      → length bs < fuel
      → Runs first_page bs
      → end_of first_page bs < 2 ^ 20
      → first_page * 2 ^ 12 ≤ new
      → new < 2 ^ 32 - 2 ^ 12
      → round_up new < end_of first_page bs * 2 ^ 12
      → (u : Table) × (app_memory_top claim fuel new t ≡ some (round_up new, u))
        × Lists u (keep (round_up new / 2 ^ 12) bs)
        × (app_memory_top claim fuel 0 u ≡ some (round_up new, u))
  unfolding app_memory_top
  app_memory_top_shrinks new bs t l f r fits low small below =
      let q = round_up new / 2 ^ 12 in
      let whole : round_up new ≡ q * 2 ^ 12 = omega arith in
      let top = top_loop-end_of fuel 0 first_page bs t f l.maps r fits in
      let not_zero : (new == 0) ≡ false = ground arith in
      let not_higher : ltb (end_of first_page bs * 2 ^ 12) (round_up new) ≡ false = ground arith in
      let lower : ltb (round_up new) (end_of first_page bs * 2 ^ 12) ≡ true = ground arith in
      let (runs, end, le) = Runs-keep first_page q bs r (omega arith) (omega arith) in
      let (stops, u, keeps, releases, lists) =
        cut_off fuel first_page (round_up new) q bs t l f r fits (omega arith) le whole in
      let reads =
        app_memory_top-reads (keep q bs) u lists (omega (arith, le)) runs (omega (arith, end)) in
      let e : end_of first_page (keep q bs) * 2 ^ 12 ≡ round_up new = omega (arith, end) in
      (u, rw (not_zero, top, not_higher, lower, keeps, releases) refl, lists, rw e at reads)

  -- With device pages mapped below 0x8000 and a gap behind them, their end is taken for the top.
  pub app_memory_top_misled :
      (device next : Block) (bs : List Block) (t : Table)
      → Maps t 0 (device ∷ next ∷ bs)
      → 1 < fuel
      → device.va_page ≤ first_page
      → device.va_page + device.pages < next.va_page
      → next.va_page < 2 ^ 20
      → app_memory_top claim fuel 0 t ≡ some ((device.va_page + device.pages) * 2 ^ 12, t)
  unfolding app_memory_top
  app_memory_top_misled device next bs t m f low gap fits =
      rw (top_loop-stops fuel device next bs t m f low gap fits) refl
