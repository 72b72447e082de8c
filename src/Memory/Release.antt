-- ===== src/Memory/Release.antt =====
-- app_memory_top: a run of blocks in the table, its end, and how it is cut off at a page.
use simple_as_pi.Common.{
  ℕ, zero, suc, ◌+◌, ◌-◌, ◌*◌, ◌/◌, ◌^◌, ◌≤◌, ◌<◌, ◌≡◌, ◌≢◌, ◌⊎◌, refl, true, false, inl, inr,
  Bool-cases, some, List, [], ◌∷◌, arith, ◌==◌, ltb, leb, if◌then◌else◌, length, update,
}
use simple_as_pi.Blocks.{Block, Table, top_of}
use simple_as_pi.Blocks.Unmap.{Maps, Maps-frame}
use simple_as_pi.Memory.{top_loop, keep_loop, cut, release_loop}

-- The blocks have pages, and each starts at the page where the one before it ends.
abbrev pub Runs : ℕ → List Block → Type 0
Runs page [] = Unit {0}
Runs page (b ∷ bs) = (b.va_page ≡ page) × (b.pages ≢ 0) × Runs (page + b.pages) bs

abbrev pub end_of : ℕ → List Block → ℕ
end_of page [] = page
end_of page (b ∷ bs) = end_of (page + b.pages) bs

pub end_of-le : (page : ℕ) (bs : List Block) → page ≤ end_of page bs
end_of-le page [] = omega arith
end_of-le page (b ∷ bs) = omega (arith, end_of-le (page + b.pages) bs)

pub top_of-block :
    (b : Block) (page : ℕ)
    → b.va_page ≡ page
    → page + b.pages < 2 ^ 20
    → top_of b ≡ (page + b.pages) * 2 ^ 12
unfolding top_of
top_of-block b page e fits = omega arith

pub top_loop-end_of :
    (fuel i page : ℕ) (bs : List Block) (t : Table)
    → length bs < fuel
    → Maps t i bs
    → Runs page bs
    → end_of page bs < 2 ^ 20
    → top_loop fuel i (page * 2 ^ 12) t ≡ some (end_of page bs * 2 ^ 12)
unfolding top_loop
top_loop-end_of zero i page bs t f m r fits = absurd (omega arith)
top_loop-end_of (suc fuel) i page [] t f m r fits = ground arith
top_loop-end_of (suc fuel) i page (b ∷ bs) t f m r fits =
    let le = end_of-le (page + b.pages) bs in
    let top : top_of (t i) ≡ (page + b.pages) * 2 ^ 12 =
      rw m.0 (top_of-block b page r.0 (omega arith)) in
    let used : ((t i).pages == 0) ≡ false = ground (arith, m.0, m.1) in
    let starts : (t i).va_page ≡ page = rw m.0 r.0 in
    let next : leb (t i).va_page (page * 2 ^ 12 / 2 ^ 12) ≡ true = ground arith in
    rw (used, next, top)
      (top_loop-end_of fuel (suc i) (page + b.pages) bs t (omega arith) m.2 r.2 fits)

-- The blocks cut off at a page.
abbrev pub keep : ℕ → List Block → List Block
keep page [] = []
keep page (b ∷ bs) =
    if ltb b.va_page page
    then (if leb page (b.va_page + b.pages)
        then record b { pages = page - b.va_page } ∷ []
        else b ∷ keep page bs)
    else []

-- Blocks that start at or after the page lose all their pages.
release_loop-zero :
    (fuel page q i : ℕ) (bs : List Block) (t : Table)
    → length bs < fuel
    → Maps t i bs
    → Runs page bs
    → q ≤ page
    → (u : Table) × (release_loop fuel q i t ≡ some u)
      × ((j : ℕ) → i ≤ j → j ≤ i + length bs → (u j).pages ≡ 0)
      × ((j : ℕ) → (j < i) ⊎ (i + length bs ≤ j) → u j ≡ t j)
unfolding release_loop cut
release_loop-zero zero page q i bs t f m r le = absurd (omega arith)
release_loop-zero (suc fuel) page q i [] t f m r le =
    (t, ground arith, λ j a b. let e : j ≡ i = omega arith in rw e m, λ j h. refl)
release_loop-zero (suc fuel) page q i (b ∷ bs) t f m r le =
    let t' : Table = update t i (cut q (t i)) in
    let used : ((t i).pages == 0) ≡ false = ground (arith, m.0, m.1) in
    let m' : Maps t' (suc i) bs = Maps-frame t t' (suc i) bs (λ j h. ground arith) m.2 in
    let (u, e, gone, same) =
      release_loop-zero fuel (page + b.pages) q (suc i) bs t' (omega arith) m' r.2 (omega arith) in
    let above : ltb (t i).va_page q ≡ false = ground (arith, m.0, r.0) in
    let first : (u i).pages ≡ 0 = rw (same i (inl (omega arith)), above) (ground (arith, above)) in
    (
      u,
      rw (used, e) refl,
      λ j a c. elim (Bool-cases (j == i)) [
        | inl here ↦ ground (arith, first)
        | inr later ↦ gone j (ground arith) (omega arith)
      ],
      λ j h. ground (arith, h, same j),
    )

-- What releasing the memory from the page `q` on leaves, with `fuel` for the first loop and `g` for
-- the second.
pub record Released (fuel g q i : ℕ) (bs : List Block) (t u : Table) : Type 0 where
  pub stops : ℕ
  pub keeps : keep_loop fuel (q * 2 ^ 12) i t ≡ some stops
  pub releases : release_loop g q stops t ≡ some u
  pub maps : Maps u i (keep q bs)
  pub gone : (j : ℕ) → i + length (keep q bs) ≤ j → j < i + length bs → (u j).pages ≡ 0
  pub same : (j : ℕ) → (j < i) ⊎ (i + length bs ≤ j) → u j ≡ t j

-- The search has come to the block that the new top is in, or that is above it.
release-here :
    (g page q i : ℕ) (b : Block) (bs : List Block) (t : Table)
    → length (b ∷ bs) < g
    → Maps t i (b ∷ bs)
    → Runs page (b ∷ bs)
    → q ≤ page + b.pages
    → (u : Table) × (release_loop g q i t ≡ some u)
      × Maps u i (keep q (b ∷ bs))
      × ((j : ℕ) → i + length (keep q (b ∷ bs)) ≤ j → j < i + length (b ∷ bs) → (u j).pages ≡ 0)
      × ((j : ℕ) → (j < i) ⊎ (i + length (b ∷ bs) ≤ j) → u j ≡ t j)
unfolding release_loop cut
release-here zero page q i b bs t f m r top = absurd (omega arith)
release-here (suc g) page q i b bs t f m r top = elim (Bool-cases (ltb page q)) [
  | inl inside ↦
      let t' : Table = update t i (cut q (t i)) in
      let used : ((t i).pages == 0) ≡ false = ground (arith, m.0, m.1) in
      let m' : Maps t' (suc i) bs = Maps-frame t t' (suc i) bs (λ j h. ground arith) m.2 in
      let (u, e, gone, same) =
        release_loop-zero g (page + b.pages) q (suc i) bs t' (omega arith) m' r.2 top in
      let first : u i ≡ record b { pages = q - b.va_page } =
        rw (same i (inl (omega arith))) (ground (arith, m.0, r.0)) in
      let cuts : keep q (b ∷ bs) ≡ record b { pages = q - b.va_page } ∷ [] = ground (arith, r.0) in
      let behind : (u (suc i)).pages ≡ 0 = gone (suc i) (omega arith) (omega arith) in
      (
        u,
        rw (used, e) refl,
        rw cuts (first, ground (arith, r.0), behind),
        rw cuts (λ j a c. gone j (omega arith) (omega arith)),
        λ j h. ground (arith, h, same j),
      )
  | inr above ↦
      let (u, e, gone, same) = release_loop-zero (suc g) page q i (b ∷ bs) t f m r (ground arith) in
      let cuts : keep q (b ∷ bs) ≡ [] = ground (arith, r.0) in
      (
        u,
        e,
        rw cuts (gone i (omega arith) (omega arith)),
        rw cuts (λ j a c. gone j (omega arith) (omega arith)),
        same,
      )
]

pub release-Released :
    (fuel g page q i : ℕ) (bs : List Block) (t : Table)
    → length bs < fuel
    → length bs < g
    → Maps t i bs
    → Runs page bs
    → end_of page bs < 2 ^ 20
    → q ≤ end_of page bs
    → (u : Table) × Released fuel g q i bs t u
unfolding keep_loop release_loop
release-Released zero g page q i bs t f h m r fits le = absurd (omega arith)
release-Released (suc fuel) zero page q i bs t f h m r fits le = absurd (omega arith)
release-Released (suc fuel) (suc g) page q i [] t f h m r fits le = (
  t,
  record {
    stops = i;
    keeps = ground (arith, m);
    releases = ground (arith, m);
    maps = m;
    gone = λ j a c. absurd (omega arith);
    same = λ j e. refl;
  },
)
release-Released (suc fuel) (suc g) page q i (b ∷ bs) t f h m r fits le =
    let end = end_of-le (page + b.pages) bs in
    let top : top_of (t i) ≡ (page + b.pages) * 2 ^ 12 =
      rw m.0 (top_of-block b page r.0 (omega arith)) in
    let used : ((t i).pages == 0) ≡ false = ground (arith, m.0, m.1) in
    elim (Bool-cases (ltb (page + b.pages) q)) [
      | inl more ↦
          let (u, on) =
            release-Released fuel (suc g) (page + b.pages) q (suc i) bs t (omega arith)
              (omega arith) m.2 r.2 fits le in
          let kept : keep q (b ∷ bs) ≡ b ∷ keep q bs = ground (arith, r.0) in
          let below : ltb ((page + b.pages) * 2 ^ 12) (q * 2 ^ 12) ≡ true = ground arith in
          (
            u,
            record {
              stops = on.stops;
              keeps = rw (used, top, below) on.keeps;
              releases = on.releases;
              maps = rw kept (rw (on.same i (inl (omega arith))) m.0, m.1, on.maps);
              gone = rw kept (λ j a c. on.gone j (omega arith) (omega arith));
              same = λ j e. on.same j (ground arith);
            },
          )
      | inr last ↦
          let (u, e, maps, gone, same) =
            release-here (suc g) page q i b bs t h m r (ground arith) in
          let stays : ltb ((page + b.pages) * 2 ^ 12) (q * 2 ^ 12) ≡ false = ground arith in
          (
            u,
            record {
              stops = i;
              keeps = rw (used, top, stays) refl;
              releases = e;
              maps = maps;
              gone = gone;
              same = same;
            },
          )
    ]

-- What is kept is a run up to the page.
pub Runs-keep :
    (page q : ℕ) (bs : List Block)
    → Runs page bs
    → page ≤ q
    → q ≤ end_of page bs
    → Runs page (keep q bs) × (end_of page (keep q bs) ≡ q) × (length (keep q bs) ≤ length bs)
Runs-keep page q [] r low high = (tt, omega arith, omega arith)
Runs-keep page q (b ∷ bs) r low high = elim (Bool-cases (ltb page q)) [
  | inr all ↦
      let none_left : keep q (b ∷ bs) ≡ [] = ground (arith, r.0) in
      rw none_left (tt, ground arith, omega arith)
  | inl more ↦ elim (Bool-cases (leb q (page + b.pages))) [
    | inl inside ↦
        let cuts : keep q (b ∷ bs) ≡ record b { pages = q - b.va_page } ∷ [] =
          ground (arith, r.0) in
        rw cuts ((r.0, ground (arith, r.0), tt), ground (arith, r.0), omega arith)
    | inr beyond ↦
        let kept : keep q (b ∷ bs) ≡ b ∷ keep q bs = ground (arith, r.0) in
        let (runs, e, le) = Runs-keep (page + b.pages) q bs r.2 (ground arith) high in
        rw kept ((r.0, r.1, runs), e, omega arith)
  ]
]
