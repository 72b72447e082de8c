-- ===== src/Blocks/Unmap.antt =====
-- unmap_and_free: the table of a slot's pipes without the entries of one pipe.
use simple_as_pi.Common.{
  ℕ, zero, suc, ◌+◌, ◌/◌, ◌^◌, ◌≤◌, ◌<◌, ◌≡◌, ◌≢◌, true, false, inl, inr, Bool, Bool-cases, some,
  List, [], ◌∷◌, ◌++◌, arith, ◌==◌, if◌then◌else◌, update, length, ◌∙◌, sym, ap,
}
use mathlib.Core.Path.{subst}
use simple_as_pi.Blocks.{Block, Table, find_page, close_gap, unmap_and_free}

-- From entry `i` on the table holds the blocks `bs`, and then an entry with no pages.
abbrev pub Maps : Table → ℕ → List Block → Type 0
Maps t i [] = (t i).pages ≡ 0
Maps t i (b ∷ bs) = (t i ≡ b) × (b.pages ≢ 0) × Maps t (suc i) bs

-- No block of the list starts at the page.
abbrev pub Apart : ℕ → List Block → Type 0
Apart page [] = Unit {0}
Apart page (b ∷ bs) = (b.va_page ≢ page) × Apart page bs

pub Maps-frame :
    (t u : Table) (i : ℕ) (bs : List Block)
    → ((j : ℕ) → i ≤ j → u j ≡ t j)
    → Maps t i bs
    → Maps u i bs
Maps-frame t u i [] same m = ground (arith, same i, m)
Maps-frame t u i (b ∷ bs) same m =
    let e = same i (omega arith) in
    (rw e m.0, m.1, Maps-frame t u (suc i) bs (λ j l. same j (omega arith)) m.2)

-- The search passes blocks at other pages.
find_page-behind :
    (fuel page i : ℕ) (bs : List Block) (b : Block) (cs : List Block) (t : Table)
    → length bs < fuel
    → Apart page bs
    → b.va_page ≡ page
    → Maps t i (bs ++ b ∷ cs)
    → find_page fuel page i t ≡ some (i + length bs)
unfolding find_page
find_page-behind zero page i bs b cs t f a e m = absurd (omega arith)
find_page-behind (suc fuel) page i [] b cs t f a e m =
    let va : (t i).va_page ≡ page = rw m.0 e in
    let hit : ((t i).va_page == page) ≡ true = ground (arith, va) in rw hit (ground arith)
find_page-behind (suc fuel) page i (x ∷ bs) b cs t f a e m =
    let va : (t i).va_page ≢ page = rw m.0 a.0 in
    let on : ((t i).va_page == page) ≡ false = ground (arith, va) in
    let ih = find_page-behind fuel page (suc i) bs b cs t (omega arith) a.1 e m.2 in
    rw (on, ih) (ground arith)

-- The blocks behind the gap move down over it, each as it is.
close_gap-Maps :
    (fuel remove i : ℕ) (cs : List Block) (t : Table)
    → length cs < fuel
    → 0 < remove
    → Maps t (i + remove) cs
    → (u : Table) × (close_gap fuel remove i t ≡ some u)
      × Maps u i cs
      × ((j : ℕ) → j < i → u j ≡ t j)
unfolding close_gap
close_gap-Maps zero remove i cs t f pos m = absurd (omega arith)
close_gap-Maps (suc fuel) remove i [] t f pos m =
    let same : (i == i) ≡ true = ground arith in
    let end : ((t (i + remove)).pages == 0) ≡ true = ground (arith, m) in
    (update t i (t (i + remove)), simp (same, end), rw same m, λ j l. ground arith)
close_gap-Maps (suc fuel) remove i (c ∷ cs) t f pos m =
    let t' = update t i (t (i + remove)) in
    let same : (i == i) ≡ true = ground arith in
    let on : ((t (i + remove)).pages == 0) ≡ false = rw m.0 (ground (arith, m.1)) in
    let moved : Maps t' (suc i + remove) cs =
      Maps-frame t t' (suc i + remove) cs (λ j l. ground arith)
        (subst (λ n. Maps t n cs) (omega arith) m.2) in
    let (u, run, maps, kept) = close_gap-Maps fuel remove (suc i) cs t' (omega arith) pos moved in
    (
      u,
      simp (same, on, run),
      (kept i (omega arith) ∙ rw same m.0, m.1, maps),
      λ j l. kept j (omega arith) ∙ ground arith,
    )

Maps-behind :
    (t : Table) (i : ℕ) (bs cs : List Block) → Maps t i (bs ++ cs) → Maps t (i + length bs) cs
Maps-behind t i [] cs m = subst (λ n. Maps t n cs) (omega arith) m
Maps-behind t i (b ∷ bs) cs m =
    subst (λ n. Maps t n cs) (omega arith) (Maps-behind t (suc i) bs cs m.2)

Maps-join :
    (t u : Table) (i : ℕ) (bs cs ds : List Block)
    → ((j : ℕ) → j < i + length bs → u j ≡ t j)
    → Maps t i (bs ++ ds)
    → Maps u (i + length bs) cs
    → Maps u i (bs ++ cs)
Maps-join t u i [] cs ds same m v = subst (λ n. Maps u n cs) (omega arith) v
Maps-join t u i (b ∷ bs) cs ds same m v = (
  same i (omega arith) ∙ m.0,
  m.1,
  Maps-join t u (suc i) bs cs ds (λ j l. same j (omega arith)) m.2
      (subst (λ n. Maps u n cs) (omega arith) v),
)

-- unmap_and_free, with fuel for the table, where the first entry at the page of the address is one
-- of the used entries: that entry, and the one behind it for a double mapping, leave the table,
-- and the others keep their order.
pub unmap_and_free-Maps :
    (fuel va : ℕ) (double : Bool) (bs : List Block) (b : Block) (gone cs : List Block) (t : Table)
    → length bs < fuel
    → length cs < fuel
    → Apart (va / 2 ^ 12) bs
    → b.va_page ≡ va / 2 ^ 12
    → length (b ∷ gone) ≡ (if double then 2 else 1)
    → Maps t 0 (bs ++ b ∷ (gone ++ cs))
    → (u : Table) × (unmap_and_free fuel va double t ≡ some u) × Maps u 0 (bs ++ cs)
unfolding unmap_and_free
unmap_and_free-Maps fuel va double bs b gone cs t f g apart page size m =
    let remove : ℕ = if double then 2 else 1 in
    let found = find_page-behind fuel (va / 2 ^ 12) 0 bs b (gone ++ cs) t f apart page m in
    let tail : Maps t (0 + length bs + length (b ∷ gone)) cs =
      Maps-behind t (0 + length bs) (b ∷ gone) cs (Maps-behind t 0 bs (b ∷ (gone ++ cs)) m) in
    let tail' : Maps t (0 + length bs + remove) cs = rw size at tail in
    let (u, run, maps, kept) =
      close_gap-Maps fuel remove (0 + length bs) cs t g (ground (arith, size)) tail' in
    (u, rw (found, run), Maps-join t u 0 bs cs (b ∷ (gone ++ cs)) kept m maps)

find_page-unused :
    (fuel page i : ℕ) (bs : List Block) (t : Table)
    → length bs < fuel
    → Apart page bs
    → Maps t i bs
    → (t (i + length bs)).va_page ≡ page
    → find_page fuel page i t ≡ some (i + length bs)
unfolding find_page
find_page-unused zero page i bs t f a m e = absurd (omega arith)
find_page-unused (suc fuel) page i [] t f a m e =
    let here : i + 0 ≡ i = omega arith in
    let hit : ((t i).va_page == page) ≡ true = ground (arith, rw here at e) in rw hit (ground arith)
find_page-unused (suc fuel) page i (x ∷ bs) t f a m e =
    let va : (t i).va_page ≢ page = rw m.0 a.0 in
    let on : ((t i).va_page == page) ≡ false = ground (arith, va) in
    let next : i + length (x ∷ bs) ≡ suc i + length bs = omega arith in
    let ih = find_page-unused fuel page (suc i) bs t (omega arith) a.1 m.2 (rw next at e) in
    rw (on, ih) (ground arith)

Maps-end : (t : Table) (i : ℕ) (bs : List Block) → Maps t i bs → (t (i + length bs)).pages ≡ 0
Maps-end t i [] m = let here : i + 0 ≡ i = omega arith in rw here m
Maps-end t i (b ∷ bs) m =
    let next : i + length (b ∷ bs) ≡ suc i + length bs = omega arith in
    rw next (Maps-end t (suc i) bs m.2)

close_gap-still :
    (fuel remove i : ℕ) (t : Table)
    → 0 < fuel
    → t (i + remove) ≡ t i
    → (t i).pages ≡ 0
    → close_gap fuel remove i t ≡ some (update t i (t (i + remove)))
unfolding close_gap
close_gap-still zero remove i t f e z = absurd (omega arith)
close_gap-still (suc fuel) remove i t f e z =
    let same : (i == i) ≡ true = ground arith in
    let end : ((t (i + remove)).pages == 0) ≡ true = rw e (ground (arith, z)) in simp (same, end)

-- A search for a page that no pipe is mapped at finds the unused entry behind the mappings, if
-- that has page 0, and leaves the table as it is.
pub unmap_and_free_unused :
    (fuel : ℕ) (double : Bool) (bs : List Block) (t : Table)
    → length bs < fuel
    → Apart 0 bs
    → Maps t 0 bs
    → (t (length bs)).va_page ≡ 0
    → ((j : ℕ) → length bs ≤ j → t j ≡ t (length bs))
    → (u : Table) × (unmap_and_free fuel 0 double t ≡ some u) × ((j : ℕ) → u j ≡ t j)
unfolding unmap_and_free
unmap_and_free_unused fuel double bs t f apart m page blank =
    let n : ℕ = 0 + length bs in
    let remove : ℕ = if double then 2 else 1 in
    let here : n ≡ length bs = omega arith in
    let found = find_page-unused fuel 0 0 bs t f apart m (rw here page) in
    let copy : t (n + remove) ≡ t n =
      blank (n + remove) (omega arith) ∙ sym (blank n (omega arith)) in
    let still = close_gap-still fuel remove n t (omega arith) copy (Maps-end t 0 bs m) in
    (
      update t n (t (n + remove)),
      rw (found, still),
      λ j. elim (Bool-cases (j == n)) [
        | inl at ↦ let e : j ≡ n = ground (arith, at) in rw at (copy ∙ ap t (sym e))
        | inr off ↦ rw off
      ],
    )
