-- ===== src/Memory/Insert.antt =====
-- find_block and map_device_pages: the table stands for a list of blocks, and a new block is put
-- into the list by its address.
use simple_as_pi.Common.{
  ℕ, zero, suc, ◌+◌, ◌/◌, ◌^◌, ◌≤◌, ◌<◌, ◌≡◌, ◌≢◌, refl, Bool, true, false, inl, inr, Bool-cases,
  some, List, [], ◌∷◌, arith, ◌==◌, ltb, leb, ◌&&◌, ◌-◌, if◌then◌else◌, update, length,
}
use simple_as_pi.Blocks.{Block, Table}
use simple_as_pi.Blocks.Unmap.{Maps}
use simple_as_pi.Memory.{app_size, place_loop, shift, store_block, find_block, map_device_pages}

-- The blocks of the list, and nothing behind them in the table.
pub record Lists (t : Table) (bs : List Block) : Type 0 where
  pub maps : Maps t 0 bs
  pub rest : (j : ℕ) → length bs ≤ j → j < app_size → (t j).pages ≡ 0

-- A block goes before the first that does not start below it.
abbrev pub insert : Block → List Block → List Block
insert b [] = b ∷ []
insert b (x ∷ xs) = if ltb x.va_page b.va_page then x ∷ insert b xs else b ∷ x ∷ xs

-- The index at which it goes in.
abbrev pub place : ℕ → List Block → ℕ
place page [] = 0
place page (x ∷ xs) = if ltb x.va_page page then suc (place page xs) else 0

pub place-le : (page : ℕ) (bs : List Block) → place page bs ≤ length bs
place-le page [] = omega arith
place-le page (x ∷ xs) = ground (arith, place-le page xs)

place_loop-place :
    (fuel page i : ℕ) (bs : List Block) (t : Table)
    → length bs < fuel
    → Maps t i bs
    → place_loop fuel page i t ≡ some (i + place page bs)
unfolding place_loop
place_loop-place zero page i bs t f m = absurd (omega arith)
place_loop-place (suc fuel) page i [] t f m = ground arith
place_loop-place (suc fuel) page i (x ∷ xs) t f m =
    ground (arith, m.0, m.1, place_loop-place fuel page (suc i) xs t (omega arith) m.2)

-- The entries from `i` to below `k` move up by one.
abbrev pub moved : ℕ → ℕ → Table → Table
moved i k t j = if ltb i j && leb j k then t (j - 1) else t j

shift_full :
    (k i j : ℕ) (t : Table)
    → ((q : ℕ) → i ≤ q → q < k → (t q).pages ≢ 0)
    → i ≤ k
    → shift k i t j ≡ moved i k t j
unfolding shift
shift_full zero i j t full le = ground arith
shift_full (suc k) i j t full le = elim (Bool-cases (ltb i (suc k))) [
  | inl more ↦
      let copies : ltb 0 (t k).pages ≡ true = ground (arith, full k) in
      let t' : Table = update t (suc k) (t k) in
      let ih = shift_full k i j t' (λ q l m. ground (arith, full q)) (ground arith) in
      rw (more, copies, ih) (ground arith)
  | inr last ↦ rw last (ground arith)
]

-- Free entries at the end stay.
shift_free :
    (d k i j : ℕ) (t : Table)
    → ((q : ℕ) → k ≤ q → q < k + d → (t q).pages ≡ 0)
    → ((q : ℕ) → i ≤ q → q < k → (t q).pages ≢ 0)
    → i ≤ k
    → shift (k + d) i t j ≡ moved i k t j
unfolding shift
shift_free zero k i j t free full le =
    let e : k + 0 ≡ k = omega arith in rw e (shift_full k i j t full le)
shift_free (suc d) k i j t free full le =
    let e : k + suc d ≡ suc (k + d) = omega arith in
    let more : ltb i (suc (k + d)) ≡ true = ground arith in
    let stays : ltb 0 (t (k + d)).pages ≡ false = ground (arith, free (k + d)) in
    rw (e, more, stays) (shift_free d k i j t (λ q l m. free q l (omega arith)) full le)

Maps-full :
    (i q : ℕ) (bs : List Block) (t : Table)
    → Maps t i bs
    → i ≤ q
    → q < i + length bs
    → (t q).pages ≢ 0
Maps-full i q [] t m l h = absurd (omega arith)
Maps-full i q (x ∷ xs) t m l h = elim (Bool-cases (q == i)) [
  | inl here ↦ ground (arith, m.0, m.1)
  | inr later ↦ Maps-full (suc i) q xs t m.2 (ground arith) (ground arith)
]

Maps-moved :
    (i : ℕ) (bs : List Block) (t u : Table)
    → Maps t i bs
    → (u (suc (i + length bs))).pages ≡ 0
    → ((j : ℕ) → i ≤ j → j < i + length bs → u (suc j) ≡ t j)
    → Maps u (suc i) bs
Maps-moved i [] t u m e h = let same : i + 0 ≡ i = omega arith in rw same at e
Maps-moved i (x ∷ xs) t u m e h =
    let same : i + suc (length xs) ≡ suc i + length xs = omega arith in
    (
      rw (h i (omega arith) (omega arith)) m.0,
      m.1,
      Maps-moved (suc i) xs t u m.2 (rw same at e) (λ j l r. h j (omega arith) (omega arith)),
    )

-- A block put in the place that it belongs to.
Maps-insert :
    (i p n : ℕ) (b : Block) (bs : List Block) (t u : Table)
    → Maps t i bs
    → b.pages ≢ 0
    → i + place b.va_page bs ≡ p
    → i + length bs ≡ n
    → (t (suc n)).pages ≡ 0
    → ((j : ℕ) → i ≤ j → u j ≡ (if j == p then b else moved p n t j))
    → Maps u i (insert b bs)
Maps-insert i p n b [] t u m b_full ep en e h =
    (ground (arith, h i), b_full, ground (arith, h (suc i), e))
Maps-insert i p n b (x ∷ xs) t u m b_full ep en e h = elim (Bool-cases (ltb x.va_page b.va_page)) [
  | inl below ↦
      let ep' : suc (place b.va_page xs) ≡ place b.va_page (x ∷ xs) = rw below refl in
      let q : suc i + place b.va_page xs ≡ p = omega (arith, ep') in
      let ih =
        Maps-insert (suc i) p n b xs t u m.2 b_full q (omega arith) e (λ j l. h j (omega arith)) in
      let here : u i ≡ t i = ground (arith, h i) in rw below (rw here m.0, m.1, ih)
  | inr above ↦
      let ep' : place b.va_page (x ∷ xs) ≡ 0 = rw above refl in
      let q : i ≡ p = omega (arith, ep') in
      let here : u i ≡ b = ground (arith, h i) in
      let on = λ (j : ℕ) (l : i ≤ j) (r : j < i + length (x ∷ xs)).
        let r : u (suc j) ≡ t j = ground (arith, h (suc j)) in r in
      let end : (u (suc (i + length (x ∷ xs)))).pages ≡ 0 =
        ground (arith, h (suc (i + length (x ∷ xs))), e) in
      rw above (here, b_full, Maps-moved i (x ∷ xs) t u m end on)
]

pub length-insert : (b : Block) (bs : List Block) → length (insert b bs) ≡ suc (length bs)
length-insert b [] = refl
length-insert b (x ∷ xs) = ground (arith, length-insert b xs)

-- The block that is stored for `pages` pages at the page `page`: read_only is that of the entry
-- which stood in its place.
abbrev pub stored : ℕ → ℕ → ℕ → Bool → Table → List Block → Block
stored page base pages device_memory t bs = record {
  page_base = base;
  pages = pages;
  va_page = page;
  device = device_memory;
  read_only = (t (place page bs)).read_only;
}

-- The table with room for one more block at `p`.
abbrev opened : ℕ → Table → Table
opened p t = if (t p).pages == 0 then t else shift app_size p t

opened-moved :
    (page j : ℕ) (bs : List Block) (t : Table)
    → Lists t bs
    → length bs < app_size
    → opened (place page bs) t j ≡ moved (place page bs) (length bs) t j
opened-moved page j bs t l room = elim (Bool-cases ((t (place page bs)).pages == 0)) [
  | inl free ↦
      let le = place-le page bs in
      let end : length bs ≤ place page bs =
        ground (arith, Maps-full 0 (place page bs) bs t l.maps (omega arith), free) in
      rw free (ground (arith, le, end))
  | inr taken ↦
      let d = app_size - length bs in
      let e : length bs + d ≡ app_size = omega arith in
      let moves =
        shift_free d (length bs) (place page bs) j t (λ q a b. l.rest q a (omega arith))
          (λ q a b. Maps-full 0 q bs t l.maps (omega arith) (omega arith)) (place-le page bs) in
      rw taken (rw e at moves)
]

pub store_block-Lists :
    (fuel va base pages : ℕ) (device_memory : Bool) (bs : List Block) (t : Table)
    → Lists t bs
    → length bs < fuel
    → suc (length bs) < app_size
    → pages ≢ 0
    → (u : Table) × (store_block (va / 2 ^ 12) base pages device_memory (find_block fuel va t)
        ≡ some u)
      × Lists u (insert (stored (va / 2 ^ 12) base pages device_memory t bs) bs)
unfolding find_block
store_block-Lists fuel va base pages device_memory bs t l f room some_pages =
    let page = va / 2 ^ 12 in
    let p = place page bs in
    let b = stored page base pages device_memory t bs in
    let u : Table = update (opened p t) p b in
    let looks : place_loop fuel page 0 t ≡ some p =
      ground (arith, place_loop-place fuel page 0 bs t f l.maps) in
    let le = place-le page bs in
    let opens = λ (j : ℕ). opened-moved page j bs t l (omega arith) in
    let old : opened p t p ≡ t p = ground (arith, opens p) in
    let at : (j : ℕ) → 0 ≤ j → u j ≡ (if j == p then b else moved p (length bs) t j) =
      λ j _. ground (arith, opens j) in
    let maps =
      Maps-insert 0 p (length bs) b bs t u l.maps some_pages (omega arith) (omega arith)
        (l.rest (suc (length bs)) (omega arith) (omega arith)) at in
    (
      u,
      rw (looks, old) refl,
      record {
        maps = maps;
        rest = λ j a c. ground (arith, length-insert b bs, at j, l.rest j, l.rest (j - 1));
      },
    )

-- map_device_pages puts the pages into the table by their address, and keeps every other block.
pub map_device_pages-Lists :
    (fuel va base pages : ℕ) (bs : List Block) (t : Table)
    → Lists t bs
    → length bs < fuel
    → suc (length bs) < app_size
    → pages ≢ 0
    → (u : Table) × (map_device_pages fuel va base pages t ≡ some u)
      × Lists u (insert (stored (va / 2 ^ 12) base pages true t bs) bs)
unfolding map_device_pages
map_device_pages-Lists fuel va base pages bs t = store_block-Lists fuel va base pages true bs t

-- With 30 blocks in the table, a block that goes before the last overwrites what follows the table.
pub find_block_overruns :
    (fuel va : ℕ) (bs : List Block) (t : Table)
    → Maps t 0 bs
    → length bs ≡ app_size
    → length bs < fuel
    → place (va / 2 ^ 12) bs < app_size
    → (u : Table) × (find_block fuel va t ≡ some (place (va / 2 ^ 12) bs, u))
      × (u app_size ≡ t (app_size - 1))
unfolding find_block
find_block_overruns fuel va bs t m n f p =
    let at = place (va / 2 ^ 12) bs in
    let looks : place_loop fuel (va / 2 ^ 12) 0 t ≡ some at =
      ground (arith, place_loop-place fuel (va / 2 ^ 12) 0 bs t f m) in
    let taken : ((t at).pages == 0) ≡ false =
      ground (arith, Maps-full 0 at bs t m (omega arith) (omega arith)) in
    let full =
      λ (q : ℕ) (a : at ≤ q) (c : q < app_size). Maps-full 0 q bs t m (omega arith) (omega arith) in
    (
      shift app_size at t,
      rw (looks, taken) refl,
      ground (arith, shift_full app_size at app_size t full (omega arith)),
    )
