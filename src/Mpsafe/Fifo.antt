-- ===== src/Mpsafe/Fifo.antt =====
-- The list functions of mpsafe_dll.h keep a queue: items join at the tail and leave at the head.
use simple_as_pi.Common.{
  ℕ, ◌≡◌, refl, ◌≢◌, true, false, List, [], ◌∷◌, ◌++◌, arith, has, has-append, inl, inr, Bool-cases,
  ◌==◌,
}
use simple_as_pi.Dll.{Links, dll_attach}
use simple_as_pi.Dll.Ring.{IsList, Ring-rotate}
use simple_as_pi.Dll.Attach.{
  IsAlone, Ring-alone, dll_detach-Ring, attach_before-Ring, dll_attach-same,
}
use simple_as_pi.Mpsafe.{insert_tail, detach_head}

-- An item, not 0, alone and not in the list, that is inserted at the tail of a list stands behind
-- all that the list holds.
pub insert_tail-IsList :
    (s : Links) (i l : ℕ) (xs : List ℕ)
    → i ≢ 0
    → has i xs ≡ false
    → IsAlone s i
    → IsList s l xs
    → IsList (insert_tail i l s).0 (insert_tail i l s).1 (xs ++ i ∷ [])
unfolding insert_tail dll_attach
insert_tail-IsList s i l [] ne new alone is = rw is (refl, ground arith, Ring-alone s i alone)
insert_tail-IsList s i l (h ∷ xs) ne new alone (e, nz, r) =
    let some_list : (l == 0) ≡ false = ground arith in
    let q = attach_before-Ring s i h xs new r in
    rw (some_list, e)
      (ground (arith, q.trail), ground (arith, has-append 0 xs (i ∷ [])), Ring-rotate _ i h xs q)

-- Detaching the head of a list that is not empty returns the first item, leaves it alone, and
-- leaves the others in order.
pub detach_head-IsList :
    (s : Links) (l i : ℕ) (xs : List ℕ)
    → IsList s l (i ∷ xs)
    → ((detach_head l s).2 ≡ i)
      × IsAlone (detach_head l s).0 i
      × IsList (detach_head l s).0 (detach_head l s).1 xs
unfolding detach_head
detach_head-IsList s l i [] (e, nz, r) =
    let some_list : (l == 0) ≡ false = ground arith in
    let only : (s.next i == i) ≡ true = ground (arith, r.close) in
    rw (some_list, e, only) (refl, (r.close, r.back), refl)
detach_head-IsList s l i (x ∷ xs) (e, nz, r) =
    let some_list : (l == 0) ≡ false = ground arith in
    let more : (s.next i == i) ≡ false = ground (arith, r.trail, r.distinct) in
    let (q, alone) = dll_detach-Ring s i x xs r in
    rw (some_list, e, more) (refl, alone, (r.trail.0, ground arith, q))

-- Nodes outside the list, and other than the item, keep their pointers.
pub insert_tail-same :
    (s : Links) (i l p : ℕ) (xs : List ℕ)
    → (p == i) ≡ false
    → has p xs ≡ false
    → IsList s l xs
    → ((insert_tail i l s).0.next p ≡ s.next p) × ((insert_tail i l s).0.prev p ≡ s.prev p)
unfolding insert_tail
insert_tail-same s i l p xs ne out is = elim (Bool-cases (l == 0)) [
  | inl empty ↦ rw empty (refl, refl)
  | inr more ↦ rw more (dll_attach-same s i l p xs ne out is)
]
