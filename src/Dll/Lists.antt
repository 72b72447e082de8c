-- ===== src/Dll/Lists.antt =====
-- The operations on whole lists, known by their head pointers.
use mathlib.Core.List.{append-nil}
use simple_as_pi.Common.{
  ℕ, ◌≡◌, refl, false, ◌==◌, has-append, List, [], ◌∷◌, ◌++◌, arith, has, Distinct, last,
}
use simple_as_pi.Dll.{Links, dll_detach, dll_detach_until, dll_insert_list_at_head}
use simple_as_pi.Dll.Ring.{Ring, IsList, Ring-turn, SameAt, Ring-frame}
use simple_as_pi.Dll.Attach.{IsAlone, dll_detach-Ring}
use simple_as_pi.Dll.Splice.{
  splice_before-Ring, split_after-Ring, splice_before-same, split_after-same,
}

-- dll_detach takes an item that is not the head out of a list, leaves the order of the others as
-- it was, and leaves the item alone.
pub dll_detach-inner :
    (s : Links) (x i : ℕ) (xs ys : List ℕ)
    → Ring s x (xs ++ i ∷ ys)
    → Ring (dll_detach i s) x (xs ++ ys) × IsAlone (dll_detach i s) i
dll_detach-inner s x i xs [] r =
    let (q, alone) = dll_detach-Ring s i x xs (Ring-turn s x i xs [] r) in
    (rw (append-nil xs) q, alone)
dll_detach-inner s x i xs (y ∷ ys) r =
    let (q, alone) = dll_detach-Ring s i y (ys ++ x ∷ xs) (Ring-turn s x i xs (y ∷ ys) r) in
    (Ring-turn (dll_detach i s) y x ys xs q, alone)

-- dll_insert_T_list_at_head puts all of one list, in order, before all of another that shares no
-- item with it.
pub dll_insert_list_at_head-IsList :
    (s : Links) (i l : ℕ) (ys xs : List ℕ)
    → Distinct (i ∷ (ys ++ xs))
    → IsList s i (i ∷ ys)
    → IsList s l xs
    → IsList (dll_insert_list_at_head i l s).0 (dll_insert_list_at_head i l s).1 (i ∷ (ys ++ xs))
unfolding dll_insert_list_at_head
dll_insert_list_at_head-IsList s i l ys [] d (e, nz, r) is =
    (refl, rw (append-nil ys) nz, rw (is, append-nil ys) r)
dll_insert_list_at_head-IsList s i l ys (h ∷ xs) d (e, nz, r) (e', nz', q) = (
  refl,
  ground (arith, has-append 0 ys (h ∷ xs)),
  ground (arith, splice_before-Ring s i h ys xs d r q),
)

-- dll_detach_Ts_until cuts a list behind one of its items: what is left is the rest of the list,
-- and the items up to that one, in order, are a list of their own from the old head on.
pub dll_detach_until-IsList :
    (s : Links) (l : ℕ) (ys xs : List ℕ)
    → has 0 (l ∷ (ys ++ xs)) ≡ false
    → Ring s l (ys ++ xs)
    → Ring (dll_detach_until l (last l ys) s).0 l ys
      × IsList (dll_detach_until l (last l ys) s).0 (dll_detach_until l (last l ys) s).1 xs
unfolding dll_detach_until
dll_detach_until-IsList s l ys [] nz r =
    let q : Ring s l ys = rw (append-nil ys) at r in rw q.close (ground (arith, q))
dll_detach_until-IsList s l ys (h ∷ xs) nz r =
    let (f, q, p) = split_after-Ring s l h ys xs r in
    let more : (s.next (last l ys) == l) ≡ false =
      ground (arith, has-append l ys (h ∷ xs), r.distinct) in
    rw more (q, (f, ground (arith, has-append 0 ys (h ∷ xs)), p))

-- What the two operations leave alone.
pub dll_detach_until-same :
    (s : Links) (l : ℕ) (ys xs : List ℕ) (p : ℕ)
    → Ring s l (ys ++ xs)
    → has p (l ∷ (ys ++ xs)) ≡ false
    → ((dll_detach_until l (last l ys) s).0.next p ≡ s.next p)
      × ((dll_detach_until l (last l ys) s).0.prev p ≡ s.prev p)
unfolding dll_detach_until
dll_detach_until-same s l ys [] p r out =
    let q : Ring s l ys = rw (append-nil ys) at r in rw q.close (ground arith, ground arith)
dll_detach_until-same s l ys (h ∷ xs) p r out =
    let (f, q, _) = split_after-Ring s l h ys xs r in
    let more : (s.next (last l ys) == l) ≡ false =
      ground (arith, has-append l ys (h ∷ xs), r.distinct) in
    rw more (
      split_after-same s l h ys xs p (ground (arith, has-append p ys (h ∷ xs)))
        (ground (arith, has-append p ys (h ∷ xs))) r)

pub dll_insert_list_at_head-same :
    (s : Links) (i l : ℕ) (ys xs : List ℕ) (p : ℕ)
    → IsList s i (i ∷ ys)
    → IsList s l xs
    → has p (i ∷ ys) ≡ false
    → has p xs ≡ false
    → ((dll_insert_list_at_head i l s).0.next p ≡ s.next p)
      × ((dll_insert_list_at_head i l s).0.prev p ≡ s.prev p)
unfolding dll_insert_list_at_head
dll_insert_list_at_head-same s i l ys [] p r is out out' = ground arith
dll_insert_list_at_head-same s i l ys (h ∷ xs) p r (e, nz, q) out out' =
    let t : (l == 0) ≡ false = ground arith in
    rw (t, e) (splice_before-same s i h ys xs p out out' r.2 q)

pub IsList-frame :
    (s s' : Links) (h : ℕ) (xs : List ℕ) → SameAt xs s s' → IsList s h xs → IsList s' h xs
IsList-frame s s' h [] same is = is
IsList-frame s s' h (x ∷ xs) same (e, nz, r) = (e, nz, Ring-frame s s' x xs same r)
