-- ===== src/Dll/Attach.antt =====
-- Adding an item to a list, and taking one out.
use simple_as_pi.Common.{
  ℕ, ◌≡◌, refl, ◌≢◌, false, List, [], ◌∷◌, arith, has, ◌==◌, ne-last, has-init, has-last-init,
}
use simple_as_pi.Dll.{Links, dll_attach, attach_before, dll_detach}
use simple_as_pi.Dll.Ring.{Ring, IsList, Trail-set_next, Trail-set_prev}

-- The item stands alone, as dll_new leaves it.
abbrev pub IsAlone : Links → ℕ → Type 0
IsAlone s i = (s.next i ≡ i) × (s.prev i ≡ i)

pub Ring-alone : (s : Links) (i : ℕ) → IsAlone s i → Ring s i []
Ring-alone s i a = record { trail = tt; close = a.0; back = a.1; distinct = (refl, tt) }

-- An item that is in no list yet stands before the head, which it replaces.
pub attach_before-Ring :
    (s : Links) (i h : ℕ) (xs : List ℕ)
    → has i (h ∷ xs) ≡ false
    → Ring s h xs
    → Ring (attach_before i h s) i (h ∷ xs)
attach_before-Ring s i h xs new r = record {
  trail = (
    ground (arith, ne-last i h xs new, r.back),
    ground arith,
    Trail-set_prev _ h i h xs r.distinct.0 (
        Trail-set_next _ _ i h xs (ground (arith, has-last-init h xs r.distinct, r.back)) (
          Trail-set_prev _ i _ h xs (ground arith)
            (Trail-set_next s i h h xs (has-init i h xs new) r.trail))),
  );
  close = ground (arith, ne-last i h xs new, r.back);
  back = ground (arith, r.back);
  distinct = (new, r.distinct);
}

-- dll_attach puts the item at the head, before whatever the list holds.
pub dll_attach-IsList :
    (s : Links) (i l : ℕ) (xs : List ℕ)
    → i ≢ 0
    → has i xs ≡ false
    → IsAlone s i
    → IsList s l xs
    → IsList (dll_attach i l s).0 (dll_attach i l s).1 (i ∷ xs)
unfolding dll_attach
dll_attach-IsList s i l [] ne new alone is = (refl, ground arith, rw is (Ring-alone s i alone))
dll_attach-IsList s i l (h ∷ xs) ne new alone (e, nz, r) =
    (refl, ground arith, ground (arith, attach_before-Ring s i h xs new r))

-- dll_detach of the head leaves the rest a list from the second item on, and the item alone.
pub dll_detach-Ring :
    (s : Links) (i h : ℕ) (xs : List ℕ)
    → Ring s i (h ∷ xs)
    → Ring (dll_detach i s) h xs × IsAlone (dll_detach i s) i
unfolding dll_detach
dll_detach-Ring s i h xs r = (
  record {
    trail = Trail-set_prev _ i _ h xs (ground arith) (
        Trail-set_next _ i _ h xs (has-init i h xs r.distinct.0) (
          Trail-set_prev _ _ _ h xs (ground (arith, r.trail)) (
            Trail-set_next s _ _ h xs (ground (arith, r.back, has-last-init h xs r.distinct.1))
              r.trail.2)));
    close = ground (arith, ne-last i h xs r.distinct.0, r.back);
    back = ground (arith, ne-last i h xs r.distinct.0, r.back);
    distinct = r.distinct.1;
  },
  (ground (arith), ground (arith)),
)

-- Nodes outside the list, and other than the item, keep their pointers.
pub attach_before-same :
    (s : Links) (i h p : ℕ) (xs : List ℕ)
    → (p == i) ≡ false
    → has p (h ∷ xs) ≡ false
    → Ring s h xs
    → ((attach_before i h s).next p ≡ s.next p) × ((attach_before i h s).prev p ≡ s.prev p)
attach_before-same s i h p xs ne out r = (ground (arith, ne-last p h xs out, r.back), ground arith)

pub dll_attach-same :
    (s : Links) (i l p : ℕ) (xs : List ℕ)
    → (p == i) ≡ false
    → has p xs ≡ false
    → IsList s l xs
    → ((dll_attach i l s).0.next p ≡ s.next p) × ((dll_attach i l s).0.prev p ≡ s.prev p)
unfolding dll_attach
dll_attach-same s i l p [] ne out is = ground arith
dll_attach-same s i l p (h ∷ xs) ne out (e, nz, r) =
    let some_list : (l == 0) ≡ false = ground arith in
    rw (some_list, e) (attach_before-same s i h p xs ne out r)

pub dll_detach-same :
    (s : Links) (i h p : ℕ) (xs : List ℕ)
    → has p (i ∷ h ∷ xs) ≡ false
    → Ring s i (h ∷ xs)
    → ((dll_detach i s).next p ≡ s.next p) × ((dll_detach i s).prev p ≡ s.prev p)
unfolding dll_detach
dll_detach-same s i h p xs out r = (
  ground (arith, ne-last p h xs (ground arith), r.back),
  ground (arith, r.trail, r.back, ne-last i h xs r.distinct.0),
)
