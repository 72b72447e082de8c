-- ===== src/Dll/Move.antt =====
-- dll_move and dll_replace.
use simple_as_pi.Common.{
  ℕ, ◌≡◌, ◌≢◌, true, false, List, [], ◌∷◌, arith, has, Distinct, last, ne-last, has-init,
  has-last-init, ◌==◌,
}
use simple_as_pi.Dll.{Links, dll_move, dll_replace, swap_in}
use simple_as_pi.Dll.Ring.{Ring, Trail, IsList, Trail-set_next, Trail-set_prev}
use simple_as_pi.Dll.Attach.{IsAlone}

-- Only the last item may be followed by itself.
eq-last_of_loop :
    (s : Links) (i a : ℕ) (xs : List ℕ)
    → Trail s a xs
    → Distinct (a ∷ xs)
    → has i (a ∷ xs) ≡ true
    → s.next i ≡ i
    → i ≡ last a xs
eq-last_of_loop s i a [] t d m e = ground arith
eq-last_of_loop s i a (x ∷ xs) t d m e = ground (arith, t.0, d.0, eq-last_of_loop s i x xs t.2 d.1)

-- dll_move to a list that is not empty does not add the item: whatever the pointers were before,
-- the head of that list is not the head of a list with the item behind it.
pub dll_move_loses :
    (s : Links) (i l1 h : ℕ) (zs : List ℕ)
    → h ≢ 0
    → has i zs ≡ true
    → ¬ Ring (dll_move i l1 h s).0 h zs
unfolding dll_move
dll_move_loses s i l1 h zs nz m r =
    let loop : (dll_move i l1 h s).0.next i ≡ i = ground arith in
    let e = eq-last_of_loop _ i h zs r.trail r.distinct (ground arith) loop in
    let back : (dll_move i l1 h s).0.next i ≡ h = rw (← e) at r.close in ground (arith, r.distinct)

swap_in-Ring :
    (s : Links) (i j x : ℕ) (xs : List ℕ)
    → has j (i ∷ x ∷ xs) ≡ false
    → Ring s i (x ∷ xs)
    → Ring (swap_in i j s) j (x ∷ xs) × IsAlone (swap_in i j s) i
swap_in-Ring s i j x xs out r =
    let out' : has j (x ∷ xs) ≡ false = ground arith in
    let ne : (j == i) ≡ false = ground arith in
    let je = ne-last j x xs out' in
    let ie = ne-last i x xs r.distinct.0 in
    (
      record {
        trail = (
          ground (arith, r.trail, r.back, r.distinct.0),
          ground (arith, r.trail, r.back, r.distinct.0),
          Trail-set_next _ i i x xs (has-init i x xs r.distinct.0) (
              Trail-set_prev _ i i x xs (ground arith) (
                Trail-set_prev _ _ _ x xs (ground (arith, r.trail, r.back, r.distinct.1.0)) (
                  Trail-set_next _ _ _ x xs
                    (ground (arith, r.back, has-last-init x xs r.distinct.1))
                    (Trail-set_next _ _ _ x xs (has-init j x xs out')
                      (Trail-set_prev s _ _ x xs (ground arith) r.trail.2))))),
        );
        close = ground (arith, r.back);
        back = ground (arith, r.trail, r.back);
        distinct = (out', r.distinct.1);
      },
      (ground arith, ground arith),
    )

-- dll_replace of the head, with others behind it, puts the new item in its place, makes it the
-- head and leaves the old one alone.
pub dll_replace_head :
    (s : Links) (i j x : ℕ) (xs : List ℕ)
    → has j (i ∷ x ∷ xs) ≡ false
    → j ≢ 0
    → IsList s i (i ∷ x ∷ xs)
    → IsList (dll_replace i j i s).0 (dll_replace i j i s).1 (j ∷ x ∷ xs)
      × IsAlone (dll_replace i j i s).0 i
unfolding dll_replace
dll_replace_head s i j x xs out nz (e, z, r) =
    let (q, alone) = swap_in-Ring s i j x xs out r in
    let more : (s.next i == i) ≡ false = ground (arith, r.trail, r.distinct.0) in
    rw more ((ground arith, ground arith, q), alone)
