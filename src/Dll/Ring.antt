-- ===== src/Dll/Ring.antt =====
-- What the pointers of a circular list stand for: the items from the head on.
use mathlib.Core.Path.{subst}
use mathlib.Core.List.{append_assoc}
use simple_as_pi.Common.{
  ℕ, ◌≡◌, true, false, List, [], ◌∷◌, ◌++◌, arith, has, Distinct, last, init, has-last, last-append,
  Distinct-snoc,
}
use simple_as_pi.Dll.{Links, set_next, set_prev}

-- From `a` the `next` pointers lead through `xs`, and the `prev` pointers back.
abbrev pub Trail : Links → ℕ → List ℕ → Type 0
Trail s a [] = Unit {0}
Trail s a (x ∷ xs) = (s.next a ≡ x) × (s.prev x ≡ a) × Trail s x xs

-- The list with head `x` and the items `x ∷ xs`, in order, none of them twice.
pub record Ring (s : Links) (x : ℕ) (xs : List ℕ) : Type 0 where
  pub trail : Trail s x xs
  pub close : s.next (last x xs) ≡ x
  pub back : s.prev x ≡ last x xs
  pub distinct : Distinct (x ∷ xs)

-- The head pointer `h` of a list that holds `xs`.
abbrev pub IsList : Links → ℕ → List ℕ → Type 0
IsList s h [] = h ≡ 0
IsList s h (x ∷ xs) = (h ≡ x) × (has 0 (x ∷ xs) ≡ false) × Ring s x xs

module _ (s : Links) (p v : ℕ) where
  pub Trail-set_next :
      (a : ℕ) (xs : List ℕ) → has p (init a xs) ≡ false → Trail s a xs → Trail (set_next p v s) a xs
  Trail-set_next a [] h t = tt
  Trail-set_next a (x ∷ xs) h t = (ground arith, t.1, Trail-set_next x xs (ground arith) t.2)

  pub Trail-set_prev :
      (a : ℕ) (xs : List ℕ) → has p xs ≡ false → Trail s a xs → Trail (set_prev p v s) a xs
  Trail-set_prev a [] h t = tt
  Trail-set_prev a (x ∷ xs) h t = (t.0, ground arith, Trail-set_prev x xs (ground arith) t.2)

module _ (s : Links) where
  pub Trail-append :
      (a b : ℕ) (xs ys : List ℕ)
      → Trail s a xs
      → s.next (last a xs) ≡ b
      → s.prev b ≡ last a xs
      → Trail s b ys
      → Trail s a (xs ++ b ∷ ys)
  Trail-append a b [] ys t n p u = (n, p, u)
  Trail-append a b (x ∷ xs) ys t n p u = (t.0, t.1, Trail-append x b xs ys t.2 n p u)

  pub Trail-split : (a b : ℕ) (xs ys : List ℕ) → Trail s a (xs ++ b ∷ ys) → record {
    front : Trail s a xs;
    forth : s.next (last a xs) ≡ b;
    back : s.prev b ≡ last a xs;
    rest : Trail s b ys;
  }
  Trail-split a b [] ys t = record { front = tt; forth = t.0; back = t.1; rest = t.2 }
  Trail-split a b (x ∷ xs) ys t =
      let r = Trail-split x b xs ys t.2 in
      record { front = (t.0, t.1, r.front); forth = r.forth; back = r.back; rest = r.rest }

  -- The same pointers are a list from the second item on.
  pub Ring-rotate : (x y : ℕ) (ys : List ℕ) → Ring s x (y ∷ ys) → Ring s y (ys ++ x ∷ [])
  Ring-rotate x y ys r = record {
    trail = Trail-append y x ys [] r.trail.2 r.close r.back tt;
    close = rw (last-append y x ys []) r.trail.0;
    back = rw (last-append y x ys []) r.trail.1;
    distinct = Distinct-snoc x (y ∷ ys) r.distinct;
  }

-- The lists from `x` and from `b` on, the same circle, cut after `xs`.
pub Ring-turn :
    (s : Links) (x b : ℕ) (xs ys : List ℕ) → Ring s x (xs ++ b ∷ ys) → Ring s b (ys ++ x ∷ xs)
Ring-turn s x b [] ys r = Ring-rotate s x b ys r
Ring-turn s x b (y ∷ xs) ys r = subst (Ring s b) (append_assoc ys (x ∷ []) (y ∷ xs)) (
    Ring-turn s y b xs (ys ++ x ∷ [])
      (subst (Ring s y) (append_assoc xs (b ∷ ys) (x ∷ [])) (Ring-rotate s x y (xs ++ b ∷ ys) r)))

-- `s'` has the pointers of `s` at every item of `xs`.
abbrev pub SameAt : List ℕ → Links → Links → Type 0
SameAt xs s s' = (p : ℕ) → has p xs ≡ true → (s'.next p ≡ s.next p) × (s'.prev p ≡ s.prev p)

Trail-frame :
    (s s' : Links) (a : ℕ) (xs : List ℕ) → SameAt (a ∷ xs) s s' → Trail s a xs → Trail s' a xs
Trail-frame s s' a [] same t = tt
Trail-frame s s' a (x ∷ xs) same t = (
  ground (arith, same a, t.0),
  ground (arith, same x, t.1),
  Trail-frame s s' x xs (λ p h. same p (ground arith)) t.2,
)

-- A list is not affected by what happens to other nodes.
pub Ring-frame :
    (s s' : Links) (x : ℕ) (xs : List ℕ) → SameAt (x ∷ xs) s s' → Ring s x xs → Ring s' x xs
Ring-frame s s' x xs same r = record {
  trail = Trail-frame s s' x xs same r.trail;
  close = ground (arith, same (last x xs), has-last x xs, r.close);
  back = ground (arith, same x, r.back);
  distinct = r.distinct;
}
