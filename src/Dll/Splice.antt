-- ===== src/Dll/Splice.antt =====
-- Joining two lists, and cutting one in two.
use simple_as_pi.Common.{
  ℕ, ◌≡◌, false, List, ◌∷◌, ◌++◌, arith, has, Distinct, last, init, ne-last, has-last, has-init,
  has-last-init, last-append, Distinct-left, Distinct-right, Distinct-apart, not-left,
}
use simple_as_pi.Dll.{Links, splice_before, split_after}
use simple_as_pi.Dll.Ring.{Trail, Ring, Trail-set_next, Trail-set_prev, Trail-append, Trail-split}

-- The items `i ∷ ys` and `h ∷ xs` of two lists, or of two parts of one.
record Parts (i h : ℕ) (ys xs : List ℕ) : Type 0 where
  left : Distinct (i ∷ ys)
  right : Distinct (h ∷ xs)
  i_out : has i (h ∷ xs) ≡ false
  h_out : has h (i ∷ ys) ≡ false
  end_left_out : has (last i ys) (h ∷ xs) ≡ false
  end_right_out : has (last h xs) (i ∷ ys) ≡ false
  end_left_init : has (last i ys) (init i ys) ≡ false
  end_right_init : has (last h xs) (init h xs) ≡ false

parts : (i h : ℕ) (ys xs : List ℕ) → Distinct (i ∷ (ys ++ h ∷ xs)) → Parts i h ys xs
parts i h ys xs d = record {
  left = left;
  right = right;
  i_out = Distinct-apart i (i ∷ ys) (h ∷ xs) d (ground arith);
  h_out = not-left h (i ∷ ys) (h ∷ xs) d (ground arith);
  end_left_out = Distinct-apart (last i ys) (i ∷ ys) (h ∷ xs) d (has-last i ys);
  end_right_out = not-left (last h xs) (i ∷ ys) (h ∷ xs) d (has-last h xs);
  end_left_init = has-last-init i ys left;
  end_right_init = has-last-init h xs right;
}
  where
    left : Distinct (i ∷ ys)
    left = Distinct-left (i ∷ ys) (h ∷ xs) d

    right : Distinct (h ∷ xs)
    right = Distinct-right (i ∷ ys) (h ∷ xs) d

module _ (s : Links) (i h : ℕ) (ys xs : List ℕ) where
  splice_trails :
      Parts i h ys xs
      → Ring s i ys
      → Ring s h xs
      → Trail (splice_before i h s) i ys × Trail (splice_before i h s) h xs
  splice_trails p r q = (
    Trail-set_next _ _ i i ys (has-init _ i ys (ground (arith, p.end_right_out, q.back))) (
        Trail-set_prev _ i _ i ys p.left.0 (
          Trail-set_prev _ h _ i ys (ground (arith, p.h_out))
            (Trail-set_next s _ h i ys (ground (arith, p.end_left_init, r.back)) r.trail))),
    Trail-set_next _ _ i h xs (ground (arith, p.end_right_init, q.back)) (
        Trail-set_prev _ i _ h xs (ground (arith, p.i_out)) (
          Trail-set_prev _ h _ h xs p.right.0 (
            Trail-set_next s _ h h xs (has-init _ h xs (ground (arith, p.end_left_out, r.back)))
              q.trail))),
  )

  -- Two lists that share no item become one, the inserted one in front.
  pub splice_before-Ring :
      Distinct (i ∷ (ys ++ h ∷ xs))
      → Ring s i ys
      → Ring s h xs
      → Ring (splice_before i h s) i (ys ++ h ∷ xs)
  splice_before-Ring d r q =
      let p = parts i h ys xs d in
      let t = splice_trails p r q in
      record {
        trail =
            Trail-append _ i h ys xs t.0
              (ground (arith, r.back, q.back, ne-last _ h xs p.end_left_out))
              (ground (arith, r.back, p.i_out)) t.1;
        close = rw (last-append i h ys xs) (ground (arith, q.back));
        back = rw (last-append i h ys xs) (ground (arith, q.back));
        distinct = d;
      }

  -- A list cut behind the last of `i ∷ ys`.
  pub split_after-Ring :
      Ring s i (ys ++ h ∷ xs)
      → (s.next (last i ys) ≡ h)
        × Ring (split_after i (last i ys) s) i ys
        × Ring (split_after i (last i ys) s) h xs
  split_after-Ring r =
      let p = parts i h ys xs r.distinct in
      let t = Trail-split s i h ys xs r.trail in
      let b : s.prev i ≡ last h xs = rw (← last-append i h ys xs) r.back in
      let f : s.next (last i ys) ≡ h = t.forth in
      (
        f,
        record {
          trail = Trail-set_prev _ i _ i ys p.left.0 (
              Trail-set_next _ _ i i ys p.end_left_init (
                Trail-set_next _ _ _ i ys
                  (has-init _ i ys (ground (arith, p.end_right_out, p.i_out)))
                  (Trail-set_prev s _ _ i ys (ground (arith, p.h_out)) t.front)));
          close = ground arith;
          back = ground arith;
          distinct = p.left;
        },
        record {
          trail = Trail-set_prev _ i _ h xs (ground (arith, p.i_out)) (
              Trail-set_next _ _ i h xs (has-init _ h xs p.end_left_out) (
                Trail-set_next _ _ _ h xs (ground (arith, p.end_right_init, p.i_out))
                  (Trail-set_prev s _ _ h xs (ground (arith, p.right)) t.rest)));
          close = ground (arith, p.i_out, ne-last _ h xs p.end_left_out);
          back = ground (arith, p.i_out);
          distinct = p.right;
        },
      )

  -- Nodes outside the lists keep their pointers.
  pub splice_before-same :
      (p : ℕ)
      → has p (i ∷ ys) ≡ false
      → has p (h ∷ xs) ≡ false
      → Ring s i ys
      → Ring s h xs
      → ((splice_before i h s).next p ≡ s.next p) × ((splice_before i h s).prev p ≡ s.prev p)
  splice_before-same p out out' r q =
      (ground (arith, r.back, q.back, ne-last p i ys out, ne-last p h xs out'), ground arith)

  pub split_after-same :
      (p : ℕ)
      → has p (i ∷ ys) ≡ false
      → has p (h ∷ xs) ≡ false
      → Ring s i (ys ++ h ∷ xs)
      → ((split_after i (last i ys) s).next p ≡ s.next p)
        × ((split_after i (last i ys) s).prev p ≡ s.prev p)
  split_after-same p out out' r =
      let c = parts i h ys xs r.distinct in
      let t = Trail-split s i h ys xs r.trail in
      let b : s.prev i ≡ last h xs = rw (← last-append i h ys xs) r.back in
      let f : s.next (last i ys) ≡ h = t.forth in
      (ground (arith, c.i_out, ne-last p i ys out, ne-last p h xs out'), ground (arith, c.i_out))
