-- ===== src/Sleep/Due.antt =====
-- The insertion of a task among the sleeping tasks, as arithmetic on lists of delays.
use simple_as_pi.Common.{
  ℕ, ◌-◌, ◌≡◌, refl, true, false, inl, inr, List, [], ◌∷◌, ◌++◌, arith, ◌==◌, leb, if◌then◌else◌,
  has, Distinct, Bool-cases,
}
use simple_as_pi.Sleep.Place.{due, before, after, left, is_first, delays}

pub due-congr :
    (d e : ℕ → ℕ) (y : ℕ) (xs : List ℕ)
    → ((q : ℕ) → has q xs ≡ true → d q ≡ e q)
    → due d y xs ≡ due e y xs
unfolding due
due-congr d e y [] h = refl
due-congr d e y (x ∷ xs) h = ground (arith, h x, due-congr d e y xs (λ q m. h q (ground arith)))

not-first :
    (d : ℕ → ℕ) (time x : ℕ) (xs : List ℕ) → has x xs ≡ false → is_first x (after d time xs) ≡ false
unfolding after
not-first d time x [] out = refl
not-first d time x (y ∷ []) out = ground arith
not-first d time x (y ∷ z ∷ zs) out = ground (arith, not-first d (time - d y) x (z ∷ zs))

-- The delays `e` are those of `d` after `tired` has gone to sleep for `time` ticks.
abbrev pub Inserted : (d e : ℕ → ℕ) (tired time : ℕ) → List ℕ → Type 0
Inserted d e tired time xs =
    (q : ℕ) → e q ≡ (if q == tired then left d time xs else delays d time xs q)

Inserted-tail :
    (d e : ℕ → ℕ) (tired time x : ℕ) (xs : List ℕ)
    → leb (d x) time ≡ true
    → (time - d x == 0) ≡ false
    → Inserted d e tired time (x ∷ xs)
    → Inserted d e tired (time - d x) xs
unfolding after left
Inserted-tail d e tired time x xs pass more h q = rw (pass, more) at (h q)

pub due_new :
    (d e : ℕ → ℕ) (tired time : ℕ) (xs : List ℕ)
    → has tired xs ≡ false
    → Distinct xs
    → Inserted d e tired time xs
    → due e tired (before d time xs ++ tired ∷ after d time xs) ≡ time
unfolding due before after left
due_new d e tired time [] out dist h = ground (arith, h tired)
due_new d e tired time (x ∷ xs) out dist h = elim (Bool-cases (leb (d x) time)) [
  | inl pass ↦ elim (Bool-cases (time - d x == 0)) [
    | inl over ↦ ground (arith, pass, over, h x, h tired, dist.0)
    | inr more ↦
        rw (pass, more)
          (ground (
            arith,
            h x,
            not-first d (time - d x) x xs dist.0,
            due_new d e tired (time - d x) xs (ground arith) dist.1
                (Inserted-tail d e tired time x xs pass more h),
          ))
  ]
  | inr stop ↦ ground (arith, stop, h tired)
]

-- The tasks behind the place, where it is the first of `xs`, and where it is behind it.
due_behind :
    (d e : ℕ → ℕ) (tired time x y : ℕ) (xs : List ℕ)
    → has tired xs ≡ false
    → has x xs ≡ false
    → Inserted d e tired time (x ∷ xs)
    → leb (d x) time ≡ false
    → due d y xs ≡ due e y xs
unfolding after left
due_behind d e tired time x y xs out new h stop =
    due-congr d e y xs (λ q m. ground (arith, h q, stop))

due_after_first :
    (d e : ℕ → ℕ) (tired time x y : ℕ) (xs : List ℕ)
    → has tired xs ≡ false
    → Inserted d e tired time (x ∷ xs)
    → leb (d x) time ≡ true
    → (time - d x == 0) ≡ true
    → due d y xs ≡ due e y xs
unfolding after left
due_after_first d e tired time x y xs out h pass over =
    due-congr d e y xs (λ q m. ground (arith, h q, pass, over))

pub due_old :
    (d e : ℕ → ℕ) (tired time y : ℕ) (xs : List ℕ)
    → has tired xs ≡ false
    → Distinct xs
    → has y xs ≡ true
    → Inserted d e tired time xs
    → due e y (before d time xs ++ tired ∷ after d time xs) ≡ due d y xs
unfolding due before after left
due_old d e tired time y [] out dist m h = absurd (ground arith)
due_old d e tired time y (x ∷ xs) out dist m h = elim (Bool-cases (leb (d x) time)) [
  | inl pass ↦ elim (Bool-cases (time - d x == 0)) [
    | inl over ↦
        let same = due_after_first d e tired time x y xs (ground arith) h pass over in
        ground (arith, pass, over, h x, h tired, dist.0, same)
    | inr more ↦
        rw (pass, more)
          (ground (
            arith,
            h x,
            not-first d (time - d x) x xs dist.0,
            due_old d e tired (time - d x) y xs (ground arith) dist.1,
            Inserted-tail d e tired time x xs pass more h,
          ))
  ]
  | inr stop ↦
      let same = due_behind d e tired time x y xs (ground arith) dist.0 h stop in
      ground (arith, stop, h tired, h x, same)
]
