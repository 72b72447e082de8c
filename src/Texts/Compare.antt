-- ===== src/Texts/Compare.antt =====
-- module_name_match and riscoscmp: equality of two texts up to their ends, without case.
use simple_as_pi.Common.{
  ℕ, zero, suc, ◌+◌, ◌<◌, ◌≡◌, ◌↔◌, refl, Bool, true, false, inl, inr, Bool-cases, some, List, [],
  ◌∷◌, map, arith, ◌==◌, leb, ◌&&◌, if◌then◌else◌, length,
}
use simple_as_pi.Texts.{
  Bytes, ends_command, ends_name, is_lower, no_difference, compare_loop, module_name_match,
  riscoscmp,
}

-- From `p` on memory holds the characters `xs`, none of which ends the text, and then one that does.
abbrev pub TextAt : (ℕ → Bool) → Bytes → ℕ → List ℕ → Type 0
TextAt ends m p [] = ends (m p) ≡ true
TextAt ends m p (x ∷ xs) = (m p ≡ x) × (ends x ≡ false) × TextAt ends m (suc p) xs

abbrev pub is_upper : ℕ → Bool
is_upper c = leb b'A' c && leb c b'Z'

abbrev pub lower : ℕ → ℕ
lower c = if is_upper c then c + 32 else c

-- No letter ends a text.
abbrev pub KeepsLetters : (ℕ → Bool) → Type 0
KeepsLetters ends = (c : ℕ) → ends c ≡ true → (is_lower c ≡ false) × (is_upper c ≡ false)

no_difference-lower : (a b : ℕ) → no_difference a b ≡ (lower a == lower b)
no_difference-lower a b = ground arith

abbrev pub same_text : List ℕ → List ℕ → Bool
same_text [] [] = true
same_text [] (y ∷ ys) = false
same_text (x ∷ xs) [] = false
same_text (x ∷ xs) (y ∷ ys) = (lower x == lower y) && same_text xs ys

same_text_iff : (xs ys : List ℕ) → (same_text xs ys ≡ true) ↔ (map lower xs ≡ map lower ys)
same_text_iff [] [] = (λ h. refl, λ h. refl)
same_text_iff [] (y ∷ ys) = (λ h. ground arith, λ h. cc)
same_text_iff (x ∷ xs) [] = (λ h. ground arith, λ h. cc)
same_text_iff (x ∷ xs) (y ∷ ys) =
    let (to, from) = same_text_iff xs ys in
    (
      λ h.
          let heads : lower x ≡ lower y = ground (arith, h) in
          let tails : map lower xs ≡ map lower ys = to (ground (arith, h)) in cc,
      λ h.
          let heads : lower x ≡ lower y = cc in
          let tails : map lower xs ≡ map lower ys = cc in ground (arith, heads, from tails),
    )

module _ (ends : ℕ → Bool) (keeps : KeepsLetters ends) where
  end_differs : (a b : ℕ) → ends a ≡ true → ends b ≡ false → no_difference a b ≡ false
  end_differs a b h k = elim (Bool-cases (a == b)) [
    | inl same ↦
        let e : a ≡ b = ground (arith, same) in let off : ends a ≡ false = rw e k in absurd (cc)
    | inr apart ↦ ground (arith, apart, keeps a h)
  ]

  end_differs' : (a b : ℕ) → ends a ≡ false → ends b ≡ true → no_difference a b ≡ false
  end_differs' a b h k =
      let swap : no_difference a b ≡ no_difference b a = ground arith in
      rw swap (end_differs b a k h)

  pub compare_loop-same_text :
      (fuel p q : ℕ) (m : Bytes) (xs ys : List ℕ)
      → length xs < fuel
      → TextAt ends m p xs
      → TextAt ends m q ys
      → compare_loop ends fuel p q m ≡ some (same_text xs ys)
  unfolding compare_loop
  compare_loop-same_text zero p q m xs ys f t u = absurd (omega arith)
  compare_loop-same_text (suc fuel) p q m [] [] f t u = rw (t, u) refl
  compare_loop-same_text (suc fuel) p q m [] (y ∷ ys) f t u =
      let off : ends (m q) ≡ false = rw u.0 u.1 in rw (t, off, end_differs (m p) (m q) t off) refl
  compare_loop-same_text (suc fuel) p q m (x ∷ xs) [] f t u =
      let off : ends (m p) ≡ false = rw t.0 t.1 in rw (off, end_differs' (m p) (m q) off u) refl
  compare_loop-same_text (suc fuel) p q m (x ∷ xs) (y ∷ ys) f t u =
      let off : ends (m p) ≡ false = rw t.0 t.1 in
      let ih = compare_loop-same_text fuel (suc p) (suc q) m xs ys (omega arith) t.2 u.2 in
      let letters : no_difference (m p) (m q) ≡ (lower x == lower y) =
        rw (t.0, u.0) (no_difference-lower x y) in
      elim (Bool-cases (lower x == lower y)) [
        | inl same ↦ rw (off, letters, same) ih
        | inr apart ↦ rw (off, letters, apart) refl
      ]

  -- The comparison ends, and is true just for texts that differ in case only.
  compare_loop_lem :
      (fuel p q : ℕ) (m : Bytes) (xs ys : List ℕ)
      → length xs < fuel
      → TextAt ends m p xs
      → TextAt ends m q ys
      → (b : Bool) × (compare_loop ends fuel p q m ≡ some b)
        × ((b ≡ true) ↔ (map lower xs ≡ map lower ys))
  compare_loop_lem fuel p q m xs ys f t u =
      (same_text xs ys, compare_loop-same_text fuel p q m xs ys f t u, same_text_iff xs ys)

pub ends_command-KeepsLetters : KeepsLetters ends_command
ends_command-KeepsLetters c h = ground arith

ends_name-KeepsLetters : KeepsLetters ends_name
ends_name-KeepsLetters c h = ground arith

module _ (fuel p q : ℕ) (m : Bytes) (xs ys : List ℕ) (enough : length xs < fuel) where
  pub riscoscmp_lem :
      TextAt ends_command m p xs
      → TextAt ends_command m q ys
      → (b : Bool) × (riscoscmp fuel p q m ≡ some b) × ((b ≡ true) ↔ (map lower xs ≡ map lower ys))
  unfolding riscoscmp
  riscoscmp_lem = compare_loop_lem ends_command ends_command-KeepsLetters fuel p q m xs ys enough

  -- module_name_match of two names in memory, with fuel for the first: it ends, and is true just
  -- if they are the same up to their ends but for the case of letters.
  pub module_name_match_lem :
      TextAt ends_name m p xs
      → TextAt ends_name m q ys
      → (b : Bool) × (module_name_match fuel p q m ≡ some b)
        × ((b ≡ true) ↔ (map lower xs ≡ map lower ys))
  unfolding module_name_match
  module_name_match_lem = compare_loop_lem ends_name ends_name-KeepsLetters fuel p q m xs ys enough
