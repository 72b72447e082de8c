-- ===== src/Common/Addresses.antt =====
-- Lists of addresses without repetition, and stores updated at one address.
use Prim.Native.Nat.{ℕ, suc}
use mathlib.Core.Path.{◌≡◌, refl}
use mathlib.Core.Logic.{◌≢◌}
use mathlib.Core.Bool.{Bool, true, false, ◌||◌}
use mathlib.Core.List.{List, [], ◌∷◌, ◌++◌}
use native.Mathlib.Omega.{arith}
use simple_as_pi.Common.Tests.{◌==◌, if◌then◌else◌}

-- A store of one value for each address, changed at `p`.
abbrev pub update {ℓ} : {A : Type ℓ} → (ℕ → A) → ℕ → A → ℕ → A
update f p v q = if q == p then v else f q

abbrev pub has : ℕ → List ℕ → Bool
has a [] = false
has a (x ∷ xs) = (a == x) || has a xs

abbrev pub Distinct : List ℕ → Type 0
Distinct [] = Unit
Distinct (x ∷ xs) = (has x xs ≡ false) × Distinct xs

-- The last of `a ∷ xs`, and all but the last.
abbrev pub last : ℕ → List ℕ → ℕ
last a [] = a
last a (x ∷ xs) = last x xs

abbrev pub init : ℕ → List ℕ → List ℕ
init a [] = []
init a (x ∷ xs) = a ∷ init x xs

abbrev pub length {ℓ} : {A : Type ℓ} → List A → ℕ
length [] = 0
length (x ∷ xs) = suc (length xs)

pub has-append : (a : ℕ) (xs ys : List ℕ) → has a (xs ++ ys) ≡ (has a xs || has a ys)
has-append a [] ys = refl
has-append a (x ∷ xs) ys = ground (arith, has-append a xs ys)

pub has-last : (a : ℕ) (xs : List ℕ) → has (last a xs) (a ∷ xs) ≡ true
has-last a [] = ground arith
has-last a (x ∷ xs) = ground (arith, has-last x xs)

-- What is not in a list is not among all but its last.
pub has-init : (y a : ℕ) (xs : List ℕ) → has y (a ∷ xs) ≡ false → has y (init a xs) ≡ false
has-init y a [] h = refl
has-init y a (x ∷ xs) h = ground (arith, has-init y x xs)

-- The last is not what the list lacks.
pub ne-last : (y a : ℕ) (xs : List ℕ) → has y (a ∷ xs) ≡ false → y ≢ last a xs
ne-last y a [] h = ground arith
ne-last y a (x ∷ xs) h = ne-last y x xs (ground arith)

pub last-append : (a b : ℕ) (xs ys : List ℕ) → last a (xs ++ b ∷ ys) ≡ last b ys
last-append a b [] ys = refl
last-append a b (x ∷ xs) ys = last-append x b xs ys

pub has-last-init : (a : ℕ) (xs : List ℕ) → Distinct (a ∷ xs) → has (last a xs) (init a xs) ≡ false
has-last-init a [] d = refl
has-last-init a (x ∷ xs) d = ground (arith, has-last x xs, has-last-init x xs d.1, d.0)

pub Distinct-snoc : (x : ℕ) (xs : List ℕ) → Distinct (x ∷ xs) → Distinct (xs ++ x ∷ [])
Distinct-snoc x [] d = ground arith
Distinct-snoc x (y ∷ ys) d =
    (ground (arith, has-append y ys (x ∷ []), d.0, d.1.0), Distinct-snoc x ys (ground arith))

-- A part of a list without repetition.
pub Distinct-right : (xs ys : List ℕ) → Distinct (xs ++ ys) → Distinct ys
Distinct-right [] ys d = d
Distinct-right (x ∷ xs) ys d = Distinct-right xs ys d.1

pub Distinct-left : (xs ys : List ℕ) → Distinct (xs ++ ys) → Distinct xs
Distinct-left [] ys d = tt
Distinct-left (x ∷ xs) ys d = (ground (arith, has-append x xs ys, d.0), Distinct-left xs ys d.1)

-- The two parts share nothing.
pub Distinct-apart :
    (a : ℕ) (xs ys : List ℕ) → Distinct (xs ++ ys) → has a xs ≡ true → has a ys ≡ false
Distinct-apart a [] ys d h = absurd (ground arith)
Distinct-apart a (x ∷ xs) ys d h =
    ground (arith, has-append x xs ys, d.0, Distinct-apart a xs ys d.1)

pub Distinct-skip : (xs ys zs : List ℕ) → Distinct ((xs ++ ys) ++ zs) → Distinct (xs ++ zs)
Distinct-skip [] ys zs d = Distinct-right ys zs d
Distinct-skip (x ∷ xs) ys zs d = (
  ground (arith, d.0, has-append x (xs ++ ys) zs, has-append x xs ys, has-append x xs zs),
  Distinct-skip xs ys zs d.1,
)

pub not-left : (a : ℕ) (xs ys : List ℕ) → Distinct (xs ++ ys) → has a ys ≡ true → has a xs ≡ false
not-left a xs ys d m = ground (arith, Distinct-apart a xs ys d)
