-- ===== src/Scheduler/Cores.antt =====
-- for_core: a core takes the first of the moving tasks that asked for it.
use simple_as_pi.Common.{
  ℕ, zero, suc, ◌≡◌, refl, ◌≢◌, ◌<◌, inl, inr, Bool-cases, true, false, List, [], ◌∷◌, ◌++◌, arith,
  ◌==◌, has, if◌then◌else◌, Option, none, some, last, length, has-append, ap, sym,
}
use mathlib.Core.Path.{subst}
use simple_as_pi.Dll.{Links, dll_detach}
use simple_as_pi.Dll.Ring.{Ring, IsList, Trail, Ring-turn}
use simple_as_pi.Dll.Attach.{IsAlone, dll_detach-Ring}
use simple_as_pi.Dll.Lists.{dll_detach-inner}
use simple_as_pi.Tasks.{Tasks, with_links}
use simple_as_pi.Scheduler.{for_core}

-- The first task of a list that asked for the core.
abbrev pub asker : ℕ → Tasks → List ℕ → Option ℕ
asker core s [] = none
asker core s (x ∷ xs) = if s.r x 0 == core then some x else asker core s xs

-- No task of a list asked for the core.
abbrev pub AsksNone : ℕ → Tasks → List ℕ → Type 0
AsksNone core s [] = Unit {0}
AsksNone core s (x ∷ xs) = (s.r x 0 ≢ core) × AsksNone core s xs

-- What for_core returns for the list with head `x`.
abbrev pub taken : ℕ → Tasks → Option ℕ → Tasks × ℕ × ℕ
taken x s none = (s, x, 0)
taken x s (some t) =
    if t == s.links.next t
    then (s, 0, t)
    else (with_links (dll_detach t s.links) s, (if t == x then s.links.next t else x), t)

for_core-taken :
    (fuel core x t : ℕ) (zs : List ℕ) (s : Tasks)
    → length zs < fuel
    → Trail s.links t zs
    → s.links.next (last t zs) ≡ x
    → has x zs ≡ false
    → for_core fuel core x t s ≡ some (taken x s (asker core s (t ∷ zs)))
unfolding for_core
for_core-taken zero core x t zs s f trail close out = absurd (omega arith)
for_core-taken (suc fuel) core x t [] s f trail close out =
    let end : (s.links.next t == x) ≡ true = ground (arith, close) in
    elim (Bool-cases (s.r t 0 == core)) [
      | inl hit ↦ elim (Bool-cases (t == s.links.next t)) [
        | inl only ↦ simp (hit, only)
        | inr more ↦ simp (hit, more)
      ]
      | inr miss ↦ simp (miss, end)
    ]
for_core-taken (suc fuel) core x t (z ∷ zs) s f trail close out =
    let on : (z == x) ≡ false = ground arith in
    let e : s.links.next t ≡ z = trail.0 in
    elim (Bool-cases (s.r t 0 == core)) [
      | inl hit ↦ elim (Bool-cases (t == s.links.next t)) [
        | inl only ↦ simp (hit, only)
        | inr more ↦ simp (hit, more)
      ]
      | inr miss ↦
          let ih = for_core-taken fuel core x z zs s (omega arith) trail.2 close (ground arith) in
          simp (miss, on, e, ih)
    ]

-- The first asker of a list, with the tasks before and behind it.
pub record FirstAsker (core : ℕ) (s : Tasks) (t : ℕ) (xs : List ℕ) : Type 0 where
  pub front : List ℕ
  pub behind : List ℕ
  pub whole : front ++ t ∷ behind ≡ xs
  pub asks : s.r t 0 ≡ core
  pub first : AsksNone core s front

asker-FirstAsker :
    (core t : ℕ) (s : Tasks) (xs : List ℕ) → asker core s xs ≡ some t → FirstAsker core s t xs
asker-FirstAsker core t s [] e = absurd (ground arith)
asker-FirstAsker core t s (x ∷ xs) e = elim (Bool-cases (s.r x 0 == core)) [
  | inl hit ↦ record {
    front = [];
    behind = xs;
    whole = ap (λ a. a ∷ xs) (ground (arith, e));
    asks = ground (arith, e);
    first = tt;
  }
  | inr miss ↦
      let f = asker-FirstAsker core t s xs (ground (arith, e)) in
      record {
        front = x ∷ f.front;
        behind = f.behind;
        whole = ap (λ l. x ∷ l) f.whole;
        asks = f.asks;
        first = (ground arith, f.first);
      }
]

-- The list of the tasks that stay, with the task that was taken alone.
abbrev pub Stays : Tasks → ℕ → List ℕ → Tasks × ℕ × ℕ → Type 0
Stays s t xs o = (o.2 ≡ t) × IsList o.0.links o.1 xs × IsAlone o.0.links t × (o.0.r ≡ s.r)

next-ne : (s : Links) (t y : ℕ) (xs ys : List ℕ) → Ring s t (xs ++ y ∷ ys) → (t == s.next t) ≡ false
next-ne s t y [] ys r = ground (arith, r.trail, r.distinct)
next-ne s t y (x ∷ xs) ys r = ground (arith, r.trail, r.distinct)

taken-Stays :
    (x t : ℕ) (s : Tasks) (us vs : List ℕ)
    → IsList s.links x (us ++ t ∷ vs)
    → Stays s t (us ++ vs) (taken x s (some t))
taken-Stays x t s [] [] (e, nz, r) =
    let only : (t == s.links.next t) ≡ true = ground (arith, r.close) in
    rw only (refl, refl, (r.close, r.back), refl)
taken-Stays x t s [] (v ∷ vs) (e, nz, r) =
    let more : (t == s.links.next t) ≡ false = ground (arith, r.trail, r.distinct) in
    let (q, alone) = dll_detach-Ring s.links t v vs r in
    let head : (t == x) ≡ true = ground (arith, e) in
    rw (more, head) (refl, (r.trail.0, ground arith, q), alone, refl)
taken-Stays x t s (u ∷ us) vs (e, nz, r) =
    let (q, alone) = dll_detach-inner s.links u t us vs r in
    let ne : u ≢ t = ground (arith, r.distinct.0, has-append u us (t ∷ vs)) in
    let later : (t == x) ≡ false = ground (arith, e, ne) in
    let more : (t == s.links.next t) ≡ false =
      next-ne s.links t u vs us (Ring-turn s.links u t us vs r) in
    rw (more, later)
      (refl, (e, ground (arith, has-append 0 us (t ∷ vs), has-append 0 us vs), q), alone, refl)

-- for_core, with fuel for the list of moving tasks: it takes the first task that asked for the
-- core, leaves it alone and the others in their order; if none asked, it takes no task and changes
-- nothing.
pub for_core-Stays :
    (fuel core x : ℕ) (xs : List ℕ) (s : Tasks)
    → length xs < fuel
    → IsList s.links x (x ∷ xs)
    → (asker core s (x ∷ xs) ≡ none → for_core fuel core x x s ≡ some (s, x, 0))
      × ((t : ℕ)
          → asker core s (x ∷ xs) ≡ some t
          → (f : FirstAsker core s t (x ∷ xs)) × (o : Tasks × ℕ × ℕ) × (for_core fuel core x x s
              ≡ some o)
            × Stays s t (f.front ++ f.behind) o)
for_core-Stays fuel core x xs s enough is =
    let (e, nz, r) = is in
    let run = for_core-taken fuel core x x xs s enough r.trail r.close r.distinct.0 in
    (
      λ n. rw n at run,
      λ t a.
          let f = asker-FirstAsker core t s (x ∷ xs) a in
          (
            f,
            taken x s (some t),
            rw a at run,
            taken-Stays x t s f.front f.behind (subst (λ l. IsList s.links x l) (sym f.whole) is),
          ),
    )
