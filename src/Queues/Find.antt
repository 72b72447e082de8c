-- ===== src/Queues/Find.antt =====
-- The search of queue_running_OSTask for a handler, and the list that the handler leaves.
use mathlib.Core.Path.{subst}
use simple_as_pi.Common.{
  ℕ, zero, suc, ◌≡◌, refl, sym, ap, ◌≢◌, ◌<◌, true, false, List, [], ◌∷◌, ◌++◌, arith, ◌==◌, has,
  has-append, some, last, length, if◌then◌else◌, inl, inr, Bool-cases, Distinct,
}
use simple_as_pi.Dll.{Links, dll_detach}
use simple_as_pi.Dll.Ring.{IsList, Trail, Ring-turn}
use simple_as_pi.Dll.Attach.{IsAlone, dll_detach-Ring, dll_detach-same}
use simple_as_pi.Dll.Lists.{dll_detach-inner}
use simple_as_pi.Tasks.{Tasks}
use simple_as_pi.Queues.{takes, find_handler}

-- The first handler of a list that takes the call, 0 if there is none.
abbrev pub taker : ℕ → ℕ → Tasks → List ℕ → ℕ
taker op core s [] = 0
taker op core s (x ∷ xs) = if takes op core (s.swi x) then x else taker op core s xs

-- No handler of a list takes the call.
abbrev pub TakesNone : ℕ → ℕ → Tasks → List ℕ → Type 0
TakesNone op core s [] = Unit {0}
TakesNone op core s (x ∷ xs) = (takes op core (s.swi x) ≡ false) × TakesNone op core s xs

pub find_handler-taker :
    (fuel op core x t : ℕ) (zs : List ℕ) (s : Tasks)
    → length zs < fuel
    → Trail s.links t zs
    → s.links.next (last t zs) ≡ x
    → has x zs ≡ false
    → find_handler fuel op core x t s ≡ some (taker op core s (t ∷ zs))
unfolding find_handler
find_handler-taker zero op core x t zs s f trail close out = absurd (omega arith)
find_handler-taker (suc fuel) op core x t [] s f trail close out =
    let end : (s.links.next t == x) ≡ true = ground (arith, close) in
    elim (Bool-cases (takes op core (s.swi t))) [ inl hit ↦ simp hit | inr miss ↦ simp (miss, end) ]
find_handler-taker (suc fuel) op core x t (z ∷ zs) s f trail close out =
    let on : (z == x) ≡ false = ground arith in
    let e : s.links.next t ≡ z = trail.0 in
    elim (Bool-cases (takes op core (s.swi t))) [
      | inl hit ↦ simp hit
      | inr miss ↦
          let ih =
            find_handler-taker fuel op core x z zs s (omega arith) trail.2 close (ground arith) in
          simp (miss, on, e, ih)
    ]

-- The first taker of a list, with the handlers before and behind it.
pub record FirstTaker (op core : ℕ) (s : Tasks) (h : ℕ) (xs : List ℕ) : Type 0 where
  pub front : List ℕ
  pub behind : List ℕ
  pub whole : front ++ h ∷ behind ≡ xs
  pub takes_it : takes op core (s.swi h) ≡ true
  pub first : TakesNone op core s front

pub taker-FirstTaker :
    (op core h : ℕ) (s : Tasks) (xs : List ℕ)
    → h ≢ 0
    → taker op core s xs ≡ h
    → FirstTaker op core s h xs
taker-FirstTaker op core h s [] nz e = absurd (nz (sym e))
taker-FirstTaker op core h s (x ∷ xs) nz e = elim (Bool-cases (takes op core (s.swi x))) [
  | inl hit ↦
      let same : x ≡ h = rw hit at e in
      record {
        front = [];
        behind = xs;
        whole = ap (λ a. a ∷ xs) (sym same);
        takes_it = subst (λ a. takes op core (s.swi a) ≡ true) same hit;
        first = tt;
      }
  | inr miss ↦
      let f = taker-FirstTaker op core h s xs nz (rw miss at e) in
      record {
        front = x ∷ f.front;
        behind = f.behind;
        whole = ap (λ l. x ∷ l) f.whole;
        takes_it = f.takes_it;
        first = (miss, f.first);
      }
]

-- The links and the head of a list that an item leaves, as in queue_running_OSTask.
abbrev pub without : ℕ → ℕ → Links → Links × ℕ
without l h s =
    let handlers : ℕ = if l == h then s.next h else l in
    (if handlers == h then s else dll_detach h s, if handlers == h then 0 else handlers)

pub without-IsList :
    (l h : ℕ) (s : Links) (us vs : List ℕ)
    → IsList s l (us ++ h ∷ vs)
    → IsList (without l h s).0 (without l h s).1 (us ++ vs) × IsAlone (without l h s).0 h
without-IsList l h s [] [] (e, nz, r) =
    let at : (l == h) ≡ true = ground (arith, e) in
    let only : (s.next h == h) ≡ true = ground (arith, r.close) in
    rw (at, only) (refl, (r.close, r.back))
without-IsList l h s [] (v ∷ vs) (e, nz, r) =
    let at : (l == h) ≡ true = ground (arith, e) in
    let more : (s.next h == h) ≡ false = ground (arith, r.trail, r.distinct) in
    let (q, alone) = dll_detach-Ring s h v vs r in
    rw (at, more) ((r.trail.0, ground arith, q), alone)
without-IsList l h s (u ∷ us) vs (e, nz, r) =
    let ne : u ≢ h = ground (arith, r.distinct.0, has-append u us (h ∷ vs)) in
    let off : (l == h) ≡ false = ground (arith, e) in
    let (q, alone) = dll_detach-inner s u h us vs r in
    simp off ((e, ground (arith, has-append 0 us (h ∷ vs), has-append 0 us vs), q), alone)

-- Items out of the list keep their pointers.
pub without-same :
    (l h p : ℕ) (s : Links) (us vs : List ℕ)
    → IsList s l (us ++ h ∷ vs)
    → has p (us ++ h ∷ vs) ≡ false
    → ((without l h s).0.next p ≡ s.next p) × ((without l h s).0.prev p ≡ s.prev p)
without-same l h p s [] [] (e, nz, r) out =
    let at : (l == h) ≡ true = ground (arith, e) in
    let only : (s.next h == h) ≡ true = ground (arith, r.close) in rw (at, only) (refl, refl)
without-same l h p s [] (v ∷ vs) (e, nz, r) out =
    let at : (l == h) ≡ true = ground (arith, e) in
    let more : (s.next h == h) ≡ false = ground (arith, r.trail, r.distinct) in
    rw (at, more) (dll_detach-same s h v p vs out r)
without-same l h p s (u ∷ us) [] (e, nz, r) out =
    let ne : u ≢ h = ground (arith, r.distinct.0, has-append u us (h ∷ [])) in
    let off : (l == h) ≡ false = ground (arith, e) in
    simp off (
      dll_detach-same s h u p us (ground (arith, has-append p us (h ∷ [])))
        (Ring-turn s u h us [] r))
without-same l h p s (u ∷ us) (v ∷ vs) (e, nz, r) out =
    let ne : u ≢ h = ground (arith, r.distinct.0, has-append u us (h ∷ v ∷ vs)) in
    let off : (l == h) ≡ false = ground (arith, e) in
    simp off (
      dll_detach-same s h v p (vs ++ u ∷ us)
        (ground (arith, has-append p us (h ∷ v ∷ vs), has-append p vs (u ∷ us)))
        (Ring-turn s u h us (v ∷ vs) r))

pub has-skip : (p h : ℕ) (us vs : List ℕ) → has p (us ++ vs) ≡ true → has p (us ++ h ∷ vs) ≡ true
has-skip p h us vs m = ground (arith, has-append p us vs, has-append p us (h ∷ vs))

-- What stays in a list that an item leaves is not that item.
Distinct-ne :
    (p h : ℕ) (us vs : List ℕ)
    → Distinct (us ++ h ∷ vs)
    → has p (us ++ vs) ≡ true
    → (p == h) ≡ false
Distinct-ne p h [] vs d m = ground (arith, d)
Distinct-ne p h (u ∷ us) vs d m =
    ground (arith, d.0, has-append u us (h ∷ vs), Distinct-ne p h us vs d.1)

pub IsList-without :
    (s : Links) (l h : ℕ) (us vs : List ℕ)
    → IsList s l (us ++ h ∷ vs)
    → (p : ℕ) → has p (us ++ vs) ≡ true
    → (p == h) ≡ false
IsList-without s l h [] vs is p m = Distinct-ne p h [] vs is.2.distinct m
IsList-without s l h (u ∷ us) vs is p m = Distinct-ne p h (u ∷ us) vs is.2.distinct m
