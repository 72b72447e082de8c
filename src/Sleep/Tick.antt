-- ===== src/Sleep/Tick.antt =====
-- wakey_wakey, add_woken and sleeping_tasks_tick.
use simple_as_pi.Common.{
  ℕ, zero, suc, ◌+◌, ◌-◌, ◌%◌, ◌^◌, ◌≤◌, ◌<◌, ◌≡◌, refl, ap, true, false, inl, inr, Option, some,
  List, [], ◌∷◌, ◌++◌, arith, ◌==◌, ltb, if◌then◌else◌, has, has-append, length, last, Distinct,
  Bool-cases,
}
use simple_as_pi.Dll.{dll_detach_until}
use simple_as_pi.Dll.Lists.{dll_detach_until-IsList, dll_detach_until-same}
use simple_as_pi.Dll.Ring.{Ring, Trail, IsList}
use simple_as_pi.Tasks.{Tasks, set_r, with_links}
use simple_as_pi.Sleep.{end_loop, wake_until, wakey_wakey}
use simple_as_pi.Sleep.Place.{due}
use simple_as_pi.Sleep.Due.{due-congr}
use simple_as_pi.Sleep.Add.{delay}

-- The tasks with no delay at the start of a list, and the others.
zeros : (ℕ → ℕ) → List ℕ → List ℕ
zeros d [] = []
zeros d (x ∷ xs) = if d x == 0 then x ∷ zeros d xs else []

others : (ℕ → ℕ) → List ℕ → List ℕ
others d [] = []
others d (x ∷ xs) = if d x == 0 then others d xs else x ∷ xs

zeros-append-others : (d : ℕ → ℕ) (xs : List ℕ) → zeros d xs ++ others d xs ≡ xs
unfolding zeros others
zeros-append-others d [] = refl
zeros-append-others d (x ∷ xs) = ground (arith, zeros-append-others d xs)

end_loop-last :
    (fuel head t : ℕ) (xs : List ℕ) (s : Tasks)
    → length xs < fuel
    → Trail s.links t xs
    → s.links.next (last t xs) ≡ head
    → has head xs ≡ false
    → end_loop fuel head t s ≡ some (last t (zeros (delay s) xs))
unfolding end_loop zeros
end_loop-last zero head t xs s f tr e out = absurd (omega arith)
end_loop-last (suc fuel) head t [] s f tr e out = ground (arith, e)
end_loop-last (suc fuel) head t (x ∷ xs) s f tr e out = elim (Bool-cases (delay s x == 0)) [
  | inl z ↦
      rw (z, tr.0)
        (ground (arith, z, out, end_loop-last fuel head x xs s (omega arith) tr.2 e (ground arith)))
  | inr n ↦ rw (n, tr.0) (ground (arith, n))
]

-- Of the tasks behind the first, those with no delay are due with it.
due-zeros : (d : ℕ → ℕ) (y : ℕ) (xs : List ℕ) → has y (zeros d xs) ≡ true → due d y xs ≡ 0
unfolding due zeros
due-zeros d y [] m = refl
due-zeros d y (x ∷ xs) m = ground (arith, due-zeros d y xs)

has-others : (d : ℕ → ℕ) (y : ℕ) (xs : List ℕ) → has y (others d xs) ≡ true → has y xs ≡ true
unfolding others
has-others d y [] m = m
has-others d y (x ∷ xs) m = ground (arith, has-others d y xs)

due_others :
    (d : ℕ → ℕ) (y : ℕ) (xs : List ℕ)
    → Distinct xs
    → has y (others d xs) ≡ true
    → (due d y xs ≡ due d y (others d xs)) × (0 < due d y xs)
unfolding due others
due_others d y [] dist m = absurd (ground arith)
due_others d y (x ∷ xs) dist m = elim (Bool-cases (d x == 0)) [
  | inl z ↦
      let m' : has y (others d xs) ≡ true = rw z at m in
      let ih = due_others d y xs dist.1 m' in
      rw z (
        ground (arith, z, dist.0, has-others d y xs, ih),
        ground (arith, z, dist.0, has-others d y xs, ih),
      )
  | inr n ↦ rw n (refl, ground arith)
]

abbrev wake_first : ℕ → Tasks → Tasks
wake_first head s = set_r head 0 ((s.r head 0 + 2 ^ 32 - 1) % 2 ^ 32) s

-- The first of the sleeping tasks has not woken yet.
abbrev pub FirstWaits : (ℕ → ℕ) → List ℕ → Type 0
FirstWaits d [] = Unit {0}
FirstWaits d (x ∷ xs) = 0 < d x

-- What wakey_wakey makes of the list of sleeping tasks `xs`.
pub record Woken (s : Tasks) (xs : List ℕ) (o : Option (Tasks × ℕ × ℕ)) : Type 0 where
  pub tasks : Tasks
  pub head : ℕ
  pub list : ℕ
  pub woken : List ℕ
  pub rest : List ℕ
  pub ends : o ≡ some (tasks, head, list)
  pub parts : woken ++ rest ≡ xs
  pub asleep : IsList tasks.links head rest
  pub awake : IsList tasks.links list woken
  pub now : (y : ℕ) → has y woken ≡ true → due (delay s) y xs ≡ 1
  pub same :
      (p : ℕ)
      → has p xs ≡ false
      → (tasks.links.next p ≡ s.links.next p) × (tasks.links.prev p ≡ s.links.prev p)
  pub later :
      (y : ℕ)
      → has y rest ≡ true
      → (due (delay s) y xs ≡ due (delay tasks) y rest + 1) × (1 < due (delay s) y xs)

-- The first delay counts down by one.
counts_down :
    (x : ℕ) (xs : List ℕ) (s : Tasks)
    → Distinct (x ∷ xs)
    → 1 < delay s x
    → delay s x < 2 ^ 32
    → (y : ℕ) → due (delay s) y (x ∷ xs) ≡ due (delay (wake_first x s)) y (x ∷ xs) + 1
unfolding due
counts_down x xs s dist more word y =
    let same : due (delay s) y xs ≡ due (delay (wake_first x s)) y xs =
      due-congr _ _ y xs (λ q m. ground (arith, dist.0)) in
    ground (arith, same)

due-ge : (d : ℕ → ℕ) (y x : ℕ) (xs : List ℕ) → d x ≤ due d y (x ∷ xs)
unfolding due
due-ge d y x xs = omega arith

-- The first tick of a task wakes it, and those behind it that have no delay.
wake_until-Woken :
    (fuel x : ℕ) (xs : List ℕ) (s : Tasks)
    → length xs < fuel
    → has 0 (x ∷ xs) ≡ false
    → Ring s.links x xs
    → delay s x ≡ 1
    → Woken s (x ∷ xs) (wake_until x (wake_first x s) (end_loop fuel x x (wake_first x s)))
unfolding due
wake_until-Woken fuel x xs s f nz r one =
    let s' : Tasks = wake_first x s in
    let d : ℕ → ℕ = delay s' in
    let zs : List ℕ = zeros d xs in
    let os : List ℕ = others d xs in
    let split : zs ++ os ≡ xs = zeros-append-others d xs in
    let same = λ (y : ℕ). due-congr (delay s) d y xs (λ q m. ground (arith, r.distinct.0)) in
    let nz' : has 0 (x ∷ (zs ++ os)) ≡ false = rw split nz in
    let ring : Ring s.links x (zs ++ os) = rw split r in
    let cut = dll_detach_until-IsList s.links x zs os nz' ring in
    rw (end_loop-last fuel x x xs s' f r.trail r.close r.distinct.0) (record {
      tasks = with_links (dll_detach_until x (last x zs) s.links).0 s';
      head = (dll_detach_until x (last x zs) s.links).1;
      list = x;
      woken = x ∷ zs;
      rest = os;
      ends = refl;
      parts = ap (λ l. x ∷ l) split;
      asleep = cut.1;
      awake = (refl, ground (arith, has-append 0 zs os), cut.0);
      now = λ y m. ground (arith, one, same y, due-zeros d y xs);
      same = λ p m. dll_detach_until-same s.links x zs os p ring (rw split m);
      later = λ y m.
          let b = due_others d y xs r.distinct.1 m in
          let ne = has-others d y xs m in
          (
            ground (arith, one, same y, b, ne, r.distinct.0),
            ground (arith, one, same y, b, ne, r.distinct.0),
          );
    })

pub wakey_wakey-Woken :
    (fuel head : ℕ) (xs : List ℕ) (s : Tasks)
    → length xs ≤ fuel
    → IsList s.links head xs
    → ((q : ℕ) → delay s q < 2 ^ 32)
    → FirstWaits (delay s) xs
    → Woken s xs (wakey_wakey fuel head s)
unfolding wakey_wakey
wakey_wakey-Woken fuel head [] s f is word pos = record {
  tasks = s;
  head = head;
  list = 0;
  woken = [];
  rest = [];
  ends = ground arith;
  parts = refl;
  asleep = is;
  awake = refl;
  now = λ y m. absurd (ground arith);
  later = λ y m. absurd (ground arith);
  same = λ p m. (refl, refl);
}
wakey_wakey-Woken fuel head (x ∷ xs) s f (e, nz, r) word pos =
    let some_list : (head == 0) ≡ false = ground arith in
    elim (Bool-cases (ltb 0 ((s.r head 0 + 2 ^ 32 - 1) % 2 ^ 32))) [
      | inl more ↦
          rw (some_list, e)
            (record {
              tasks = wake_first x s;
              head = x;
              list = 0;
              woken = [];
              rest = x ∷ xs;
              ends = ground (arith, e, more);
              parts = refl;
              asleep = (refl, nz, r);
              awake = refl;
              now = λ y m. absurd (ground arith);
              same = λ p m. (refl, refl);
              later = λ y m. (
                counts_down x xs s r.distinct (ground (arith, e, more)) (word x) y,
                ground (arith, due-ge (delay s) y x xs, e, more),
              );
            })
      | inr over ↦
          let one : delay s x ≡ 1 = ground (arith, word x) in
          let test : ltb 0 ((wake_first x s).r x 0) ≡ false = ground arith in
          let some_list' : (x == 0) ≡ false = ground arith in
          rw (e, some_list', test) (wake_until-Woken fuel x xs s f nz r one)
    ]
