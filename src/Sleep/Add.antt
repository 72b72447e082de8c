-- ===== src/Sleep/Add.antt =====
-- put_to_sleep and sleeping_tasks_add.
use mathlib.Core.List.{append-nil}
use simple_as_pi.Common.{
  ℕ, ◌-◌, ◌≤◌, ◌<◌, ◌≡◌, refl, ap, ◌≢◌, true, false, inl, inr, Option, some, List, [], ◌∷◌, ◌++◌,
  arith, ◌==◌, ltb, leb, if◌then◌else◌, has, has-append, length, Bool-cases,
}
use simple_as_pi.Dll.{Links, dll_attach}
use simple_as_pi.Dll.Ring.{Ring, IsList, Ring-turn, Ring-rotate}
use simple_as_pi.Dll.Attach.{IsAlone, Ring-alone, attach_before-Ring, dll_attach-IsList}
use simple_as_pi.Tasks.{Tasks, set_r, with_links}
use simple_as_pi.Sleep.{put_to_sleep, place_loop, insert_tired}
use simple_as_pi.Sleep.Place.{
  due, before, after, left, first, before-append-after, place_loop-Placed,
}
use simple_as_pi.Sleep.Due.{Inserted, due_new, due_old}

-- An item attached before any item but the head, or before the head as the end of the list.
insert_before-Ring :
    (s : Links) (i x : ℕ) (us vs : List ℕ)
    → has i (x ∷ (us ++ vs)) ≡ false
    → has 0 (x ∷ (us ++ vs)) ≡ false
    → Ring s x (us ++ vs)
    → Ring (dll_attach i (first x vs) s).0 x (us ++ i ∷ vs)
unfolding dll_attach
insert_before-Ring s i x us [] new nz r =
    let q : Ring s x us = rw (append-nil us) at r in
    let out : has i (x ∷ us) ≡ false = ground (arith, has-append i us []) in
    let some_list : (x == 0) ≡ false = ground arith in
    rw some_list (Ring-rotate _ i x us (attach_before-Ring s i x us out q))
insert_before-Ring s i x us (b ∷ vs) new nz r =
    let q = Ring-turn s x b us vs r in
    let out : has i (b ∷ (vs ++ x ∷ us)) ≡ false =
      ground (arith, has-append i us (b ∷ vs), has-append i vs (x ∷ us)) in
    let some_list : (b == 0) ≡ false = ground (arith, has-append 0 us (b ∷ vs)) in
    rw some_list (Ring-turn _ i x (b ∷ vs) us (attach_before-Ring s i b (vs ++ x ∷ us) out q))

abbrev pub delay : Tasks → ℕ → ℕ
delay s q = s.r q 0

-- `tired` has joined the sleeping tasks `xs` of `s`.
pub record Asleep (s : Tasks) (tired : ℕ) (xs : List ℕ) (o : Option (Tasks × ℕ)) : Type 0 where
  pub tasks : Tasks
  pub head : ℕ
  pub front : List ℕ
  pub behind : List ℕ
  pub ends : o ≡ some (tasks, head)
  pub others : front ++ behind ≡ xs
  pub order : IsList tasks.links head (front ++ tired ∷ behind)
  pub wakes : due (delay tasks) tired (front ++ tired ∷ behind) ≡ delay s tired
  pub kept :
      (y : ℕ) → has y xs ≡ true → due (delay tasks) y (front ++ tired ∷ behind) ≡ due (delay s) y xs

-- The case of a task that wakes before the first.
Asleep-first :
    (tired head x : ℕ) (xs : List ℕ) (s : Tasks)
    → tired ≢ 0
    → has tired (x ∷ xs) ≡ false
    → IsAlone s.links tired
    → IsList s.links head (x ∷ xs)
    → ltb (delay s tired) (delay s head) ≡ true
    → Asleep s tired (x ∷ xs) (
        some (
          with_links
              (dll_attach tired head s.links).0
              (set_r head 0 (delay s head - delay s tired) s),
          (dll_attach tired head s.links).1,
        ))
unfolding before after left
Asleep-first tired head x xs s ne out alone is early =
    let stop : leb (delay s x) (delay s tired) ≡ false = ground (arith, is.0) in
    let e : ℕ → ℕ = delay (set_r head 0 (delay s head - delay s tired) s) in
    let new : Inserted (delay s) e tired (delay s tired) (x ∷ xs) =
      λ q. ground (arith, is.0, stop) in
    record {
      tasks =
          with_links (dll_attach tired head s.links).0
            (set_r head 0 (delay s head - delay s tired) s);
      head = _;
      front = [];
      behind = x ∷ xs;
      ends = refl;
      others = refl;
      order = dll_attach-IsList s.links tired head (x ∷ xs) ne out alone is;
      wakes = rw stop at (due_new (delay s) e tired (delay s tired) (x ∷ xs) out is.2.distinct new);
      kept = λ y m.
          rw stop at (due_old (delay s) e tired (delay s tired) y (x ∷ xs) out is.2.distinct m new);
    }

-- The case of a task that wakes with the first or later.
Asleep-behind :
    (fuel tired x : ℕ) (xs : List ℕ) (s : Tasks)
    → length xs < fuel
    → tired ≢ 0
    → has tired (x ∷ xs) ≡ false
    → has 0 (x ∷ xs) ≡ false
    → Ring s.links x xs
    → leb (delay s x) (delay s tired) ≡ true
    → Asleep s tired (x ∷ xs) (insert_tired tired x (place_loop fuel x x (delay s tired) s))
unfolding before
Asleep-behind fuel tired x xs s f ne out nz r pass =
    let d = delay s in
    let time = delay s tired in
    let p = place_loop-Placed fuel x x time xs s f r.trail r.close r.distinct.0 in
    let whole = before-append-after d time (x ∷ xs) in
    let us : List ℕ = if time - d x == 0 then [] else before d (time - d x) xs in
    let vs : List ℕ = after d time (x ∷ xs) in
    let whole' : x ∷ (us ++ vs) ≡ x ∷ xs = rw pass at whole in
    let split : us ++ vs ≡ xs = cc whole' in
    let z : has 0 (us ++ vs) ≡ false = rw split (ground arith) in
    let t : Tasks = set_r tired 0 (left d time (x ∷ xs)) p.tasks in
    let new : Inserted d (delay t) tired time (x ∷ xs) = λ q. ground (arith, p.delay q) in
    let ring : Ring t.links x (us ++ vs) = rw (split, p.same_links) r in
    rw p.ends (record {
      tasks = with_links (dll_attach tired (first x vs) t.links).0 t;
      head = x;
      front = x ∷ us;
      behind = vs;
      ends = refl;
      others = ap (λ l. x ∷ l) split;
      order = (
        refl,
        ground (arith, has-append 0 us (tired ∷ vs), has-append 0 us vs),
        insert_before-Ring t.links tired x us vs (rw split out) (rw split nz) ring,
      );
      wakes = rw pass at (due_new d (delay t) tired time (x ∷ xs) out r.distinct new);
      kept = λ y m. rw pass at (due_old d (delay t) tired time y (x ∷ xs) out r.distinct m new);
    })

-- A task in no list that goes to sleep, with fuel for the sleeping tasks: it joins their list
-- without a change of their order, wakes after the ticks that it asked for, and every other task
-- wakes when it would have.
pub put_to_sleep-Asleep :
    (fuel tired head : ℕ) (xs : List ℕ) (s : Tasks)
    → length xs ≤ fuel
    → tired ≢ 0
    → has tired xs ≡ false
    → IsAlone s.links tired
    → IsList s.links head xs
    → Asleep s tired xs (put_to_sleep fuel tired head s)
unfolding put_to_sleep due
put_to_sleep-Asleep fuel tired head [] s f ne out alone is = record {
  tasks = s;
  head = tired;
  front = [];
  behind = [];
  ends = ground arith;
  others = refl;
  order = (refl, ground arith, Ring-alone _ tired alone);
  wakes = ground arith;
  kept = λ y m. absurd (ground arith);
}
put_to_sleep-Asleep fuel tired head (x ∷ xs) s f ne out alone (e, nz, r) =
    let some_list : (head == 0) ≡ false = ground arith in
    elim (Bool-cases (ltb (delay s tired) (delay s head))) [
      | inl early ↦
          rw (some_list, early) (Asleep-first tired head x xs s ne out alone (e, nz, r) early)
      | inr late ↦
          rw (some_list, late, e) (Asleep-behind fuel tired x xs s f ne out nz r (ground arith))
    ]
