-- ===== src/Sleep/Runnable.antt =====
-- sleeping_tasks_tick: the woken tasks join the runnable ones.
use mathlib.Core.List.{append-nil}
use simple_as_pi.Common.{
  ℕ, ◌≡◌, refl, true, false, Option, some, List, [], ◌∷◌, ◌++◌, arith, ◌==◌, ◌+◌, ◌^◌, ◌≤◌, ◌<◌,
  if◌then◌else◌, has, has-append, length, Distinct, Distinct-left, Distinct-apart, not-left,
  Distinct-skip,
}
use simple_as_pi.Dll.Ring.{IsList, Ring-turn}
use simple_as_pi.Dll.Lists.{
  dll_insert_list_at_head-IsList, dll_insert_list_at_head-same, IsList-frame,
}
use simple_as_pi.Tasks.{Tasks}
use simple_as_pi.Sleep.{add_woken, make_runnable, sleeping_tasks_tick}
use simple_as_pi.Sleep.Place.{due}
use simple_as_pi.Sleep.Due.{due-congr}
use simple_as_pi.Sleep.Add.{delay}
use simple_as_pi.Sleep.Tick.{Woken, FirstWaits, wakey_wakey-Woken}

-- add_woken puts one list behind another.
pub add_woken-IsList :
    (w head : ℕ) (ws ys : List ℕ) (s : Tasks)
    → Distinct (w ∷ (ws ++ ys))
    → IsList s.links w (w ∷ ws)
    → IsList s.links head ys
    → IsList (add_woken w head s).0.links (add_woken w head s).1 (ys ++ w ∷ ws)
unfolding add_woken
add_woken-IsList w head ws [] s d r is =
    let t = dll_insert_list_at_head-IsList s.links w head ws [] d r is in
    rw is (rw append-nil at (rw is at t))
add_woken-IsList w head ws (y ∷ ys) s d r is =
    let t = dll_insert_list_at_head-IsList s.links w head ws (y ∷ ys) d r is in
    let some_list : (head == 0) ≡ false = ground (arith, is) in
    rw some_list (
      is.0,
      ground (arith, t, has-append 0 ws (y ∷ ys), has-append 0 ys (w ∷ ws)),
      Ring-turn _ w y ws ys t.2,
    )

-- The lists after a tick, and who is in them.
pub record Ticked (s : Tasks) (xs ys : List ℕ) (o : Option (Tasks × ℕ × ℕ)) : Type 0 where
  pub tasks : Tasks
  pub sleeping : ℕ
  pub runnable : ℕ
  pub woken : List ℕ
  pub rest : List ℕ
  pub ends : o ≡ some (tasks, sleeping, runnable)
  pub parts : woken ++ rest ≡ xs
  pub sleepers : IsList tasks.links sleeping rest
  pub runners : IsList tasks.links runnable (ys ++ woken)
  pub now : (y : ℕ) → has y woken ≡ true → due (delay s) y xs ≡ 1
  pub later :
      (y : ℕ)
      → has y rest ≡ true
      → (due (delay s) y xs ≡ due (delay tasks) y rest + 1) × (1 < due (delay s) y xs)

joined :
    (list runnable : ℕ) (zs ys : List ℕ) (s : Tasks)
    → IsList s.links list zs
    → IsList s.links runnable ys
    → Distinct (zs ++ ys)
    → record {
      tasks : Tasks;
      head : ℕ;
      tasks_eq : (if list == 0 then s else (add_woken list runnable s).0) ≡ tasks;
      head_eq : (if list == 0 then runnable else (add_woken list runnable s).1) ≡ head;
      all : IsList tasks.links head (ys ++ zs);
      delays : (q : ℕ) → delay tasks q ≡ delay s q;
      same :
          (p : ℕ)
          → has p zs ≡ false
          → has p ys ≡ false
          → (tasks.links.next p ≡ s.links.next p) × (tasks.links.prev p ≡ s.links.prev p);
    }
unfolding add_woken
joined list runnable [] ys s is js d = record {
  tasks = s;
  head = runnable;
  tasks_eq = rw is;
  head_eq = rw is;
  all = rw (append-nil ys) js;
  delays = λ q. refl;
  same = λ p a b. (refl, refl);
}
joined list runnable (z ∷ zs) ys s is js d =
    let some_list : (list == 0) ≡ false = ground (arith, is) in
    record {
      tasks = (add_woken z runnable s).0;
      head = (add_woken z runnable s).1;
      tasks_eq = rw (some_list, is.0);
      head_eq = rw (some_list, is.0);
      all = add_woken-IsList z runnable zs ys s d (refl, is.1, is.2) js;
      delays = λ q. refl;
      same = λ p a b.
          dll_insert_list_at_head-same s.links z runnable zs ys p (refl, is.1, is.2) js a b;
    }

Woken-Ticked :
    (runnable : ℕ) (xs ys : List ℕ) (s : Tasks) (o : Option (Tasks × ℕ × ℕ))
    → Woken s xs o
    → IsList s.links runnable ys
    → Distinct (xs ++ ys)
    → Ticked s xs ys (make_runnable runnable o)
Woken-Ticked runnable xs ys s o w js d =
    let d' : Distinct ((w.woken ++ w.rest) ++ ys) = rw w.parts d in
    let js' =
      IsList-frame s.links w.tasks.links runnable ys (λ p m. w.same p (not-left p xs ys d m)) js in
    let both : Distinct (w.woken ++ w.rest) = Distinct-left (w.woken ++ w.rest) ys d' in
    let apart : (p : ℕ) → has p w.rest ≡ true → has p ys ≡ false = λ p m.
      Distinct-apart p (w.woken ++ w.rest) ys d' (ground (arith, has-append p w.woken w.rest)) in
    let j =
      joined w.list runnable w.woken ys w.tasks w.awake js' (Distinct-skip w.woken w.rest ys d') in
    rw (w.ends, make_runnable)
      (record {
        tasks = j.tasks;
        sleeping = w.head;
        runnable = j.head;
        woken = w.woken;
        rest = w.rest;
        ends = rw (j.tasks_eq, j.head_eq);
        parts = w.parts;
        sleepers =
            IsList-frame w.tasks.links j.tasks.links w.head w.rest
              (λ p m. j.same p (not-left p w.woken w.rest both m) (apart p m)) w.asleep;
        runners = j.all;
        now = w.now;
        later = λ y m.
            rw (due-congr (delay j.tasks) (delay w.tasks) y w.rest (λ q _. j.delays q))
              (w.later y m);
      })

-- A tick, with fuel for the sleeping tasks, where the first of them has not woken yet: the tasks
-- that are due move to the end of the runnable list, in order, and no others do; every other
-- sleeping task keeps its place and is one tick nearer to its waking.
pub sleeping_tasks_tick-Ticked :
    (fuel sleeping runnable : ℕ) (xs ys : List ℕ) (s : Tasks)
    → length xs ≤ fuel
    → IsList s.links sleeping xs
    → IsList s.links runnable ys
    → Distinct (xs ++ ys)
    → ((q : ℕ) → delay s q < 2 ^ 32)
    → FirstWaits (delay s) xs
    → Ticked s xs ys (sleeping_tasks_tick fuel sleeping runnable s)
unfolding sleeping_tasks_tick
sleeping_tasks_tick-Ticked fuel sleeping runnable xs ys s f is js d word pos =
    Woken-Ticked runnable xs ys s _ (wakey_wakey-Woken fuel sleeping xs s f is word pos) js d
