-- ===== src/Queues/Start.antt =====
-- A task that makes a queued call while handlers wait: the first that takes the call starts.
use mathlib.Core.Path.{subst}
use simple_as_pi.Common.{
  ℕ, ◌/◌, ◌^◌, ◌≡◌, refl, sym, ap, ◌≢◌, ◌<◌, ◌≤◌, true, false, List, [], ◌∷◌, ◌++◌, arith, ◌==◌,
  ◌&&◌, update, has, has-append, some, last, length, if◌then◌else◌, inl, inr, Bool-cases, not-left,
  Distinct, Distinct-apart,
}
use simple_as_pi.Dll.{Links, dll_detach, dll_attach}
use simple_as_pi.Dll.Ring.{Ring, IsList, Ring-frame}
use simple_as_pi.Dll.Attach.{dll_detach-Ring, dll_detach-same, attach_before-Ring, dll_attach-same}
use simple_as_pi.Dll.Lists.{IsList-frame}
use simple_as_pi.Controllers.Stack.{Holds, push_controller-Holds}
use simple_as_pi.Kernel.{Kernel, ok, ostask_handle}
use simple_as_pi.Kernel.Running.{CanStop, stopped, stop_running_task-stopped}
use simple_as_pi.Queues.{
  find_handler, remove_handler, start_handler, queue_from_handle, queue_running_ostask, lock_queues,
  release_queues,
}
use simple_as_pi.Queues.Find.{
  taker, FirstTaker, find_handler-taker, taker-FirstTaker, without, without-IsList, without-same,
  has-skip, IsList-without,
}

-- The handler `h` runs on this core with the call that the caller made, and controls the caller,
-- which has stopped; the handlers of the list `hs` wait on.
pub record Started (k k' : Kernel) (queue op h n : ℕ) (rest hs : List ℕ) : Type 0 where
  pub waiting : IsList k'.tasks.links (k'.queue_handlers queue) hs
  pub core : Ring k'.tasks.links h (n ∷ rest)
  pub current : k'.running ≡ h
  pub caller : k'.tasks.r h 0 ≡ ostask_handle k.running
  pub call : k'.tasks.r h 1 ≡ op
  pub on_core : k'.tasks.r h 2 ≡ k.core
  pub controlled : Holds (k'.tasks.controller k.running) 0 (h ∷ [])
  pub unlocked : k'.queues_lock ≡ 0

abbrev started : Kernel → ℕ → ℕ → ℕ → ℕ → Kernel
started k queue op h n =
    let t : ℕ = k.running in
    let s = k.tasks in
    let w = without (k.queue_handlers queue) h (dll_detach t s.links) in
    let l = dll_attach h n w.0 in
    record k {
      queues_lock = 0;
      queue_handlers = update k.queue_handlers queue w.1;
      running = l.1;
      tasks = record (k.tasks) {
        links = l.0;
        r = λ q m.
            if q == h && m == 2
            then k.core
            else if q == h && m == 1
            then op
            else if q == h && m == 0
            then ostask_handle t
            else update s.r t k.regs.r q m;
        lr = update s.lr t k.regs.lr;
        spsr = update s.spsr t k.regs.spsr;
        running = update s.running t false;
        controller = λ q. if q == t then update (s.controller t) 0 h else s.controller q;
      };
    }

attach_first :
    (s : Links) (h n : ℕ) (rest : List ℕ)
    → n ≢ 0
    → has h (n ∷ rest) ≡ false
    → Ring s n rest
    → Ring (dll_attach h n s).0 h (n ∷ rest) × ((dll_attach h n s).1 ≡ h)
unfolding dll_attach
attach_first s h n rest nz new r =
    let some_list : (n == 0) ≡ false = ground (arith, nz) in
    rw some_list (attach_before-Ring s h n rest new r, refl)

-- A queued call of a task that can stop and has one controller at most, with fuel for the handlers
-- that wait at the queue, where the first of them that takes the call is at an address of the
-- tasks' area: that handler leaves the handlers, which keep their order, and runs on this core
-- before the tasks that were next, with the caller's handle, the call and the core in r0 to r2,
-- and is the one controller of the caller, which has stopped.
pub queue_running_ostask-Started :
    (fuel : ℕ) (k : Kernel) (handle op n h : ℕ) (rest xs cs : List ℕ)
    → CanStop k n rest
    → has 0 (n ∷ rest) ≡ false
    → queue_from_handle handle ≢ 0
    → k.queues_lock ≡ 0
    → length xs ≤ fuel
    → 0 < fuel
    → IsList k.tasks.links (k.queue_handlers (queue_from_handle handle)) xs
    → Distinct ((k.running ∷ n ∷ rest) ++ xs)
    → taker op k.core k.tasks xs ≡ h
    → h / 2 ^ 20 ≡ 0xff1
    → length cs ≤ 1
    → Holds (k.tasks.controller k.running) 0 cs
    → k.tasks.controller k.running 1 ≡ 0
    → k.tasks.controller k.running 30 ≡ 0
    → (f : FirstTaker op k.core k.tasks h xs) × (k' : Kernel) × (queue_running_ostask fuel handle op
          k
        ≡ ok h k')
      × Started k k' (queue_from_handle handle) op h n rest (f.front ++ f.behind)
unfolding queue_running_ostask lock_queues release_queues remove_handler start_handler
queue_running_ostask-Started fuel k handle op n h rest [] cs c nz valid free enough pos is d first
      page few held one last =
    absurd (ground (arith, first, page))
queue_running_ostask-Started fuel k handle op n h rest (x ∷ xs) cs c nz valid free enough pos is d
      first page few held one last =
    let t : ℕ = k.running in
    let queue : ℕ = queue_from_handle handle in
    let s : Links = k.tasks.links in
    let s0 = (stopped k n).tasks in
    let some_h : h ≢ 0 = ground (arith, page) in
    let f = taker-FirstTaker op k.core h k.tasks (x ∷ xs) some_h first in
    let is0 =
      IsList-frame s (dll_detach t s) (k.queue_handlers queue) (x ∷ xs)
        (λ p m. dll_detach-same s t n p rest (not-left p (t ∷ n ∷ rest) (x ∷ xs) d m) c.list) is in
    let find =
      find_handler-taker fuel op k.core x x xs s0 (omega arith) is0.2.trail is0.2.close
        is0.2.distinct.0 in
    let find' : find_handler fuel op k.core (k.queue_handlers queue) (k.queue_handlers queue) s0
        ≡ some h =
      subst (λ a. find_handler fuel op k.core a a s0 ≡ some h) (sym is.0) (rw first at find) in
    let is1 : IsList s0.links (k.queue_handlers queue) (f.front ++ h ∷ f.behind) =
      subst (λ l. IsList s0.links (k.queue_handlers queue) l) (sym f.whole) is0 in
    let (stay, alone) = without-IsList (k.queue_handlers queue) h s0.links f.front f.behind is1 in
    let (pushes, holds) =
      push_controller-Holds fuel h cs (k.tasks.controller t) pos some_h few held one last in
    let known : (queue_from_handle handle == 0) ≡ false = ground (arith, valid) in
    let runs : (h == 0) ≡ false = ground (arith, some_h) in
    let placed : (h / 2 ^ 20 == 0xff1) ≡ true = ground (arith, page) in
    let some_handlers : (k.queue_handlers queue == 0) ≡ false = ground (arith, is) in
    let st = stop_running_task-stopped k n rest c in
    let same : (queue == queue) ≡ true = ground arith in
    let self : (t == t) ≡ true = ground arith in
    let (on_core, _) = dll_detach-Ring s t n rest c.list in
    let whole : (p : ℕ) → has p (x ∷ xs) ≡ has p (f.front ++ h ∷ f.behind) =
      λ p. ap (has p) (sym f.whole) in
    let w = without (k.queue_handlers queue) h s0.links in
    let core_ring : Ring w.0 n rest =
      Ring-frame s0.links w.0 n rest
        (λ p m.
          without-same (k.queue_handlers queue) h p s0.links f.front f.behind is1
            (ground (arith, whole p, Distinct-apart p (t ∷ n ∷ rest) (x ∷ xs) d)))
        on_core in
    let apart : (p : ℕ) → has p (f.front ++ f.behind) ≡ true → has p (t ∷ n ∷ rest) ≡ false = λ p m.
      not-left p (t ∷ n ∷ rest) (x ∷ xs) d
        (ground (arith, whole p, has-skip p h f.front f.behind)) in
    let new : has h (n ∷ rest) ≡ false =
      ground (
        arith,
        not-left h (t ∷ n ∷ rest) (x ∷ xs) d,
        whole h,
        has-append h f.front (h ∷ f.behind),
      ) in
    let nz' : n ≢ 0 = ground (arith, nz) in
    let gone = IsList-without s0.links (k.queue_handlers queue) h f.front f.behind is1 in
    let (ring, now) = attach_first w.0 h n rest nz' new core_ring in
    (
      f,
      started k queue op h n,
      elim (Bool-cases (k.queue_handlers queue == h)) [
        | inl at ↦ elim (Bool-cases ((dll_detach t s).next h == h)) [
          | inl only ↦ simp (known, st, free, some_handlers, find', at, only, placed, pushes, runs)
          | inr more ↦ simp (known, st, free, some_handlers, find', at, more, placed, pushes, runs)
        ]
        | inr off ↦ simp (known, st, free, some_handlers, find', off, placed, pushes, runs)
      ],
      record {
        waiting = rw same (
            IsList-frame w.0 (dll_attach h n w.0).0 w.1 (f.front ++ f.behind)
              (λ p m.
                dll_attach-same w.0 h n p (n ∷ rest) (gone p m) (ground (arith, apart p m))
                  (refl, nz, core_ring))
              stay);
        core = ring;
        current = now;
        caller = ground arith;
        call = ground arith;
        on_core = ground arith;
        controlled = rw self holds;
        unlocked = refl;
      },
    )
