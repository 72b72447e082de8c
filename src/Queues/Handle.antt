-- ===== src/Queues/Handle.antt =====
-- A task that makes a queued call, and the handler that takes it.
use simple_as_pi.Common.{
  ℕ, ◌^◌, ◌≡◌, refl, ◌≢◌, ◌<◌, ◌≤◌, true, false, List, [], ◌∷◌, ◌++◌, arith, ◌==◌, update, has,
  if◌then◌else◌, not-left, Distinct, Distinct-apart, length, Bool-cases, inl, inr,
}
use simple_as_pi.Dll.{Links, dll_detach, dll_attach}
use simple_as_pi.Dll.Ring.{Ring, IsList, Ring-frame}
use simple_as_pi.Dll.Attach.{
  IsAlone, dll_detach-Ring, dll_detach-same, dll_attach-IsList, dll_attach-same,
}
use simple_as_pi.Dll.Lists.{IsList-frame}
use simple_as_pi.Controllers.Stack.{Holds, push_controller-Holds}
use simple_as_pi.Kernel.{Kernel, ok, ostask_handle}
use simple_as_pi.Kernel.Running.{CanStop, stopped, stop_running_task-stopped}
use simple_as_pi.Queues.{
  swi_word, swi_offset, swi_core, queue_from_handle, queue_wait, take_queued, wait_in_queue,
  queue_running_ostask, lock_queues, release_queues,
}

-- A task leaves one list and joins another as its head.
stop_and_attach :
    (s : Links) (t n l : ℕ) (rest xs : List ℕ)
    → Ring s t (n ∷ rest)
    → t ≢ 0
    → IsList s l xs
    → Distinct ((t ∷ n ∷ rest) ++ xs)
    → IsList (dll_attach t l (dll_detach t s)).0 (dll_attach t l (dll_detach t s)).1 (t ∷ xs)
      × Ring (dll_attach t l (dll_detach t s)).0 n rest
stop_and_attach s t n l rest xs r ne is d =
    let (q, alone) = dll_detach-Ring s t n rest r in
    let out : has t xs ≡ false = Distinct-apart t (t ∷ n ∷ rest) xs d (ground arith) in
    let is' =
      IsList-frame s (dll_detach t s) l xs
        (λ p m. dll_detach-same s t n p rest (not-left p (t ∷ n ∷ rest) xs d m) r) is in
    (
      dll_attach-IsList (dll_detach t s) t l xs ne out alone is',
      Ring-frame (dll_detach t s) _ n rest
          (λ p m.
            dll_attach-same (dll_detach t s) t l p xs (ground (arith, r.distinct.0))
              (Distinct-apart p (t ∷ n ∷ rest) xs d (ground arith)) is')
          q,
    )

-- The caller waits in the queue, before those that waited already.
pub record Queued (k k' : Kernel) (queue op n : ℕ) (rest xs : List ℕ) : Type 0 where
  pub waiting : IsList k'.tasks.links (k'.queue_tasks queue) (k.running ∷ xs)
  pub core : Ring k'.tasks.links n rest
  pub current : k'.running ≡ n
  pub offset : swi_offset (k'.tasks.swi k.running) ≡ op
  pub on_core : swi_core (k'.tasks.swi k.running) ≡ k.core
  pub registers : k'.tasks.r k.running ≡ k.regs.r
  pub returns : k'.tasks.lr k.running ≡ k.regs.lr
  pub status : k'.tasks.spsr k.running ≡ k.regs.spsr
  pub unlocked : k'.queues_lock ≡ 0

-- A queued call of a task that can stop, where no handler waits at the queue: the caller stops and
-- stands before all the tasks that were in the queue, with the number of the call and the core in
-- its word, its r0 to r12, the address that it returns to and its status are saved, and the next
-- task of the core runs.
pub queue_running_ostask-Queued :
    (fuel : ℕ) (k : Kernel) (handle op n : ℕ) (rest xs : List ℕ)
    → CanStop k n rest
    → k.running ≢ 0
    → n ≢ 0
    → queue_from_handle handle ≢ 0
    → k.queues_lock ≡ 0
    → k.core < 2 ^ 8
    → op < 2 ^ 24
    → k.queue_handlers (queue_from_handle handle) ≡ 0
    → IsList k.tasks.links (k.queue_tasks (queue_from_handle handle)) xs
    → Distinct ((k.running ∷ n ∷ rest) ++ xs)
    → (k' : Kernel) × (queue_running_ostask fuel handle op k ≡ ok n k')
      × Queued k k' (queue_from_handle handle) op n rest xs
unfolding queue_running_ostask lock_queues release_queues wait_in_queue
queue_running_ostask-Queued fuel k handle op n rest xs c ne nz valid free small op_small idle is d =
    let t : ℕ = k.running in
    let queue : ℕ = queue_from_handle handle in
    let l = dll_attach t (k.queue_tasks queue) (stopped k n).tasks.links in
    let (q, r) = stop_and_attach k.tasks.links t n (k.queue_tasks queue) rest xs c.list ne is d in
    let known : (queue_from_handle handle == 0) ≡ false = ground (arith, valid) in
    let runs : (n == 0) ≡ false = ground (arith, nz) in
    let same : (queue == queue) ≡ true = ground arith in
    let st = stop_running_task-stopped k n rest c in
    (
      record (stopped k n) {
        queues_lock = 0;
        queue_tasks = update k.queue_tasks queue l.1;
        tasks = record ((stopped k n).tasks) {
          links = l.0;
          swi = update k.tasks.swi t (swi_word op k.core);
        };
      },
      simp (known, runs, st, free, idle),
      record {
        waiting = rw same q;
        core = r;
        current = refl;
        offset = ground arith;
        on_core = ground arith;
        registers = ground arith;
        returns = ground arith;
        status = ground arith;
        unlocked = refl;
      },
    )

-- The caller has taken the task `h` from a queue that holds `xs` afterwards, and goes on.
pub record Handed (k k' : Kernel) (queue h : ℕ) (xs : List ℕ) : Type 0 where
  pub waiting : IsList k'.tasks.links (k'.queue_tasks queue) xs
  pub alone : IsAlone k'.tasks.links h
  pub handle : k'.regs.r 0 ≡ ostask_handle h
  pub offset : k'.regs.r 1 ≡ swi_offset (k.tasks.swi h)
  pub on_core : k'.regs.r 2 ≡ swi_core (k.tasks.swi h)
  pub controlled : Holds (k'.tasks.controller h) 0 (k.running ∷ [])
  pub current : k'.running ≡ k.running
  pub unlocked : k'.queues_lock ≡ 0

-- The first of the queued tasks leaves the list, and is left alone.
take_head :
    (s : Links) (l h : ℕ) (xs : List ℕ)
    → IsList s l (h ∷ xs)
    → let s' : Links = if s.next h == h then s else dll_detach h s in
      IsList s' (if s.next h == h then 0 else s.next h) xs × IsAlone s' h
take_head s l h [] (e, nz, r) =
    let only : (s.next h == h) ≡ true = ground (arith, r.close) in rw only (refl, (r.close, r.back))
take_head s l h (x ∷ xs) (e, nz, r) =
    let more : (s.next h == h) ≡ false = ground (arith, r.trail, r.distinct) in
    let (q, alone) = dll_detach-Ring s h x xs r in rw more ((r.trail.0, ground arith, q), alone)

abbrev handed : Kernel → ℕ → ℕ → Kernel
handed k queue h =
    let s = k.tasks in
    let s' : Links = if s.links.next h == h then s.links else dll_detach h s.links in
    record k {
      queues_lock = 0;
      queue_tasks = update k.queue_tasks queue (if s.links.next h == h then 0 else s.links.next h);
      regs = record (k.regs) {
        r =
            update (update (update k.regs.r 0 (ostask_handle h)) 1 (swi_offset (s.swi h))) 2
              (swi_core (s.swi h));
      };
      tasks = record s {
        links = s';
        controller = λ q. if q == h then update (s.controller h) 0 k.running else s.controller q;
      };
    }

-- QueueWait, with another task on the core, where tasks are in the queue and the first has one
-- controller at most: the first leaves the queue and is alone, the others stay in order, r0 to r2
-- tell its handle and the call that it made, the caller is its one controller, and the caller goes
-- on.
pub queue_wait-Handed :
    (fuel : ℕ) (k : Kernel) (queue h : ℕ) (xs cs : List ℕ)
    → 0 < fuel
    → k.tasks.links.next k.running ≢ k.running
    → k.running ≢ 0
    → k.queues_lock ≡ 0
    → IsList k.tasks.links (k.queue_tasks queue) (h ∷ xs)
    → length cs ≤ 1
    → Holds (k.tasks.controller h) 0 cs
    → k.tasks.controller h 1 ≡ 0
    → k.tasks.controller h 30 ≡ 0
    → (k' : Kernel) × (queue_wait fuel queue false false k ≡ ok 0 k') × Handed k k' queue h xs
unfolding queue_wait take_queued lock_queues release_queues
queue_wait-Handed fuel k queue h xs cs f others ne free is few c one last =
    let t : ℕ = k.running in
    let more : (k.tasks.links.next t == t) ≡ false = ground (arith, others) in
    let e : k.queue_tasks queue ≡ h = is.0 in
    let some_queued : (h == 0) ≡ false = ground (arith, is) in
    let same : (queue == queue) ≡ true = ground arith in
    let self : (h == h) ≡ true = ground arith in
    let (pushes, holds) =
      push_controller-Holds fuel t cs (k.tasks.controller h) f ne few c one last in
    let (rest, alone) = take_head k.tasks.links (k.queue_tasks queue) h xs is in
    (
      handed k queue h,
      elim (Bool-cases (k.tasks.links.next h == h)) [
        | inl only ↦ simp (more, free, e, some_queued, only, pushes)
        | inr behind ↦ simp (more, free, e, some_queued, behind, pushes)
      ],
      record {
        waiting = rw same rest;
        alone = alone;
        handle = ground arith;
        offset = ground arith;
        on_core = ground arith;
        controlled = rw self holds;
        current = refl;
        unlocked = refl;
      },
    )
