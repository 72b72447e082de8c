-- ===== src/Scheduler/Yield.antt =====
-- TaskOpYield and TaskOpSwitchToCore: the caller stops, and waits in another list.
use simple_as_pi.Common.{
  ℕ, ◌%◌, ◌≡◌, refl, ◌≢◌, ◌<◌, ◌≤◌, true, false, List, [], ◌∷◌, ◌++◌, arith, ◌==◌, ltb, has,
  not-left, Distinct, Distinct-apart,
}
use simple_as_pi.Dll.{Links, dll_detach}
use simple_as_pi.Dll.Ring.{Ring, IsList, Ring-frame}
use simple_as_pi.Dll.Attach.{dll_detach-Ring, dll_detach-same}
use simple_as_pi.Dll.Lists.{IsList-frame}
use simple_as_pi.Mpsafe.{insert_tail}
use simple_as_pi.Mpsafe.Fifo.{insert_tail-IsList, insert_tail-same}
use simple_as_pi.Tasks.{Tasks, with_links}
use simple_as_pi.Kernel.{Kernel, ok, make_runnable}
use simple_as_pi.Kernel.Running.{CanStop, stopped, stop_running_task-stopped}
use simple_as_pi.Scheduler.{task_yield}
use simple_as_pi.Calls.{switch_to_core}
use simple_as_pi.Scheduler.Cores.{asker}

-- A task leaves one list and joins another at its tail.
pub stop_and_queue :
    (s : Links) (t n l : ℕ) (rest xs : List ℕ)
    → Ring s t (n ∷ rest)
    → t ≢ 0
    → IsList s l xs
    → Distinct ((t ∷ n ∷ rest) ++ xs)
    → IsList
        (insert_tail t l (dll_detach t s)).0
        (insert_tail t l (dll_detach t s)).1
        (xs ++ t ∷ [])
      × Ring (insert_tail t l (dll_detach t s)).0 n rest
stop_and_queue s t n l rest xs r ne is d =
    let (q, alone) = dll_detach-Ring s t n rest r in
    let out : has t xs ≡ false = Distinct-apart t (t ∷ n ∷ rest) xs d (ground arith) in
    let is' =
      IsList-frame s (dll_detach t s) l xs
        (λ p m. dll_detach-same s t n p rest (not-left p (t ∷ n ∷ rest) xs d m) r) is in
    (
      insert_tail-IsList (dll_detach t s) t l xs ne out alone is',
      Ring-frame (dll_detach t s) _ n rest
          (λ p m.
            insert_tail-same (dll_detach t s) t l p xs (ground (arith, r.distinct.0))
              (Distinct-apart p (t ∷ n ∷ rest) xs d (ground arith)) is')
          q,
    )

-- The caller has stopped, and the next task of its core runs: the caller is the last of the list
-- at `l`, where `xs` were, and what it called with is kept.
pub record Left (k k' : Kernel) (l n : ℕ) (rest xs : List ℕ) : Type 0 where
  pub queue : IsList k'.tasks.links l (xs ++ k.running ∷ [])
  pub core : Ring k'.tasks.links n rest
  pub current : k'.running ≡ n
  pub stops : k'.tasks.running k.running ≡ false
  pub registers : k'.tasks.r k.running ≡ k.regs.r
  pub returns : k'.tasks.lr k.running ≡ k.regs.lr
  pub status : k'.tasks.spsr k.running ≡ k.regs.spsr

-- A task that yields, can stop and is not the idle task: it becomes the last of the runnable
-- tasks, with its registers saved, and the next task of its core is resumed, where the others keep
-- their order.
pub task_yield-Left :
    (fuel : ℕ) (k : Kernel) (n : ℕ) (rest xs : List ℕ)
    → CanStop k n rest
    → k.running ≢ 0
    → IsList k.tasks.links k.runnable xs
    → Distinct ((k.running ∷ n ∷ rest) ++ xs)
    → (k' : Kernel) × (task_yield fuel k ≡ ok n k') × Left k k' k'.runnable n rest xs
unfolding task_yield make_runnable
task_yield-Left fuel k n rest xs c ne is d =
    let t : ℕ = k.running in
    let l = insert_tail t k.runnable (stopped k n).tasks.links in
    let (q, r) = stop_and_queue k.tasks.links t n k.runnable rest xs c.list ne is d in
    let active : (t == k.idle) ≡ false = ground (arith, c.not_idle) in
    let st = stop_running_task-stopped k n rest c in
    (
      record (stopped k n) { runnable = l.1; tasks = with_links l.0 (stopped k n).tasks },
      simp (active, st),
      record {
        queue = q;
        core = r;
        current = refl;
        stops = ground arith;
        registers = ground arith;
        returns = ground arith;
        status = ground arith;
      },
    )

-- SwitchToCore from usr mode, by a task that can stop, to another core whose number is no more
-- than the number of cores: the caller becomes the last of the moving tasks, with its registers
-- saved, and the next task of its core is resumed.
pub switch_to_core-Left :
    (k : Kernel) (n : ℕ) (rest xs : List ℕ)
    → CanStop k n rest
    → k.running ≢ 0
    → k.regs.r 0 ≢ k.core
    → k.regs.r 0 ≤ k.number_of_cores
    → k.regs.spsr % 0x20 ≡ 0x10
    → IsList k.tasks.links k.moving xs
    → Distinct ((k.running ∷ n ∷ rest) ++ xs)
    → (k' : Kernel) × (switch_to_core k ≡ ok n k') × Left k k' k'.moving n rest xs
unfolding switch_to_core
switch_to_core-Left k n rest xs c ne away valid usr is d =
    let t : ℕ = k.running in
    let l = insert_tail t k.moving (stopped k n).tasks.links in
    let (q, r) = stop_and_queue k.tasks.links t n k.moving rest xs c.list ne is d in
    let other : (k.regs.r 0 == k.core) ≡ false = ground (arith, away) in
    let exists : ltb k.number_of_cores (k.regs.r 0) ≡ false = ground (arith, valid) in
    let mode : (k.regs.spsr % 0x20 == 0x10) ≡ true = ground (arith, usr) in
    let st = stop_running_task-stopped k n rest c in
    (
      record (stopped k n) { moving = l.1; tasks = with_links l.0 (stopped k n).tasks },
      simp (other, exists, mode, st),
      record {
        queue = q;
        core = r;
        current = refl;
        stops = ground arith;
        registers = ground arith;
        returns = ground arith;
        status = ground arith;
      },
    )

-- The first task of a list is found after the list has grown, unless the new task is the first.
asker-append :
    (core t : ℕ) (s : Tasks) (xs : List ℕ)
    → s.r t 0 ≢ core
    → asker core s (xs ++ t ∷ []) ≡ asker core s xs
asker-append core t s [] ne = ground (arith, ne)
asker-append core t s (x ∷ xs) ne = rw (asker-append core t s xs ne)

-- SwitchToCore from usr mode, by a task that can stop, to the core whose number is the number of
-- cores, which there is not: the call is accepted, the caller joins the moving tasks, and the
-- choice that any core makes among those is as if it were not there.
pub switch_to_core_stranded :
    (k : Kernel) (n : ℕ) (rest xs : List ℕ)
    → CanStop k n rest
    → k.running ≢ 0
    → k.core < k.number_of_cores
    → k.regs.r 0 ≡ k.number_of_cores
    → k.regs.spsr % 0x20 ≡ 0x10
    → IsList k.tasks.links k.moving xs
    → Distinct ((k.running ∷ n ∷ rest) ++ xs)
    → (k' : Kernel) × (switch_to_core k ≡ ok n k')
      × IsList k'.tasks.links k'.moving (xs ++ k.running ∷ [])
      × ((core : ℕ)
          → core < k'.number_of_cores
          → asker core k'.tasks (xs ++ k.running ∷ []) ≡ asker core k'.tasks xs)
unfolding switch_to_core
switch_to_core_stranded k n rest xs c ne here last usr is d =
    let t : ℕ = k.running in
    let l = insert_tail t k.moving (stopped k n).tasks.links in
    let q = stop_and_queue k.tasks.links t n k.moving rest xs c.list ne is d in
    let other : (k.regs.r 0 == k.core) ≡ false = ground (arith, last) in
    let exists : ltb k.number_of_cores (k.regs.r 0) ≡ false = ground (arith, last) in
    let mode : (k.regs.spsr % 0x20 == 0x10) ≡ true = ground (arith, usr) in
    let st = stop_running_task-stopped k n rest c in
    (
      record (stopped k n) { moving = l.1; tasks = with_links l.0 (stopped k n).tasks },
      simp (other, exists, mode, st),
      q.0,
      λ core small.
          asker-append core t (with_links l.0 (stopped k n).tasks) xs (ground (arith, last)),
    )
