-- ===== src/Scheduler/Sleep.antt =====
-- TaskOpSleep: the caller stops, and sleeps.
use simple_as_pi.Common.{
  ℕ, ◌≡◌, ◌≢◌, ◌≤◌, false, List, ◌∷◌, ◌++◌, arith, ◌==◌, has, length, some, not-left, Distinct,
  Distinct-apart,
}
use simple_as_pi.Dll.{Links, dll_detach}
use simple_as_pi.Dll.Ring.{IsList}
use simple_as_pi.Dll.Attach.{dll_detach-Ring, dll_detach-same}
use simple_as_pi.Dll.Lists.{IsList-frame}
use simple_as_pi.Sleep.Add.{Asleep, put_to_sleep-Asleep, delay}
use simple_as_pi.Kernel.{Kernel, ok}
use simple_as_pi.Kernel.Running.{CanStop, stopped, stop_running_task-stopped}
use simple_as_pi.Scheduler.{task_sleep, sleeping_tasks_add}

-- Sleep by a task that can stop, for other than 0 ticks, with fuel for the sleeping tasks: the
-- next task of its core is resumed, the caller joins the sleeping tasks without a change of their
-- order and wakes after the ticks in r0, and every other task wakes when it would have.
pub task_sleep-Asleep :
    (fuel : ℕ) (k : Kernel) (n : ℕ) (rest xs : List ℕ)
    → CanStop k n rest
    → k.running ≢ 0
    → k.regs.r 0 ≢ 0
    → length xs ≤ fuel
    → IsList k.tasks.links k.sleeping xs
    → Distinct ((k.running ∷ n ∷ rest) ++ xs)
    → (k' : Kernel) × (task_sleep fuel k ≡ ok n k')
      × Asleep (stopped k n).tasks k.running xs (some (k'.tasks, k'.sleeping))
      × (delay (stopped k n).tasks k.running ≡ k.regs.r 0)
unfolding task_sleep sleeping_tasks_add
task_sleep-Asleep fuel k n rest xs c ne some_time f is d =
    let t : ℕ = k.running in
    let s : Links = k.tasks.links in
    let (q, alone) = dll_detach-Ring s t n rest c.list in
    let is' =
      IsList-frame s (dll_detach t s) k.sleeping xs
        (λ p m. dll_detach-same s t n p rest (not-left p (t ∷ n ∷ rest) xs d m) c.list) is in
    let out : has t xs ≡ false = Distinct-apart t (t ∷ n ∷ rest) xs d (ground arith) in
    let a = put_to_sleep-Asleep fuel t k.sleeping xs (stopped k n).tasks f ne out alone is' in
    let long : (k.regs.r 0 == 0) ≡ false = ground (arith, some_time) in
    let st = stop_running_task-stopped k n rest c in
    (
      record (stopped k n) { tasks = a.tasks; sleeping = a.head },
      simp (long, st, a.ends),
      rw a.ends at a,
      ground arith,
    )
