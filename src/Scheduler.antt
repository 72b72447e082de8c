-- ===== src/Scheduler.antt =====
-- OSTask/ostask.c: the calls that create, stop, move and resume tasks. Logging is left out, and
-- save_task_state of usr mode's banked registers.
pub mod Yield
pub mod Sleep
pub mod Idle
pub mod Cores
use simple_as_pi.Common.{
  ℕ, zero, suc, ◌+◌, ◌-◌, ◌*◌, ◌/◌, ◌%◌, Bool, true, false, not, ◌&&◌, ◌||◌, Option, none, some,
  ◌==◌, ltb, if◌then◌else◌, update,
}
use simple_as_pi.Dll.{Links, dll_attach, dll_detach}
use simple_as_pi.Mpsafe.{detach_head}
use simple_as_pi.Tasks.{Registers, Tasks, with_links}
use simple_as_pi.Controllers.{
  push_controller, pop_controller, current_controller, change_current_controller,
}
use simple_as_pi.Sleep.{put_to_sleep}
use simple_as_pi.Kernel.{
  Kernel, Run, ok, panic, waits, runs_on, Error, invalid_initial_stack, M, pure, ◌>>=◌, ◌>>◌, check,
  modify, put, set_bit, error, ostask_handle, ostask_from_handle, save_task_state,
  stop_running_task, make_runnable,
}

abbrev pub set_running : ℕ → Bool → M (Unit {0})
set_running task b =
    modify λ k. record k { tasks = record (k.tasks) { running = update k.tasks.running task b } }

abbrev pub set_controllers : ℕ → (ℕ → ℕ) → M (Unit {0})
set_controllers task c = modify λ k. record k {
  tasks = record (k.tasks) { controller = λ q. if q == task then c else k.tasks.controller q };
}

-- for_core: the tasks, the new head and the task taken; `none`: the fuel ran out.
unfoldable pub for_core : ℕ → ℕ → ℕ → ℕ → Tasks → Option (Tasks × ℕ × ℕ)
for_core zero core first t s = none
for_core (suc fuel) core first t s =
    let t' = s.links.next t in
    let rest = for_core fuel core first t' s in
    if s.r t 0 == core
    then if t == t'
      then some (s, 0, t)
      else some (with_links (dll_detach t s.links) s, (if t == first then t' else first), t)
    else if t' == first
    then some (s, first, 0)
    else rest

abbrev pub took : Option (Tasks × ℕ × ℕ) → M ℕ
took none k = runs_on
took (some (s, moving, t)) k = ok t (record k { tasks = s; moving = moving })

unfoldable pub find_task_for_this_core : ℕ → M ℕ
find_task_for_this_core fuel k =
    if k.moving == 0 then ok 0 k else took (for_core fuel k.core k.moving k.moving k.tasks) k

-- mpsafe_detach_OSTask_at_head( &shared.ostask.runnable )
unfoldable pub take_runnable : M ℕ
take_runnable k =
    let t = detach_head k.runnable k.tasks.links in
    ok t.2 (record k { runnable = t.1; tasks = with_links t.0 k.tasks })

-- The end of IdleTaskYield: the task found for this core becomes the first of its list.
unfoldable pub resume_found : ℕ → M ℕ
resume_found resume k =
    let l = dll_attach resume k.running k.tasks.links in
    (if resume == 0
        then (do
          (if k.tasks.links.next k.running == k.idle
              then set_running (k.tasks.links.next k.running) true
              else pure tt)
          (λ k. check (k.tasks.running k.running) k)
          pure 0)
        else (do
          modify (λ k. record k { running = l.1; tasks = with_links l.0 k.tasks })
          pure resume))
      k

-- IdleTaskYield with interrupts disabled.
unfoldable pub end_of_interrupts : M ℕ
end_of_interrupts k =
    let running = k.running in
    let l = dll_attach running (k.tasks.links.next k.interrupted_tasks) k.tasks.links in
    (do
      modify (λ k. record k { regs = record (k.regs) { spsr = k.regs.spsr - 0x80 } })
      (if k.interrupted_tasks == 0
          then pure tt
          else modify (λ k. record k {
            running = l.1;
            interrupted_tasks = 0;
            tasks = with_links l.0 k.tasks;
          }))
      (λ k. check (k.running == running) k)
      set_running running true
      pure 0)
      k

unfoldable pub idle_task_yield : ℕ → M ℕ
idle_task_yield fuel k =
    let running = k.running in
    let next = k.tasks.links.next running in
    (do
      check (running == k.idle)
      (if not (next == running)
          then (do modify (λ k. record k { running = next }); set_running running false; pure next)
          else if k.regs.spsr / 0x80 % 2 == 1
          then end_of_interrupts
          else (do
            save_task_state
            moved ← find_task_for_this_core fuel
            (λ k. check (moved == 0 || k.tasks.r moved 0 == k.core) k)
            resume ←
                (λ k. (if moved == 0 && not (k.runnable == 0) then take_runnable else pure moved) k)
            resume_found resume)))
      k

unfoldable pub task_yield : ℕ → M ℕ
task_yield fuel k =
    let running = k.running in
    (if running == k.idle
        then idle_task_yield fuel
        else (do resume ← stop_running_task; make_runnable running; pure resume))
      k

abbrev pub slept : Option (Tasks × ℕ) → M (Unit {0})
slept none k = runs_on
slept (some (s, sleeping)) k = ok tt (record k { tasks = s; sleeping = sleeping })

unfoldable pub sleeping_tasks_add : ℕ → ℕ → M (Unit {0})
sleeping_tasks_add fuel tired k = slept (put_to_sleep fuel tired k.sleeping k.tasks) k

unfoldable pub task_sleep : ℕ → M ℕ
task_sleep fuel k =
    let running = k.running in
    (if k.regs.r 0 == 0
        then task_yield fuel
        else (do resume ← stop_running_task; sleeping_tasks_add fuel running; pure resume))
      k
