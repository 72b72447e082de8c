-- ===== src/Calls.antt =====
-- OSTask/ostask.c: the calls of a task on the tasks that it controls, and those that change where
-- the caller runs. The errors that the source puts behind a PANIC are not reached.
pub mod Control
use simple_as_pi.Common.{
  ℕ, zero, suc, ◌+◌, ◌-◌, ◌*◌, ◌/◌, ◌%◌, Bool, true, false, not, ◌&&◌, ◌||◌, Option, none, some,
  ◌==◌, ltb, if◌then◌else◌, update,
}
use simple_as_pi.Dll.{dll_attach}
use simple_as_pi.Mpsafe.{detach_head, insert_tail}
use simple_as_pi.Tasks.{Registers, Tasks, with_links}
use simple_as_pi.Controllers.{
  push_controller, pop_controller, current_controller, change_current_controller,
}
use simple_as_pi.Kernel.{
  Kernel, Run, ok, panic, runs_on, Error, invalid_initial_stack, M, pure, ◌>>=◌, ◌>>◌, check,
  modify, put, set_bit, error, ostask_handle, ostask_from_handle, stop_running_task, make_runnable,
}
use simple_as_pi.Scheduler.{set_controllers}

abbrev pub pushed : ℕ → Option ((ℕ → ℕ) × Bool) → M Bool
pushed task none k = runs_on
pushed task (some (c, b)) k = (do set_controllers task c; pure b) k

abbrev pub changed : ℕ → Option (ℕ → ℕ) → M (Unit {0})
changed task none k = panic
changed task (some c) k = set_controllers task c k

-- task->regs = *context
abbrev pub set_registers : ℕ → Registers → M (Unit {0})
set_registers task regs = modify λ k.
    let s = k.tasks in
    record k {
      tasks = record s {
        r = update s.r task regs.r;
        lr = update s.lr task regs.lr;
        spsr = update s.spsr task regs.spsr;
      };
    }

-- The caller must control the task.
abbrev pub controls : ℕ → M (Unit {0})
controls task k =
    (check (not (task == 0)) >> check (current_controller (k.tasks.controller task) == k.running)) k

unfoldable pub run_for_task : M ℕ
run_for_task k =
    let running = k.running in
    let client = ostask_from_handle (k.regs.r 0) in
    let s = k.tasks in
    (do
      controls client
      check (s.home running == 0)
      modify (λ k. record k {
        tasks = record s {
          home = update s.home running (s.slot running);
          slot = update s.slot running (s.slot client);
        };
        mapped = s.slot client;
      })
      check (not (s.slot running == 0))
      pure 0)
      k

unfoldable pub task_finished : M ℕ
task_finished k =
    let running = k.running in
    let s = k.tasks in
    (do
      check (not (s.home running == 0))
      modify (λ k. record k {
        tasks = record s {
          slot = update s.slot running (s.home running);
          home = update s.home running 0;
        };
        mapped = s.home running;
      })
      pure 0)
      k

-- The end of TaskOpReleaseTask: next on this core, if interrupts are disabled, or on any.
unfoldable pub let_run : ℕ → M (Unit {0})
let_run release k =
    let l = dll_attach release (k.tasks.links.next k.running) k.tasks.links in
    (if k.tasks.spsr release / 0x80 % 2 == 1
        then modify (λ k. record k { tasks = with_links l.0 k.tasks })
        else make_runnable release)
      k

unfoldable pub release_task : M ℕ
release_task k =
    let release = ostask_from_handle (k.regs.r 0) in
    let context = k.regs.r 1 in
    (do
      controls release
      set_controllers release (pop_controller (k.tasks.controller release)).0
      (if context == 0 then pure tt else set_registers release (k.contexts context))
      let_run release
      pure 0)
      k

unfoldable pub change_controller : M ℕ
change_controller k =
    let release = ostask_from_handle (k.regs.r 0) in
    let new_controller = ostask_from_handle (k.regs.r 1) in
    (do
      controls release
      check (not (new_controller == 0))
      changed release (change_current_controller new_controller (k.tasks.controller release))
      pure 0)
      k

unfoldable pub get_registers : M ℕ
get_registers k =
    let controlled = ostask_from_handle (k.regs.r 0) in
    let s = k.tasks in
    let regs : Registers = record {
      r = s.r controlled;
      lr = s.lr controlled;
      spsr = s.spsr controlled;
    } in
    (do
      controls controlled
      modify (λ k. record k { contexts = update k.contexts (k.regs.r 1) regs })
      pure 0)
      k

unfoldable pub set_task_registers : M ℕ
set_task_registers k =
    let controlled = ostask_from_handle (k.regs.r 0) in
    (do controls controlled; set_registers controlled (k.contexts (k.regs.r 1)); pure 0) k

unfoldable pub wait_for_interrupt : M ℕ
wait_for_interrupt k =
    let running = k.running in
    (do
      check (k.regs.spsr / 0x80 % 2 == 1)
      check (k.irq_task == 0)
      resume ← stop_running_task
      modify (λ k. record k { irq_task = running })
      pure resume)
      k

unfoldable pub switch_to_core : M ℕ
switch_to_core k =
    let core = k.regs.r 0 in
    let running = k.running in
    (if core == k.core then pure 0 else (do
      check (not (ltb k.number_of_cores core))
      check (k.regs.spsr % 0x20 == 0x10)
      resume ← stop_running_task
      modify (λ k.
          let t = insert_tail running k.moving k.tasks.links in
          record k { moving = t.1; tasks = with_links t.0 k.tasks })
      pure resume))
      k

-- TaskOpCreate in the caller's slot, on `fuel` for push_controller. The stack pointer and link
-- register of usr mode are not modelled.
unfoldable pub task_create : ℕ → M ℕ
task_create fuel k =
    let running = k.running in
    let d = detach_head k.task_pool k.tasks.links in
    let task = d.2 in
    let s = k.tasks in
    let r =
      λ (n : ℕ). if n == 0 then ostask_handle task else if ltb n 5 then k.regs.r (n + 1) else 0 in
    (if not (k.regs.r 1 % 8 == 0) then error invalid_initial_stack else (do
      check (d.0.next task == task || d.0.prev task == task)
      modify (λ k. record k {
        task_pool = d.1;
        tasks = record s {
          links = record { next = update d.0.next task task; prev = update d.0.prev task task };
          r = update s.r task r;
          lr = update s.lr task (k.regs.r 0);
          spsr = update s.spsr task 0x10;
          running = update s.running task false;
          slot = update s.slot task (s.slot running);
          home = update s.home task 0;
          controller = λ q. if q == task then (λ i. 0) else s.controller q;
          swi = update s.swi task 0;
        };
      })
      fits ← pushed task (push_controller fuel running (λ i. 0))
      check fits
      put 0 (ostask_handle task)
      pure 0))
      k
