-- ===== src/Kernel/Running.antt =====
-- The running task leaves the list of its core.
use simple_as_pi.Common.{ℕ, ◌≡◌, ◌≢◌, true, false, List, ◌∷◌, arith, ◌==◌, update}
use simple_as_pi.Dll.{dll_detach}
use simple_as_pi.Dll.Ring.{Ring}
use simple_as_pi.Kernel.{Kernel, ok, stop_running_task, save_task_state}

-- A task other than the idle task runs on this core, with `n` next and then `rest`.
pub record CanStop (k : Kernel) (n : ℕ) (rest : List ℕ) : Type 0 where
  pub list : Ring k.tasks.links k.running (n ∷ rest)
  pub not_idle : k.running ≢ k.idle
  pub runs : k.tasks.running k.running ≡ true
  pub next_waits : k.tasks.running n ≡ false
  pub returns : k.regs.lr ≢ 0

-- The kernel after the task has stopped: its registers are those that it called with.
abbrev pub stopped : Kernel → ℕ → Kernel
stopped k n = record k {
  running = n;
  tasks = record (k.tasks) {
    links = dll_detach k.running k.tasks.links;
    running = update k.tasks.running k.running false;
    r = update k.tasks.r k.running k.regs.r;
    lr = update k.tasks.lr k.running k.regs.lr;
    spsr = update k.tasks.spsr k.running k.regs.spsr;
  };
}

pub stop_running_task-stopped :
    (k : Kernel) (n : ℕ) (rest : List ℕ)
    → CanStop k n rest
    → stop_running_task k ≡ ok n (stopped k n)
unfolding stop_running_task save_task_state
stop_running_task-stopped k n rest c =
    let a : (k.running == k.idle) ≡ false = ground (arith, c.not_idle) in
    let b : (k.running == n) ≡ false = ground (arith, c.list.distinct) in
    let z : (k.regs.lr == 0) ≡ false = ground (arith, c.returns) in
    simp (a, c.list.trail.0, c.next_waits, c.runs, z, b)
