-- ===== src/Kernel.antt =====
-- The state that the OSTask calls of one core work on (OSTask/workspace_ostask.h and
-- OSTask/ostask.h), and the monad of the calls: a call may end, reach PANIC or a failed assert,
-- wait for another core, or be in a loop when the fuel of the model runs out.
pub mod Running
use Prim.Native.Nat.{bit_xor}
use simple_as_pi.Common.{
  ℕ, zero, suc, ◌+◌, ◌-◌, ◌%◌, ◌/◌, ◌*◌, Bool, true, false, not, List, ◌==◌, if◌then◌else◌, update,
}
use simple_as_pi.Dll.{Links, dll_attach, dll_detach}
use simple_as_pi.Blocks.{Table}
use simple_as_pi.Pipe.{Pipe}
use simple_as_pi.Mpsafe.{insert_tail, detach_head}
use simple_as_pi.Tasks.{Registers, Tasks, set_r, with_links}

-- The errors that DEFINE_ERROR defines for the modelled calls (CK_types.h).
pub data Error : Type 0 where
  not_a_task not_your_task not_your_pipe overfilled_pipe not_that_much_available : Error
  invalid_initial_stack queue_creation_problem invalid_queue invalid_pipe_handle : Error
  pipe_creation_error pipe_creation_problem : Error
  unknown_swi unknown_pipe_swi unknown_queue_swi : Error

pub record Kernel : Type 0 where
  pub tasks : Tasks
  -- the caller's registers, `regs` in the source
  pub regs : Registers
  -- workspace.core, workspace.ostask
  pub core : ℕ
  pub running : ℕ
  pub idle : ℕ
  pub irq_task : ℕ
  pub interrupted_tasks : ℕ
  -- shared.ostask
  pub lock : ℕ
  pub runnable : ℕ
  pub sleeping : ℕ
  pub blocked : ℕ
  pub moving : ℕ
  pub number_of_cores : ℕ
  pub task_pool : ℕ
  -- the slot whose memory this core has mapped
  pub mapped : ℕ
  -- the registers that stand in memory, by address
  pub contexts : ℕ → Registers
  -- every queue, their links in the pool, and the lists of waiting tasks
  pub queue_links : Links
  pub queue_pool : ℕ
  pub queues_lock : ℕ
  pub queue_tasks : ℕ → ℕ
  pub queue_handlers : ℕ → ℕ
  pub pipes_lock : ℕ
  -- every pipe, their links, the lists of those in use and of free ones, and the log pipe
  pub pipe : ℕ → Pipe
  pub pipe_links : Links
  pub pipes : ℕ
  pub pipe_pool : ℕ
  pub log_pipe : ℕ
  -- the table of pipes of every slot, and the addresses for them
  pub pipe_mem : ℕ → Table
  pub pipes_base : ℕ
  pub pipes_top : ℕ
  -- the words of memory that locks stand in
  pub words : ℕ → ℕ
  -- where the linker puts each error block
  pub error_block : Error → ℕ

pub data Run (A : Type 0) : Type 0 where
  ok : A → Kernel → Run A
  panic : Run A
  waits : Run A
  runs_on : Run A

abbrev pub M : Type 0 → Type 0
M A = Kernel → Run A

abbrev pub pure : {A : Type 0} → A → M A
pure = ok

module _ {A B : Type 0} where
  abbrev pub and_then : Run A → (A → M B) → Run B
  and_then (ok a k) f = f a k
  and_then panic f = panic
  and_then waits f = waits
  and_then runs_on f = runs_on

  infixl 5 ◌>>=◌ ◌>>◌
  abbrev pub ◌>>=◌ : M A → (A → M B) → M B
  m >>= f = λ k. and_then (m k) f

  abbrev pub ◌>>◌ : M A → M B → M B
  m >> n = m >>= λ _. n

-- assert( x ), and `if (!x) PANIC`
abbrev pub check : Bool → M (Unit {0})
check b k = if b then ok tt k else panic

abbrev pub modify : (Kernel → Kernel) → M (Unit {0})
modify f k = ok tt (f k)

abbrev pub set_reg : ℕ → ℕ → Registers → Registers
set_reg n v regs = record regs { r = update regs.r n v }

-- regs->r[n] = v
abbrev pub put : ℕ → ℕ → M (Unit {0})
put n v = modify λ k. record k { regs = set_reg n v k.regs }

-- Bit b of a status word, VF for b = 28: `regs->spsr |= VF`.
abbrev pub set_bit : ℕ → ℕ → ℕ
set_bit mask w = if w / mask % 2 == 0 then w + mask else w

-- Error_name( regs ): the caller goes on, with V set and r0 at the error block.
unfoldable pub error : Error → M ℕ
error e = do
  modify λ k. record k {
    regs = record (set_reg 0 (k.error_block e) k.regs) { spsr = set_bit 0x10000000 k.regs.spsr };
  }
  pure 0

-- TASK_HANDLE_MAGIC
abbrev pub task_handle_magic : ℕ
task_handle_magic = 0x4b534154

unfoldable pub ostask_handle : ℕ → ℕ
ostask_handle task = if task == 0 then 0 else bit_xor task_handle_magic task

unfoldable pub ostask_from_handle : ℕ → ℕ
ostask_from_handle h = if h == 0 then 0 else bit_xor task_handle_magic h

-- core_claim_lock( lock, core + 1 ) of Processor/processor.h, on shared.ostask.lock: does this core
-- own it already?
unfoldable pub lock_ostask : M Bool
lock_ostask k =
    if k.lock == 0
    then ok false (record k { lock = k.core + 1 })
    else if k.lock == k.core + 1
    then ok true k
    else waits

unfoldable pub release_ostask : M (Unit {0})
release_ostask = modify λ k. record k { lock = 0 }

-- save_task_state, less the banked registers of usr mode.
unfoldable pub save_task_state : M (Unit {0})
save_task_state k =
    let task = k.running in
    let s = k.tasks in
    (check (s.running task)
        >> modify (λ k. record k {
          tasks = record s {
            running = update s.running task false;
            r = update s.r task k.regs.r;
            lr = update s.lr task k.regs.lr;
            spsr = update s.spsr task k.regs.spsr;
          };
        })
        >> check (not (k.regs.lr == 0)))
      k

-- stop_running_task: the next task of this core's list.
unfoldable pub stop_running_task : M ℕ
unfolding save_task_state
stop_running_task k =
    let running = k.running in
    let next = k.tasks.links.next running in
    (do
      check (not (running == k.idle))
      check (not (k.tasks.running next))
      check (k.tasks.running running)
      save_task_state
      check (not (running == next))
      modify (λ k. record k {
        running = next;
        tasks = with_links (dll_detach running k.tasks.links) k.tasks;
      })
      pure next)
      k

-- mpsafe_insert_OSTask_at_tail( &shared.ostask.runnable, task )
unfoldable pub make_runnable : ℕ → M (Unit {0})
make_runnable task = modify λ k.
    let t = insert_tail task k.runnable k.tasks.links in
    record k { runnable = t.1; tasks = with_links t.0 k.tasks }
