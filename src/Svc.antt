-- ===== src/Svc.antt =====
-- OSTask/ostask.c, ostask_svc: the calls by name, with the lock around the calls on pipes. The
-- calls that map memory and clean the cache, and the log pipe's calls, are left out.
pub mod Pipes
use Prim.Native.Nat.{bit_xor}
use simple_as_pi.Common.{
  ℕ, zero, suc, ◌+◌, ◌-◌, ◌*◌, ◌/◌, ◌%◌, Bool, true, false, not, ◌&&◌, ◌||◌, Option, none, some,
  ◌==◌, if◌then◌else◌,
}
use simple_as_pi.Tasks.{Tasks}
use simple_as_pi.Sleep.{sleeping_tasks_tick}
use simple_as_pi.Kernel.{
  Kernel, Run, ok, panic, waits, runs_on, Error, invalid_queue, invalid_pipe_handle, unknown_swi,
  unknown_pipe_swi, unknown_queue_swi, M, pure, ◌>>=◌, ◌>>◌, check, modify, set_bit, error,
}
use simple_as_pi.Locks.{lock_claim, lock_release}
use simple_as_pi.Pipes.{
  wait_for_space, space_filled, pipe_set_sender, unread_data, no_more_data, wait_for_data,
  data_consumed, pipe_set_receiver, not_listening,
}
use simple_as_pi.Scheduler.{task_yield, task_sleep}
use simple_as_pi.Calls.{
  task_create, run_for_task, get_registers, set_task_registers, task_finished, release_task,
  change_controller, wait_for_interrupt, switch_to_core,
}
use simple_as_pi.Pipes.Create.{pipe_create}
use simple_as_pi.Queues.{queue_from_handle, queue_create, queue_wait}

pub data PipeCall : Type 0 where
  wait_space filled set_sender unread no_more wait_data consumed set_receiver stop_listening :
      PipeCall
  wait_until_empty unknown_pipe_call : PipeCall

-- PipeCreate, with the page that it may be given, and the calls on a pipe.
pub data PipeSwi : Type 0 where
  create_pipe : ℕ → PipeSwi
  to_pipe : PipeCall → PipeSwi

pub data QueueCall : Type 0 where
  create_queue wait wait_swi wait_core wait_core_and_swi unknown_queue_call : QueueCall

pub data Call : Type 0 where
  yield sleep create run_for get_regs set_regs finish release change set_controller : Call
  claim_lock release_lock enabling_interrupts wait_interrupt switch_core tick : Call
  on_pipe : PipeSwi → Call
  on_queue : QueueCall → Call

-- pipe_from_handle
unfoldable pub pipe_from_handle : ℕ → ℕ
pipe_from_handle h = if h == 0 then 0 else bit_xor 0x45504950 h

unfoldable pub pipe_call : ℕ → PipeCall → ℕ → M ℕ
pipe_call fuel wait_space p = wait_for_space p
pipe_call fuel filled p = space_filled p
pipe_call fuel set_sender p = pipe_set_sender fuel p
pipe_call fuel unread p = unread_data p
pipe_call fuel no_more p = no_more_data p
pipe_call fuel wait_data p = wait_for_data p
pipe_call fuel consumed p = data_consumed p
pipe_call fuel set_receiver p = pipe_set_receiver fuel p
pipe_call fuel stop_listening p = not_listening p
pipe_call fuel wait_until_empty p = error unknown_swi
pipe_call fuel unknown_pipe_call p = error unknown_pipe_swi

-- core_claim_lock( &shared.ostask.pipes_lock, core + 1 ), with the assert that follows.
unfoldable pub lock_pipes : M (Unit {0})
lock_pipes k =
    if k.pipes_lock == 0
    then ok tt (record k { pipes_lock = k.core + 1 })
    else if k.pipes_lock == k.core + 1
    then panic
    else waits

unfoldable pub release_pipes : M (Unit {0})
release_pipes = modify λ k. record k { pipes_lock = 0 }

unfoldable pub pipe_swi : ℕ → PipeSwi → M ℕ
pipe_swi fuel (create_pipe page) k = pipe_create page k
pipe_swi fuel (to_pipe call) k =
    let p = pipe_from_handle (k.regs.r 0) in
    (if p == 0 then error invalid_pipe_handle else pipe_call fuel call p) k

unfoldable pub pipe_svc : ℕ → PipeSwi → M ℕ
pipe_svc fuel call = do lock_pipes; resume ← pipe_swi fuel call; release_pipes; pure resume

unfoldable pub queue_call : ℕ → QueueCall → ℕ → M ℕ
queue_call fuel create_queue queue = queue_create
queue_call fuel wait queue =
    if queue == 0 then error invalid_queue else queue_wait fuel queue false false
queue_call fuel wait_swi queue =
    if queue == 0 then error invalid_queue else queue_wait fuel queue true false
queue_call fuel wait_core queue =
    if queue == 0 then error invalid_queue else queue_wait fuel queue false true
queue_call fuel wait_core_and_swi queue =
    if queue == 0 then error invalid_queue else queue_wait fuel queue true true
queue_call fuel unknown_queue_call queue =
    if queue == 0 then error invalid_queue else error unknown_queue_swi

-- sleeping_tasks_tick, on the kernel's lists.
abbrev pub ticked : Option (Tasks × ℕ × ℕ) → M ℕ
ticked none k = runs_on
ticked (some (s, sleeping, runnable)) k =
    ok 0 (record k { tasks = s; sleeping = sleeping; runnable = runnable })

unfoldable pub dispatch : ℕ → Call → M ℕ
dispatch fuel yield = task_yield fuel
dispatch fuel sleep = task_sleep fuel
dispatch fuel create = task_create fuel
dispatch fuel run_for = run_for_task
dispatch fuel get_regs = get_registers
dispatch fuel set_regs = set_task_registers
dispatch fuel finish = task_finished
dispatch fuel release = release_task
dispatch fuel change = change_controller
dispatch fuel set_controller = λ k. panic
dispatch fuel claim_lock = lock_claim
dispatch fuel release_lock = lock_release fuel
dispatch fuel enabling_interrupts = do
  modify (λ k. record k { regs = record (k.regs) { spsr = set_bit 0x80 k.regs.spsr } })
  pure 0
dispatch fuel wait_interrupt = wait_for_interrupt
dispatch fuel switch_core = switch_to_core
dispatch fuel tick = λ k. ticked (sleeping_tasks_tick fuel k.sleeping k.runnable k.tasks) k
dispatch fuel (on_pipe call) = pipe_svc fuel call
dispatch fuel (on_queue call) = λ k. queue_call fuel call (queue_from_handle (k.regs.r 0)) k

unfoldable pub ostask_svc : ℕ → Call → M ℕ
ostask_svc fuel call k =
    let running = k.running in
    (do
      check (not (k.tasks.links.next running == running) || running == k.idle)
      resume ← dispatch fuel call
      (if resume == 0
          then (λ k. (check (k.running == running) >> check (k.tasks.running k.running)) k)
          else pure tt)
      pure resume)
      k
