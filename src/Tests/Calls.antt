-- ===== src/Tests/Calls.antt =====
-- The task 11 calls, or controls the task 31.
use simple_as_pi.Common.{
  ℕ, ◌≡◌, refl, ◌≢◌, false, [], ◌∷◌, ◌++◌, arith, ◌==◌, ◌&&◌, if◌then◌else◌, none, some,
}
use simple_as_pi.Dll.Ring.{IsList}
use simple_as_pi.Tasks.{Tasks}
use simple_as_pi.Kernel.{Kernel, ok, ostask_from_handle}
use simple_as_pi.Kernel.Running.{CanStop}
use simple_as_pi.Scheduler.{task_yield, for_core}
use simple_as_pi.Scheduler.Yield.{Left, task_yield-Left}
use simple_as_pi.Scheduler.Cores.{asker, FirstAsker, Stays, for_core-Stays}
use simple_as_pi.Calls.{release_task}
use simple_as_pi.Calls.Control.{Released, release_task-Released}
use simple_as_pi.Queues.Find.{taker, FirstTaker}
use simple_as_pi.Queues.Start.{Started, queue_running_ostask-Started}
use simple_as_pi.Queues.{takes, queue_from_handle, queue_wait, queue_running_ostask}
use simple_as_pi.Queues.Handle.{Queued, Handed, queue_running_ostask-Queued, queue_wait-Handed}
use simple_as_pi.Scheduler.{idle_task_yield}
use simple_as_pi.Scheduler.Idle.{Resumed, idle_task_yield-Resumed}
use simple_as_pi.Tests.State.{
  two, apart, some_links, some_tasks, system, calling, core_list, runnable_list, can_stop,
}

task_yield-Left_example :
    (k' : Kernel) × (task_yield 0 system ≡ ok 12 k')
    × Left system k' k'.runnable 12 (10 ∷ []) (21 ∷ 22 ∷ [])
task_yield-Left_example =
    task_yield-Left 0 system 12 (10 ∷ []) (21 ∷ 22 ∷ []) can_stop (ground arith) runnable_list
      (refl, (refl, (refl, (refl, (refl, tt)))))

abbrev moving_to : ℕ → Kernel
moving_to core = calling core 0 system

movable : (core : ℕ) → CanStop (moving_to core) 12 (10 ∷ [])
movable core = record {
  list = core_list;
  not_idle = ground arith;
  runs = refl;
  next_waits = refl;
  returns = ground arith;
}

-- The tasks 21 and 22 wait for the cores 1 and 2.
abbrev movers : Tasks
movers = record some_tasks { r = λ t n. if t == 21 then 1 else 2 }

for_core-Stays_example :
    (asker 2 movers (21 ∷ 22 ∷ []) ≡ none → for_core 2 2 21 21 movers ≡ some (movers, 21, 0))
    × ((t : ℕ)
        → asker 2 movers (21 ∷ 22 ∷ []) ≡ some t
        → (f : FirstAsker 2 movers t (21 ∷ 22 ∷ [])) × (o : Tasks × ℕ × ℕ) × (for_core 2 2 21 21
              movers
            ≡ some o)
          × Stays movers t (f.front ++ f.behind) o)
for_core-Stays_example = for_core-Stays 2 2 21 (22 ∷ []) movers (omega arith) runnable_list

-- The task 31, whose handle is in r0, is controlled by the task 11.
abbrev handle : ℕ
handle = 0x4b53414b

abbrev controlling : ℕ → Kernel
controlling context = record (calling handle context system) {
  tasks = record some_tasks { controller = λ t i. if t == 31 && i == 0 then 11 else 0 };
}

is_31 : ostask_from_handle handle ≡ 31
unfolding ostask_from_handle
is_31 = refl

release_task-Released_example :
    (k' : Kernel) × (release_task (controlling 0x900) ≡ ok 0 k')
    × Released (controlling 0x900) k' 31 12 [] (10 ∷ []) (21 ∷ 22 ∷ [])
release_task-Released_example =
    release_task-Released (controlling 0x900) 31 12 [] (10 ∷ []) (21 ∷ 22 ∷ []) is_31 (ground arith)
      (ground arith) (omega arith) (refl, ground arith, λ l. refl) core_list runnable_list
      (refl, refl) refl refl

-- The queue at 0x800, by its handle.
abbrev queue : ℕ
queue = 0x55455d51

is_queue : queue_from_handle queue ≡ 0x800
unfolding queue_from_handle
is_queue = refl

known : queue_from_handle queue ≢ 0
known = rw is_queue (ground arith)

queue_running_ostask-Queued_example :
    (k' : Kernel) × (queue_running_ostask 0 queue 0x100 system ≡ ok 12 k')
    × Queued system k' (queue_from_handle queue) 0x100 12 (10 ∷ []) []
queue_running_ostask-Queued_example =
    queue_running_ostask-Queued 0 system queue 0x100 12 (10 ∷ []) [] can_stop (ground arith)
      (ground arith) known refl (omega arith) (omega arith) refl refl (refl, (refl, (refl, tt)))

-- The tasks 21 and 22 are queued.
abbrev queued : Kernel
queued = record system { queue_tasks = λ q. 21 }

queue_wait-Handed_example :
    (k' : Kernel) × (queue_wait 1 0x800 false false queued ≡ ok 0 k')
    × Handed queued k' 0x800 21 (22 ∷ [])
queue_wait-Handed_example =
    queue_wait-Handed 1 queued 0x800 21 (22 ∷ []) [] (omega arith) (ground arith) (ground arith)
      refl runnable_list (omega arith) (λ l. refl) refl refl

-- The handler at 0xff100000 waits at the queue.
abbrev handler : ℕ
handler = 0xff100000

abbrev served : Kernel
served = record system { queue_handlers = λ q. handler }

handlers : IsList some_links handler (handler ∷ [])
handlers = (refl, refl, record { trail = tt; close = refl; back = refl; distinct = (refl, tt) })

served_stops : CanStop served 12 (10 ∷ [])
served_stops = record {
  list = core_list;
  not_idle = ground arith;
  runs = refl;
  next_waits = refl;
  returns = ground arith;
}

takes_all : taker 0x100 0 some_tasks (handler ∷ []) ≡ handler
unfolding takes
takes_all = refl

queue_running_ostask-Started_example :
    (f : FirstTaker 0x100 0 some_tasks handler (handler ∷ [])) × (k' : Kernel)
    × (queue_running_ostask 1 queue 0x100 served ≡ ok handler k')
    × Started served k' (queue_from_handle queue) 0x100 handler 12 (10 ∷ []) (f.front ++ f.behind)
queue_running_ostask-Started_example =
    queue_running_ostask-Started 1 served queue 0x100 12 handler (10 ∷ []) (handler ∷ []) []
      served_stops refl known refl (omega arith) (omega arith) handlers
      (refl, (refl, (refl, (refl, tt)))) takes_all refl (omega arith) (λ l. refl) refl refl

-- The idle task 10 alone on its core, with interrupts enabled.
abbrev idling : Kernel
idling = record system {
  running = 10;
  tasks = record some_tasks { links = two 21 22 apart; running = λ t. t == 10 };
}

ready : IsList idling.tasks.links 21 (21 ∷ 22 ∷ [])
ready = (
  refl,
  refl,
  record { trail = (refl, refl, tt); close = refl; back = refl; distinct = (refl, (refl, tt)) },
)

idle_task_yield-Resumed_example :
    (k' : Kernel) × (idle_task_yield 0 idling ≡ ok 21 k') × Resumed idling k' 21 (22 ∷ [])
idle_task_yield-Resumed_example =
    idle_task_yield-Resumed 0 idling 21 (22 ∷ []) refl (ground arith) (refl, refl) refl refl
      (ground arith) refl ready refl
