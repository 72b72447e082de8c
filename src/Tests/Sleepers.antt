-- ===== src/Tests/Sleepers.antt =====
-- Two sleeping tasks, of which the first wakes at the next tick, and a third that goes to sleep.
use simple_as_pi.Common.{ℕ, refl, ◌<◌, ◌^◌, [], ◌∷◌, arith, ◌==◌, if◌then◌else◌}
use simple_as_pi.Dll.Ring.{IsList}
use simple_as_pi.Tasks.{Tasks}
use simple_as_pi.Sleep.{sleeping_tasks_tick}
use simple_as_pi.Sleep.Add.{Asleep, delay}
use simple_as_pi.Sleep.Runnable.{Ticked, sleeping_tasks_tick-Ticked}
use simple_as_pi.Common.{some, ◌≡◌}
use simple_as_pi.Kernel.{Kernel, ok}
use simple_as_pi.Kernel.Running.{CanStop, stopped}
use simple_as_pi.Scheduler.{task_sleep}
use simple_as_pi.Scheduler.Sleep.{task_sleep-Asleep}
use simple_as_pi.Tests.State.{system, calling, two, some_links, some_tasks}

abbrev sleepers : Tasks
sleepers = record some_tasks {
  links = two 41 42 some_links;
  r = λ t n. if t == 41 then 1 else if t == 42 then 5 else if t == 31 then 4 else 0;
}

asleep : IsList sleepers.links 41 (41 ∷ 42 ∷ [])
asleep = (
  refl,
  refl,
  record { trail = (refl, refl, tt); close = refl; back = refl; distinct = (refl, (refl, tt)) },
)

small : (q : ℕ) → delay sleepers q < 2 ^ 32
small q = ground arith

ready : IsList sleepers.links 21 (21 ∷ 22 ∷ [])
ready = (
  refl,
  refl,
  record { trail = (refl, refl, tt); close = refl; back = refl; distinct = (refl, (refl, tt)) },
)

sleeping_tasks_tick-Ticked_example :
    Ticked sleepers (41 ∷ 42 ∷ []) (21 ∷ 22 ∷ []) (sleeping_tasks_tick 2 41 21 sleepers)
sleeping_tasks_tick-Ticked_example =
    sleeping_tasks_tick-Ticked 2 41 21 (41 ∷ 42 ∷ []) (21 ∷ 22 ∷ []) sleepers (omega arith) asleep
      ready (refl, (refl, (refl, (refl, tt)))) small (omega arith)

-- The task 11 calls Sleep for 4 ticks.
abbrev tired : Kernel
tired = record (calling 4 0 system) {
  sleeping = 41;
  tasks = record some_tasks {
    links = two 41 42 some_links;
    r = λ t n. if t == 41 then 1 else if t == 42 then 5 else 0;
  };
}

tired_stops : CanStop tired 12 (10 ∷ [])
tired_stops = record {
  list = record {
    trail = (refl, refl, (refl, refl, tt));
    close = refl;
    back = refl;
    distinct = (refl, (refl, (refl, tt)));
  };
  not_idle = ground arith;
  runs = refl;
  next_waits = refl;
  returns = ground arith;
}

tired_list : IsList tired.tasks.links 41 (41 ∷ 42 ∷ [])
tired_list = (
  refl,
  refl,
  record { trail = (refl, refl, tt); close = refl; back = refl; distinct = (refl, (refl, tt)) },
)

task_sleep-Asleep_example :
    (k' : Kernel) × (task_sleep 2 tired ≡ ok 12 k')
    × Asleep (stopped tired 12).tasks 11 (41 ∷ 42 ∷ []) (some (k'.tasks, k'.sleeping))
    × (delay (stopped tired 12).tasks 11 ≡ 4)
task_sleep-Asleep_example =
    task_sleep-Asleep 2 tired 12 (10 ∷ []) (41 ∷ 42 ∷ []) tired_stops (ground arith) (ground arith)
      (omega arith) tired_list (refl, (refl, (refl, (refl, (refl, tt)))))
