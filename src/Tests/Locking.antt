-- ===== src/Tests/Locking.antt =====
-- A lock at 0x600 that the running task owns, or that the blocked task 31 wants.
use simple_as_pi.Common.{ℕ, ◌≡◌, refl, ◌≢◌, [], ◌∷◌, arith, ◌==◌, if◌then◌else◌}
use simple_as_pi.Dll.Ring.{IsList}
use simple_as_pi.Kernel.{Kernel, ok, ostask_handle}
use simple_as_pi.Locks.{lock_claim, lock_release, half_handle}
use simple_as_pi.Locks.Claim.{Waits, lock_claim-Waits}
use simple_as_pi.Locks.Release.{IsOwner, HandedOver, lock_release-HandedOver}
use simple_as_pi.Controllers.Stack.{Holds}
use simple_as_pi.Tests.State.{some_links, some_tasks, system, calling, core_list, runnable_list}
use simple_as_pi.Kernel.Running.{CanStop}

-- The lock is owned by the task 12.
abbrev owned : Kernel
owned = record (calling 0x600 0 system) { words = λ a. 0x4b534158 }

stops : CanStop owned 12 (10 ∷ [])
stops = record {
  list = core_list;
  not_idle = ground arith;
  runs = refl;
  next_waits = refl;
  returns = ground arith;
}

other : half_handle 0x4b534158 ≢ half_handle (ostask_handle 11)
unfolding ostask_handle
other = ground arith

lock_claim-Waits_example :
    (k' : Kernel) × (lock_claim owned ≡ ok 12 k') × Waits owned k' 12 (10 ∷ []) []
lock_claim-Waits_example =
    lock_claim-Waits owned 12 (10 ∷ []) [] refl stops (ground arith) refl (refl, (refl, (refl, tt)))
      (ground arith) other

-- The caller owns the lock, and the task 31 is blocked.
abbrev released_by : ℕ → Kernel
released_by wanted_lock = record (calling 0x600 0 system) {
  running = 16;
  blocked = 31;
  words = λ a. 0x4b534145;
  tasks = record some_tasks {
    r = λ t n. if t == 31 then (if n == 0 then wanted_lock else 0x700) else 0;
  };
}

owner : (lock : ℕ) → IsOwner (released_by lock)
unfolding ostask_handle
owner lock = refl

waiter : IsList some_links 31 (31 ∷ [])
waiter = (refl, refl, record { trail = tt; close = refl; back = refl; distinct = (refl, tt) })

lock_release-HandedOver_example :
    (k' : Kernel) × (lock_release 0 (released_by 0x600) ≡ ok 0 k')
    × HandedOver (released_by 0x600) k' [] (21 ∷ 22 ∷ [])
lock_release-HandedOver_example =
    lock_release-HandedOver 0 (released_by 0x600) [] (21 ∷ 22 ∷ []) (omega arith) refl (owner 0x600)
      waiter runnable_list (refl, (refl, (refl, tt))) refl

-- The state in which the task 31 runs, with the lock handed over.
abbrev resumed : Kernel
resumed = record (calling 0x600 0 system) { running = 31; words = λ a. 0x700 }

handed_over :
    (k' : Kernel) × (lock_release 0 (released_by 0x600) ≡ ok 0 k')
    × HandedOver (released_by 0x600) k' [] (21 ∷ 22 ∷ [])
handed_over =
    lock_release-HandedOver 0 (released_by 0x600) [] (21 ∷ 22 ∷ []) (omega arith) refl (owner 0x600)
      waiter runnable_list (refl, (refl, (refl, tt))) refl

not_31 : half_handle 0x700 ≢ half_handle (ostask_handle 31)
unfolding ostask_handle
not_31 = ground arith

still_owned : half_handle 0x700 ≡ half_handle (handed_over.0.words 0x600)
still_owned = ground (arith, handed_over.2.word)

abbrev one_controller : ℕ → ℕ
one_controller i = if i == 0 then 5 else 0

one_held : Holds one_controller 0 (5 ∷ [])
one_held = (refl, ground arith, λ l. refl)
