-- ===== src/Queues.antt =====
-- OSTask/queues.c: queues on which tasks wait to be handled by others, and handlers wait for them.
-- The pool's set-up and logging are left out.
pub mod Handle
pub mod Find
pub mod Start
use Prim.Native.Nat.{bit_xor}
use simple_as_pi.Common.{
  ℕ, zero, suc, ◌+◌, ◌-◌, ◌*◌, ◌/◌, ◌%◌, ◌^◌, Bool, true, false, not, ◌&&◌, ◌||◌, Option, none,
  some, ◌==◌, if◌then◌else◌, update,
}
use simple_as_pi.Dll.{dll_attach, dll_detach}
use simple_as_pi.Mpsafe.{detach_head}
use simple_as_pi.Tasks.{Tasks, set_r, with_links}
use simple_as_pi.Controllers.{push_controller}
use simple_as_pi.Kernel.{
  Kernel, Run, ok, panic, waits, runs_on, Error, queue_creation_problem, invalid_queue, M, pure,
  ◌>>=◌, ◌>>◌, check, modify, put, error, ostask_handle, stop_running_task,
}
use simple_as_pi.Calls.{pushed}

-- QUEUE_HANDLE_MAGIC
abbrev pub queue_handle_magic : ℕ
queue_handle_magic = 0x55455551

unfoldable pub queue_handle : ℕ → ℕ
queue_handle queue = if queue == 0 then 0 else bit_xor queue_handle_magic queue

unfoldable pub queue_from_handle : ℕ → ℕ
queue_from_handle h = if h == 0 then 0 else bit_xor queue_handle_magic h

-- struct OSTask, the union of swi and handler: the fields of its word.
abbrev pub swi_offset : ℕ → ℕ
swi_offset w = w % 2 ^ 24

abbrev pub swi_core : ℕ → ℕ
swi_core w = w / 2 ^ 24 % 2 ^ 8

abbrev pub swi_word : ℕ → ℕ → ℕ
swi_word offset core = offset % 2 ^ 24 + core % 2 ^ 8 * 2 ^ 24

-- The test of queue_running_OSTask: does the handler take this SWI from this core?
unfoldable pub takes : ℕ → ℕ → ℕ → Bool
takes op core w =
    (w / 2 ^ 30 % 2 == 0 || w % 2 ^ 6 == op) && (w / 2 ^ 31 % 2 == 0 || w / 2 ^ 6 % 2 ^ 8 == core)

unfoldable pub new_queue : M ℕ
new_queue k =
    let d = detach_head k.queue_pool k.queue_links in
    let queue = d.2 in
    (do
      modify (λ k. record k { queue_links = d.0; queue_pool = d.1 })
      (if queue == 0 then pure 0 else (do
        modify (λ k. record k {
          queue_tasks = update k.queue_tasks queue 0;
          queue_handlers = update k.queue_handlers queue 0;
        })
        pure (queue_handle queue))))
      k

unfoldable pub queue_create : M ℕ
queue_create = do
  handle ← new_queue
  if queue_from_handle handle == 0 then error queue_creation_problem else (do put 0 handle; pure 0)

unfoldable pub lock_queues : M (Unit {0})
lock_queues k =
    if k.queues_lock == 0
    then ok tt (record k { queues_lock = k.core + 1 })
    else if k.queues_lock == k.core + 1
    then panic
    else waits

unfoldable pub release_queues : M (Unit {0})
release_queues = modify λ k. record k { queues_lock = 0 }

-- The first of the queued tasks leaves the queue, and the caller becomes its controller.
unfoldable pub take_queued : ℕ → ℕ → M ℕ
take_queued fuel queue k =
    let running = k.running in
    let head = k.queue_tasks queue in
    let next = k.tasks.links.next head in
    (do
      modify (λ k. record k {
        queue_tasks = update k.queue_tasks queue (if next == head then 0 else next);
        tasks =
            if next == head then k.tasks else with_links (dll_detach head k.tasks.links) k.tasks;
      })
      put 0 (ostask_handle head)
      put 1 (swi_offset (k.tasks.swi head))
      put 2 (swi_core (k.tasks.swi head))
      fits ← pushed head (push_controller fuel running (k.tasks.controller head))
      check fits
      pure 0)
      k

-- The caller stops, at the head of the queue's handlers.
unfoldable pub wait_as_handler : ℕ → M ℕ
wait_as_handler queue k =
    let running = k.running in
    (do
      check (k.tasks.running running)
      result ← stop_running_task
      (λ k. check (not (k.tasks.running running)) k)
      modify (λ k.
          let l = dll_attach running (k.queue_handlers queue) k.tasks.links in
          record k {
            queue_handlers = update k.queue_handlers queue l.1;
            tasks = with_links l.0 k.tasks;
          })
      pure result)
      k

unfoldable pub queue_wait : ℕ → ℕ → Bool → Bool → M ℕ
queue_wait fuel queue swi core k =
    (do
      check (not (swi || core))
      check (not (k.tasks.links.next k.running == k.running))
      lock_queues
      result ← (if k.queue_tasks queue == 0 then wait_as_handler queue else take_queued fuel queue)
      release_queues
      pure result)
      k

-- The `do` loop of queue_running_OSTask, less the removal: the first handler that takes the call,
-- 0 if none does; `none`: the fuel ran out.
unfoldable pub find_handler : ℕ → ℕ → ℕ → ℕ → ℕ → Tasks → Option ℕ
find_handler zero op core head handler s = none
find_handler (suc fuel) op core head handler s =
    let next = s.links.next handler in
    let rest = find_handler fuel op core head next s in
    if takes op core (s.swi handler) then some handler else if next == head then some 0 else rest

-- The handler leaves the handlers of the queue.
unfoldable pub remove_handler : ℕ → ℕ → M (Unit {0})
remove_handler queue handler k =
    let next = k.tasks.links.next handler in
    let handlers : ℕ = if k.queue_handlers queue == handler then next else k.queue_handlers queue in
    ok tt (record k {
      queue_handlers = update k.queue_handlers queue (if handlers == handler then 0 else handlers);
      tasks =
          if handlers == handler
          then k.tasks
          else with_links (dll_detach handler k.tasks.links) k.tasks;
    })

-- The handler runs on this core at once, as the controller of `caller`.
unfoldable pub start_handler : ℕ → ℕ → ℕ → ℕ → M ℕ
start_handler fuel caller handler op k =
    (do
      check (handler / 2 ^ 20 == 0xff1)
      modify (λ k. record k {
        tasks =
            set_r handler 2 k.core
              (set_r handler 1 op (set_r handler 0 (ostask_handle caller) k.tasks));
      })
      fits ← pushed caller (push_controller fuel handler (k.tasks.controller caller))
      check fits
      modify (λ k.
          let l = dll_attach handler k.running k.tasks.links in
          record k { running = l.1; tasks = with_links l.0 k.tasks })
      pure handler)
      k

-- The caller waits at the head of the queue for a handler.
unfoldable pub wait_in_queue : ℕ → ℕ → ℕ → M (Unit {0})
wait_in_queue queue caller op k =
    let l = dll_attach caller (k.queue_tasks queue) k.tasks.links in
    ok tt (record k {
      queue_tasks = update k.queue_tasks queue l.1;
      tasks = record (k.tasks) {
        links = l.0;
        swi = update k.tasks.swi caller (swi_word op k.core);
      };
    })

abbrev pub handled : ℕ → ℕ → ℕ → ℕ → ℕ → Option ℕ → M ℕ
handled fuel queue caller op result none k = runs_on
handled fuel queue caller op result (some handler) k =
    (if handler == 0
        then (do wait_in_queue queue caller op; pure result)
        else (do remove_handler queue handler; start_handler fuel caller handler op))
      k

unfoldable pub queue_running_ostask : ℕ → ℕ → ℕ → M ℕ
queue_running_ostask fuel handle op k =
    let running = k.running in
    let queue = queue_from_handle handle in
    (if queue == 0 then error invalid_queue else (do
      result ← stop_running_task
      lock_queues
      final ← (λ k.
          handled fuel queue running op result
            (if k.queue_handlers queue == 0
              then some 0
              else find_handler fuel op k.core (k.queue_handlers queue) (k.queue_handlers queue)
                  k.tasks)
            k)
      release_queues
      check (not (final == 0))
      pure final))
      k
