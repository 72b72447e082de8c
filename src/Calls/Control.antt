-- ===== src/Calls/Control.antt =====
-- RunForTask with Finished, and ReleaseTask.
use simple_as_pi.Common.{
  ℕ, ◌/◌, ◌%◌, ◌≡◌, refl, ◌≢◌, ◌≤◌, true, false, List, [], ◌∷◌, ◌++◌, arith, ◌==◌, if◌then◌else◌,
  update, length, has, Bool-cases, inl, inr,
}
use simple_as_pi.Dll.{Links, dll_attach, attach_before}
use simple_as_pi.Dll.Ring.{Ring, IsList, Ring-turn}
use simple_as_pi.Dll.Attach.{IsAlone, attach_before-Ring}
use simple_as_pi.Mpsafe.{insert_tail}
use simple_as_pi.Mpsafe.Fifo.{insert_tail-IsList}
use simple_as_pi.Tasks.{Tasks, with_links}
use simple_as_pi.Controllers.{max_controllers, pop_controller, current_controller}
use simple_as_pi.Controllers.Stack.{Holds, pop_controller-Holds}
use simple_as_pi.Kernel.{Kernel, ok, ostask_from_handle, make_runnable}
use simple_as_pi.Calls.{run_for_task, task_finished, let_run, release_task}

-- RunForTask by the current controller of a client, from its own slot, and then Finished: in
-- between the controller is in the client's slot, which is mapped; afterwards it is in its own
-- slot, which is mapped, and runs for nobody.
pub run_for_task-finished :
    (k : Kernel) (client : ℕ)
    → ostask_from_handle (k.regs.r 0) ≡ client
    → client ≢ 0
    → k.tasks.controller client 0 ≡ k.running
    → k.tasks.home k.running ≡ 0
    → k.tasks.slot k.running ≢ 0
    → (during : Kernel) × (run_for_task k ≡ ok 0 during)
      × (during.mapped ≡ k.tasks.slot client)
      × (during.tasks.slot k.running ≡ k.tasks.slot client)
      × (after : Kernel) × (task_finished during ≡ ok 0 after)
      × (after.mapped ≡ k.tasks.slot k.running)
      × (after.tasks.slot k.running ≡ k.tasks.slot k.running)
      × (after.tasks.home k.running ≡ 0)
unfolding run_for_task task_finished current_controller
run_for_task-finished k client e ne mine home slot =
    let t : ℕ = k.running in
    let s = k.tasks in
    let known : (client == 0) ≡ false = ground (arith, ne) in
    let controls : (s.controller client 0 == t) ≡ true = ground (arith, mine) in
    let at_home : (s.home t == 0) ≡ true = ground (arith, home) in
    let mapped : (s.slot t == 0) ≡ false = ground (arith, slot) in
    let same : (t == t) ≡ true = ground arith in
    (
      record k {
        tasks = record s {
          home = update s.home t (s.slot t);
          slot = update s.slot t (s.slot client);
        };
        mapped = s.slot client;
      },
      simp (e, known, controls, at_home, mapped),
      refl,
      rw same refl,
      record k {
        tasks = record s {
          home = update (update s.home t (s.slot t)) t 0;
          slot = update (update s.slot t (s.slot client)) t (update s.home t (s.slot t) t);
        };
        mapped = update s.home t (s.slot t) t;
      },
      simp (same, mapped),
      rw same refl,
      simp same,
      rw same refl,
    )

-- A task joins a ring behind its first item.
attach_behind :
    (s : Links) (i t n : ℕ) (rest : List ℕ)
    → n ≢ 0
    → has i (n ∷ (rest ++ t ∷ [])) ≡ false
    → Ring s t (n ∷ rest)
    → Ring (dll_attach i n s).0 t (i ∷ n ∷ rest)
unfolding dll_attach
attach_behind s i t n rest nz new r =
    let some_next : (n == 0) ≡ false = ground (arith, nz) in
    rw some_next (
      Ring-turn (attach_before i n s) i t (n ∷ rest) []
        (attach_before-Ring s i n (rest ++ t ∷ []) new (Ring-turn s t n [] rest r)))

-- What a task resumes with: the registers at the address in r1, or those that it had.
abbrev pub resumes_with : Kernel → ℕ → ℕ → ℕ
resumes_with k release = if k.regs.r 1 == 0 then k.tasks.r release else (k.contexts (k.regs.r 1)).r

abbrev pub returns_to : Kernel → ℕ → ℕ
returns_to k release = if k.regs.r 1 == 0 then k.tasks.lr release else (k.contexts (k.regs.r 1)).lr

abbrev pub status : Kernel → ℕ → ℕ
status k release = if k.regs.r 1 == 0 then k.tasks.spsr release else (k.contexts (k.regs.r 1)).spsr

-- The task `t` has left its controller, and is the last of the runnable tasks, or next on this
-- core if it has interrupts disabled.
pub record Released (k k' : Kernel) (t n : ℕ) (cs rest xs : List ℕ) : Type 0 where
  pub controllers : Holds (k'.tasks.controller t) 0 cs
  pub registers : k'.tasks.r t ≡ resumes_with k t
  pub return_address : k'.tasks.lr t ≡ returns_to k t
  pub state : k'.tasks.spsr t ≡ status k t
  pub on_any : status k t / 0x80 % 2 ≡ 0 → IsList k'.tasks.links k'.runnable (xs ++ t ∷ [])
  pub on_this : status k t / 0x80 % 2 ≡ 1 → Ring k'.tasks.links k.running (t ∷ n ∷ rest)
  pub current : k'.running ≡ k.running

abbrev with_context : Kernel → ℕ → Tasks
with_context k t =
    let s = k.tasks in
    let c = k.contexts (k.regs.r 1) in
    let s' : Tasks = record s {
      controller = λ q. if q == t then (pop_controller (s.controller t)).0 else s.controller q;
    } in
    if k.regs.r 1 == 0
    then s'
    else record s' { r = update s.r t c.r; lr = update s.lr t c.lr; spsr = update s.spsr t c.spsr }

abbrev go : Kernel → ℕ → ℕ → Tasks → Kernel
go k t n s =
    if s.spsr t / 0x80 % 2 == 1
    then record k { tasks = with_links (dll_attach t n s.links).0 s }
    else record k {
      runnable = (insert_tail t k.runnable s.links).1;
      tasks = with_links (insert_tail t k.runnable s.links).0 s;
    }

abbrev let_go : Kernel → ℕ → ℕ → Kernel
let_go k t n = go k t n (with_context k t)

release_task-run :
    (k : Kernel) (t n : ℕ)
    → ostask_from_handle (k.regs.r 0) ≡ t
    → t ≢ 0
    → k.tasks.controller t 0 ≡ k.running
    → k.tasks.links.next k.running ≡ n
    → release_task k ≡ ok 0 (let_go k t n)
unfolding release_task let_run make_runnable current_controller
release_task-run k t n e ne mine next =
    let known : (t == 0) ≡ false = ground (arith, ne) in
    let controls : (k.tasks.controller t 0 == k.running) ≡ true = ground (arith, mine) in
    let same : (t == t) ≡ true = ground arith in
    elim (Bool-cases (k.regs.r 1 == 0)) [
      | inl as_it_was ↦ elim (Bool-cases (k.tasks.spsr t / 0x80 % 2 == 1)) [
        | inl here ↦ simp (e, known, controls, next, as_it_was, here)
        | inr any ↦ simp (e, known, controls, next, as_it_was, any)
      ]
      | inr new ↦ elim (Bool-cases ((k.contexts (k.regs.r 1)).spsr / 0x80 % 2 == 1)) [
        | inl here ↦ simp (e, known, controls, next, new, same, here)
        | inr any ↦ simp (e, known, controls, next, new, same, any)
      ]
    ]

context_links : (k : Kernel) (t : ℕ) → (with_context k t).links ≡ k.tasks.links
context_links k t = elim (Bool-cases (k.regs.r 1 == 0)) [ inl a ↦ rw a refl | inr b ↦ rw b refl ]

go-Released :
    (k : Kernel) (t n : ℕ) (cs rest xs : List ℕ) (s : Tasks)
    → s.links ≡ k.tasks.links
    → Holds (s.controller t) 0 cs
    → s.r t ≡ resumes_with k t
    → s.lr t ≡ returns_to k t
    → s.spsr t ≡ status k t
    → t ≢ 0
    → n ≢ 0
    → Ring k.tasks.links k.running (n ∷ rest)
    → IsList k.tasks.links k.runnable xs
    → IsAlone k.tasks.links t
    → has t xs ≡ false
    → has t (n ∷ (rest ++ k.running ∷ [])) ≡ false
    → Released k (go k t n s) t n cs rest xs
go-Released k t n cs rest xs s e h regs ret st ne nz r is alone out new =
    elim (Bool-cases (s.spsr t / 0x80 % 2 == 1)) [
      | inl here ↦
          rw (here, e)
            (record {
              controllers = h;
              registers = regs;
              return_address = ret;
              state = st;
              on_any = λ z. absurd (ground (arith, st));
              on_this = λ z. attach_behind k.tasks.links t k.running n rest nz new r;
              current = refl;
            })
      | inr any ↦
          rw (any, e)
            (record {
              controllers = h;
              registers = regs;
              return_address = ret;
              state = st;
              on_any = λ z. insert_tail-IsList k.tasks.links t k.runnable xs ne out alone is;
              on_this = λ z. absurd (ground (arith, st));
              current = refl;
            })
    ]

-- ReleaseTask by the current controller of a task that is in no list, with another task on the
-- core: the caller is no longer among its controllers, the others are; the task has r0 to r12, the
-- address to return to and the status at the address in r1, or keeps its own for 0; it is the last
-- of the runnable tasks, or next on this core if it has interrupts disabled. The caller goes on.
pub release_task-Released :
    (k : Kernel) (t n : ℕ) (cs rest xs : List ℕ)
    → ostask_from_handle (k.regs.r 0) ≡ t
    → t ≢ 0
    → n ≢ 0
    → length (k.running ∷ cs) ≤ max_controllers
    → Holds (k.tasks.controller t) 0 (k.running ∷ cs)
    → Ring k.tasks.links k.running (n ∷ rest)
    → IsList k.tasks.links k.runnable xs
    → IsAlone k.tasks.links t
    → has t xs ≡ false
    → has t (n ∷ (rest ++ k.running ∷ [])) ≡ false
    → (k' : Kernel) × (release_task k ≡ ok 0 k') × Released k k' t n cs rest xs
release_task-Released k t n cs rest xs e ne nz f h r is alone out new =
    let (popped, holds) = pop_controller-Holds k.running cs (k.tasks.controller t) f h in
    let same : (t == t) ≡ true = ground arith in
    (
      let_go k t n,
      release_task-run k t n e ne h.0 r.trail.0,
      go-Released k t n cs rest xs (with_context k t) (context_links k t)
          (elim (Bool-cases (k.regs.r 1 == 0)) [
            | inl as_it_was ↦ rw (as_it_was, same) holds
            | inr given ↦ rw (given, same) holds
          ])
          (elim (Bool-cases (k.regs.r 1 == 0)) [
            | inl as_it_was ↦ rw as_it_was refl
            | inr given ↦ rw (given, same) refl
          ])
          (elim (Bool-cases (k.regs.r 1 == 0)) [
            | inl as_it_was ↦ rw as_it_was refl
            | inr given ↦ rw (given, same) refl
          ])
          (elim (Bool-cases (k.regs.r 1 == 0)) [
            | inl as_it_was ↦ rw as_it_was refl
            | inr given ↦ rw (given, same) refl
          ])
          ne nz r is alone out new,
    )
