-- ===== src/Scheduler/Idle.antt =====
-- IdleTaskYield on a core with nothing else to run.
use simple_as_pi.Common.{
  ℕ, ◌/◌, ◌%◌, ◌≡◌, refl, ◌≢◌, true, false, List, [], ◌∷◌, arith, ◌==◌, update, has,
}
use simple_as_pi.Dll.{Links, dll_attach}
use simple_as_pi.Dll.Ring.{Ring, IsList}
use simple_as_pi.Dll.Attach.{
  IsAlone, Ring-alone, dll_attach-IsList, dll_attach-same, dll_detach-same,
}
use simple_as_pi.Dll.Lists.{IsList-frame}
use simple_as_pi.Mpsafe.{detach_head}
use simple_as_pi.Mpsafe.Fifo.{detach_head-IsList}
use simple_as_pi.Kernel.{Kernel, ok, save_task_state}
use simple_as_pi.Scheduler.{idle_task_yield, find_task_for_this_core, take_runnable, resume_found}

-- Items out of the list keep their pointers.
detach_head-same :
    (s : Links) (l i p : ℕ) (xs : List ℕ)
    → IsList s l (i ∷ xs)
    → has p (i ∷ xs) ≡ false
    → ((detach_head l s).0.next p ≡ s.next p) × ((detach_head l s).0.prev p ≡ s.prev p)
unfolding detach_head
detach_head-same s l i p [] (e, nz, r) out =
    let some_list : (l == 0) ≡ false = ground arith in
    let only : (s.next i == i) ≡ true = ground (arith, r.close) in
    rw (some_list, e, only) (refl, refl)
detach_head-same s l i p (x ∷ xs) (e, nz, r) out =
    let some_list : (l == 0) ≡ false = ground arith in
    let more : (s.next i == i) ≡ false = ground (arith, r.trail, r.distinct) in
    rw (some_list, e, more) (dll_detach-same s i x p xs out r)

-- The task `x` runs on the core, before the idle task, and the tasks `xs` are runnable.
pub record Resumed (k k' : Kernel) (x : ℕ) (xs : List ℕ) : Type 0 where
  pub core : Ring k'.tasks.links x (k.running ∷ [])
  pub runnable : IsList k'.tasks.links k'.runnable xs
  pub current : k'.running ≡ x
  pub saved : k'.tasks.r k.running ≡ k.regs.r
  pub returns : k'.tasks.lr k.running ≡ k.regs.lr
  pub status : k'.tasks.spsr k.running ≡ k.regs.spsr

-- A yield of the idle task that is alone on its core, with interrupts enabled and no task moving,
-- where tasks are runnable: the first of those is resumed, with the idle task behind it on the
-- core, the others stay runnable in their order, and of the idle task r0 to r12, the address that
-- it returns to and its status are saved.
pub idle_task_yield-Resumed :
    (fuel : ℕ) (k : Kernel) (x : ℕ) (xs : List ℕ)
    → k.running ≡ k.idle
    → k.running ≢ 0
    → IsAlone k.tasks.links k.running
    → k.regs.spsr / 0x80 % 2 ≡ 0
    → k.tasks.running k.running ≡ true
    → k.regs.lr ≢ 0
    → k.moving ≡ 0
    → IsList k.tasks.links k.runnable (x ∷ xs)
    → has k.running (x ∷ xs) ≡ false
    → (k' : Kernel) × (idle_task_yield fuel k ≡ ok x k') × Resumed k k' x xs
unfolding idle_task_yield find_task_for_this_core take_runnable resume_found save_task_state
idle_task_yield-Resumed fuel k x xs idle nz alone irq runs lr none_move is out =
    let t : ℕ = k.running in
    let s : Links = k.tasks.links in
    let d = detach_head k.runnable s in
    let (got, free, rest) = detach_head-IsList s k.runnable x xs is in
    let same = detach_head-same s k.runnable x t xs is out in
    let here : Ring d.0 t [] =
      Ring-alone d.0 t (ground (arith, same, alone), ground (arith, same, alone)) in
    let a : (t == k.idle) ≡ true = ground (arith, idle) in
    let b : (s.next t == t) ≡ true = ground (arith, alone) in
    let c : (k.regs.spsr / 0x80 % 2 == 1) ≡ false = ground (arith, irq) in
    let e : (k.regs.lr == 0) ≡ false = ground (arith, lr) in
    let f : (k.moving == 0) ≡ true = ground (arith, none_move) in
    let g : (k.runnable == 0) ≡ false = ground (arith, is) in
    let h : (x == 0) ≡ false = ground (arith, is) in
    let some_list : (t == 0) ≡ false = ground (arith, nz) in
    let l = dll_attach x t d.0 in
    let new : has x (t ∷ []) ≡ false = ground (arith, out) in
    let put =
      dll_attach-IsList d.0 x t (t ∷ []) (ground (arith, h)) new free
        (refl, ground (arith, nz), here) in
    (
      record k {
        running = l.1;
        runnable = d.1;
        tasks = record (k.tasks) {
          links = l.0;
          running = update k.tasks.running t false;
          r = update k.tasks.r t k.regs.r;
          lr = update k.tasks.lr t k.regs.lr;
          spsr = update k.tasks.spsr t k.regs.spsr;
        };
      },
      simp (a, b, c, runs, e, f, g, got, h),
      record {
        core = put.2;
        runnable =
            IsList-frame d.0 l.0 d.1 xs
              (λ p m.
                dll_attach-same d.0 x t p (t ∷ []) (ground (arith, m, is.2.distinct.0))
                  (ground (arith, m, out)) (refl, ground (arith, nz), here))
              rest;
        current = put.0;
        saved = ground arith;
        returns = ground arith;
        status = ground arith;
      },
    )
