-- ===== src/Locks/Claim.antt =====
-- TaskOpLockClaim.
use simple_as_pi.Common.{
  ℕ, ◌+◌, ◌≡◌, refl, ◌≢◌, true, false, List, [], ◌∷◌, ◌++◌, arith, ◌==◌, update, has, if◌then◌else◌,
  has-append, inl, inr, Bool-cases, not-left, Distinct, Distinct-apart,
}
use mathlib.Core.Path.{fun_ext}
use simple_as_pi.Dll.{Links, dll_attach, dll_detach}
use simple_as_pi.Dll.Ring.{Ring, IsList, Ring-frame, Ring-rotate}
use simple_as_pi.Dll.Attach.{
  IsAlone, Ring-alone, attach_before-Ring, dll_detach-Ring, dll_detach-same, dll_attach-same,
}
use simple_as_pi.Dll.Lists.{IsList-frame}
use simple_as_pi.Tasks.{with_links}
use simple_as_pi.Kernel.{Kernel, ok, ostask_handle, lock_ostask, release_ostask, set_reg}
use simple_as_pi.Kernel.Running.{CanStop, stopped, stop_running_task-stopped}
use simple_as_pi.Locks.{lock_claim, half_handle, set_wanted, wanted, block}

-- A claim that need not wait, with the lock of the kernel free: an idle lock becomes the caller's,
-- with 0 in r0; a lock that is the caller's already stays as it is, with 1 in r0. The caller goes
-- on, and nothing else changes.
pub lock_claim_at_once :
    (k : Kernel)
    → k.lock ≡ 0
    → (k.words (k.regs.r 0) ≡ 0
        → lock_claim k
          ≡ ok 0 (record k {
            words = update k.words (k.regs.r 0) (ostask_handle k.running);
            regs = set_reg 0 0 k.regs;
            lock = 0;
          }))
      × (k.words (k.regs.r 0) ≢ 0
          → half_handle (k.words (k.regs.r 0)) ≡ half_handle (ostask_handle k.running)
          → lock_claim k ≡ ok 0 (record k { regs = set_reg 0 1 k.regs; lock = 0 }))
unfolding lock_claim lock_ostask release_ostask
lock_claim_at_once k free = (
  λ idle. simp (free, idle),
  λ owned mine.
      let a : (k.words (k.regs.r 0) == 0) ≡ false = ground arith in
      let b : (half_handle (k.words (k.regs.r 0)) == half_handle (ostask_handle k.running)) ≡ true =
        ground arith in
      simp (free, a, b),
)

-- The kernel after the running task has claimed a lock that another task owns.
abbrev blocked_links : Kernel → ℕ → Links × ℕ
blocked_links k n = dll_attach k.running k.blocked (stopped k n).tasks.links

abbrev waiting : Kernel → ℕ → Kernel
waiting k n = record (stopped k n) {
  lock = 0;
  blocked = (blocked_links k n).0.next (blocked_links k n).1;
  tasks = with_links (blocked_links k n).0 (stopped k n).tasks;
  words = update k.words (k.regs.r 0) (
      if wanted (k.words (k.regs.r 0)) == 0
      then set_wanted (k.words (k.regs.r 0))
      else k.words (k.regs.r 0));
}

update_self : (f : ℕ → ℕ) (p : ℕ) → update f p (f p) ≡ f
update_self f p = fun_ext λ q. ground arith

lock_claim-waiting :
    (k : Kernel) (n : ℕ) (rest : List ℕ)
    → k.lock ≡ 0
    → CanStop k n rest
    → k.words (k.regs.r 0) ≢ 0
    → half_handle (k.words (k.regs.r 0)) ≢ half_handle (ostask_handle k.running)
    → lock_claim k ≡ ok n (waiting k n)
unfolding lock_claim lock_ostask release_ostask block
lock_claim-waiting k n rest free c owned other =
    let a : (k.words (k.regs.r 0) == 0) ≡ false = ground arith in
    let b : (half_handle (k.words (k.regs.r 0)) == half_handle (ostask_handle k.running)) ≡ false =
      ground arith in
    let same : (k.running == k.running) ≡ true = ground arith in
    let same' : (k.regs.r 0 == k.regs.r 0) ≡ true = ground arith in
    let locked : CanStop (record k { lock = k.core + 1 }) n rest = record {
      list = c.list;
      not_idle = c.not_idle;
      runs = c.runs;
      next_waits = c.next_waits;
      returns = c.returns;
    } in
    let st = stop_running_task-stopped (record k { lock = k.core + 1 }) n rest locked in
    elim (Bool-cases (wanted (k.words (k.regs.r 0)) == 0)) [
      | inl first ↦ simp (free, a, b, st, same, same', first)
      | inr already ↦
          simp (free, a, b, st, same, same', already) (rw (update_self k.words (k.regs.r 0)))
    ]

-- What a claim that has to wait leaves behind.
pub record Waits (k k' : Kernel) (n : ℕ) (rest xs : List ℕ) : Type 0 where
  pub blocked : IsList k'.tasks.links k'.blocked (xs ++ k.running ∷ [])
  pub running : Ring k'.tasks.links n rest
  pub current : k'.running ≡ n
  pub word : k'.words (k.regs.r 0) ≡ set_wanted (k.words (k.regs.r 0))
  pub lock_in_r0 : k'.tasks.r k.running 0 ≡ k.regs.r 0

block-IsList :
    (s : Links) (i l : ℕ) (xs : List ℕ)
    → i ≢ 0
    → has i xs ≡ false
    → IsAlone s i
    → IsList s l xs
    → IsList (dll_attach i l s).0 ((dll_attach i l s).0.next (dll_attach i l s).1) (xs ++ i ∷ [])
unfolding dll_attach
block-IsList s i l [] ne new alone is = rw is (alone.0, ground arith, Ring-alone s i alone)
block-IsList s i l (h ∷ xs) ne new alone (e, nz, r) =
    let some_list : (l == 0) ≡ false = ground arith in
    let q = attach_before-Ring s i h xs new r in
    rw (some_list, e)
      (ground (arith, q.trail), ground (arith, has-append 0 xs (i ∷ [])), Ring-rotate _ i h xs q)

-- A task that can stop and claims a lock whose word is not 0 and names another owner, while no
-- core holds shared.ostask.lock: it becomes the last of the blocked tasks, its r0 keeps the
-- address of the lock, the lock is marked as wanted, and the next task of the core runs.
pub lock_claim-Waits :
    (k : Kernel) (n : ℕ) (rest xs : List ℕ)
    → k.lock ≡ 0
    → CanStop k n rest
    → k.running ≢ 0
    → IsList k.tasks.links k.blocked xs
    → Distinct ((k.running ∷ n ∷ rest) ++ xs)
    → k.words (k.regs.r 0) ≢ 0
    → half_handle (k.words (k.regs.r 0)) ≢ half_handle (ostask_handle k.running)
    → (k' : Kernel) × (lock_claim k ≡ ok n k') × Waits k k' n rest xs
lock_claim-Waits k n rest xs free c ne is d owned other =
    let t : ℕ = k.running in
    let s : Links = k.tasks.links in
    let (q, alone) = dll_detach-Ring s t n rest c.list in
    let out : has t xs ≡ false = Distinct-apart t (t ∷ n ∷ rest) xs d (ground arith) in
    let is' =
      IsList-frame s (dll_detach t s) k.blocked xs
        (λ p m. dll_detach-same s t n p rest (not-left p (t ∷ n ∷ rest) xs d m) c.list) is in
    (
      waiting k n,
      lock_claim-waiting k n rest free c owned other,
      record {
        blocked = block-IsList (dll_detach t s) t k.blocked xs ne out alone is';
        running =
            Ring-frame (dll_detach t s) _ n rest
              (λ p m.
                dll_attach-same (dll_detach t s) t k.blocked p xs
                  (ground (arith, c.list.distinct.0))
                  (Distinct-apart p (t ∷ n ∷ rest) xs d (ground arith)) is')
              q;
        current = refl;
        word = ground arith;
        lock_in_r0 = ground arith;
      },
    )
