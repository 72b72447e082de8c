-- ===== src/Locks.antt =====
-- OSTask/locks.c: locks in words of memory. A word is 0, or the handle of the owner, with bit 0 set
-- if other tasks want the lock.
pub mod Claim
pub mod Release
use simple_as_pi.Common.{
  ℕ, zero, suc, ◌+◌, ◌-◌, ◌%◌, ◌/◌, Bool, true, false, not, ◌&&◌, ◌==◌, if◌then◌else◌, update,
}
use simple_as_pi.Dll.{dll_attach, dll_detach}
use simple_as_pi.Tasks.{Tasks, set_r, with_links}
use simple_as_pi.Kernel.{
  Kernel, Run, ok, panic, waits, M, pure, ◌>>=◌, ◌>>◌, check, modify, put, ostask_handle,
  lock_ostask, release_ostask, stop_running_task, make_runnable,
}

-- OSTaskLock: the bit-fields of a lock's word.
abbrev pub wanted : ℕ → ℕ
wanted raw = raw % 2

abbrev pub half_handle : ℕ → ℕ
half_handle raw = raw / 2

abbrev pub set_wanted : ℕ → ℕ
set_wanted raw = raw - raw % 2 + 1

abbrev pub write_word : ℕ → ℕ → M (Unit {0})
write_word p v = modify λ k. record k { words = update k.words p v }

-- The task joins the blocked tasks at the tail: attach at the head, then step over it.
unfoldable pub block : ℕ → M (Unit {0})
block task = modify λ k.
    let t = dll_attach task k.blocked k.tasks.links in
    record k { blocked = t.0.next t.1; tasks = with_links t.0 k.tasks }

unfoldable pub lock_claim : M ℕ
lock_claim k =
    let running = k.running in
    let handle = ostask_handle running in
    let lock = k.regs.r 0 in
    (do
      reclaimed ← lock_ostask
      check (not reclaimed)
      next ←
          if k.words lock == 0
          then (do write_word lock handle; put 0 0; pure 0)
          else if half_handle (k.words lock) == half_handle handle
          then (do put 0 1; pure 0)
          else (do
            next ← stop_running_task
            (λ k. check (k.tasks.r running 0 == lock) k)
            block running
            (if wanted (k.words lock) == 0
                then write_word lock (set_wanted (k.words lock))
                else pure tt)
            pure next)
      release_ostask
      pure next)
      k

-- `while (t->regs.r[0] != r0 && t != shared.ostask.blocked) t = t->next;`
unfoldable pub find_waiter : ℕ → ℕ → ℕ → ℕ → Tasks → ℕ
find_waiter zero r0 blocked t s = t
find_waiter (suc fuel) r0 blocked t s =
    let rest = find_waiter fuel r0 blocked (s.links.next t) s in
    if not (s.r t 0 == r0) && not (t == blocked) then rest else t

-- The `do` loop: is another task waiting for the lock? `raw` is the new owner's word.
unfoldable pub wanted_loop : ℕ → ℕ → ℕ → ℕ → ℕ → Tasks → ℕ
wanted_loop zero r0 blocked t raw s = raw
wanted_loop (suc fuel) r0 blocked t raw s =
    let raw' = if s.r t 0 == r0 then set_wanted raw else raw in
    let rest = wanted_loop fuel r0 blocked (s.links.next t) raw' s in
    if not (s.links.next t == blocked) && wanted raw' == 0 then rest else raw'

-- The part of TaskOpLockRelease that hands the lock to the task `resume`.
unfoldable pub hand_over : ℕ → ℕ → ℕ → M (Unit {0})
unfolding wanted_loop
hand_over fuel r0 resume k =
    let next = k.tasks.links.next resume in
    let at_head = resume == k.blocked in
    let alone = at_head && next == k.blocked in
    let t : ℕ = if alone then 0 else next in
    let blocked : ℕ = if alone then 0 else if at_head then next else k.blocked in
    let s = with_links (dll_detach resume k.tasks.links) k.tasks in
    let raw = s.r resume 1 in
    let word : ℕ = if t == 0 then raw else wanted_loop fuel r0 blocked t raw s in
    (do
      modify (λ k. record k {
        blocked = blocked;
        tasks = set_r resume 0 0 s;
        words = update k.words r0 word;
      })
      make_runnable resume)
      k

unfoldable pub lock_release : ℕ → M ℕ
unfolding find_waiter hand_over
lock_release fuel k =
    let r0 = k.regs.r 0 in
    let t = find_waiter fuel r0 k.blocked k.blocked k.tasks in
    (do
      check (k.words r0 - k.words r0 % 2 == ostask_handle k.running)
      reclaimed ← lock_ostask
      check (not reclaimed)
      (if k.blocked == 0
          then write_word r0 0
          else if k.tasks.r t 0 == r0
          then hand_over fuel r0 t
          else pure tt)
      release_ostask
      pure 0)
      k
