-- ===== src/Locks/Release.antt =====
-- TaskOpLockRelease.
use simple_as_pi.Common.{
  ℕ, zero, suc, ◌-◌, ◌%◌, ◌<◌, ◌≤◌, ◌≡◌, refl, ap, sym, ◌≢◌, Bool, true, false, ◌||◌, List, [], ◌∷◌,
  ◌++◌, arith, ◌==◌, update, has, if◌then◌else◌, inl, inr, Bool-cases, not-left, Distinct,
  Distinct-apart, last, length,
}
use simple_as_pi.Dll.{Links, dll_detach}
use simple_as_pi.Dll.Ring.{IsList, Trail}
use simple_as_pi.Dll.Attach.{IsAlone, dll_detach-Ring, dll_detach-same}
use simple_as_pi.Dll.Lists.{IsList-frame}
use simple_as_pi.Mpsafe.{insert_tail}
use simple_as_pi.Mpsafe.Fifo.{insert_tail-IsList, insert_tail-same}
use simple_as_pi.Tasks.{Tasks, with_links, set_r}
use simple_as_pi.Kernel.{
  Kernel, Run, ok, panic, ostask_handle, lock_ostask, release_ostask, make_runnable,
}
use simple_as_pi.Locks.{lock_release, find_waiter, wanted_loop, hand_over, half_handle, set_wanted}

-- The caller owns the lock in the word that r0 points to.
abbrev pub IsOwner : Kernel → Type 0
IsOwner k = k.words (k.regs.r 0) - k.words (k.regs.r 0) % 2 ≡ ostask_handle k.running

-- The search for a waiter never leaves the head of the blocked tasks.
find_waiter-head : (fuel r0 b : ℕ) (s : Tasks) → find_waiter fuel r0 b b s ≡ b
unfolding find_waiter
find_waiter-head zero r0 b s = refl
find_waiter-head (suc fuel) r0 b s = ground arith

-- Does a task of the list wait for the lock at `p`?
abbrev pub wants : Tasks → ℕ → List ℕ → Bool
wants s p [] = false
wants s p (x ∷ xs) = (s.r x 0 == p) || wants s p xs

wanted_loop-wants :
    (fuel p head t raw : ℕ) (xs : List ℕ) (s : Tasks)
    → length xs < fuel
    → Trail s.links t xs
    → s.links.next (last t xs) ≡ head
    → has head xs ≡ false
    → wanted_loop fuel p head t raw s ≡ (if wants s p (t ∷ xs) then set_wanted raw else raw)
unfolding wanted_loop
wanted_loop-wants zero p head t raw xs s f tr e out = absurd (omega arith)
wanted_loop-wants (suc fuel) p head t raw [] s f tr e out = ground (arith, e)
wanted_loop-wants (suc fuel) p head t raw (x ∷ xs) s f tr e out =
    let ih =
      λ (raw : ℕ). wanted_loop-wants fuel p head x raw xs s (omega arith) tr.2 e (ground arith) in
    elim (Bool-cases (s.r t 0 == p)) [
      | inl hit ↦ rw (tr.0, hit) (ground arith)
      | inr miss ↦ rw (tr.0, miss) (ground (arith, ih raw, out))
    ]

-- A lock that no task is blocked for becomes idle, if no task is blocked at all.
pub lock_release_unwanted :
    (fuel : ℕ) (k : Kernel)
    → k.lock ≡ 0
    → IsOwner k
    → k.blocked ≡ 0
    → lock_release fuel k ≡ ok 0 (record k { words = update k.words (k.regs.r 0) 0; lock = 0 })
unfolding lock_release lock_ostask release_ostask
lock_release_unwanted fuel k free own none_blocked =
    let a : (k.words (k.regs.r 0) - k.words (k.regs.r 0) % 2 == ostask_handle k.running) ≡ true =
      ground (arith, own) in
    simp (free, a, none_blocked)

-- A release by the owner of a lock, where the first of the blocked tasks waits for another lock:
-- nothing changes, so the lock stays the caller's and the tasks that wait for it stay blocked.
pub lock_release_ignored :
    (fuel : ℕ) (k : Kernel)
    → k.lock ≡ 0
    → IsOwner k
    → k.blocked ≢ 0
    → k.tasks.r k.blocked 0 ≢ k.regs.r 0
    → lock_release fuel k ≡ ok 0 k
unfolding lock_release lock_ostask release_ostask
lock_release_ignored fuel k free own some_blocked other =
    let a : (k.words (k.regs.r 0) - k.words (k.regs.r 0) % 2 == ostask_handle k.running) ≡ true =
      ground (arith, own) in
    let b : (k.blocked == 0) ≡ false = ground arith in
    let c : (k.tasks.r k.blocked 0 == k.regs.r 0) ≡ false = ground arith in
    let result : Kernel → Run ℕ = ok 0 in
    let back : record k { lock = 0 } ≡ k = λ i. record k { lock = sym free i } in
    simp (free, a, find_waiter-head, b, c) (ap result back)

-- The kernel after the lock has passed to the first of the blocked tasks, whose word is `word`.
abbrev handed_links : Kernel → Links × ℕ
handed_links k = insert_tail k.blocked k.runnable (dll_detach k.blocked k.tasks.links)

abbrev handed : Kernel → ℕ → ℕ → Kernel
handed k blocked word = record k {
  lock = 0;
  blocked = blocked;
  words = update k.words (k.regs.r 0) word;
  runnable = (handed_links k).1;
  tasks = with_links (handed_links k).0 (set_r k.blocked 0 0 k.tasks);
}

abbrev new_word : Kernel → List ℕ → ℕ
new_word k bs =
    let raw = k.tasks.r k.blocked 1 in if wants k.tasks (k.regs.r 0) bs then set_wanted raw else raw

abbrev head_of : List ℕ → ℕ
head_of [] = 0
head_of (x ∷ xs) = x

lock_release-handed :
    (fuel : ℕ) (k : Kernel) (bs : List ℕ)
    → length bs ≤ fuel
    → k.lock ≡ 0
    → IsOwner k
    → IsList k.tasks.links k.blocked (k.blocked ∷ bs)
    → k.tasks.r k.blocked 0 ≡ k.regs.r 0
    → lock_release fuel k ≡ ok 0 (handed k (head_of bs) (new_word k bs))
unfolding lock_release lock_ostask release_ostask hand_over make_runnable
lock_release-handed fuel k [] f free own is waits =
    let a : (k.words (k.regs.r 0) - k.words (k.regs.r 0) % 2 == ostask_handle k.running) ≡ true =
      ground (arith, own) in
    let b : (k.blocked == 0) ≡ false = ground (arith, is) in
    let c : (k.tasks.r k.blocked 0 == k.regs.r 0) ≡ true = ground (arith, waits) in
    let same : (k.blocked == k.blocked) ≡ true = ground arith in
    simp (free, a, find_waiter-head, b, c, is.2.close, same)
lock_release-handed fuel k (x ∷ xs) f free own is waits =
    let a : (k.words (k.regs.r 0) - k.words (k.regs.r 0) % 2 == ostask_handle k.running) ≡ true =
      ground (arith, own) in
    let b : (k.blocked == 0) ≡ false = ground (arith, is) in
    let c : (k.tasks.r k.blocked 0 == k.regs.r 0) ≡ true = ground (arith, waits) in
    let same : (k.blocked == k.blocked) ≡ true = ground arith in
    let ne : (x == k.blocked) ≡ false = ground (arith, is.2.distinct.0) in
    let z : (x == 0) ≡ false = ground (arith, is) in
    let q = (dll_detach-Ring k.tasks.links k.blocked x xs is.2).0 in
    let w =
      wanted_loop-wants fuel (k.regs.r 0) x x (k.tasks.r k.blocked 1) xs
        (with_links (dll_detach k.blocked k.tasks.links) k.tasks) (omega arith) q.trail q.close
        q.distinct.0 in
    simp (free, a, find_waiter-head, b, c, is.2.trail.0, same, ne, z, w)

detach_first : (s : Links) (b : ℕ) (bs : List ℕ) → IsList s b (b ∷ bs) → record {
  rest : IsList (dll_detach b s) (head_of bs) bs;
  alone : IsAlone (dll_detach b s) b;
  same :
      (p : ℕ)
      → has p (b ∷ bs) ≡ false
      → ((dll_detach b s).next p ≡ s.next p) × ((dll_detach b s).prev p ≡ s.prev p);
}
unfolding dll_detach
detach_first s b [] (e, nz, r) = record {
  rest = refl;
  alone = (ground arith, ground arith);
  same = λ p m. (ground (arith, r.back), ground (arith, r.close));
}
detach_first s b (x ∷ xs) (e, nz, r) =
    let (q, alone) = dll_detach-Ring s b x xs r in
    record {
      rest = (refl, ground arith, q);
      alone = alone;
      same = λ p m. dll_detach-same s b x p xs m r;
    }

-- What a release leaves behind that hands the lock on.
pub record HandedOver (k k' : Kernel) (bs ys : List ℕ) : Type 0 where
  pub blocked : IsList k'.tasks.links k'.blocked bs
  pub runnable : IsList k'.tasks.links k'.runnable (ys ++ k.blocked ∷ [])
  pub word : k'.words (k.regs.r 0) ≡ new_word k bs
  pub answer : k'.tasks.r k.blocked 0 ≡ 0
  pub current : k'.running ≡ k.running

-- A release by the owner of a lock, where the first of the blocked tasks waits for that lock: that
-- task becomes the last of the runnable tasks, with 0 in r0, the others stay blocked in their
-- order, and the word becomes the task's r1, with bit 0 set if another blocked task waits for the
-- lock. The caller goes on.
pub lock_release-HandedOver :
    (fuel : ℕ) (k : Kernel) (bs ys : List ℕ)
    → length bs ≤ fuel
    → k.lock ≡ 0
    → IsOwner k
    → IsList k.tasks.links k.blocked (k.blocked ∷ bs)
    → IsList k.tasks.links k.runnable ys
    → Distinct ((k.blocked ∷ bs) ++ ys)
    → k.tasks.r k.blocked 0 ≡ k.regs.r 0
    → (k' : Kernel) × (lock_release fuel k ≡ ok 0 k') × HandedOver k k' bs ys
lock_release-HandedOver fuel k bs ys f free own is js d waits =
    let b : ℕ = k.blocked in
    let s : Links = k.tasks.links in
    let t = detach_first s b bs is in
    let js' =
      IsList-frame s (dll_detach b s) k.runnable ys (λ p m. t.same p (not-left p (b ∷ bs) ys d m))
        js in
    let out : has b ys ≡ false = Distinct-apart b (b ∷ bs) ys d (ground arith) in
    (
      handed k (head_of bs) (new_word k bs),
      lock_release-handed fuel k bs f free own is waits,
      record {
        blocked =
            IsList-frame (dll_detach b s) _ (head_of bs) bs
              (λ p m.
                insert_tail-same (dll_detach b s) b k.runnable p ys
                  (ground (arith, is.2.distinct.0)) (Distinct-apart p (b ∷ bs) ys d (ground arith))
                  js')
              t.rest;
        runnable =
            insert_tail-IsList (dll_detach b s) b k.runnable ys (ground (arith, is.1)) out t.alone
              js';
        word = ground arith;
        answer = ground arith;
        current = refl;
      },
    )

-- Where a release has handed a lock to a task whose r1 is not its own handle, and that task later
-- runs while the word is the same but for bit 0: its release of the lock stops in PANIC.
pub hand_over_lost :
    (fuel : ℕ) (k k' m : Kernel) (bs ys : List ℕ)
    → HandedOver k k' bs ys
    → half_handle (k.tasks.r k.blocked 1) ≢ half_handle (ostask_handle k.blocked)
    → m.running ≡ k.blocked
    → half_handle (m.words (m.regs.r 0)) ≡ half_handle (k'.words (k.regs.r 0))
    → lock_release fuel m ≡ panic
unfolding lock_release
hand_over_lost fuel k k' m bs ys h other runs still =
    let o : half_handle (ostask_handle k.blocked) ≡ half_handle (ostask_handle m.running) =
      ap (λ t. half_handle (ostask_handle t)) (sym runs) in
    let kept : half_handle (k'.words (k.regs.r 0)) ≡ half_handle (k.tasks.r k.blocked 1) =
      ground (arith, h.word) in
    let a : (m.words (m.regs.r 0) - m.words (m.regs.r 0) % 2 == ostask_handle m.running) ≡ false =
      ground (arith, other, o, kept, still) in
    rw a
