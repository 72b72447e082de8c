-- ===== src/Pipes/Flow.antt =====
-- PipeSpaceFilled and PipeDataConsumed: data moves, and an end that waits for it wakes.
use simple_as_pi.Common.{
  ℕ, ◌+◌, ◌-◌, ◌≤◌, ◌<◌, ◌≡◌, refl, ◌≢◌, ◌⊎◌, Bool, true, false, not, ◌&&◌, inl, inr, Bool-cases,
  List, [], ◌∷◌, ◌++◌, arith, ◌==◌, ltb, leb, update, has,
}
use simple_as_pi.Dll.Ring.{IsList}
use simple_as_pi.Dll.Attach.{IsAlone}
use simple_as_pi.Mpsafe.{insert_tail}
use simple_as_pi.Mpsafe.Fifo.{insert_tail-IsList}
use simple_as_pi.Tasks.{set_r, with_links}
use simple_as_pi.Pipe.{Pipe, data_in_pipe, space_in_pipe, read_location, write_location}
use simple_as_pi.Pipe.Amounts.{IsSound, IsPatient, fill_pipe, fill_pipe_amounts}
use simple_as_pi.Kernel.{Kernel, Run, ok, make_runnable, set_reg}
use simple_as_pi.Pipes.{space_filled, wake_receiver}

-- The task that an end of a pipe waits with, not the caller.
abbrev pub IsAttached : Kernel → Pipe → Type 0
IsAttached k v = v.receiver_waiting_for ≢ 0 → (v.receiver ≢ 0) × (v.receiver ≢ k.running)

abbrev pub wakes : ℕ → ℕ → Bool
wakes waiting amount = ltb 0 waiting && leb waiting amount

-- The kernel after the caller has filled `amount` bytes of space, and nobody wakes.
abbrev filled : Kernel → ℕ → ℕ → Kernel
filled k p amount =
    let v = k.pipe p in
    let v' = fill_pipe amount v in
    record k {
      pipe = update k.pipe p v';
      regs = set_reg 2 (write_location v') (set_reg 1 (space_in_pipe v - amount) k.regs);
    }

-- The kernel `k` after a waiting task wakes with `amount` bytes at `location`.
abbrev pub woken : Kernel → ℕ → Pipe → ℕ → ℕ → ℕ → Kernel
woken k p v task amount location =
    let s = set_r task 2 location (set_r task 1 amount k.tasks) in
    let t = insert_tail task k.runnable s.links in
    record k { pipe = update k.pipe p v; runnable = t.1; tasks = with_links t.0 s }

space_filled_quiet :
    (k : Kernel) (p : ℕ)
    → (k.pipe p).sender ≡ k.running
    → k.regs.r 1 ≤ space_in_pipe (k.pipe p)
    → IsAttached k (k.pipe p)
    → wakes (k.pipe p).receiver_waiting_for (data_in_pipe (fill_pipe (k.regs.r 1) (k.pipe p)))
      ≡ false
    → space_filled p k ≡ ok 0 (filled k p (k.regs.r 1))
unfolding space_filled wake_receiver
space_filled_quiet k p own room at quiet =
    let a : ((k.pipe p).sender == k.running) ≡ true = ground (arith, own) in
    let b : ltb (space_in_pipe (k.pipe p)) (k.regs.r 1) ≡ false = ground arith in
    let c : ((k.pipe p).receiver == 0 && not ((k.pipe p).receiver_waiting_for == 0)) ≡ false =
      ground arith in
    let d : ((k.pipe p).receiver == k.running && not ((k.pipe p).receiver_waiting_for == 0))
        ≡ false =
      ground arith in
    let same : (p == p) ≡ true = ground arith in simp (a, b, c, d, same, quiet)

space_filled_wakes :
    (k : Kernel) (p : ℕ)
    → (k.pipe p).sender ≡ k.running
    → k.regs.r 1 ≤ space_in_pipe (k.pipe p)
    → IsAttached k (k.pipe p)
    → wakes (k.pipe p).receiver_waiting_for (data_in_pipe (fill_pipe (k.regs.r 1) (k.pipe p)))
      ≡ true
    → let v' = fill_pipe (k.regs.r 1) (k.pipe p) in
      space_filled p k
      ≡ ok 0 (
          woken
            (filled k p (k.regs.r 1))
            p
            (record v' { receiver_waiting_for = 0 })
            v'.receiver
            (data_in_pipe v')
            (read_location v'))
unfolding space_filled wake_receiver make_runnable data_in_pipe read_location
space_filled_wakes k p own room at wake =
    let a : ((k.pipe p).sender == k.running) ≡ true = ground (arith, own) in
    let b : ltb (space_in_pipe (k.pipe p)) (k.regs.r 1) ≡ false = ground arith in
    let c : ((k.pipe p).receiver == 0 && not ((k.pipe p).receiver_waiting_for == 0)) ≡ false =
      ground arith in
    let d : ((k.pipe p).receiver == k.running && not ((k.pipe p).receiver_waiting_for == 0))
        ≡ false =
      ground arith in
    let same : (p == p) ≡ true = ground arith in simp (a, b, c, d, same, wake)

-- What a call on the pipe `p` comes to when data has moved: there are `bytes` of data in it, the pipe
-- stays sound, no end waits for what is there already, and other pipes are as before. The `task`
-- at the other end, if it waits, still waits if there is less than it waits for; if there is as
-- much, it is the last of the runnable tasks, with what there is in r1 and r2.
pub record Flowed (k : Kernel) (p bytes task : ℕ) (waiting amount location : Pipe → ℕ) (rs : List ℕ)
    (o : Run ℕ) : Type 0 where
  pub after : Kernel
  pub ends : o ≡ ok 0 after
  pub amounts : data_in_pipe (after.pipe p) ≡ bytes
  pub sound : IsSound (after.pipe p)
  pub patient : IsPatient (after.pipe p)
  pub others : (q : ℕ) → q ≢ p → after.pipe q ≡ k.pipe q
  pub other_end :
      ((waiting (k.pipe p) ≢ 0 → amount (after.pipe p) < waiting (k.pipe p))
        × (waiting (after.pipe p) ≡ waiting (k.pipe p))
        × (after.tasks ≡ k.tasks)
        × IsList after.tasks.links after.runnable rs)
      ⊎ ((waiting (after.pipe p) ≡ 0)
          × (waiting (k.pipe p) ≢ 0)
          × (waiting (k.pipe p) ≤ amount (after.pipe p))
          × IsList after.tasks.links after.runnable (rs ++ task ∷ [])
          × (after.tasks.r task 1 ≡ amount (after.pipe p))
          × (after.tasks.r task 2 ≡ location (after.pipe p)))

-- PipeSpaceFilled by the sender of a sound pipe, with no more bytes than there is space for, where
-- each blocked end waits for more than there is and a waiting receiver is a task that is in no
-- list: the call succeeds, the data grows by the bytes, the pipe stays sound, no end is left
-- waiting for what is there, other pipes stay as they are, and a receiver that waits for more than
-- there is now waits as before, with no task changed, and one that waits for as much or less waits
-- no longer and is the last of the runnable tasks, with the amount and the read location in r1 and
-- r2.
pub space_filled-Flowed :
    (k : Kernel) (p : ℕ) (rs : List ℕ)
    → IsSound (k.pipe p)
    → IsPatient (k.pipe p)
    → (k.pipe p).sender ≡ k.running
    → k.regs.r 1 ≤ space_in_pipe (k.pipe p)
    → IsAttached k (k.pipe p)
    → IsList k.tasks.links k.runnable rs
    → ((k.pipe p).receiver_waiting_for ≢ 0
        → (has (k.pipe p).receiver rs ≡ false) × IsAlone k.tasks.links (k.pipe p).receiver)
    → Flowed k p
        (data_in_pipe (k.pipe p) + k.regs.r 1)
        (k.pipe p).receiver
        (λ v. v.receiver_waiting_for)
        data_in_pipe
        read_location
        rs
        (space_filled p k)
unfolding data_in_pipe space_in_pipe read_location
space_filled-Flowed k p rs s pat own room at is idle =
    let v = k.pipe p in
    let v' = fill_pipe (k.regs.r 1) v in
    let (d, sp, s') = fill_pipe_amounts (k.regs.r 1) v s room in
    let same : (p == p) ≡ true = ground arith in
    elim (Bool-cases (wakes v.receiver_waiting_for (data_in_pipe v'))) [
      | inl wake ↦
          let nz : v.receiver_waiting_for ≢ 0 = ground (arith, wake) in
          record {
            after =
                woken (filled k p (k.regs.r 1)) p (record v' { receiver_waiting_for = 0 })
                  v'.receiver (data_in_pipe v') (read_location v');
            ends = space_filled_wakes k p own room at wake;
            amounts = simp (same, d);
            sound = rw same (record {
              fits = s'.fits;
              size_word = s'.size_word;
              write_word = s'.write_word;
              read_word = s'.read_word;
            });
            patient = rw same (record {
              receiver = λ n. ground arith;
              sender = λ n. omega (arith, pat.sender n, sp);
            });
            others = λ q ne. ground (arith, ne);
            other_end = rw same (
                inr (
                  refl,
                  nz,
                  ground (arith, wake),
                  insert_tail-IsList k.tasks.links v.receiver k.runnable rs (at nz).0 (idle nz).0
                      (idle nz).1 is,
                  ground arith,
                  ground arith,
                ));
          }
      | inr quiet ↦ record {
        after = filled k p (k.regs.r 1);
        ends = space_filled_quiet k p own room at quiet;
        amounts = simp (same, d);
        sound = rw same s';
        patient = rw same (record {
          receiver = λ n. ground (arith, quiet);
          sender = λ n. omega (arith, pat.sender n, sp);
        });
        others = λ q ne. ground (arith, ne);
        other_end = rw same (inl (λ n. ground (arith, quiet), refl, refl, is));
      }
    ]
