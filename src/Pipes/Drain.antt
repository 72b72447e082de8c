-- ===== src/Pipes/Drain.antt =====
-- PipeDataConsumed: space is given back, and a sender that waits for it wakes.
use simple_as_pi.Common.{
  ℕ, ◌-◌, ◌≤◌, ◌≡◌, refl, ◌≢◌, true, false, inl, inr, Bool-cases, List, arith, ◌==◌, ltb, update,
  has,
}
use simple_as_pi.Dll.Ring.{IsList}
use simple_as_pi.Dll.Attach.{IsAlone}
use simple_as_pi.Mpsafe.Fifo.{insert_tail-IsList}
use simple_as_pi.Pipe.{data_in_pipe, space_in_pipe, read_location, write_location}
use simple_as_pi.Pipe.Amounts.{IsSound, IsPatient, drain_pipe, drain_pipe_amounts}
use simple_as_pi.Kernel.{Kernel, ok, make_runnable, set_reg}
use simple_as_pi.Pipes.{data_consumed, wake_sender}
use simple_as_pi.Pipes.Flow.{Flowed, wakes, woken}

-- The kernel after the caller has consumed `amount` bytes of data, and nobody wakes.
abbrev drained : Kernel → ℕ → ℕ → Kernel
drained k p amount =
    let v = k.pipe p in
    let v' = drain_pipe amount v in
    record k {
      pipe = update k.pipe p v';
      regs = set_reg 2 (read_location v') (set_reg 1 (data_in_pipe v - amount) k.regs);
    }

data_consumed_quiet :
    (k : Kernel) (p : ℕ)
    → (k.pipe p).receiver ≡ k.running
    → k.regs.r 1 ≤ data_in_pipe (k.pipe p)
    → wakes (k.pipe p).sender_waiting_for (space_in_pipe (drain_pipe (k.regs.r 1) (k.pipe p)))
      ≡ false
    → data_consumed p k ≡ ok 0 (drained k p (k.regs.r 1))
unfolding data_consumed wake_sender
data_consumed_quiet k p own room quiet =
    let a : ((k.pipe p).receiver == k.running) ≡ true = ground (arith, own) in
    let b : ltb (data_in_pipe (k.pipe p)) (k.regs.r 1) ≡ false = ground arith in
    let same : (p == p) ≡ true = ground arith in simp (a, b, same, quiet)

data_consumed_wakes :
    (k : Kernel) (p : ℕ)
    → (k.pipe p).receiver ≡ k.running
    → k.regs.r 1 ≤ data_in_pipe (k.pipe p)
    → wakes (k.pipe p).sender_waiting_for (space_in_pipe (drain_pipe (k.regs.r 1) (k.pipe p)))
      ≡ true
    → let v' = drain_pipe (k.regs.r 1) (k.pipe p) in
      data_consumed p k
      ≡ ok 0 (
          woken
            (drained k p (k.regs.r 1))
            p
            (record v' { sender_waiting_for = 0 })
            v'.sender
            (space_in_pipe v')
            (write_location v'))
unfolding data_consumed wake_sender make_runnable data_in_pipe space_in_pipe write_location
data_consumed_wakes k p own room wake =
    let a : ((k.pipe p).receiver == k.running) ≡ true = ground (arith, own) in
    let b : ltb (data_in_pipe (k.pipe p)) (k.regs.r 1) ≡ false = ground arith in
    let same : (p == p) ≡ true = ground arith in simp (a, b, same, wake)

-- PipeDataConsumed by the receiver of a sound pipe, with no more bytes than there is data, where
-- each blocked end waits for more than there is and a waiting sender is a task that is in no list:
-- the call succeeds, the data shrinks by the bytes, the pipe stays sound, no end is left waiting
-- for what is there, other pipes stay as they are, and a sender that waits for more than there is
-- now waits as before, with no task changed, and one that waits for as much or less waits no
-- longer and is the last of the runnable tasks, with the space and the write location in r1 and
-- r2.
pub data_consumed-Flowed :
    (k : Kernel) (p : ℕ) (rs : List ℕ)
    → IsSound (k.pipe p)
    → IsPatient (k.pipe p)
    → (k.pipe p).receiver ≡ k.running
    → k.regs.r 1 ≤ data_in_pipe (k.pipe p)
    → IsList k.tasks.links k.runnable rs
    → ((k.pipe p).sender_waiting_for ≢ 0
        → ((k.pipe p).sender ≢ 0)
          × (has (k.pipe p).sender rs ≡ false)
          × IsAlone k.tasks.links (k.pipe p).sender)
    → Flowed k p
        (data_in_pipe (k.pipe p) - k.regs.r 1)
        (k.pipe p).sender
        (λ v. v.sender_waiting_for)
        space_in_pipe
        write_location
        rs
        (data_consumed p k)
unfolding data_in_pipe space_in_pipe write_location
data_consumed-Flowed k p rs s pat own room is idle =
    let v = k.pipe p in
    let v' = drain_pipe (k.regs.r 1) v in
    let (d, sp, s') = drain_pipe_amounts (k.regs.r 1) v s room in
    let same : (p == p) ≡ true = ground arith in
    elim (Bool-cases (wakes v.sender_waiting_for (space_in_pipe v'))) [
      | inl wake ↦
          let nz : v.sender_waiting_for ≢ 0 = ground (arith, wake) in
          record {
            after =
                woken (drained k p (k.regs.r 1)) p (record v' { sender_waiting_for = 0 }) v'.sender
                  (space_in_pipe v') (write_location v');
            ends = data_consumed_wakes k p own room wake;
            amounts = simp (same, d);
            sound = rw same (record {
              fits = s'.fits;
              size_word = s'.size_word;
              write_word = s'.write_word;
              read_word = s'.read_word;
            });
            patient = rw same (record {
              receiver = λ n. omega (arith, pat.receiver n, d);
              sender = λ n. ground arith;
            });
            others = λ q ne. ground (arith, ne);
            other_end = rw same (
                inr (
                  refl,
                  nz,
                  ground (arith, wake),
                  insert_tail-IsList k.tasks.links v.sender k.runnable rs (idle nz).0 (idle nz).1
                      (idle nz).2 is,
                  ground arith,
                  ground arith,
                ));
          }
      | inr quiet ↦ record {
        after = drained k p (k.regs.r 1);
        ends = data_consumed_quiet k p own room quiet;
        amounts = simp (same, d);
        sound = rw same s';
        patient = rw same (record {
          receiver = λ n. omega (arith, pat.receiver n, d);
          sender = λ n. ground (arith, quiet);
        });
        others = λ q ne. ground (arith, ne);
        other_end = rw same (inl (λ n. ground (arith, quiet), refl, refl, is));
      }
    ]
