-- ===== src/Pipes/Wait.antt =====
-- PipeWaitForSpace and PipeWaitForData, of an end that is mapped: the caller goes on, or stops.
use simple_as_pi.Common.{
  ℕ, ◌/◌, ◌%◌, ◌≤◌, ◌<◌, ◌≡◌, refl, ◌≢◌, ◌⊎◌, inl, inr, true, false, not, ◌&&◌, ◌||◌, List, arith,
  ◌==◌, leb, update,
}
use simple_as_pi.Dll.Ring.{Ring}
use simple_as_pi.Dll.Attach.{IsAlone, dll_detach-Ring}
use simple_as_pi.Pipe.{Pipe, finished, data_in_pipe, space_in_pipe, read_location, write_location}
use simple_as_pi.Pipe.Amounts.{IsPatient}
use simple_as_pi.Kernel.{Kernel, ok, set_reg}
use simple_as_pi.Kernel.Running.{CanStop, stopped, stop_running_task-stopped}
use simple_as_pi.Pipes.{wait_for_space, wait_for_data, space_or_block, data_or_block}

-- The caller has stopped: it is in no list, its registers are saved, and the next task of its core
-- runs.
pub record Stopped (k k' : Kernel) (n : ℕ) (rest : List ℕ) : Type 0 where
  pub core : Ring k'.tasks.links n rest
  pub alone : IsAlone k'.tasks.links k.running
  pub current : k'.running ≡ n
  pub stops : k'.tasks.running k.running ≡ false
  pub registers : k'.tasks.r k.running ≡ k.regs.r
  pub returns : k'.tasks.lr k.running ≡ k.regs.lr
  pub status : k'.tasks.spsr k.running ≡ k.regs.spsr

stopped-Stopped :
    (k : Kernel) (n : ℕ) (rest : List ℕ) (p : ℕ → Pipe)
    → CanStop k n rest
    → Stopped k (record (stopped k n) { pipe = p }) n rest
stopped-Stopped k n rest p c =
    let (q, alone) = dll_detach-Ring k.tasks.links k.running n rest c.list in
    record {
      core = q;
      alone = alone;
      current = refl;
      stops = ground arith;
      registers = ground arith;
      returns = ground arith;
      status = ground arith;
    }

-- PipeWaitForData by the receiver of a pipe that is mapped: if there is as much data as asked for,
-- or the sender has finished, and V is clear, the caller goes on with the amount of data and the
-- read location in r1 and r2; if there is less and the sender has not finished, and the caller can
-- stop, it stops with r0 to r12, the address that it returns to and its status saved, and is in no
-- list, the next task of its core runs, and the pipe holds the amount that it waits for, so that
-- if each blocked end waited for more than there was, it still does.
pub wait_for_data-Stopped :
    (k : Kernel) (p n : ℕ) (rest : List ℕ)
    → (k.pipe p).receiver ≡ k.running
    → k.running ≢ 0
    → (k.pipe p).receiver_va ≢ 0
    → (k.regs.r 1 ≤ data_in_pipe (k.pipe p) ⊎ (k.pipe p).sender ≡ finished
        → k.regs.spsr / 0x10000000 % 2 ≡ 0
        → wait_for_data p k
          ≡ ok 0 (record k {
            regs =
                set_reg 2 (read_location (k.pipe p)) (set_reg 1 (data_in_pipe (k.pipe p)) k.regs);
          }))
      × (data_in_pipe (k.pipe p) < k.regs.r 1
          → (k.pipe p).sender ≢ finished
          → CanStop k n rest
          → IsPatient (k.pipe p)
          → (k' : Kernel) × (wait_for_data p k ≡ ok n k')
            × ((k'.pipe p).receiver_waiting_for ≡ k.regs.r 1)
            × (data_in_pipe (k'.pipe p) ≡ data_in_pipe (k.pipe p))
            × IsPatient (k'.pipe p)
            × Stopped k k' n rest)
unfolding wait_for_data data_or_block data_in_pipe space_in_pipe
wait_for_data-Stopped k p n rest own nz va =
    let v = k.pipe p in
    let held : (v.receiver == 0) ≡ false = ground (arith, own, nz) in
    let mine : (v.receiver == k.running) ≡ true = ground (arith, own) in
    let mapped : (v.receiver_va == 0) ≡ false = ground (arith, va) in
    let same : (p == p) ≡ true = ground arith in
    (
      λ enough clear.
          let go : (leb (k.regs.r 1) (data_in_pipe v) || v.sender == finished) ≡ true =
            elim enough [ inl l ↦ ground arith | inr f ↦ ground (arith, f) ] in
          let ok_v : (k.regs.spsr / 0x10000000 % 2 == 0) ≡ true = ground (arith, clear) in
          simp (mine, held, mapped, go, ok_v),
      λ less active c pat.
          let stop : (leb (k.regs.r 1) (data_in_pipe v) || v.sender == finished) ≡ false =
            ground (arith, less, active) in
          let v' : Pipe = record v { receiver_waiting_for = k.regs.r 1 } in
          let k1 : Kernel = record k { pipe = update k.pipe p v' } in
          let c1 : CanStop k1 n rest = record {
            list = c.list;
            not_idle = c.not_idle;
            runs = c.runs;
            next_waits = c.next_waits;
            returns = c.returns;
          } in
          let st = stop_running_task-stopped k1 n rest c1 in
          (
            record (stopped k n) { pipe = update k.pipe p v' },
            simp (mine, held, mapped, stop, st),
            rw same refl,
            rw same refl,
            rw same (record { receiver = λ z. less; sender = pat.sender }),
            stopped-Stopped k n rest (update k.pipe p v') c,
          ),
    )

-- PipeWaitForSpace by the sender of a pipe that is mapped: if there is as much space as asked for,
-- or the receiver has finished, the caller goes on with the amount of space and the write location
-- in r1 and r2; if there is less and the receiver has not finished, and the caller can stop, it
-- stops with r0 to r12, the address that it returns to and its status saved, and is in no list,
-- the next task of its core runs, and the pipe holds the amount that it waits for, so that if each
-- blocked end waited for more than there was, it still does.
pub wait_for_space-Stopped :
    (k : Kernel) (p n : ℕ) (rest : List ℕ)
    → (k.pipe p).sender ≡ k.running
    → k.running ≢ 0
    → (k.pipe p).sender_va ≢ 0
    → (k.regs.r 1 ≤ space_in_pipe (k.pipe p) ⊎ (k.pipe p).receiver ≡ finished
        → wait_for_space p k
          ≡ ok 0 (record k {
            regs =
                set_reg 2 (write_location (k.pipe p)) (set_reg 1 (space_in_pipe (k.pipe p)) k.regs);
          }))
      × (space_in_pipe (k.pipe p) < k.regs.r 1
          → (k.pipe p).receiver ≢ finished
          → CanStop k n rest
          → IsPatient (k.pipe p)
          → (k' : Kernel) × (wait_for_space p k ≡ ok n k')
            × ((k'.pipe p).sender_waiting_for ≡ k.regs.r 1)
            × (space_in_pipe (k'.pipe p) ≡ space_in_pipe (k.pipe p))
            × IsPatient (k'.pipe p)
            × Stopped k k' n rest)
unfolding wait_for_space space_or_block space_in_pipe
wait_for_space-Stopped k p n rest own nz va =
    let v = k.pipe p in
    let held : (v.sender == 0) ≡ false = ground (arith, own, nz) in
    let mine : (v.sender == k.running) ≡ true = ground (arith, own) in
    let normal : (not (p == k.log_pipe) && false) ≡ false = ground arith in
    let mapped : (v.sender_va == 0) ≡ false = ground (arith, va) in
    let same : (p == p) ≡ true = ground arith in
    (
      λ enough.
          let go : (leb (k.regs.r 1) (space_in_pipe v) || v.receiver == finished) ≡ true =
            elim enough [ inl l ↦ ground arith | inr f ↦ ground (arith, f) ] in
          simp (mine, held, normal, mapped, go),
      λ less active c pat.
          let stop : (leb (k.regs.r 1) (space_in_pipe v) || v.receiver == finished) ≡ false =
            ground (arith, less, active) in
          let v' : Pipe = record v { sender_waiting_for = k.regs.r 1 } in
          let k1 : Kernel = record k { pipe = update k.pipe p v' } in
          let c1 : CanStop k1 n rest = record {
            list = c.list;
            not_idle = c.not_idle;
            runs = c.runs;
            next_waits = c.next_waits;
            returns = c.returns;
          } in
          let st = stop_running_task-stopped k1 n rest c1 in
          (
            record (stopped k n) { pipe = update k.pipe p v' },
            simp (mine, held, normal, mapped, stop, st),
            rw same refl,
            rw same refl,
            rw same (record { receiver = pat.receiver; sender = λ z. less }),
            stopped-Stopped k n rest (update k.pipe p v') c,
          ),
    )
