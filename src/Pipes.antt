-- ===== src/Pipes.antt =====
-- OSTask/pipes.c: the calls on pipes. Each takes the address of a pipe and the caller's registers,
-- as part of the kernel, and returns the task to resume, 0 for the caller. Logging is left out.
pub mod Flow
pub mod Drain
pub mod Wait
pub mod Ends
pub mod Create
pub mod Created
pub mod Invariant
pub mod Keeps
use simple_as_pi.Common.{
  ℕ, zero, suc, ◌+◌, ◌-◌, ◌*◌, ◌/◌, ◌%◌, ◌^◌, Bool, true, false, not, ◌&&◌, ◌||◌, Option, none,
  some, ◌==◌, ltb, leb, if◌then◌else◌, update,
}
use simple_as_pi.Dll.{dll_detach}
use simple_as_pi.Mpsafe.{insert_tail}
use simple_as_pi.Tasks.{Tasks, set_r, with_links}
use simple_as_pi.Blocks.{Block, Table, table_size, gap_loop, fill, unmap_and_free}
use simple_as_pi.Pipe.{
  Pipe, finished, double_mapped, pipe_map_size, data_in_pipe, space_in_pipe, read_location,
  write_location,
}
use simple_as_pi.Kernel.{
  Kernel, Run, ok, panic, waits, runs_on, Error, not_a_task, not_your_pipe, overfilled_pipe,
  not_that_much_available, M, pure, ◌>>=◌, ◌>>◌, check, modify, put, error, ostask_from_handle,
  stop_running_task, make_runnable, set_bit,
}

abbrev pub set_pipe : ℕ → Pipe → M (Unit {0})
set_pipe p v = modify λ k. record k { pipe = update k.pipe p v }

-- insert_pipe_in_gap.
abbrev pub map_at : ℕ → ℕ → Bool → Option (ℕ × ℕ) → M (Unit {0})
map_at slot p sender none k = panic
map_at slot p sender (some (i, va)) k =
    let v = k.pipe p in
    let t = k.pipe_mem slot in
    (do
      check ((t i).pages == 0)
      check (ltb i table_size)
      check (not (double_mapped v) || ltb (i + 1) table_size)
      modify (λ k. record k {
        pipe_mem =
            update k.pipe_mem slot
              (fill i va (pipe_map_size v) v.memory (double_mapped v) sender t);
      })
      set_pipe p (if sender then record v { sender_va = va } else record v { receiver_va = va }))
      k

unfoldable pub insert_pipe_in_gap : ℕ → ℕ → Bool → M (Unit {0})
insert_pipe_in_gap slot p sender k =
    map_at slot p sender
      (gap_loop (suc table_size) 0 k.pipes_base (pipe_map_size (k.pipe p)) k.pipes_top
        (k.pipe_mem slot))
      k

unfoldable pub set_sender_va : ℕ → ℕ → M (Unit {0})
set_sender_va slot p k =
    let v = k.pipe p in
    (do
      check (not (v.memory == 0))
      check (v.owner == 0 || v.owner == slot)
      (if v.owner == 0 then pure tt else set_pipe p (record v { sender_va = v.memory }))
      check (not (k.log_pipe == p))
      insert_pipe_in_gap slot p true)
      k

unfoldable pub set_receiver_va : ℕ → ℕ → M (Unit {0})
set_receiver_va slot p k =
    let v = k.pipe p in
    (do
      check (not (v.memory == 0))
      check (v.owner == 0 || v.owner == slot)
      (if v.owner == 0 then pure tt else set_pipe p (record v { receiver_va = v.memory }))
      insert_pipe_in_gap slot p false)
      k

-- The end of PipeWaitForSpace, when the sender and its mapping are settled.
unfoldable pub space_or_block : ℕ → ℕ → M ℕ
space_or_block p amount k =
    let v = k.pipe p in
    let available = space_in_pipe v in
    (if leb amount available || v.receiver == finished
        then (do put 1 available; put 2 (write_location v); pure 0)
        else (do set_pipe p (record v { sender_waiting_for = amount }); stop_running_task))
      k

unfoldable pub wait_for_space : ℕ → M ℕ
wait_for_space p k =
    let v = k.pipe p in
    let amount = k.regs.r 1 in
    let slot = k.tasks.slot k.running in
    let is_normal_pipe = not (p == k.log_pipe) in
    (if not (v.sender == k.running) && not (v.sender == 0) && is_normal_pipe
        then error not_your_pipe
        else (do
          (if is_normal_pipe && v.sender == 0
              then set_pipe p (record v { sender = k.running })
              else pure tt)
          (if v.sender_va == 0 then (do check is_normal_pipe; set_sender_va slot p) else pure tt)
          space_or_block p amount))
      k

-- The waiting receiver, if there is enough for it now.
unfoldable pub wake_receiver : ℕ → M (Unit {0})
wake_receiver p k =
    let v = k.pipe p in
    (if ltb 0 v.receiver_waiting_for && leb v.receiver_waiting_for (data_in_pipe v)
        then (do
          set_pipe p (record v { receiver_waiting_for = 0 })
          modify (λ k. record k {
            tasks =
                set_r v.receiver 2 (read_location v) (set_r v.receiver 1 (data_in_pipe v) k.tasks);
          })
          make_runnable v.receiver)
        else pure tt)
      k

unfoldable pub space_filled : ℕ → M ℕ
space_filled p k =
    let v = k.pipe p in
    let amount = k.regs.r 1 in
    let available = space_in_pipe v in
    let v' : Pipe = record v { write_index = (v.write_index + amount) % 2 ^ 32 } in
    (if not (v.sender == k.running) && not (p == k.log_pipe)
        then error not_your_pipe
        else if ltb available amount
        then error overfilled_pipe
        else (do
          set_pipe p v'
          put 1 (available - amount)
          put 2 (write_location v')
          check (not (v.receiver == 0 && not (v.receiver_waiting_for == 0)))
          check (not (v.receiver == k.running && not (v.receiver_waiting_for == 0)))
          wake_receiver p
          pure 0))
      k

unfoldable pub unread_data : ℕ → M ℕ
unread_data p k = (do put 1 (data_in_pipe (k.pipe p)); pure 0) k

-- free_pipe.
unfoldable pub free_pipe : ℕ → M (Unit {0})
free_pipe p k =
    let next = k.pipe_links.next p in
    let pipes : ℕ = if k.pipes == p then (if next == p then 0 else next) else k.pipes in
    let t = insert_tail p k.pipe_pool (dll_detach p k.pipe_links) in
    (do
      check (not (pipes == p))
      modify (λ k. record k { pipes = pipes; pipe_links = t.0; pipe_pool = t.1 }))
      k

unfoldable pub no_more_data : ℕ → M ℕ
no_more_data p k =
    let v = k.pipe p in
    (do
      set_pipe p (record v { sender = finished })
      (if v.receiver == finished then free_pipe p else check (v.receiver_waiting_for == 0))
      pure 0)
      k

-- The end of PipeWaitForData.
unfoldable pub data_or_block : ℕ → ℕ → M ℕ
data_or_block p amount k =
    let v = k.pipe p in
    let available = data_in_pipe v in
    (if leb amount available || v.sender == finished
        then (do
          put 1 available
          put 2 (read_location v)
          check (k.regs.spsr / 0x10000000 % 2 == 0)
          pure 0)
        else (do set_pipe p (record v { receiver_waiting_for = amount }); stop_running_task))
      k

unfoldable pub wait_for_data : ℕ → M ℕ
wait_for_data p k =
    let v = k.pipe p in
    let amount = k.regs.r 1 in
    let slot = k.tasks.slot k.running in
    (if not (v.receiver == k.running) && not (v.receiver == 0) then error not_your_pipe else (do
      (if v.receiver == 0 then set_pipe p (record v { receiver = k.running }) else pure tt)
      (λ k. check ((k.pipe p).receiver == k.running) k)
      (if v.receiver_va == 0 && (not (v.max_block_size == 0) || not (v.max_data == 0))
          then set_receiver_va slot p
          else pure tt)
      (λ k. check (not ((k.pipe p).receiver_va == 0)) k)
      data_or_block p amount))
      k

-- The waiting sender, if there is enough space for it now.
unfoldable pub wake_sender : ℕ → M (Unit {0})
wake_sender p k =
    let v = k.pipe p in
    (if ltb 0 v.sender_waiting_for && leb v.sender_waiting_for (space_in_pipe v)
        then (do
          set_pipe p (record v { sender_waiting_for = 0 })
          modify (λ k. record k {
            tasks =
                set_r v.sender 2 (write_location v) (set_r v.sender 1 (space_in_pipe v) k.tasks);
          })
          make_runnable v.sender)
        else pure tt)
      k

unfoldable pub data_consumed : ℕ → M ℕ
data_consumed p k =
    let v = k.pipe p in
    let amount = k.regs.r 1 in
    let available = data_in_pipe v in
    let v' : Pipe = record v { read_index = (v.read_index + amount) % 2 ^ 32 } in
    (if not (v.receiver == k.running)
        then error not_your_pipe
        else if ltb available amount
        then error not_that_much_available
        else (do
          set_pipe p v'
          put 1 (available - amount)
          put 2 (read_location v')
          wake_sender p
          pure 0))
      k

-- The mapping of an end that a task of another slot takes over.
abbrev pub unmapped : ℕ → Option Table → M (Unit {0})
unmapped slot none k = runs_on
unmapped slot (some t) k = ok tt (record k { pipe_mem = update k.pipe_mem slot t })

abbrev pub unmap : ℕ → ℕ → ℕ → Bool → M (Unit {0})
unmap fuel slot va double k = unmapped slot (unmap_and_free fuel va double (k.pipe_mem slot)) k

-- PipeSetSender, on `fuel` for the loops of unmap_and_free.
unfoldable pub pipe_set_sender : ℕ → ℕ → M ℕ
pipe_set_sender fuel p k =
    let v = k.pipe p in
    let task = ostask_from_handle (k.regs.r 1) in
    let moves = v.sender == 0 || task == 0 || not (k.tasks.slot v.sender == k.tasks.slot task) in
    (if not (v.sender == 0) && not (v.sender == k.running)
        then error not_your_pipe
        else if not (k.regs.r 1 == 0) && task == 0
        then error not_a_task
        else (do
          (if moves && not (v.sender == 0)
              then unmap fuel (k.tasks.slot v.sender) v.sender_va (double_mapped v)
              else pure tt)
          set_pipe p (record v { sender = task; sender_va = if moves then 0 else v.sender_va })
          pure 0))
      k

-- PipeSetReceiver: receiver_va is cleared before it is read.
unfoldable pub pipe_set_receiver : ℕ → ℕ → M ℕ
pipe_set_receiver fuel p k =
    let v = k.pipe p in
    let task = ostask_from_handle (k.regs.r 1) in
    let moves =
      v.receiver == 0 || task == 0 || not (k.tasks.slot v.receiver == k.tasks.slot task) in
    (if not (v.receiver == 0) && not (v.receiver == k.running)
        then error not_your_pipe
        else if not (k.regs.r 1 == 0) && task == 0
        then error not_a_task
        else (do
          (if moves then set_pipe p (record v { receiver_va = 0 }) else pure tt)
          (if moves && not (v.receiver == 0)
              then (λ k.
                  unmap fuel (k.tasks.slot v.receiver) (k.pipe p).receiver_va (double_mapped v) k)
              else pure tt)
          (λ k. set_pipe p (record (k.pipe p) { receiver = task }) k)
          pure 0))
      k

unfoldable pub not_listening : ℕ → M ℕ
not_listening p k =
    let v = k.pipe p in
    (do
      set_pipe p (record v { receiver = finished })
      (if v.sender == finished then free_pipe p else check (v.sender_waiting_for == 0))
      pure 0)
      k
