-- ===== src/Tests/Ports.antt =====
-- A pipe with 16 bytes of data, of the tasks 11 and 41, a table of mappings, and a heap.
use simple_as_pi.Common.{
  ◌≡◌, refl, ◌≢◌, ◌<◌, ◌≤◌, ◌-◌, ◌+◌, ◌^◌, [], ◌∷◌, arith, ◌==◌, if◌then◌else◌,
}
use simple_as_pi.Pipe.{
  Pipe, pipe_map_size, data_in_pipe, space_in_pipe, read_location, write_location,
}
use simple_as_pi.Pipe.Amounts.{IsSound, IsPatient}
use simple_as_pi.Kernel.{Kernel, ok}
use simple_as_pi.Pipes.{space_filled, data_consumed, wait_for_space, wait_for_data}
use simple_as_pi.Pipes.Flow.{Flowed, space_filled-Flowed}
use simple_as_pi.Pipes.Drain.{data_consumed-Flowed}
use simple_as_pi.Heap.{Words, heap_initialise, heap_allocate}
use simple_as_pi.Heap.Allocate.{IsHeap, Allocated, heap_initialise-IsHeap, heap_allocate-Allocated}
use simple_as_pi.Common.{◌⊎◌, ◌<◌, ◌%◌, ◌/◌}
use simple_as_pi.Pipe.{finished}
use simple_as_pi.Kernel.{set_reg}
use simple_as_pi.Kernel.Running.{CanStop}
use simple_as_pi.Pipes.Wait.{Stopped, wait_for_data-Stopped, wait_for_space-Stopped}
use simple_as_pi.Pipes.Created.{Created}
use simple_as_pi.Tests.State.{apart, two, some_pipe, system, calling, runnable_list}

sound : IsSound some_pipe
unfolding data_in_pipe
sound = record {
  fits = omega arith;
  size_word = omega arith;
  write_word = omega arith;
  read_word = omega arith;
}

roomy : 32 ≤ space_in_pipe some_pipe
unfolding space_in_pipe
roomy = omega arith

enough : 8 ≤ data_in_pipe some_pipe
unfolding data_in_pipe
enough = omega arith

low : 0x10000 + pipe_map_size some_pipe < 2 ^ 32
unfolding pipe_map_size
low = omega arith

low' : 0x8000 + pipe_map_size some_pipe < 2 ^ 32
unfolding pipe_map_size
low' = omega arith

-- The receiver waits for 32 bytes, and the sender fills 16 more.
abbrev waited_for : Pipe
waited_for = record some_pipe { receiver_waiting_for = 32 }

abbrev filling : Kernel
filling = record (calling 1 16 system) { pipe = λ p. waited_for }

waited-IsSound : IsSound waited_for
unfolding data_in_pipe
waited-IsSound = record {
  fits = omega arith;
  size_word = omega arith;
  write_word = omega arith;
  read_word = omega arith;
}

waited-IsPatient : IsPatient waited_for
unfolding data_in_pipe space_in_pipe
waited-IsPatient = record { receiver = λ n. omega arith; sender = λ n. absurd (n refl) }

room : 16 ≤ space_in_pipe waited_for
unfolding space_in_pipe
room = omega arith

space_filled-Flowed_example :
    Flowed filling 1
      (data_in_pipe waited_for + 16)
      41
      (λ v. v.receiver_waiting_for)
      data_in_pipe
      read_location
      (21 ∷ 22 ∷ [])
      (space_filled 1 filling)
space_filled-Flowed_example =
    space_filled-Flowed filling 1 (21 ∷ 22 ∷ []) waited-IsSound waited-IsPatient refl room
      (λ n. (ground arith, ground arith)) runnable_list (λ n. (refl, (refl, refl)))

-- The task 41 runs and consumes 8 bytes.
abbrev consuming : Kernel
consuming = record (calling 1 8 system) { running = 41 }

patient : IsPatient some_pipe
patient = record { receiver = λ n. absurd (n refl); sender = λ n. absurd (n refl) }

data_consumed-Flowed_example :
    Flowed consuming 1
      (data_in_pipe some_pipe - 8)
      11
      (λ v. v.sender_waiting_for)
      space_in_pipe
      write_location
      (21 ∷ 22 ∷ [])
      (data_consumed 1 consuming)
data_consumed-Flowed_example =
    data_consumed-Flowed consuming 1 (21 ∷ 22 ∷ []) sound patient refl enough runnable_list
      (λ n. absurd (n refl))

-- Pipes at 0x100 and 0x200 are free, that at 0x300 is in use; memory is to be claimed.
abbrev pools : Kernel
pools = record system {
  pipe_links = two 0x100 0x200 apart;
  pipe_pool = 0x100;
  pipes = 0x300;
  regs = record (system.regs) { r = λ n. if n == 1 then 0x2000 else 0 };
}

abbrev memory : Words
memory = heap_initialise 0x1000 0x200 (λ a. 0)

is_heap : IsHeap 0x1000 0x1f8 memory
is_heap = heap_initialise-IsHeap 0x1000 0x200 (λ a. 0) (omega arith) (omega arith)

heap_allocate-Allocated_example :
    Allocated 0x1000 0x1f8 100 memory (heap_allocate 1 0x1000 100 memory)
heap_allocate-Allocated_example =
    heap_allocate-Allocated 0 0x1000 0x1f8 100 memory is_heap (omega arith) (omega arith)

-- The receiver 11 waits for 32 bytes.
abbrev received : Pipe
received = record some_pipe { sender = 41; receiver = 11 }

abbrev hungry : Kernel
hungry = record (calling 1 32 system) { pipe = λ p. received }

wait_for_data-Stopped_example :
    (32 ≤ data_in_pipe received ⊎ received.sender ≡ finished
      → hungry.regs.spsr / 0x10000000 % 2 ≡ 0
      → wait_for_data 1 hungry
        ≡ ok 0 (record hungry {
          regs = set_reg 2 (read_location received) (set_reg 1 (data_in_pipe received) hungry.regs);
        }))
    × (data_in_pipe received < 32
        → received.sender ≢ finished
        → CanStop hungry 12 (10 ∷ [])
        → IsPatient received
        → (k' : Kernel) × (wait_for_data 1 hungry ≡ ok 12 k')
          × ((k'.pipe 1).receiver_waiting_for ≡ 32)
          × (data_in_pipe (k'.pipe 1) ≡ data_in_pipe received)
          × IsPatient (k'.pipe 1)
          × Stopped hungry k' 12 (10 ∷ []))
wait_for_data-Stopped_example =
    wait_for_data-Stopped hungry 1 12 (10 ∷ []) refl (ground arith) (ground arith)

-- The sender 11 waits for more space than there is.
abbrev eager : Kernel
eager = calling 1 0x2000 system

wait_for_space-Stopped_example :
    (0x2000 ≤ space_in_pipe some_pipe ⊎ some_pipe.receiver ≡ finished
      → wait_for_space 1 eager
        ≡ ok 0 (record eager {
          regs =
              set_reg 2 (write_location some_pipe) (set_reg 1 (space_in_pipe some_pipe) eager.regs);
        }))
    × (space_in_pipe some_pipe < 0x2000
        → some_pipe.receiver ≢ finished
        → CanStop eager 12 (10 ∷ [])
        → IsPatient some_pipe
        → (k' : Kernel) × (wait_for_space 1 eager ≡ ok 12 k')
          × ((k'.pipe 1).sender_waiting_for ≡ 0x2000)
          × (space_in_pipe (k'.pipe 1) ≡ space_in_pipe some_pipe)
          × IsPatient (k'.pipe 1)
          × Stopped eager k' 12 (10 ∷ []))
wait_for_space-Stopped_example =
    wait_for_space-Stopped eager 1 12 (10 ∷ []) refl (ground arith) (ground arith)
