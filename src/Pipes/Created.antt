-- ===== src/Pipes/Created.antt =====
-- PipeCreate: the lists, the new pipe, and the failures.
use simple_as_pi.Common.{ℕ, ◌%◌, ◌^◌, ◌≡◌, ◌≢◌, ◌⊎◌, List, ◌∷◌}
use simple_as_pi.Dll.Ring.{IsList}
use simple_as_pi.Pipe.{data_in_pipe, space_in_pipe}
use simple_as_pi.Kernel.{Kernel}
use simple_as_pi.Pipes.Create.{pipe_handle, new_pipe}

-- What the caller gives as memory: its own, or none, and then whole pages and a page for them.
abbrev pub HasMemory : ℕ → ℕ → ℕ → Type 0
HasMemory max_block_size allocated_mem page =
    (allocated_mem ≢ 0) ⊎ ((max_block_size % 2 ^ 12 ≡ 0) × (page ≢ 0) × (page ≢ 0xffffffff))

-- The pipe `p` has been taken from the free ones, `free`, and joined those in use, `used`.
pub record Created (k k' : Kernel) (page p : ℕ) (free used : List ℕ) : Type 0 where
  pub in_use : IsList k'.pipe_links k'.pipes (p ∷ used)
  pub pool : IsList k'.pipe_links k'.pipe_pool free
  pub fields :
      k'.pipe p
      ≡ new_pipe k.running (k.tasks.slot k.running) (k.regs.r 1) (k.regs.r 2) (k.regs.r 3) page
  pub empty : data_in_pipe (k'.pipe p) ≡ 0
  pub space : space_in_pipe (k'.pipe p) ≡ k.regs.r 1
  pub handle : k'.regs.r 0 ≡ pipe_handle p
  pub others : (q : ℕ) → q ≢ p → k'.pipe q ≡ k.pipe q
