-- ===== src/Pipes/Create.antt =====
-- OSTask/pipes.c, PipeCreate, and pipe_handle. The page that claim_contiguous_memory returns is a
-- parameter.
use Prim.Native.Nat.{bit_xor}
use simple_as_pi.Common.{ℕ, ◌*◌, ◌%◌, ◌^◌, not, ◌&&◌, ◌||◌, ◌==◌, ltb, if◌then◌else◌, update}
use simple_as_pi.Dll.{dll_attach}
use simple_as_pi.Mpsafe.{detach_head}
use simple_as_pi.Pipe.{Pipe}
use simple_as_pi.Kernel.{
  M, pure, ◌>>◌, check, modify, put, error, pipe_creation_error, pipe_creation_problem,
}

unfoldable pub pipe_handle : ℕ → ℕ
pipe_handle p = if p == 0 then 0 else bit_xor 0x45504950 p

-- The fields of a new pipe of the running task; the page is used if no memory is given.
abbrev pub new_pipe : ℕ → ℕ → ℕ → ℕ → ℕ → ℕ → Pipe
new_pipe running slot max_block_size max_data allocated_mem page = record {
  sender = running;
  sender_waiting_for = 0;
  sender_va = 0;
  receiver = running;
  receiver_waiting_for = 0;
  receiver_va = 0;
  memory = if allocated_mem == 0 then page * 2 ^ 12 % 2 ^ 32 else allocated_mem;
  owner = if allocated_mem == 0 then 0 else slot;
  max_block_size = max_block_size;
  max_data = max_data;
  write_index = 0;
  read_index = 0;
}

-- The tests on memory that the pipe is to own.
unfoldable pub check_memory : ℕ → ℕ → ℕ → M (Unit {0})
check_memory max_block_size allocated_mem page =
    if allocated_mem == 0
    then (do check (max_block_size % 2 ^ 12 == 0); check (not (page == 0 || page == 0xffffffff)))
    else pure tt

-- The pipe `p` is filled in and put into the list of pipes in use.
abbrev pub attach_pipe : ℕ → Pipe → M ℕ
attach_pipe p v = do
  modify λ k.
      (let t = dll_attach p k.pipes k.pipe_links in
        record k { pipe = update k.pipe p v; pipe_links = t.0; pipes = t.1 })
  put 0 (pipe_handle p)
  pure 0

unfoldable pub pipe_create : ℕ → M ℕ
pipe_create page k =
    let max_block_size = k.regs.r 1 in
    let max_data = k.regs.r 2 in
    let allocated_mem = k.regs.r 3 in
    let slot = k.tasks.slot k.running in
    let t = detach_head k.pipe_pool k.pipe_links in
    (if not (max_data == 0) && ltb max_data max_block_size then error pipe_creation_error else (do
      modify (λ k. record k { pipe_links = t.0; pipe_pool = t.1 })
      (if t.2 == 0 then error pipe_creation_problem else (do
        check_memory max_block_size allocated_mem page
        attach_pipe t.2 (new_pipe k.running slot max_block_size max_data allocated_mem page)))))
      k
