-- ===== src/Pipe.antt =====
-- OSTask/pipes.c: a pipe, and the amounts and addresses that it works out.
pub mod Amounts
use simple_as_pi.Common.{ℕ, ◌+◌, ◌-◌, ◌*◌, ◌/◌, ◌%◌, ◌^◌, Bool, ◌==◌, if◌then◌else◌}

-- struct OSPipe, less its links.
pub record Pipe : Type 0 where
  pub sender : ℕ
  pub sender_waiting_for : ℕ
  pub sender_va : ℕ
  pub receiver : ℕ
  pub receiver_waiting_for : ℕ
  pub receiver_va : ℕ
  pub memory : ℕ
  pub owner : ℕ
  pub max_block_size : ℕ
  pub max_data : ℕ
  pub write_index : ℕ
  pub read_index : ℕ

-- (void*) -1, for an end that is finished with.
abbrev pub finished : ℕ
finished = 0xffffffff

abbrev pub double_mapped : Pipe → Bool
double_mapped p = p.owner == 0

abbrev pub sub32 : ℕ → ℕ → ℕ
sub32 a b = (a + 2 ^ 32 - b) % 2 ^ 32

-- x & ~0xfff
abbrev pub page_start : ℕ → ℕ
page_start x = x / 2 ^ 12 * 2 ^ 12

unfoldable pub pipe_map_size : Pipe → ℕ
pipe_map_size p =
    if double_mapped p
    then p.max_block_size * 2 % 2 ^ 32
    else sub32 (page_start ((p.memory + p.max_block_size + 0xfff) % 2 ^ 32)) (page_start p.memory)

unfoldable pub data_in_pipe : Pipe → ℕ
data_in_pipe p = sub32 p.write_index p.read_index

unfoldable pub space_in_pipe : Pipe → ℕ
unfolding data_in_pipe
space_in_pipe p = sub32 p.max_block_size (data_in_pipe p)

unfoldable pub read_location : Pipe → ℕ
read_location p =
    if double_mapped p
    then (p.receiver_va + p.read_index % p.max_block_size) % 2 ^ 32
    else (p.receiver_va + p.read_index) % 2 ^ 32

unfoldable pub write_location : Pipe → ℕ
write_location p =
    if double_mapped p
    then (p.sender_va + p.write_index % p.max_block_size) % 2 ^ 32
    else (p.sender_va + p.write_index) % 2 ^ 32
