-- ===== src/Pipe/Amounts.antt =====
-- How much is in a pipe, and where.
use simple_as_pi.Common.{ℕ, ◌+◌, ◌-◌, ◌*◌, ◌%◌, ◌^◌, ◌≤◌, ◌<◌, ◌≡◌, ◌≢◌, true, arith}
use simple_as_pi.Pipe.{
  Pipe, double_mapped, data_in_pipe, space_in_pipe, read_location, write_location, pipe_map_size,
}

-- The pipe holds at most a block, and its numbers are words.
pub record IsSound (p : Pipe) : Type 0 where
  pub fits : data_in_pipe p ≤ p.max_block_size
  pub size_word : p.max_block_size < 2 ^ 32
  pub write_word : p.write_index < 2 ^ 32
  pub read_word : p.read_index < 2 ^ 32

-- A blocked end waits for more than there is.
pub record IsPatient (p : Pipe) : Type 0 where
  pub receiver : p.receiver_waiting_for ≢ 0 → data_in_pipe p < p.receiver_waiting_for
  pub sender : p.sender_waiting_for ≢ 0 → space_in_pipe p < p.sender_waiting_for

abbrev pub fill_pipe : ℕ → Pipe → Pipe
fill_pipe amount p = record p { write_index = (p.write_index + amount) % 2 ^ 32 }

abbrev pub drain_pipe : ℕ → Pipe → Pipe
drain_pipe amount p = record p { read_index = (p.read_index + amount) % 2 ^ 32 }

pub space-add-data : (p : Pipe) → IsSound p → space_in_pipe p + data_in_pipe p ≡ p.max_block_size
unfolding space_in_pipe
space-add-data p s = omega (arith, s.fits, s.size_word)

-- Where a sound pipe is filled by no more than its space, the amounts of data and of space change
-- by just that, whether or not the index wraps at 2^32, and the pipe stays sound.
pub fill_pipe_amounts :
    (amount : ℕ) (p : Pipe)
    → IsSound p
    → amount ≤ space_in_pipe p
    → (data_in_pipe (fill_pipe amount p) ≡ data_in_pipe p + amount)
      × (space_in_pipe (fill_pipe amount p) ≡ space_in_pipe p - amount)
      × IsSound (fill_pipe amount p)
unfolding space_in_pipe data_in_pipe
fill_pipe_amounts amount p s f = omega (arith, s.fits, s.size_word, s.write_word, s.read_word)

-- Where a sound pipe is drained by no more than its data, the amounts of data and of space change
-- by just that, whether or not the index wraps at 2^32, and the pipe stays sound.
pub drain_pipe_amounts :
    (amount : ℕ) (p : Pipe)
    → IsSound p
    → amount ≤ data_in_pipe p
    → (data_in_pipe (drain_pipe amount p) ≡ data_in_pipe p - amount)
      × (space_in_pipe (drain_pipe amount p) ≡ space_in_pipe p + amount)
      × IsSound (drain_pipe amount p)
unfolding space_in_pipe data_in_pipe
drain_pipe_amounts amount p s f = omega (arith, s.fits, s.size_word, s.write_word, s.read_word)

-- In a sound pipe that is mapped twice, of a size above 0 and below 2^31, with mappings that end
-- below 2^32: all the data can be read from read_location on, and all the space written from
-- write_location on, inside of the mappings.
pub double_mapped_contiguous :
    (p : Pipe)
    → IsSound p
    → p.owner ≡ 0
    → 0 < p.max_block_size
    → p.receiver_va + pipe_map_size p < 2 ^ 32
    → p.sender_va + pipe_map_size p < 2 ^ 32
    → p.max_block_size < 2 ^ 31
    → (p.receiver_va ≤ read_location p)
      × (read_location p + data_in_pipe p ≤ p.receiver_va + pipe_map_size p)
      × (p.sender_va ≤ write_location p)
      × (write_location p + space_in_pipe p ≤ p.sender_va + pipe_map_size p)
unfolding read_location write_location pipe_map_size
double_mapped_contiguous p s own pos r w half =
    let t = space-add-data p s in
    let e : double_mapped p ≡ true = ground (arith, own) in
    let i = p.read_index % p.max_block_size in
    let j = p.write_index % p.max_block_size in
    let i_lt : i < p.max_block_size = grind arith in
    let j_lt : j < p.max_block_size = grind arith in
    let size : pipe_map_size p ≡ p.max_block_size * 2 = rw e (omega arith) in
    let at_read : read_location p ≡ p.receiver_va + i = rw e (omega (arith, size)) in
    let at_write : write_location p ≡ p.sender_va + j = rw e (omega (arith, size)) in
    rw (at_read, at_write, size) (omega (arith, s.fits))
