-- ===== src/Pipes/Invariant.antt =====
-- The steps that the calls on pipes share: soundness of the pipes, and the status of the caller.
use simple_as_pi.Common.{
  ℕ, ◌+◌, ◌/◌, ◌%◌, ◌≡◌, refl, Bool, true, false, not, ◌&&◌, ◌||◌, Option, none, some, inl, inr,
  Bool-cases, arith, ◌==◌, ltb, leb, if◌then◌else◌, update,
}
use simple_as_pi.Blocks.{Table, table_size}
use simple_as_pi.Pipe.{Pipe, finished, double_mapped, data_in_pipe, space_in_pipe}
use simple_as_pi.Pipe.Amounts.{IsSound}
use simple_as_pi.Kernel.{
  Kernel, Run, ok, panic, waits, runs_on, M, and_then, check, stop_running_task, save_task_state,
  make_runnable,
}
use simple_as_pi.Pipes.{
  wake_receiver, wake_sender, space_or_block, data_or_block, insert_pipe_in_gap, map_at,
  set_sender_va, set_receiver_va, free_pipe, unmapped,
}

abbrev pub AllSound : (ℕ → Pipe) → Type 0
AllSound pipe = (p : ℕ) → IsSound (pipe p)

-- The pipes are sound, and the caller's status is `s`.
abbrev pub IsFine : ℕ → Kernel → Type 0
IsFine s k = AllSound k.pipe × (k.regs.spsr ≡ s)

pub data EndsFine {A : Type 0} (s : ℕ) : Run A → Type 0 where
  fine : {a : A} {k : Kernel} → IsFine s k → EndsFine s (ok a k)
  stops : EndsFine s panic
  running : EndsFine s runs_on

-- The amounts of a pipe depend on its indices and its size.
pub same_amounts :
    (v v' : Pipe)
    → v'.write_index ≡ v.write_index
    → v'.read_index ≡ v.read_index
    → v'.max_block_size ≡ v.max_block_size
    → IsSound v
    → IsSound v'
unfolding data_in_pipe
same_amounts v v' w r m s = record {
  fits = ground (arith, w, r, m, s.fits);
  size_word = ground (arith, m, s.size_word);
  write_word = ground (arith, w, s.write_word);
  read_word = ground (arith, r, s.read_word);
}

pub update-AllSound :
    (pipe : ℕ → Pipe) (p : ℕ) (v : Pipe) → AllSound pipe → IsSound v → AllSound (update pipe p v)
update-AllSound pipe p v all s q = elim (Bool-cases (q == p)) [
  | inl here ↦ rw here s
  | inr other ↦ rw other (all q)
]

module _ {A B : Type 0} (s : ℕ) where
  pub bind-EndsFine :
      (o : Run A) (f : A → M B)
      → EndsFine s o
      → ((a : A) (k : Kernel) → IsFine s k → EndsFine s (f a k))
      → EndsFine s (and_then o f)
  bind-EndsFine (ok a k) f (fine h) g = g a k h
  bind-EndsFine panic f h g = stops
  bind-EndsFine waits f h g = elim h [ ]
  bind-EndsFine runs_on f h g = running

module _ {A : Type 0} (s : ℕ) where
  pub either-EndsFine :
      (b : Bool) (m n : M A) (k : Kernel)
      → (b ≡ true → EndsFine s (m k))
      → (b ≡ false → EndsFine s (n k))
      → EndsFine s ((if b then m else n) k)
  either-EndsFine true m n k h g = h refl
  either-EndsFine false m n k h g = g refl

module _ {B : Type 0} (s : ℕ) where
  pub checked-EndsFine :
      (b : Bool) (k : Kernel) (f : Unit {0} → M B)
      → (b ≡ true → EndsFine s (f tt k))
      → EndsFine s (and_then (check b k) f)
  checked-EndsFine true k f h = h refl
  checked-EndsFine false k f h = stops

pub check-EndsFine : (s : ℕ) (b : Bool) (k : Kernel) → IsFine s k → EndsFine s (check b k)
check-EndsFine s true k h = fine h
check-EndsFine s false k h = stops

save_task_state-EndsFine : (s : ℕ) (k : Kernel) → IsFine s k → EndsFine s (save_task_state k)
unfolding save_task_state
save_task_state-EndsFine s k h = elim (Bool-cases (k.tasks.running k.running)) [
  | inl runs ↦ rw runs (check-EndsFine s (not (k.regs.lr == 0)) _ h)
  | inr not_running ↦ rw not_running stops
]

pub stop_running_task-EndsFine :
    (s : ℕ) (k : Kernel) → IsFine s k → EndsFine s (stop_running_task k)
unfolding stop_running_task
stop_running_task-EndsFine s k h = checked-EndsFine s (not (k.running == k.idle)) k _ λ a.
    checked-EndsFine s (not (k.tasks.running (k.tasks.links.next k.running))) k _ λ b.
      checked-EndsFine s (k.tasks.running k.running) k _ λ c.
        bind-EndsFine s _ _ (save_task_state-EndsFine s k h) λ d k1 h1.
          checked-EndsFine s (not (k.running == k.tasks.links.next k.running)) k1 _ λ e. fine h1

pub pipe_kept :
    (s p : ℕ) (v : Pipe) (k : Kernel)
    → IsFine s k
    → IsSound v
    → AllSound (update k.pipe p v) × (k.regs.spsr ≡ s)
pipe_kept s p v k h sound = (update-AllSound k.pipe p v h.0 sound, h.1)

-- The list of pipes and the memory that they are mapped to are no part of what is kept.
map_at-EndsFine :
    (s slot p : ℕ) (sender : Bool) (at : Option (ℕ × ℕ)) (k : Kernel)
    → IsFine s k
    → EndsFine s (map_at slot p sender at k)
map_at-EndsFine s slot p sender none k h = stops
map_at-EndsFine s slot p sender (some (i, va)) k h =
    let v = k.pipe p in
    checked-EndsFine s ((k.pipe_mem slot i).pages == 0) k _ λ a.
      checked-EndsFine s (ltb i table_size) k _ λ b.
        checked-EndsFine s (not (double_mapped v) || ltb (i + 1) table_size) k _ λ c. fine (
          pipe_kept s p _ k h (elim (Bool-cases sender) [
            | inl sends ↦ rw sends (same_amounts v _ refl refl refl (h.0 p))
            | inr receives ↦ rw receives (same_amounts v _ refl refl refl (h.0 p))
          ]))

insert_pipe_in_gap-EndsFine :
    (s slot p : ℕ) (sender : Bool) (k : Kernel)
    → IsFine s k
    → EndsFine s (insert_pipe_in_gap slot p sender k)
unfolding insert_pipe_in_gap
insert_pipe_in_gap-EndsFine s slot p sender k h = map_at-EndsFine s slot p sender _ k h

pub set_sender_va-EndsFine :
    (s slot p : ℕ) (k : Kernel) → IsFine s k → EndsFine s (set_sender_va slot p k)
unfolding set_sender_va
set_sender_va-EndsFine s slot p k h =
    let v = k.pipe p in
    checked-EndsFine s (not (v.memory == 0)) k _ λ a.
      checked-EndsFine s (v.owner == 0 || v.owner == slot) k _ λ b.
        bind-EndsFine s _ _
          (either-EndsFine s (v.owner == 0) _ _ k (λ c. fine h)
            (λ c. fine (pipe_kept s p _ k h (same_amounts (k.pipe p) _ refl refl refl (h.0 p)))))
          λ d k1 h1.
            checked-EndsFine s (not (k.log_pipe == p)) k1 _
              λ e. insert_pipe_in_gap-EndsFine s slot p true k1 h1

pub set_receiver_va-EndsFine :
    (s slot p : ℕ) (k : Kernel) → IsFine s k → EndsFine s (set_receiver_va slot p k)
unfolding set_receiver_va
set_receiver_va-EndsFine s slot p k h =
    let v = k.pipe p in
    checked-EndsFine s (not (v.memory == 0)) k _ λ a.
      checked-EndsFine s (v.owner == 0 || v.owner == slot) k _ λ b.
        bind-EndsFine s _ _
          (either-EndsFine s (v.owner == 0) _ _ k (λ c. fine h)
            (λ c. fine (pipe_kept s p _ k h (same_amounts v _ refl refl refl (h.0 p)))))
          λ d k1 h1. insert_pipe_in_gap-EndsFine s slot p false k1 h1

pub space_or_block-EndsFine :
    (s p amount : ℕ) (k : Kernel) → IsFine s k → EndsFine s (space_or_block p amount k)
unfolding space_or_block
space_or_block-EndsFine s p amount k h =
    let v = k.pipe p in
    either-EndsFine s (leb amount (space_in_pipe v) || v.receiver == finished) _ _ k (λ a. fine h)
      λ b.
        stop_running_task-EndsFine s _
          (pipe_kept s p _ k h (same_amounts v _ refl refl refl (h.0 p)))

pub data_or_block-EndsFine :
    (s p amount : ℕ) (k : Kernel) → IsFine s k → EndsFine s (data_or_block p amount k)
unfolding data_or_block
data_or_block-EndsFine s p amount k h =
    let v = k.pipe p in
    either-EndsFine s (leb amount (data_in_pipe v) || v.sender == finished) _ _ k
      (λ a. checked-EndsFine s (k.regs.spsr / 0x10000000 % 2 == 0) _ _ λ b. fine h)
      λ b.
        stop_running_task-EndsFine s _
          (pipe_kept s p _ k h (same_amounts v _ refl refl refl (h.0 p)))

pub wake_receiver-EndsFine : (s p : ℕ) (k : Kernel) → IsFine s k → EndsFine s (wake_receiver p k)
unfolding wake_receiver make_runnable
wake_receiver-EndsFine s p k h =
    let v = k.pipe p in
    either-EndsFine s (ltb 0 v.receiver_waiting_for && leb v.receiver_waiting_for (data_in_pipe v))
      _ _ k (λ a. fine (pipe_kept s p _ k h (same_amounts v _ refl refl refl (h.0 p)))) λ b. fine h

pub wake_sender-EndsFine : (s p : ℕ) (k : Kernel) → IsFine s k → EndsFine s (wake_sender p k)
unfolding wake_sender make_runnable
wake_sender-EndsFine s p k h =
    let v = k.pipe p in
    either-EndsFine s (ltb 0 v.sender_waiting_for && leb v.sender_waiting_for (space_in_pipe v)) _ _
      k (λ a. fine (pipe_kept s p _ k h (same_amounts v _ refl refl refl (h.0 p)))) λ b. fine h

pub free_pipe-EndsFine : (s p : ℕ) (k : Kernel) → IsFine s k → EndsFine s (free_pipe p k)
unfolding free_pipe
free_pipe-EndsFine s p k h =
    let next = k.pipe_links.next p in
    let pipes : ℕ = if k.pipes == p then (if next == p then 0 else next) else k.pipes in
    checked-EndsFine s (not (pipes == p)) k _ λ a. fine h

pub unmapped-EndsFine :
    (s slot : ℕ) (t : Option Table) (k : Kernel) → IsFine s k → EndsFine s (unmapped slot t k)
unmapped-EndsFine s slot none k h = running
unmapped-EndsFine s slot (some t) k h = fine h
