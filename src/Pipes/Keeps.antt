-- ===== src/Pipes/Keeps.antt =====
-- The calls on pipes one by one: soundness of the pipes, the status of the caller, and failures.
use simple_as_pi.Common.{
  ℕ, ◌%◌, ◌^◌, ◌<◌, ◌≡◌, ◌⊎◌, refl, Bool, true, false, not, ◌&&◌, ◌||◌, inl, inr, Bool-cases, arith,
  ◌==◌, ltb, if◌then◌else◌,
}
use simple_as_pi.Pipe.{Pipe, finished, data_in_pipe, space_in_pipe}
use simple_as_pi.Pipe.Amounts.{IsSound, fill_pipe_amounts, drain_pipe_amounts}
use simple_as_pi.Dll.{Links}
use simple_as_pi.Mpsafe.{detach_head}
use simple_as_pi.Kernel.{
  Kernel, Run, ok, M, Error, not_a_task, not_your_pipe, overfilled_pipe, not_that_much_available,
  pipe_creation_error, pipe_creation_problem, error, ostask_from_handle,
}
use simple_as_pi.Pipes.{
  wait_for_space, space_filled, pipe_set_sender, unread_data, no_more_data, wait_for_data,
  data_consumed, pipe_set_receiver, not_listening,
}
use simple_as_pi.Pipes.Create.{check_memory, new_pipe, attach_pipe, pipe_create}
use simple_as_pi.Pipes.Ends.{failed}
use simple_as_pi.Pipes.Invariant.{
  AllSound, IsFine, EndsFine, fine, same_amounts, bind-EndsFine, either-EndsFine, checked-EndsFine,
  check-EndsFine, pipe_kept, set_sender_va-EndsFine, set_receiver_va-EndsFine,
  space_or_block-EndsFine, data_or_block-EndsFine, wake_receiver-EndsFine, wake_sender-EndsFine,
  free_pipe-EndsFine, unmapped-EndsFine,
}

-- The call keeps the pipes sound and the caller's status, or it fails and changes nothing else.
abbrev pub Keeps : Kernel → Run ℕ → Type 0
Keeps k o = EndsFine k.regs.spsr o ⊎ ((e : Error) × (o ≡ ok 0 (failed e k)))

error-Keeps :
    (b : Bool) (e : Error) (m : M ℕ) (k : Kernel)
    → (b ≡ false → Keeps k (m k))
    → Keeps k ((if b then error e else m) k)
unfolding error
error-Keeps true e m k h = inr (e, refl)
error-Keeps false e m k h = h refl

pub wait_for_space-Keeps : (p : ℕ) (k : Kernel) → AllSound k.pipe → Keeps k (wait_for_space p k)
unfolding wait_for_space
wait_for_space-Keeps p k all =
    let v = k.pipe p in
    let s = k.regs.spsr in
    let normal = not (p == k.log_pipe) in
    error-Keeps (not (v.sender == k.running) && not (v.sender == 0) && normal) not_your_pipe _ k
      λ a. inl (
        bind-EndsFine s _ _
          (either-EndsFine s (normal && v.sender == 0) _ _ k
            (λ b. fine (pipe_kept s p _ k (all, refl) (same_amounts v _ refl refl refl (all p))))
            (λ b. fine (all, refl)))
          λ c k1 h1.
            bind-EndsFine s _ _
              (either-EndsFine s (v.sender_va == 0) _ _ k1
                (λ d. checked-EndsFine s normal k1 _ λ e. set_sender_va-EndsFine s _ p k1 h1)
                (λ d. fine h1))
              λ f k2 h2. space_or_block-EndsFine s p _ k2 h2)

pub wait_for_data-Keeps : (p : ℕ) (k : Kernel) → AllSound k.pipe → Keeps k (wait_for_data p k)
unfolding wait_for_data
wait_for_data-Keeps p k all =
    let v = k.pipe p in
    let s = k.regs.spsr in
    error-Keeps (not (v.receiver == k.running) && not (v.receiver == 0)) not_your_pipe _ k λ a.
      inl (
        bind-EndsFine s _ _
          (either-EndsFine s (v.receiver == 0) _ _ k
            (λ b. fine (pipe_kept s p _ k (all, refl) (same_amounts v _ refl refl refl (all p))))
            (λ b. fine (all, refl)))
          λ c k1 h1. checked-EndsFine s ((k1.pipe p).receiver == k1.running) k1 _ λ d.
            bind-EndsFine s _ _
              (either-EndsFine s
                (v.receiver_va == 0 && (not (v.max_block_size == 0) || not (v.max_data == 0))) _ _
                k1 (λ e. set_receiver_va-EndsFine s _ p k1 h1) (λ e. fine h1))
              λ f k2 h2.
                checked-EndsFine s (not ((k2.pipe p).receiver_va == 0)) k2 _
                  λ g. data_or_block-EndsFine s p _ k2 h2)

pub space_filled-Keeps : (p : ℕ) (k : Kernel) → AllSound k.pipe → Keeps k (space_filled p k)
unfolding space_filled
space_filled-Keeps p k all =
    let v = k.pipe p in
    let s = k.regs.spsr in
    error-Keeps (not (v.sender == k.running) && not (p == k.log_pipe)) not_your_pipe _ k λ a.
      error-Keeps (ltb (space_in_pipe v) (k.regs.r 1)) overfilled_pipe _ k λ b. inl (
        let filled = fill_pipe_amounts (k.regs.r 1) v (all p) (ground (arith, b)) in
        checked-EndsFine s (not (v.receiver == 0 && not (v.receiver_waiting_for == 0))) _ _ λ c.
          checked-EndsFine s (not (v.receiver == k.running && not (v.receiver_waiting_for == 0))) _
            _
            λ d.
              bind-EndsFine s _ _
                (wake_receiver-EndsFine s p _ (pipe_kept s p _ k (all, refl) filled.2))
                λ e k1 h1. fine h1)

pub data_consumed-Keeps : (p : ℕ) (k : Kernel) → AllSound k.pipe → Keeps k (data_consumed p k)
unfolding data_consumed
data_consumed-Keeps p k all =
    let v = k.pipe p in
    let s = k.regs.spsr in
    error-Keeps (not (v.receiver == k.running)) not_your_pipe _ k λ a.
      error-Keeps (ltb (data_in_pipe v) (k.regs.r 1)) not_that_much_available _ k λ b. inl (
        let drained = drain_pipe_amounts (k.regs.r 1) v (all p) (ground (arith, b)) in
        bind-EndsFine s _ _ (wake_sender-EndsFine s p _ (pipe_kept s p _ k (all, refl) drained.2))
          λ c k1 h1. fine h1)

pub unread_data-Keeps : (p : ℕ) (k : Kernel) → AllSound k.pipe → Keeps k (unread_data p k)
unfolding unread_data
unread_data-Keeps p k all = inl (fine (all, refl))

pub no_more_data-Keeps : (p : ℕ) (k : Kernel) → AllSound k.pipe → Keeps k (no_more_data p k)
unfolding no_more_data
no_more_data-Keeps p k all =
    let v = k.pipe p in
    let s = k.regs.spsr in
    let ended =
      pipe_kept s p (record v { sender = finished }) k (all, refl)
        (same_amounts v _ refl refl refl (all p)) in
    inl (
      bind-EndsFine s _ _
        (either-EndsFine s (v.receiver == finished) _ _ _ (λ a. free_pipe-EndsFine s p _ ended)
          (λ a. check-EndsFine s (v.receiver_waiting_for == 0) _ ended))
        λ b k1 h1. fine h1)

pub not_listening-Keeps : (p : ℕ) (k : Kernel) → AllSound k.pipe → Keeps k (not_listening p k)
unfolding not_listening
not_listening-Keeps p k all =
    let v = k.pipe p in
    let s = k.regs.spsr in
    let ended =
      pipe_kept s p (record v { receiver = finished }) k (all, refl)
        (same_amounts v _ refl refl refl (all p)) in
    inl (
      bind-EndsFine s _ _
        (either-EndsFine s (v.sender == finished) _ _ _ (λ a. free_pipe-EndsFine s p _ ended)
          (λ a. check-EndsFine s (v.sender_waiting_for == 0) _ ended))
        λ b k1 h1. fine h1)

pub pipe_set_sender-Keeps :
    (fuel p : ℕ) (k : Kernel) → AllSound k.pipe → Keeps k (pipe_set_sender fuel p k)
unfolding pipe_set_sender
pipe_set_sender-Keeps fuel p k all =
    let v = k.pipe p in
    let s = k.regs.spsr in
    let task = ostask_from_handle (k.regs.r 1) in
    let moves = v.sender == 0 || task == 0 || not (k.tasks.slot v.sender == k.tasks.slot task) in
    error-Keeps (not (v.sender == 0) && not (v.sender == k.running)) not_your_pipe _ k λ a.
      error-Keeps (not (k.regs.r 1 == 0) && task == 0) not_a_task _ k λ b. inl (
        bind-EndsFine s _ _
          (either-EndsFine s (moves && not (v.sender == 0)) _ _ k
            (λ c. unmapped-EndsFine s _ _ k (all, refl)) (λ c. fine (all, refl)))
          λ d k1 h1. fine (pipe_kept s p _ k1 h1 (same_amounts v _ refl refl refl (all p))))

pub pipe_set_receiver-Keeps :
    (fuel p : ℕ) (k : Kernel) → AllSound k.pipe → Keeps k (pipe_set_receiver fuel p k)
unfolding pipe_set_receiver
pipe_set_receiver-Keeps fuel p k all =
    let v = k.pipe p in
    let s = k.regs.spsr in
    let task = ostask_from_handle (k.regs.r 1) in
    let moves =
      v.receiver == 0 || task == 0 || not (k.tasks.slot v.receiver == k.tasks.slot task) in
    error-Keeps (not (v.receiver == 0) && not (v.receiver == k.running)) not_your_pipe _ k λ a.
      error-Keeps (not (k.regs.r 1 == 0) && task == 0) not_a_task _ k λ b. inl (
        bind-EndsFine s _ _
          (either-EndsFine s moves _ _ k
            (λ c. fine (pipe_kept s p _ k (all, refl) (same_amounts v _ refl refl refl (all p))))
            (λ c. fine (all, refl)))
          λ d k1 h1.
            bind-EndsFine s _ _
              (either-EndsFine s (moves && not (v.receiver == 0)) _ _ k1
                (λ e. unmapped-EndsFine s _ _ k1 h1) (λ e. fine h1))
              λ f k2 h2.
                fine (pipe_kept s p _ k2 h2 (same_amounts (k2.pipe p) _ refl refl refl (h2.0 p))))

check_memory-EndsFine :
    (s b a page : ℕ) (k : Kernel) → IsFine s k → EndsFine s (check_memory b a page k)
unfolding check_memory
check_memory-EndsFine s b a page k h =
    either-EndsFine s (a == 0) _ _ k
      (λ c.
        checked-EndsFine s (b % 2 ^ 12 == 0) k _
          λ d. check-EndsFine s (not (page == 0 || page == 0xffffffff)) k h)
      λ c. fine h

new_pipe-IsSound : (task slot b m a page : ℕ) → b < 2 ^ 32 → IsSound (new_pipe task slot b m a page)
unfolding data_in_pipe
new_pipe-IsSound task slot b m a page small = record {
  fits = omega arith;
  size_word = small;
  write_word = omega arith;
  read_word = omega arith;
}

attach_pipe-EndsFine :
    (s p : ℕ) (v : Pipe) (k : Kernel) → IsFine s k → IsSound v → EndsFine s (attach_pipe p v k)
attach_pipe-EndsFine s p v k h sound = fine (pipe_kept s p v k h sound)

detach_head_empty : (s : Links) (l : ℕ) → (l == 0) ≡ true → detach_head l s ≡ (s, l, 0)
unfolding detach_head
detach_head_empty s l e = rw e refl

detach_head_some : (s : Links) (l : ℕ) → (l == 0) ≡ false → ((detach_head l s).2 == 0) ≡ false
unfolding detach_head
detach_head_some s l e = elim (Bool-cases (s.next l == l)) [
  | inl only ↦ rw (e, only) e
  | inr more ↦ rw (e, more) e
]

pub pipe_create-Keeps :
    (page : ℕ) (k : Kernel) → AllSound k.pipe → k.regs.r 1 < 2 ^ 32 → Keeps k (pipe_create page k)
unfolding pipe_create error
pipe_create-Keeps page k all small =
    let s = k.regs.spsr in
    error-Keeps (not (k.regs.r 2 == 0) && ltb (k.regs.r 2) (k.regs.r 1)) pipe_creation_error _ k
      λ a. elim (Bool-cases (k.pipe_pool == 0)) [
        | inl empty ↦
            rw (detach_head_empty k.pipe_links k.pipe_pool empty)
              (inr (pipe_creation_problem, refl))
        | inr some_pipe ↦ rw (detach_head_some k.pipe_links k.pipe_pool some_pipe) (
            inl (
              bind-EndsFine s _ _ (check_memory-EndsFine s _ _ page _ (all, refl)) λ b k1 h1.
                attach_pipe-EndsFine s _ _ k1 h1 (
                  new_pipe-IsSound k.running (k.tasks.slot k.running) _ (k.regs.r 2) (k.regs.r 3)
                    page small)))
      ]
