-- ===== src/Controllers.antt =====
-- OSTask/ostask.h, push_controller to change_current_controller: the array of a task's
-- controllers, the current one first. The code under DEBUG__FOLLOW_CONTROLLERS is left out.
pub mod Stack
use simple_as_pi.Common.{
  ℕ, zero, suc, ◌+◌, ◌-◌, Bool, true, false, Option, none, some, ◌==◌, ltb, if◌then◌else◌, update,
}

-- MAX_CONTROLLERS
abbrev pub max_controllers : ℕ
max_controllers = 31

-- `while (task->controller[i] != 0) i++;`
unfoldable pub first_free : ℕ → ℕ → (ℕ → ℕ) → ℕ
first_free zero i c = i
first_free (suc fuel) i c = let rest = first_free fuel (suc i) c in if c i == 0 then i else rest

-- `while (i > 1) { task->controller[i] = task->controller[i-1]; i++; }`; `none`: still running.
unfoldable pub shift_loop : ℕ → ℕ → (ℕ → ℕ) → Option (ℕ → ℕ)
shift_loop zero i c = none
shift_loop (suc fuel) i c =
    let rest = shift_loop fuel (suc i) (update c i (c (i - 1))) in if ltb 1 i then rest else some c

abbrev pub push_first : ℕ → Option (ℕ → ℕ) → Option ((ℕ → ℕ) × Bool)
push_first controller none = none
push_first controller (some c) = some (update c 0 controller, true)

unfoldable pub push_controller : ℕ → ℕ → (ℕ → ℕ) → Option ((ℕ → ℕ) × Bool)
push_controller fuel controller c =
    if c (max_controllers - 1) == 0
    then push_first controller (shift_loop fuel (first_free max_controllers 0 c) c)
    else some (c, false)

-- The `for` loop of pop_controller, with `n` rounds left.
unfoldable pub pop_loop : ℕ → ℕ → (ℕ → ℕ) → ℕ → ℕ
pop_loop zero i c = c
pop_loop (suc n) i c =
    let rest = pop_loop n (suc i) (update c i (c (suc i))) in
    if c (suc i) == 0 then update c i (c (suc i)) else rest

unfoldable pub pop_controller : (ℕ → ℕ) → (ℕ → ℕ) × Bool
unfolding pop_loop
pop_controller c =
    if c 0 == 0
    then (c, false)
    else (update (pop_loop (max_controllers - 1) 0 c) (max_controllers - 1) 0, true)

unfoldable pub current_controller : (ℕ → ℕ) → ℕ
current_controller c = c 0

-- `none`: PANIC.
unfoldable pub change_current_controller : ℕ → (ℕ → ℕ) → Option (ℕ → ℕ)
change_current_controller new c = if c 0 == 0 then none else some (update c 0 new)
