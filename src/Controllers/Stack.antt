-- ===== src/Controllers/Stack.antt =====
-- How far the array of controllers is a stack.
use mathlib.Core.Path.{subst, sym}
use simple_as_pi.Common.{
  ℕ, zero, suc, ◌+◌, ◌-◌, ◌≤◌, ◌<◌, ◌≡◌, refl, ◌≢◌, true, false, none, some, List, [], ◌∷◌, arith,
  ◌==◌, update, length,
}
use simple_as_pi.Controllers.{
  max_controllers, first_free, shift_loop, push_controller, pop_loop, pop_controller,
}

-- From entry `i` on the array holds the controllers `xs`, and 0 behind them where there is room.
abbrev pub Holds : (ℕ → ℕ) → ℕ → List ℕ → Type 0
Holds c i [] = i < max_controllers → c i ≡ 0
Holds c i (x ∷ xs) = (c i ≡ x) × (x ≢ 0) × Holds c (suc i) xs

Holds-frame :
    (c e : ℕ → ℕ) (i : ℕ) (xs : List ℕ)
    → ((j : ℕ) → i ≤ j → j < max_controllers → e j ≡ c j)
    → i + length xs ≤ max_controllers
    → Holds c i xs
    → Holds e i xs
Holds-frame c e i [] same f h = λ l. ground (arith, same i, h l)
Holds-frame c e i (x ∷ xs) same f h = (
  ground (arith, same i, h.0),
  h.1,
  Holds-frame c e (suc i) xs (λ j l. same j (omega arith)) (omega arith) h.2,
)

pop_loop-below : (n i j : ℕ) (c : ℕ → ℕ) → j < i → pop_loop n i c j ≡ c j
unfolding pop_loop
pop_loop-below zero i j c l = refl
pop_loop-below (suc n) i j c l = ground (arith, pop_loop-below n (suc i) j (update c i (c (suc i))))

pop_loop-Holds :
    (n i : ℕ) (xs : List ℕ) (c : ℕ → ℕ)
    → n + i ≡ 30
    → suc i + length xs ≤ 31
    → Holds c (suc i) xs
    → Holds (update (pop_loop n i c) 30 0) i xs
unfolding pop_loop
pop_loop-Holds zero i [] c e f h = λ l. ground arith
pop_loop-Holds (suc n) i [] c e f h = λ l. ground (arith, h (omega arith))
pop_loop-Holds zero i (x ∷ xs) c e f h = absurd (omega arith)
pop_loop-Holds (suc n) i (x ∷ xs) c e f h =
    let more : (c (suc i) == 0) ≡ false = ground (arith, h) in
    let rest =
      pop_loop-Holds n (suc i) xs (update c i (c (suc i))) (omega arith) (omega arith)
        (Holds-frame c _ (suc (suc i)) xs (λ j l _. ground arith) (omega arith) h.2) in
    let step : pop_loop (suc n) i c ≡ pop_loop n (suc i) (update c i (c (suc i))) = rw more in
    subst (λ l. Holds (update l 30 0) i (x ∷ xs)) (sym step)
      (ground (arith, pop_loop-below n (suc i) i (update c i (c (suc i))), h.0), h.1, rest)

-- pop_controller, of a task with one to 31 controllers, takes the current one off, and every other
-- moves up by one.
pub pop_controller-Holds :
    (x : ℕ) (xs : List ℕ) (c : ℕ → ℕ)
    → length (x ∷ xs) ≤ max_controllers
    → Holds c 0 (x ∷ xs)
    → ((pop_controller c).1 ≡ true) × Holds (pop_controller c).0 0 xs
unfolding pop_controller
pop_controller-Holds x xs c f h =
    let some_first : (c 0 == 0) ≡ false = ground (arith, h) in
    rw some_first (refl, pop_loop-Holds 30 0 xs c (omega arith) (omega arith) h.2)

first_free-Holds :
    (fuel i : ℕ) (xs : List ℕ) (c : ℕ → ℕ)
    → length xs < fuel
    → i + length xs < max_controllers
    → Holds c i xs
    → first_free fuel i c ≡ i + length xs
unfolding first_free
first_free-Holds zero i xs c f g h = absurd (omega arith)
first_free-Holds (suc fuel) i [] c f g h = ground (arith, h (omega arith))
first_free-Holds (suc fuel) i (x ∷ xs) c f g h =
    ground (arith, h, first_free-Holds fuel (suc i) xs c (omega arith) (omega arith) h.2)

-- Once the loop that shifts the entries is entered it does not end.
shift_loop-none : (fuel i : ℕ) (c : ℕ → ℕ) → 1 < i → shift_loop fuel i c ≡ none
unfolding shift_loop
shift_loop-none zero i c l = refl
shift_loop-none (suc fuel) i c l =
    ground (arith, shift_loop-none fuel (suc i) (update c i (c (i - 1))))

shift_loop-some : (fuel i : ℕ) (c : ℕ → ℕ) → 0 < fuel → i ≤ 1 → shift_loop fuel i c ≡ some c
unfolding shift_loop
shift_loop-some zero i c f l = absurd (omega arith)
shift_loop-some (suc fuel) i c f l = ground arith

-- push_controller, of a task with one controller at most, makes the new one the current and only
-- one: an old one is lost.
pub push_controller-Holds :
    (fuel x : ℕ) (xs : List ℕ) (c : ℕ → ℕ)
    → 0 < fuel
    → x ≢ 0
    → length xs ≤ 1
    → Holds c 0 xs
    → c 1 ≡ 0
    → c 30 ≡ 0
    → (push_controller fuel x c ≡ some (update c 0 x, true)) × Holds (update c 0 x) 0 (x ∷ [])
unfolding push_controller
push_controller-Holds fuel x xs c f ne short h second last =
    let room : (c 30 == 0) ≡ true = ground (arith, last) in
    let at = first_free-Holds 31 0 xs c (omega arith) (omega arith) h in
    (rw (room, at, shift_loop-some fuel (0 + length xs) c f (omega arith)), (refl, ne, λ l. second))

-- push_controller, of a task with two to 30 controllers, does not end, whatever the fuel.
pub push_controller_stuck :
    (fuel x y z : ℕ) (xs : List ℕ) (c : ℕ → ℕ)
    → length xs < 29
    → Holds c 0 (y ∷ z ∷ xs)
    → c 30 ≡ 0
    → push_controller fuel x c ≡ none
unfolding push_controller
push_controller_stuck fuel x y z xs c f h last =
    let room : (c 30 == 0) ≡ true = ground (arith, last) in
    let at = first_free-Holds 31 0 (y ∷ z ∷ xs) c (omega arith) (omega arith) h in
    rw (room, at, shift_loop-none fuel (0 + length (y ∷ z ∷ xs)) c (omega arith))
