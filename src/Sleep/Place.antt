-- ===== src/Sleep/Place.antt =====
-- When sleeping tasks wake, and where a task that goes to sleep belongs among them.
use simple_as_pi.Common.{
  ℕ, zero, suc, ◌+◌, ◌-◌, ◌<◌, ◌≡◌, refl, Bool, false, Option, some, List, [], ◌∷◌, ◌++◌, arith,
  ◌==◌, leb, if◌then◌else◌, inl, inr, Bool-cases, has, length, last,
}
use simple_as_pi.Tasks.{Tasks, set_r}
use simple_as_pi.Dll.Ring.{Trail}
use simple_as_pi.Sleep.{place_loop}

-- Ticks until `y` wakes, in a list with the delays `d`.
unfoldable pub due : (ℕ → ℕ) → ℕ → List ℕ → ℕ
due d y [] = 0
due d y (x ∷ xs) = d x + (if y == x then 0 else due d y xs)

-- The tasks that a task with `time` ticks to sleep goes behind, the others, and the ticks that it
-- still sleeps when the former have woken.
unfoldable pub before : (ℕ → ℕ) → ℕ → List ℕ → List ℕ
before d time [] = []
before d time (x ∷ xs) =
    if leb (d x) time then x ∷ (if time - d x == 0 then [] else before d (time - d x) xs) else []

unfoldable pub after : (ℕ → ℕ) → ℕ → List ℕ → List ℕ
after d time [] = []
after d time (x ∷ xs) =
    if leb (d x) time then (if time - d x == 0 then xs else after d (time - d x) xs) else x ∷ xs

unfoldable pub left : (ℕ → ℕ) → ℕ → List ℕ → ℕ
left d time [] = time
left d time (x ∷ xs) =
    if leb (d x) time then (if time - d x == 0 then 0 else left d (time - d x) xs) else time

abbrev pub first : ℕ → List ℕ → ℕ
first a [] = a
first a (x ∷ xs) = x

abbrev pub is_first : ℕ → List ℕ → Bool
is_first q [] = false
is_first q (x ∷ xs) = q == x

-- The delays after the insertion: the next task waits for the new one.
abbrev pub delays : (ℕ → ℕ) → ℕ → List ℕ → ℕ → ℕ
delays d time xs q = if is_first q (after d time xs) then d q - left d time xs else d q

pub before-append-after :
    (d : ℕ → ℕ) (time : ℕ) (xs : List ℕ) → before d time xs ++ after d time xs ≡ xs
unfolding before after
before-append-after d time [] = refl
before-append-after d time (x ∷ xs) = ground (arith, before-append-after d (time - d x) xs)

-- What the loop of put_to_sleep has done when it ends.
pub record Placed (head : ℕ) (time : ℕ) (xs : List ℕ) (s : Tasks) (o : Option (Tasks × ℕ × ℕ))
    : Type 0 where
  pub tasks : Tasks
  pub ends :
      o ≡ some (tasks, first head (after (λ q. s.r q 0) time xs), left (λ q. s.r q 0) time xs)
  pub same_links : tasks.links ≡ s.links
  pub delay : (q : ℕ) → tasks.r q 0 ≡ delays (λ q. s.r q 0) time xs q

pub place_loop-Placed :
    (fuel head t time : ℕ) (xs : List ℕ) (s : Tasks)
    → length xs < fuel
    → Trail s.links t xs
    → s.links.next (last t xs) ≡ head
    → has head xs ≡ false
    → Placed head time (t ∷ xs) s (place_loop fuel head t time s)
unfolding place_loop before after left
place_loop-Placed zero head t time xs s f tr e out = absurd (omega arith)
place_loop-Placed (suc fuel) head t time [] s f tr e out = elim (Bool-cases (leb (s.r t 0) time)) [
  | inl pass ↦ record {
    tasks = s;
    ends = ground (arith, pass, e);
    same_links = refl;
    delay = λ q. ground (arith, pass);
  }
  | inr stop ↦ record {
    tasks = set_r t 0 (s.r t 0 - time) s;
    ends = ground (arith, stop);
    same_links = refl;
    delay = λ q. ground (arith, stop);
  }
]
place_loop-Placed (suc fuel) head t time (x ∷ xs) s f tr e out =
    let ih =
      place_loop-Placed fuel head x (time - s.r t 0) xs s (omega arith) tr.2 e (ground arith) in
    elim (Bool-cases (leb (s.r t 0) time)) [
      | inl pass ↦ elim (Bool-cases (time - s.r t 0 == 0)) [
        | inl over ↦ record {
          tasks = s;
          ends = ground (arith, pass, over, tr.0);
          same_links = refl;
          delay = λ q. ground (arith, pass, over);
        }
        | inr more ↦ record {
          tasks = ih.tasks;
          ends = rw (pass, more, tr.0) (ground (arith, ih.ends, out));
          same_links = ih.same_links;
          delay = λ q. rw (pass, more) (ih.delay q);
        }
      ]
      | inr stop ↦ record {
        tasks = set_r t 0 (s.r t 0 - time) s;
        ends = ground (arith, stop);
        same_links = refl;
        delay = λ q. ground (arith, stop);
      }
    ]
