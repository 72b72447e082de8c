-- ===== src/Tests/Shared.antt =====
-- A queue of two items that cores take items from.
use simple_as_pi.Common.{ℕ, ◌≡◌, refl, ◌≢◌, false, List, [], ◌∷◌, arith, has, update}
use simple_as_pi.Dll.{Links}
use simple_as_pi.Dll.Ring.{IsList}
use simple_as_pi.Mpsafe.{
  Op, work, idle, enter, detach_head, detach_at_head, call, read, take, seen, holding, System, Step,
  step, Reach, start, later,
}
use simple_as_pi.Mpsafe.Fifo.{detach_head-IsList}
use simple_as_pi.Mpsafe.Protocol.{open_list, Inv}
use simple_as_pi.Mpsafe.Atomic.{Effect, Step-Effect, Reach-holds, never_together}
use simple_as_pi.Tests.State.{some_links, runnable_list}

abbrev Taking : Op → Type 0
Taking op = op ≡ detach_at_head

-- The list with head `h` is a queue of some items, not of the address 1.
abbrev IsQueue : ℕ → Links → Type 0
IsQueue h s = (xs : List ℕ) × IsList s h xs × (has 1 xs ≡ false)

head_apart : (h : ℕ) (s : Links) → IsQueue h s → h ≢ 1
head_apart h s ([], e, o) = ground (arith, e)
head_apart h s (x ∷ xs, e, o) = ground (arith, e)

take-IsQueue : (h : ℕ) (s : Links) → IsQueue h s → IsQueue (detach_head h s).1 (detach_head h s).0
unfolding detach_head
take-IsQueue h s ([], e, o) = ([], ground (arith, e), refl)
take-IsQueue h s (x ∷ xs, e, o) =
    let (got, alone, rest) = detach_head-IsList s h x xs e in (xs, rest, ground (arith, o))

Taking-IsQueue :
    (op : Op) (h : ℕ) (s : Links)
    → Taking op
    → IsQueue h s
    → IsQueue (work op h s).1 (work op h s).0
unfolding work
Taking-IsQueue op h s e q = rw e (take-IsQueue h s q)

abbrev quiet : System
quiet = record { memory = record { word = 21; links = some_links }; pc = λ j. idle }

abbrev entered : System
entered = record quiet { pc = update (λ j. idle) 3 (enter detach_at_head) }

known : Inv Taking quiet 21
known = record { view = open_list refl (ground arith) (λ j. refl); sound = λ j. tt }

some-IsQueue : IsQueue 21 some_links
some-IsQueue = (21 ∷ 22 ∷ [], runnable_list, refl)

enters : Step Taking quiet entered
enters = step 3 (call refl)

Step-Effect_example :
    (h' : ℕ) × Inv Taking entered h'
    × IsQueue h' some_links
    × Effect Taking 21 some_links h' some_links
Step-Effect_example = Step-Effect Taking IsQueue head_apart Taking-IsQueue known some-IsQueue enters

Reach-holds_example : (h' : ℕ) × Inv Taking entered h' × IsQueue h' some_links
Reach-holds_example =
    Reach-holds Taking IsQueue head_apart Taking-IsQueue known some-IsQueue (later start enters)

abbrev looking : System
looking = record quiet { pc = update entered.pc 3 (seen detach_at_head 21) }

-- Core 3 has the head word.
abbrev working : System
working = record {
  memory = record { word = 1; links = some_links };
  pc = update looking.pc 3 (holding detach_at_head 21);
}

reaches : Reach Taking quiet working
reaches =
    later (later (later start enters) (step 3 read))
      (step 3 (take (ground arith) (λ z. absurd (ground arith)) refl))

never_together_example : ◌≡◌ {A = ℕ} 3 3
never_together_example =
    never_together Taking IsQueue head_apart Taking-IsQueue 3 3 known some-IsQueue reaches refl refl
