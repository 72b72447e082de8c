-- ===== src/Mpsafe/Protocol.antt =====
-- Who has the head word of a shared list, and which head the list then has.
use simple_as_pi.Common.{ℕ, ◌≡◌, refl, ◌≢◌, Bool, true, false, arith, update}
use simple_as_pi.Mpsafe.{Op, Memory, Pc, idle, enter, seen, holding, releasing, done, System}

-- The core has replaced the head word by 1 and has not stored a head since.
abbrev pub critical : Pc → Bool
critical (holding _ _) = true
critical (releasing _ _) = true
critical _ = false

-- The head that a core keeps from the others while it works on the list.
abbrev pub kept_head : Pc → ℕ
kept_head (holding _ old) = old
kept_head (releasing h _) = h
kept_head _ = 0

abbrev pub IsSound : (Op → Type 0) → Pc → Type 0
IsSound Allowed idle = Unit {0}
IsSound Allowed (enter op) = Allowed op
IsSound Allowed (seen op _) = Allowed op
IsSound Allowed (holding op old) = Allowed op × (old ≢ 1)
IsSound Allowed (releasing h _) = h ≢ 1
IsSound Allowed (done _) = Unit {0}

-- The list has head `h`: in the head word, or kept by the one core that has it.
pub data View (s : System) (h : ℕ) : Type 0 where
  open_list : s.memory.word ≡ h → h ≢ 1 → ((j : ℕ) → critical (s.pc j) ≡ false) → View s h
  taken :
      (i : ℕ)
      → s.memory.word ≡ 1
      → critical (s.pc i) ≡ true
      → kept_head (s.pc i) ≡ h
      → ((j : ℕ) → critical (s.pc j) ≡ true → j ≡ i)
      → View s h

pub record Inv (Allowed : Op → Type 0) (s : System) (h : ℕ) : Type 0 where
  pub view : View s h
  pub sound : (j : ℕ) → IsSound Allowed (s.pc j)

-- Two cores are never at work on the list together.
pub View-exclusive :
    {s : System} {h : ℕ}
    → View s h
    → (i j : ℕ) → critical (s.pc i) ≡ true
    → critical (s.pc j) ≡ true
    → i ≡ j
View-exclusive (open_list _ _ out) i j a b = ground (arith, out i)
View-exclusive (taken _ _ _ _ only) i j a b = ground (arith, only i, only j)

-- A step that leaves the word, and whether the core is at work, as they were.
pub View-stay :
    {s : System} {h : ℕ} (m : Memory) (i : ℕ) (p' : Pc)
    → View s h
    → m.word ≡ s.memory.word
    → critical (s.pc i) ≡ false
    → critical p' ≡ false
    → View (record { memory = m; pc = update s.pc i p' }) h
View-stay m i p' (open_list w ne out) e a b =
    open_list (ground arith) ne (λ j. ground (arith, out j))
View-stay m i p' (taken k w c kept only) e a b =
    taken k (ground arith) (ground arith) (ground arith) (λ j q. ground (arith, only j))

pub View-store :
    {s : System} {h : ℕ} (m : Memory) (i : ℕ) (p' : Pc)
    → View s h
    → s.memory.word ≢ 1
    → m.word ≢ 1
    → critical p' ≡ false
    → View (record { memory = m; pc = update s.pc i p' }) m.word
View-store m i p' (open_list w ne out) o e b = open_list refl e (λ j. ground (arith, out j))
View-store m i p' (taken k w c kept only) o e b = absurd (o w)

pub View-take :
    {s : System} {h : ℕ} (m : Memory) (i : ℕ) (p' : Pc)
    → View s h
    → s.memory.word ≢ 1
    → m.word ≡ 1
    → critical p' ≡ true
    → kept_head p' ≡ s.memory.word
    → View (record { memory = m; pc = update s.pc i p' }) h
View-take m i p' (open_list w ne out) o e b k =
    taken i e (ground arith) (ground arith) (λ j q. ground (arith, out j))
View-take m i p' (taken k w c kept only) o e b _ = absurd (o w)

pub View-change :
    {s : System} {h : ℕ} (m : Memory) (i : ℕ) (p' : Pc)
    → View s h
    → m.word ≡ s.memory.word
    → critical (s.pc i) ≡ true
    → critical p' ≡ true
    → View (record { memory = m; pc = update s.pc i p' }) (kept_head p')
View-change m i p' (open_list w ne out) o e b = absurd (ground (arith, out i))
View-change m i p' (taken k w c kept only) o e b =
    taken i (ground arith) (ground arith) (ground arith) (λ j q. ground (arith, only i, only j))

pub View-release :
    {s : System} {h : ℕ} (m : Memory) (i : ℕ) (p' : Pc)
    → View s h
    → critical (s.pc i) ≡ true
    → m.word ≡ kept_head (s.pc i)
    → m.word ≢ 1
    → critical p' ≡ false
    → View (record { memory = m; pc = update s.pc i p' }) h
View-release m i p' (open_list w ne out) c e o b = absurd (ground (arith, out i))
View-release m i p' (taken k w c' kept only) c e o b =
    open_list (ground (arith, only i)) (ground (arith, only i))
      (λ j. ground (arith, only i, only j))

-- The head that a core at work keeps is the head of the list.
pub View-kept :
    {s : System} {h : ℕ} (i : ℕ) → View s h → critical (s.pc i) ≡ true → kept_head (s.pc i) ≡ h
View-kept i (open_list w ne out) c = absurd (ground (arith, out i))
View-kept i (taken k w c' kept only) c = ground (arith, only i)

-- The head of a list that no core works on is the head word.
pub View-word : {s : System} {h : ℕ} → View s h → s.memory.word ≢ 1 → s.memory.word ≡ h
View-word (open_list w ne out) o = w
View-word (taken k w c kept only) o = absurd (o w)
