-- ===== src/Mpsafe.antt =====
-- Utilities/mpsafe_dll.h, MPSAFE_DLL_TYPE( T ): lists that several cores change. A head word of 1
-- says that a core is changing the list; it takes the word by change_word_if_equal
-- (Processor/processor.h), works on the list that the old word heads, and stores the new head.
pub mod Fifo
pub mod Protocol
pub mod Atomic
use simple_as_pi.Common.{ℕ, ◌≡◌, ◌≢◌, Bool, true, false, ◌==◌, if◌then◌else◌, update}
use simple_as_pi.Dll.{Links, dll_attach, dll_detach}

-- DO_NOT_USE_detach_T_head; the last part of the result is the item, or 0.
unfoldable pub detach_head : ℕ → Links → Links × ℕ × ℕ
detach_head head s =
    if head == 0
    then (s, head, 0)
    else if s.next head == head
    then (s, 0, head)
    else (dll_detach head s, s.next head, head)

-- DO_NOT_USE_detach_T, of the item `i`.
unfoldable pub detach_item : ℕ → ℕ → Links → Links × ℕ × ℕ
detach_item i head s = if s.next i == i then (s, 0, i) else (dll_detach i s, s.next i, i)

-- DO_NOT_USE_insert_tail_T: attach as the head, then step over the item.
unfoldable pub insert_tail : ℕ → ℕ → Links → Links × ℕ
insert_tail i head s =
    if head == 0 then (s, i) else (let t = dll_attach i head s in (t.0, t.0.next t.1))

-- A call: mpsafe_manipulate_T_list_returning_item with its update function (that of
-- mpsafe_manipulate_T_list returns nothing, 0 here), mpsafe_insert_T_at_head and
-- mpsafe_insert_T_after_head.
pub data Op : Type 0 where
  manipulate : (ℕ → Links → Links × ℕ × ℕ) → Op
  insert_at_head : ℕ → Op
  insert_after_head : ℕ → Op

-- What a core does to the list while it has the head word: the links, the new head, the result.
-- An item that is put into an empty list by an insertion is the new head.
unfoldable pub work : Op → ℕ → Links → Links × ℕ × ℕ
work (manipulate u) old s = u old s
work (insert_at_head i) old s = let t = dll_attach i old s in (t.0, t.1, 0)
work (insert_after_head i) old s =
    if old == 0 then (s, i, 0) else ((dll_attach i (s.next old) s).0, old, 0)

-- mpsafe_detach_T_at_head and mpsafe_insert_T_at_tail.
abbrev pub detach_at_head : Op
detach_at_head = manipulate detach_head

abbrev pub insert_at_tail : ℕ → Op
insert_at_tail i = manipulate (λ head s. let t = insert_tail i head s in (t.0, t.1, 0))

-- Shared memory: the head word and the links.
pub record Memory : Type 0 where
  pub word : ℕ
  pub links : Links

-- Where a core stands in a call, with the locals that are live there.
pub data Pc : Type 0 where
  idle : Pc
  enter : Op → Pc  -- the top of `for (;;)`
  seen : Op → ℕ → Pc  -- the head word has been read
  holding : Op → ℕ → Pc  -- the word has been replaced by 1; the old one is kept
  releasing : ℕ → ℕ → Pc  -- the list has been changed; the new head, and the result
  done : ℕ → Pc  -- the result

-- Does the call store the item itself when the list is empty?
abbrev pub direct : Op → Bool
direct (manipulate _) = false
direct _ = true

abbrev pub item_of : Op → ℕ
item_of (manipulate _) = 0
item_of (insert_at_head i) = i
item_of (insert_after_head i) = i

-- One step of one core. `Allowed` are the calls that the program makes.
pub data Move (Allowed : Op → Type 0) (m : Memory) : Pc → Memory → Pc → Type 0 where
  call : {op : Op} → Allowed op → Move Allowed m idle m (enter op)
  read : {op : Op} → Move Allowed m (enter op) m (seen op m.word)
  -- wait_for_event, then round again
  wait : {op : Op} {v : ℕ} → v ≡ 1 → Move Allowed m (seen op v) m (enter op)
  -- change_word_if_equal finds another word
  lose : {op : Op} {v : ℕ} → v ≢ 1 → m.word ≢ v → Move Allowed m (seen op v) m (enter op)
  -- it stores the item in an empty list
  store :
      {op : Op} {v : ℕ}
      → v ≡ 0
      → direct op ≡ true
      → m.word ≡ v
      → Move Allowed m (seen op v) (record m { word = item_of op }) (done 0)
  -- it stores 1
  take :
      {op : Op} {v : ℕ}
      → v ≢ 1
      → (v ≡ 0 → direct op ≡ false)
      → m.word ≡ v
      → Move Allowed m (seen op v) (record m { word = 1 }) (holding op v)
  change :
      {op : Op} {v : ℕ}
      → Move Allowed m
          (holding op v)
          (record m { links = (work op v m.links).0 })
          (releasing (work op v m.links).1 (work op v m.links).2)
  release : {h r : ℕ} → Move Allowed m (releasing h r) (record m { word = h }) (done r)
  return : {r : ℕ} → Move Allowed m (done r) m idle

pub record System : Type 0 where
  pub memory : Memory
  pub pc : ℕ → Pc

-- Any core may move.
pub data Step (Allowed : Op → Type 0) (s : System) : System → Type 0 where
  step :
      (i : ℕ) {m : Memory} {p : Pc}
      → Move Allowed s.memory (s.pc i) m p
      → Step Allowed s (record { memory = m; pc = update s.pc i p })

pub data Reach (Allowed : Op → Type 0) (s : System) : System → Type 0 where
  start : Reach Allowed s s
  later : {t u : System} → Reach Allowed s t → Step Allowed t u → Reach Allowed s u
