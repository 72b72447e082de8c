-- ===== src/Dll.antt =====
-- Utilities/doubly_linked_list.h: the operations that DLL_TYPE( T ) defines, over a store of the
-- `next` and `prev` pointers of every node. A list is known by a pointer to its head, 0 if empty;
-- an operation that is given `T * volatile*l` takes the head and returns the new one.
pub mod Attach
pub mod Ring
pub mod Splice
pub mod Lists
pub mod Move
use simple_as_pi.Common.{ℕ, zero, suc, ◌+◌, ◌-◌, ◌*◌, ◌==◌, if◌then◌else◌, update}

pub record Links : Type 0 where
  pub next : ℕ → ℕ
  pub prev : ℕ → ℕ

abbrev pub set_next : ℕ → ℕ → Links → Links
set_next p v s = record s { next = update s.next p v }

abbrev pub set_prev : ℕ → ℕ → Links → Links
set_prev p v s = record s { prev = update s.prev p v }

-- dll_new: a list of one item.
unfoldable pub dll_new : ℕ → Links → Links
dll_new i s = set_prev i i (set_next i i s)

-- The four writes of dll_attach to a list that is not empty.
abbrev pub attach_before : ℕ → ℕ → Links → Links
attach_before i head s =
    let s1 = set_next i head s in
    let s2 = set_prev i (s1.prev head) s1 in
    let s3 = set_next (s2.prev i) i s2 in set_prev head i s3

-- dll_attach: the item becomes the head.
unfoldable pub dll_attach : ℕ → ℕ → Links → Links × ℕ
dll_attach i l s = (if l == 0 then s else attach_before i l s, i)

unfoldable pub dll_detach : ℕ → Links → Links
dll_detach i s =
    let s1 = set_next (s.prev i) (s.next i) s in
    let s2 = set_prev (s1.next i) (s1.prev i) s1 in set_prev i i (set_next i i s2)

-- dll_move: from the list with head `l1` to that with head `l2`; returns both heads.
unfoldable pub dll_move : ℕ → ℕ → ℕ → Links → Links × ℕ × ℕ
dll_move i l1 l2 s =
    let l1' : ℕ = if l1 == i then (if s.next i == i then 0 else s.next i) else l1 in
    let l2' : ℕ = if l2 == 0 then i else l2 in
    let s1 = set_next (s.prev i) (s.next i) s in
    let s2 = set_prev (s1.next i) (s1.prev i) s1 in
    let s3 = set_next i l2' s2 in
    let s4 = set_prev i (s3.prev l2') s3 in
    let s5 = set_prev l2' i s4 in (set_next (s5.prev l2') i s5, l1', l2')

-- The writes of dll_replace, where `i1` is not the only item.
abbrev pub swap_in : ℕ → ℕ → Links → Links
swap_in i1 i2 s =
    let s1 = set_prev i2 (s.prev i1) s in
    let s2 = set_next i2 (s1.next i1) s1 in
    let s3 = set_next (s2.prev i2) i2 s2 in
    let s4 = set_prev (s3.next i2) i2 s3 in set_next i1 i1 (set_prev i1 i1 s4)

-- dll_replace: item `i2` takes the place of `i1`.
unfoldable pub dll_replace : ℕ → ℕ → ℕ → Links → Links × ℕ
dll_replace i1 i2 l s =
    if s.next i1 == i1 then (s, i2) else (swap_in i1 i2 s, if l == i1 then i2 else l)

-- The writes of dll_detach_until, where more than the whole list is left.
abbrev pub split_after : ℕ → ℕ → Links → Links
split_after first last s =
    let new_head = s.next last in
    let s1 = set_prev new_head (s.prev first) s in
    let s2 = set_next (s1.prev first) new_head s1 in set_prev first last (set_next last first s2)

-- dll_detach_Ts_until: all items from the head to `last` leave the list.
unfoldable pub dll_detach_until : ℕ → ℕ → Links → Links × ℕ
dll_detach_until l last s = if s.next last == l then (s, 0) else (split_after l last s, s.next last)

-- The writes of dll_insert_T_list_at_head, to a list that is not empty.
abbrev pub splice_before : ℕ → ℕ → Links → Links
splice_before insert old_head s =
    let old_last = s.prev old_head in
    let last = s.prev insert in
    let s1 = set_next last old_head s in
    let s2 = set_prev old_head last s1 in
    let s3 = set_prev insert old_last s2 in set_next old_last insert s3

unfoldable pub dll_insert_list_at_head : ℕ → ℕ → Links → Links × ℕ
dll_insert_list_at_head insert l s = (if l == 0 then s else splice_before insert l s, insert)

-- The loop of T_pool, over an array at `result` of items of `size` bytes.
unfoldable pub pool_loop : ℕ → ℕ → ℕ → ℕ → Links → Links
pool_loop zero result size i s = s
pool_loop (suc n) result size i s = pool_loop n result size (suc i) (
    set_prev (result + i * size) (result + i * size - size)
      (set_next (result + i * size) (result + suc i * size) s))

-- T_pool, with the address that `alloc` returned.
unfoldable pub pool : ℕ → ℕ → ℕ → Links → Links × ℕ
unfolding pool_loop
pool result number size s = (
  if result == 0
      then s
      else (let s1 = pool_loop number result size 0 s in
          set_prev result (result + (number - 1) * size)
            (set_next (result + (number - 1) * size) result s1)),
  result,
)
