-- ===== src/Sleep.antt =====
-- OSTask/sleep.c: the list of sleeping tasks. The r0 of a sleeping task counts the ticks from the
-- waking of the task before it in the list to its own. `head` is the list's head; an update
-- function returns the new one.
pub mod Place
pub mod Due
pub mod Add
pub mod Tick
pub mod Runnable
use simple_as_pi.Common.{
  ℕ, zero, suc, ◌+◌, ◌-◌, ◌%◌, ◌^◌, Option, none, some, ◌==◌, ltb, leb, not, ◌&&◌, if◌then◌else◌,
}
use simple_as_pi.Dll.{dll_attach, dll_detach_until, dll_insert_list_at_head}
use simple_as_pi.Tasks.{Tasks, set_r, with_links}

-- The `for (;;)` of put_to_sleep; its locals t and time. `none`: the fuel ran out.
unfoldable pub place_loop : ℕ → ℕ → ℕ → ℕ → Tasks → Option (Tasks × ℕ × ℕ)
place_loop zero head t time s = none
place_loop (suc fuel) head t time s =
    let time' = time - s.r t 0 in
    let t' = s.links.next t in
    let again = place_loop fuel head t' time' s in
    if leb (s.r t 0) time
    then if time' == 0
      then some (s, t', time')
      else if t' == head
      then some (s, t', time')
      else again
    else some (set_r t 0 (s.r t 0 - time) s, t, time)

-- After the loop: insert before `t`, which may be the head.
abbrev pub insert_tired : ℕ → ℕ → Option (Tasks × ℕ × ℕ) → Option (Tasks × ℕ)
insert_tired tired head none = none
insert_tired tired head (some (s, t, time)) =
    let s' = set_r tired 0 time s in some (with_links (dll_attach tired t s'.links).0 s', head)

unfoldable pub put_to_sleep : ℕ → ℕ → ℕ → Tasks → Option (Tasks × ℕ)
put_to_sleep fuel tired head s =
    let time = s.r tired 0 in
    if head == 0
    then some (s, tired)
    else if ltb time (s.r head 0)
    then (let s' = set_r head 0 (s.r head 0 - time) s in
        let l = dll_attach tired head s'.links in some (with_links l.0 s', l.1))
    else insert_tired tired head (place_loop fuel head head time s)

-- The `do` loop of wakey_wakey, from end == t on: the last task to wake.
unfoldable pub end_loop : ℕ → ℕ → ℕ → Tasks → Option ℕ
end_loop zero head t s = none
end_loop (suc fuel) head t s =
    let t' = s.links.next t in
    let again = end_loop fuel head t' s in
    if s.r t' 0 == 0 && not (t' == head) then again else some t

-- The woken tasks leave the list together.
abbrev pub wake_until : ℕ → Tasks → Option ℕ → Option (Tasks × ℕ × ℕ)
wake_until head s none = none
wake_until head s (some end) =
    let l = dll_detach_until head end s.links in some (with_links l.0 s, l.1, head)

-- wakey_wakey: the tasks, the new head, and the head of the list of woken tasks, 0 if none.
unfoldable pub wakey_wakey : ℕ → ℕ → Tasks → Option (Tasks × ℕ × ℕ)
wakey_wakey fuel head s =
    let s' = set_r head 0 ((s.r head 0 + 2 ^ 32 - 1) % 2 ^ 32) s in
    if head == 0
    then some (s, head, 0)
    else if ltb 0 (s'.r head 0)
    then some (s', head, 0)
    else wake_until head s' (end_loop fuel head head s')

unfoldable pub add_woken : ℕ → ℕ → Tasks → Tasks × ℕ
add_woken list head s =
    let l = dll_insert_list_at_head list head s.links in
    (with_links l.0 s, if head == 0 then l.1 else head)

-- sleeping_tasks_tick, on the lists of sleeping and of runnable tasks, and both new heads.
abbrev pub make_runnable : ℕ → Option (Tasks × ℕ × ℕ) → Option (Tasks × ℕ × ℕ)
make_runnable runnable none = none
make_runnable runnable (some (s, sleeping, list)) =
    let t = add_woken list runnable s in
    some (if list == 0 then s else t.0, sleeping, if list == 0 then runnable else t.1)

unfoldable pub sleeping_tasks_tick : ℕ → ℕ → ℕ → Tasks → Option (Tasks × ℕ × ℕ)
sleeping_tasks_tick fuel sleeping runnable s = make_runnable runnable (wakey_wakey fuel sleeping s)
