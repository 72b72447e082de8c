-- ===== src/Modules.antt =====
-- Modules/osmodule.c: the list of modules and their instances, by address. The memory that
-- system_heap_allocate gives for a module and the code of modules are parameters.
pub mod Chain
pub mod Search
pub mod Service
pub mod New
use simple_as_pi.Common.{
  ℕ, zero, suc, ◌+◌, ◌-◌, ◌*◌, ◌/◌, ◌%◌, ◌^◌, Bool, true, false, not, ◌&&◌, ◌||◌, Option, none,
  some, List, [], ◌∷◌, ◌++◌, ◌==◌, ltb, if◌then◌else◌, update,
}
use simple_as_pi.Tasks.{Registers}
use simple_as_pi.Kernel.{set_reg, set_bit}

-- struct module, field by field, and shared.module.
pub record Modules : Type 0 where
  pub next : ℕ → ℕ
  pub instances : ℕ → ℕ
  pub base : ℕ → ℕ
  pub header : ℕ → ℕ
  pub preferred : ℕ → ℕ
  pub handlers : ℕ → ℕ
  pub private_word : ℕ → ℕ
  pub postfix : ℕ → List ℕ
  pub modules : ℕ
  pub last : ℕ
  pub in_init : ℕ

-- `while (p != 0 && !test( p )) p = p->next`; `none`: still running.
unfoldable pub find_loop : (ℕ → Bool) → ℕ → ℕ → Modules → Option ℕ
find_loop test zero p s = none
find_loop test (suc fuel) p s =
    let rest = find_loop test fuel (s.next p) s in
    if p == 0 then some 0 else if test p then some p else rest

-- `while (*instance != 0) instance = &(*instance)->next` from a module: the last of its chain.
unfoldable pub chain_end : ℕ → ℕ → Modules → Option ℕ
chain_end zero p s = none
chain_end (suc fuel) p s =
    let rest = chain_end fuel (s.next p) s in if s.next p == 0 then some p else rest

pub data Made : Type 0 where
  made : Modules → Made
  panic : Made
  runs_on : Made

-- The fields of a new module.
abbrev pub with_module : ℕ → ℕ → List ℕ → Modules → Modules
with_module m header_at name s = record s {
  postfix = update s.postfix m name;
  header = update s.header m header_at;
  private_word = update s.private_word m 0;
  next = update s.next m 0;
  instances = update s.instances m 0;
  handlers = update s.handlers m 0;
  preferred = update s.preferred m 0;
}

-- The instance `m` of the module `b` is made the preferred one.
abbrev pub prefer : ℕ → ℕ → Modules → Modules
prefer m b s = record s { base = update s.base m b; preferred = update s.preferred b m }

abbrev pub link_behind : ℕ → ℕ → Modules → Option ℕ → Made
link_behind m b s none = runs_on
link_behind m b s (some end) = made (prefer m b (record s { next = update s.next end m }))

abbrev pub add_instance : ℕ → ℕ → ℕ → Modules → Made
add_instance fuel m b s =
    let behind = link_behind m b s (chain_end fuel (s.instances b) s) in
    if s.instances b == 0
    then made (prefer m b (record s { instances = update s.instances b m }))
    else behind

abbrev pub with_base : ℕ → ℕ → ℕ → List ℕ → Modules → Option ℕ → Made
with_base fuel m header_at name s none = runs_on
with_base fuel m header_at name s (some b) =
    if b == 0
    then panic
    else if m == 0xffffffff
    then panic
    else add_instance fuel m b (with_module m header_at name s)

-- `m` is what system_heap_allocate returns.
unfoldable pub new_module : ℕ → ℕ → List ℕ → ℕ → Modules → Made
unfolding find_loop chain_end
new_module fuel header_at [] m s =
    if m == 0xffffffff
    then panic
    else let s' = with_module m header_at [] s in
      made (record s' { base = update s'.base m 0; preferred = update s'.preferred m m })
new_module fuel header_at (c ∷ name) m s =
    with_base fuel m header_at (c ∷ name) s
      (find_loop (λ p. s.header p == header_at) fuel s.modules s)

unfoldable pub append_module_to_list : ℕ → Modules → Modules
append_module_to_list m s = record s {
  next = if s.last == 0 then s.next else update s.next s.last m;
  last = m;
  modules = if s.modules == 0 then m else s.modules;
}

-- swi & ~0xff00003f
abbrev pub chunk_of : ℕ → ℕ
chunk_of swi = swi % 2 ^ 24 / 2 ^ 6 * 2 ^ 6

abbrev pub preferred_of : Modules → Option ℕ → Option ℕ
preferred_of s none = none
preferred_of s (some p) = some (if p == 0 then 0 else s.preferred p)

-- swi_chunk: header->swi_chunk by the header's address.
unfoldable pub find_module_by_chunk : (ℕ → ℕ) → ℕ → ℕ → Modules → Option ℕ
find_module_by_chunk swi_chunk fuel swi s =
    preferred_of s (find_loop (λ p. swi_chunk (s.header p) == chunk_of swi) fuel s.modules s)

abbrev pub has_handlers : Modules → Option ℕ → Option Bool
has_handlers s none = none
has_handlers s (some p) = some (not (p == 0) && not (s.handlers p == 0))

unfoldable pub handler_available : (ℕ → ℕ) → ℕ → ℕ → Modules → Option Bool
handler_available swi_chunk fuel swi s = has_handlers s (find_module_by_chunk swi_chunk fuel swi s)

-- The `while` of do_OS_Module, reason 12: the module with the number, or 0.
unfoldable pub number_loop : ℕ → ℕ → ℕ → ℕ → Modules → Option ℕ
number_loop zero number n m s = none
number_loop (suc fuel) number n m s =
    let rest = number_loop fuel number (n + 1) (s.next m) s in
    if not (m == 0) && ltb n number then rest else some m

-- no_more: the block of Error_NoMoreModules; postfix_at: where a module's postfix stands.
abbrev pub module_information : ℕ → (ℕ → ℕ) → Modules → Registers → Option ℕ → Option Registers
module_information no_more postfix_at s regs none = none
module_information no_more postfix_at s regs (some m) =
    let regs' = set_reg 1 ((regs.r 1 + 1) % 2 ^ 32) regs in
    some (
      if m == 0
      then record (set_reg 0 no_more regs') { spsr = set_bit 0x10000000 regs.spsr }
      else set_reg 5 (postfix_at m) (set_reg 4 (s.private_word m) (set_reg 3 (s.header m) regs')))

-- do_OS_Module with r0 = 12.
unfoldable pub extract_information : ℕ → ℕ → (ℕ → ℕ) → Modules → Registers → Option Registers
extract_information fuel no_more postfix_at s regs =
    module_information no_more postfix_at s regs (number_loop fuel (regs.r 1) 0 s.modules s)

-- Where a service call ends: with the caller's registers and the modules called, or in a failed
-- assert.
pub data Called : Type 0 where
  called : Registers → List ℕ → Called
  failed : Called
  running : Called

abbrev pub before : ℕ → Called → Called
before m (called regs ms) = called regs (m ∷ ms)
before m failed = failed
before m running = running

abbrev pub after_calls : (Registers → Called) → Called → Called
after_calls go failed = failed
after_calls go running = running
after_calls go (called regs []) = go regs
after_calls go (called regs (m ∷ ms)) = before m (after_calls go (called regs ms))

-- serve: what a module's handler makes of the registers; has_service: its header has one. The
-- handlers leave the list as it is.
module _ (serve : ℕ → Registers → Registers) (has_service : ℕ → Bool) where
  abbrev pub service_call : ℕ → Registers → Registers
  service_call m regs = set_reg 12 (regs.r 12) (serve m regs)

  -- One call and its assert, and what follows.
  abbrev pub call_then : ℕ → ℕ → (Registers → Called) → Registers → Called
  call_then call m go regs =
      let regs' = service_call m regs in
      let rest = before m (go regs') in
      if (regs'.r 1 == 0) || (regs'.r 1 == call) then rest else failed

  -- The `do` loop over the instances of a module.
  unfoldable pub instances_loop : ℕ → ℕ → ℕ → Modules → Registers → Called
  instances_loop zero call m s regs = running
  instances_loop (suc fuel) call m s regs =
      call_then call m
        (λ regs'.
          let rest = instances_loop fuel call (s.next m) s regs' in
          if (s.next m == 0) || (regs'.r 1 == 0) then called regs' [] else rest)
        regs

  unfoldable pub modules_loop : ℕ → ℕ → ℕ → Modules → Registers → Called
  modules_loop zero call m s regs = running
  modules_loop (suc fuel) call m s regs =
      let on = λ (regs' : Registers). modules_loop fuel call (s.next m) s regs' in
      if (m == 0) || (regs.r 1 == 0)
      then called regs []
      else if not (has_service (s.header m))
      then on regs
      else if s.instances m == 0
      then call_then call m on regs
      else after_calls on (instances_loop fuel call (s.instances m) s regs)

  unfoldable pub do_service_call : ℕ → Modules → Registers → Called
  do_service_call fuel s regs = modules_loop fuel (regs.r 1) s.modules s regs
