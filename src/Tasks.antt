-- ===== src/Tasks.antt =====
-- OSTask/ostask.h, struct OSTask: the fields of every task, by its address.
use simple_as_pi.Common.{ℕ, Bool, ◌==◌, ◌&&◌, if◌then◌else◌}
use simple_as_pi.Dll.{Links}

-- svc_registers: the registers of a caller, r0 to r12, with the return address and the status.
pub record Registers : Type 0 where
  pub r : ℕ → ℕ
  pub lr : ℕ
  pub spsr : ℕ

pub record Tasks : Type 0 where
  pub links : Links
  pub r : ℕ → ℕ → ℕ
  pub lr : ℕ → ℕ
  pub spsr : ℕ → ℕ
  pub running : ℕ → Bool
  pub slot : ℕ → ℕ
  pub home : ℕ → ℕ
  pub controller : ℕ → ℕ → ℕ
  -- the word of the union of swi and handler
  pub swi : ℕ → ℕ

-- task->regs.r[n] = v
abbrev pub set_r : ℕ → ℕ → ℕ → Tasks → Tasks
set_r t n v s = record s { r = λ q m. if q == t && m == n then v else s.r q m }

abbrev pub with_links : Links → Tasks → Tasks
with_links l s = record s { links = l }
