-- ===== src/Svc/Pipes.antt =====
-- The calls on pipes, with the lock around them.
use simple_as_pi.Common.{ℕ, ◌≡◌, ◌⊎◌}
use simple_as_pi.Kernel.{Kernel, Run, ok, panic, waits, runs_on, Error}
use simple_as_pi.Pipes.Ends.{failed}
use simple_as_pi.Pipes.Invariant.{AllSound}
use simple_as_pi.Pipes.Keeps.{Keeps}

-- A call on pipes has returned: the pipes are sound and unlocked, and the caller's status is what
-- it was; or the call has failed, the caller goes on, and but for its r0 and V nothing has changed.
abbrev pub Served : Kernel → Run ℕ → Type 0
Served k (ok task k') =
    (k'.pipes_lock ≡ 0)
    × AllSound k'.pipe
    × ((k'.regs.spsr ≡ k.regs.spsr)
        ⊎ ((e : Error) × (task ≡ 0) × (k' ≡ record (failed e k) { pipes_lock = 0 })))
Served k panic = Unit {0}
Served k waits = ⊥
Served k runs_on = Unit {0}
