-- ===== src/Modules/Service.antt =====
-- do_OS_ServiceCall: which modules are called, in which order.
use simple_as_pi.Common.{
  ℕ, zero, suc, ◌+◌, ◌<◌, ◌≡◌, ◌≢◌, refl, Bool, true, false, inl, inr, Bool-cases, List, [], ◌∷◌,
  arith, ◌==◌, if◌then◌else◌, length,
}
use simple_as_pi.Tasks.{Registers}
use simple_as_pi.Modules.{
  Modules, Called, called, call_then, after_calls, service_call, instances_loop, modules_loop,
  do_service_call,
}
use simple_as_pi.Modules.Chain.{Chain}

-- No module of the list has instances.
abbrev pub Single : Modules → List ℕ → Type 0
Single s [] = Unit {0}
Single s (m ∷ ms) = (s.instances m ≡ 0) × Single s ms

module _ (serve : ℕ → Registers → Registers) (has_service : ℕ → Bool) where
  -- The modules with a handler are called in turn until one claims the call.
  abbrev pub serve_all : ℕ → Modules → List ℕ → Registers → Called
  serve_all call s [] regs = called regs []
  serve_all call s (m ∷ ms) regs =
      let rest = serve_all call s ms regs in
      if regs.r 1 == 0
      then called regs []
      else if has_service (s.header m)
      then call_then serve has_service call m (λ regs'. serve_all call s ms regs') regs
      else rest

  modules_loop-serve_all :
      (fuel call p : ℕ) (ms : List ℕ) (s : Modules) (regs : Registers)
      → length ms < fuel
      → Chain s p ms
      → Single s ms
      → modules_loop serve has_service fuel call p s regs ≡ serve_all call s ms regs
  unfolding modules_loop
  modules_loop-serve_all zero call p ms s regs f c single = absurd (omega arith)
  modules_loop-serve_all (suc fuel) call p [] s regs f c single = rw c refl
  modules_loop-serve_all (suc fuel) call p (m ∷ ms) s regs f c single =
      let real : (m == 0) ≡ false = ground (arith, c.1) in
      let alone : (s.instances m == 0) ≡ true = ground (arith, single.0) in
      let ih = λ (regs' : Registers).
        modules_loop-serve_all fuel call (s.next m) ms s regs' (omega arith) c.2 single.1 in
      elim (Bool-cases (regs.r 1 == 0)) [
        | inl claimed ↦ rw (c.0, real, claimed) refl
        | inr open_call ↦ elim (Bool-cases (has_service (s.header m))) [
          | inr silent ↦ rw (c.0, real, open_call, silent) (ih regs)
          | inl serves ↦
              rw (c.0, real, open_call, serves, alone, ih (service_call serve has_service m regs))
                refl
        ]
      ]

  -- Where no module has instances, a service call goes to each module with a handler in turn, until
  -- one claims it.
  pub do_service_call-serve_all :
      (fuel : ℕ) (ms : List ℕ) (s : Modules) (regs : Registers)
      → length ms < fuel
      → Chain s s.modules ms
      → Single s ms
      → do_service_call serve has_service fuel s regs ≡ serve_all (regs.r 1) s ms regs
  unfolding do_service_call
  do_service_call-serve_all fuel ms s regs f c single =
      modules_loop-serve_all fuel (regs.r 1) s.modules ms s regs f c single

  module _ (keeps : (m : ℕ) (r : Registers) → (serve m r).r 1 ≡ r.r 1) (call : ℕ)
      (open_call : call ≢ 0) where
    instances_loop-last :
        (fuel i : ℕ) (s : Modules) (regs : Registers)
        → s.next i ≡ 0
        → regs.r 1 ≡ call
        → instances_loop serve has_service (suc fuel) call i s regs
          ≡ called (service_call serve has_service i regs) (i ∷ [])
    unfolding instances_loop
    instances_loop-last fuel i s regs last same =
        let still : (serve i regs).r 1 ≡ call = rw (keeps i regs) same in
        let kept : (call == call) ≡ true = ground arith in
        let going : (call == 0) ≡ false = ground (arith, open_call) in
        rw (still, kept, going, last) refl

    modules_loop-last :
        (fuel i : ℕ) (s : Modules) (regs : Registers)
        → i ≢ 0
        → s.next i ≡ 0
        → s.instances i ≡ 0
        → has_service (s.header i) ≡ true
        → regs.r 1 ≡ call
        → modules_loop serve has_service (suc (suc fuel)) call i s regs
          ≡ called (service_call serve has_service i regs) (i ∷ [])
    unfolding modules_loop
    modules_loop-last fuel i s regs real last alone serves same =
        let still : (serve i regs).r 1 ≡ call = rw (keeps i regs) same in
        let kept : (call == call) ≡ true = ground arith in
        let going : (call == 0) ≡ false = ground (arith, open_call) in
        let there : (i == 0) ≡ false = ground (arith, real) in
        rw (there, same, going, serves, alone, still, kept, going, last) refl

    modules_loop-instances :
        (fuel b : ℕ) (s : Modules) (regs : Registers)
        → b ≢ 0
        → s.instances b ≢ 0
        → has_service (s.header b) ≡ true
        → regs.r 1 ≡ call
        → modules_loop serve has_service (suc fuel) call b s regs
          ≡ after_calls
              (λ r. modules_loop serve has_service fuel call (s.next b) s r)
              (instances_loop serve has_service fuel call (s.instances b) s regs)
    unfolding modules_loop
    modules_loop-instances fuel b s regs real some_instance serves same =
        let going : (call == 0) ≡ false = ground (arith, open_call) in
        let there : (b == 0) ≡ false = ground (arith, real) in
        let several : (s.instances b == 0) ≡ false = ground (arith, some_instance) in
        rw (there, same, going, serves, several) refl

    modules_loop-twice :
        (fuel p b i : ℕ) (s : Modules) (regs : Registers)
        → Chain s p (b ∷ i ∷ [])
        → s.instances b ≡ i
        → s.instances i ≡ 0
        → has_service (s.header b) ≡ true
        → has_service (s.header i) ≡ true
        → regs.r 1 ≡ call
        → (regs' : Registers) × (modules_loop serve has_service (suc (suc (suc fuel))) call p s regs
            ≡ called regs' (i ∷ i ∷ []))
    modules_loop-twice fuel p b i s regs c e n hb hi same =
        let once = service_call serve has_service i regs in
        let some_instance : s.instances b ≢ 0 = rw e c.2.1 in
        let still : once.r 1 ≡ call = rw (keeps i regs) same in
        let first = instances_loop-last (suc fuel) i s regs c.2.2 same in
        let second = modules_loop-last fuel i s once c.2.1 c.2.2 n hi still in
        (
          service_call serve has_service i once,
          rw
              (
                c.0,
                modules_loop-instances (suc (suc fuel)) b s regs c.1 some_instance hb same,
                e,
                c.2.0,
                first,
                second,
              )
              refl,
        )

  -- A service call, where the list of modules is a module and one instance of it behind it, both
  -- with a handler that passes the call on: the instance is called twice, and the module itself
  -- not at all.
  pub do_service_call_twice :
      (fuel b i : ℕ) (s : Modules) (regs : Registers)
      → Chain s s.modules (b ∷ i ∷ [])
      → s.instances b ≡ i
      → s.instances i ≡ 0
      → has_service (s.header b) ≡ true
      → has_service (s.header i) ≡ true
      → ((m : ℕ) (r : Registers) → (serve m r).r 1 ≡ r.r 1)
      → regs.r 1 ≢ 0
      → (regs' : Registers) × (do_service_call serve has_service (3 + fuel) s regs
          ≡ called regs' (i ∷ i ∷ []))
  unfolding do_service_call
  do_service_call_twice fuel b i s regs c e n hb hi keeps open_call =
      let deep : 3 + fuel ≡ suc (suc (suc fuel)) = omega arith in
      rw deep
        (modules_loop-twice keeps (regs.r 1) open_call fuel s.modules b i s regs c e n hb hi refl)
