-- ===== src/Modules/Search.antt =====
-- find_module_by_chunk and the numbers of modules, against the list.
use simple_as_pi.Common.{
  ℕ, zero, suc, ◌+◌, ◌%◌, ◌^◌, ◌≤◌, ◌<◌, ◌≡◌, ◌≢◌, refl, Bool, true, false, inl, inr, Bool-cases,
  some, List, [], ◌∷◌, arith, ◌==◌, ltb, if◌then◌else◌, length,
}
use simple_as_pi.Tasks.{Registers}
use simple_as_pi.Kernel.{set_reg, set_bit}
use simple_as_pi.Modules.{
  Modules, find_loop, chunk_of, find_module_by_chunk, number_loop, extract_information,
}
use simple_as_pi.Modules.Chain.{Chain}

-- The first module of the list that passes the test, or 0.
abbrev pub find_first : (ℕ → Bool) → List ℕ → ℕ
find_first test [] = 0
find_first test (x ∷ xs) = if test x then x else find_first test xs

find_loop-find_first :
    (test : ℕ → Bool) (fuel p : ℕ) (xs : List ℕ) (s : Modules)
    → length xs < fuel
    → Chain s p xs
    → find_loop test fuel p s ≡ some (find_first test xs)
unfolding find_loop
find_loop-find_first test zero p xs s f c = absurd (omega arith)
find_loop-find_first test (suc fuel) p [] s f c = rw c refl
find_loop-find_first test (suc fuel) p (x ∷ xs) s f c =
    let real : (x == 0) ≡ false = ground (arith, c.1) in
    let ih = find_loop-find_first test fuel (s.next x) xs s (omega arith) c.2 in
    elim (Bool-cases (test x)) [
      | inl hit ↦ rw (c.0, real, hit) refl
      | inr miss ↦ rw (c.0, real, miss) ih
    ]

-- The module with the number, or 0.
abbrev pub nth : ℕ → List ℕ → ℕ
nth n [] = 0
nth zero (x ∷ xs) = x
nth (suc n) (x ∷ xs) = nth n xs

number_loop-nth :
    (fuel k number n p : ℕ) (xs : List ℕ) (s : Modules)
    → length xs < fuel
    → n + k ≡ number
    → Chain s p xs
    → number_loop fuel number n p s ≡ some (nth k xs)
unfolding number_loop
number_loop-nth zero k number n p xs s f e c = absurd (omega arith)
number_loop-nth (suc fuel) k number n p [] s f e c = rw c refl
number_loop-nth (suc fuel) zero number n p (x ∷ xs) s f e c =
    let there : ltb n number ≡ false = ground (arith, e) in
    let real : (x == 0) ≡ false = ground (arith, c.1) in rw (c.0, real, there) refl
number_loop-nth (suc fuel) (suc k) number n p (x ∷ xs) s f e c =
    let before : ltb n number ≡ true = ground (arith, e) in
    let real : (x == 0) ≡ false = ground (arith, c.1) in
    rw (c.0, real, before)
      (number_loop-nth fuel k number (n + 1) (s.next x) xs s (omega arith) (omega arith) c.2)

-- The preferred instance of the first module with the chunk of the call, or 0.
pub find_module_by_chunk-find_first :
    (swi_chunk : ℕ → ℕ) (fuel swi : ℕ) (xs : List ℕ) (s : Modules)
    → length xs < fuel
    → Chain s s.modules xs
    → find_module_by_chunk swi_chunk fuel swi s
      ≡ some (
          let m = find_first (λ p. swi_chunk (s.header p) == chunk_of swi) xs in
          if m == 0 then 0 else s.preferred m)
unfolding find_module_by_chunk
find_module_by_chunk-find_first swi_chunk fuel swi xs s f c =
    rw (find_loop-find_first (λ p. swi_chunk (s.header p) == chunk_of swi) fuel s.modules xs s f c)
      refl

-- What a caller of OS_Module 12 gets for a module: the next number, and the module.
pub record Informed (m : ℕ) (postfix_at : ℕ → ℕ) (s : Modules) (regs regs' : Registers)
    : Type 0 where
  pub number : regs'.r 1 ≡ (regs.r 1 + 1) % 2 ^ 32
  pub header : regs'.r 3 ≡ s.header m
  pub private_word : regs'.r 4 ≡ s.private_word m
  pub postfix : regs'.r 5 ≡ postfix_at m
  pub flags : regs'.spsr ≡ regs.spsr

nth-ne_zero : (k p : ℕ) (xs : List ℕ) (s : Modules) → Chain s p xs → k < length xs → nth k xs ≢ 0
nth-ne_zero k p [] s c h = absurd (omega arith)
nth-ne_zero zero p (x ∷ xs) s c h = c.1
nth-ne_zero (suc k) p (x ∷ xs) s c h = nth-ne_zero k (s.next x) xs s c.2 (omega arith)

nth_beyond : (k : ℕ) (xs : List ℕ) → length xs ≤ k → nth k xs ≡ 0
nth_beyond k [] h = refl
nth_beyond zero (x ∷ xs) h = absurd (omega arith)
nth_beyond (suc k) (x ∷ xs) h = nth_beyond k xs (omega arith)

-- Counting up from 0, OS_Module 12 gives each module of the list, and then the error.
pub extract_information-nth :
    (fuel no_more : ℕ) (postfix_at : ℕ → ℕ) (xs : List ℕ) (s : Modules) (regs : Registers)
    → length xs < fuel
    → Chain s s.modules xs
    → (regs' : Registers) × (extract_information fuel no_more postfix_at s regs ≡ some regs')
      × (if ltb (regs.r 1) (length xs)
          then Informed (nth (regs.r 1) xs) postfix_at s regs regs'
          else (regs'.r 0 ≡ no_more)
            × (regs'.r 1 ≡ (regs.r 1 + 1) % 2 ^ 32)
            × (regs'.spsr ≡ set_bit 0x10000000 regs.spsr))
unfolding extract_information
extract_information-nth fuel no_more postfix_at xs s regs f c =
    let m = nth (regs.r 1) xs in
    let found = number_loop-nth fuel (regs.r 1) (regs.r 1) 0 s.modules xs s f (omega arith) c in
    let regs' : Registers = set_reg 1 ((regs.r 1 + 1) % 2 ^ 32) regs in
    elim (Bool-cases (ltb (regs.r 1) (length xs))) [
      | inl listed ↦
          let real : (m == 0) ≡ false =
            ground (arith, nth-ne_zero (regs.r 1) s.modules xs s c (ground (arith, listed))) in
          let out : Registers =
            set_reg 5 (postfix_at m)
              (set_reg 4 (s.private_word m) (set_reg 3 (s.header m) regs')) in
          (
            out,
            rw (found, real) refl,
            rw listed (record {
              number = refl;
              header = refl;
              private_word = refl;
              postfix = refl;
              flags = refl;
            }),
          )
      | inr beyond ↦
          let gone : (m == 0) ≡ true =
            ground (arith, nth_beyond (regs.r 1) xs (ground (arith, beyond))) in
          let out : Registers = record (set_reg 0 no_more regs') {
            spsr = set_bit 0x10000000 regs.spsr;
          } in
          (out, rw (found, gone) refl, rw beyond (refl, refl, refl))
    ]
