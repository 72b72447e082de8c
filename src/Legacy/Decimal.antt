-- ===== src/Legacy/Decimal.antt =====
-- The digits of a number: read back, they are the number.
use simple_as_pi.Common.{
  ℕ, zero, suc, ◌+◌, ◌-◌, ◌*◌, ◌/◌, ◌%◌, ◌^◌, ◌≤◌, ◌<◌, ◌≡◌, ◌≢◌, ◌⊎◌, ◌∙◌, refl, Bool, true, false,
  not, inl, inr, Bool-cases, some, List, [], ◌∷◌, arith, ◌==◌, leb, ◌&&◌, ◌||◌, length,
}
use native.Mathlib.Nat.{div-lt_iff_lt-mul}
use simple_as_pi.Legacy.{subtract_loop, decimal, powers}

subtract_loop_lem :
    (fuel d c q r : ℕ) → q < fuel → r < d → subtract_loop fuel d c (q * d + r) ≡ some (c + q, r)
unfolding subtract_loop
subtract_loop_lem zero d c q r f h = absurd (omega arith)
subtract_loop_lem (suc fuel) d c zero r f h =
    let stops : leb d (0 * d + r) ≡ false = ground arith in
    let e : 0 * d + r ≡ r = omega arith in
    let e' : c + 0 ≡ c = omega arith in rw (stops, e, e') refl
subtract_loop_lem (suc fuel) d c (suc q) r f h =
    let next : suc q * d ≡ q * d + d = grind arith in
    let more : leb d (suc q * d + r) ≡ true = rw next (ground arith) in
    let e : suc q * d + r - d ≡ q * d + r = rw next (omega arith) in
    let e' : c + suc q ≡ c + 1 + q = omega arith in
    rw (more, e, e') (subtract_loop_lem fuel d (c + 1) q r (omega arith) h)

-- The powers of ten from the `k`th down to ten.
abbrev powers_from : ℕ → List ℕ
powers_from zero = []
powers_from (suc k) = 10 ^ suc k ∷ powers_from k

-- The number that decimal digits stand for, read after `acc`.
abbrev pub value : ℕ → List ℕ → ℕ
value acc [] = acc
value acc (c ∷ cs) = value (acc * 10 + (c - b'0')) cs

abbrev pub is_digit : ℕ → Bool
is_digit c = leb b'0' c && leb c b'9'

abbrev pub AllDigits : List ℕ → Type 0
AllDigits [] = Unit {0}
AllDigits (c ∷ cs) = (is_digit c ≡ true) × AllDigits cs

-- No zero stands before other digits.
abbrev pub IsShortest : List ℕ → Type 0
IsShortest [] = ⊥
IsShortest (c ∷ []) = Unit {0}
IsShortest (c ∷ d ∷ cs) = c ≢ b'0'

-- What is written for `val` with the powers from the `k`th on.
record Writes (k : ℕ) (started : Bool) (val : ℕ) (cs : List ℕ) : Type 0 where
  reads : (acc : ℕ) → (started ≡ true) ⊎ (acc ≡ 0) → value acc cs ≡ acc * 10 ^ suc k + val
  digits : AllDigits cs
  fits : length cs ≤ suc k
  shortest : started ≡ false → IsShortest cs

in_place : (acc q d r : ℕ) → (acc * 10 + q) * d + r ≡ acc * (10 * d) + (q * d + r)
in_place acc q d r = grind arith

divided : (val d : ℕ) → 0 < d → val / d * d + val % d ≡ val
divided val d pos = grind arith

quotient : (val d : ℕ) → 0 < d → val < 10 * d → val / d < 10
quotient val d pos h = (div-lt_iff_lt-mul pos).1 h

digit : (q : ℕ) → q < 10 → (is_digit (b'0' + q) ≡ true) × (b'0' + q - b'0' ≡ q)
digit q h = (ground arith, omega arith)

IsShortest-ne_zero : (c : ℕ) (cs : List ℕ) → c ≢ b'0' → IsShortest (c ∷ cs)
IsShortest-ne_zero c [] h = tt
IsShortest-ne_zero c (d ∷ cs) h = h

-- A digit in its place, before what `cs` stands for.
value-digit :
    (acc q d r val big : ℕ) (cs : List ℕ)
    → q < 10
    → 0 < d
    → q * d + r ≡ val
    → big ≡ 10 * d
    → value (acc * 10 + q) cs ≡ (acc * 10 + q) * d + r
    → value acc ((b'0' + q) ∷ cs) ≡ acc * big + val
value-digit acc q d r val big cs small pos parts power reads =
    let (is, back) = digit q small in rw (back, power, ← parts) (reads ∙ in_place acc q d r)

decimal-Writes :
    (k : ℕ) (started : Bool) (val : ℕ)
    → val < 10 ^ suc k
    → (cs : List ℕ) × (decimal (powers_from k) started val ≡ some cs) × Writes k started val cs
unfolding decimal
decimal-Writes zero started val h =
    let (is, reads) = digit val (omega arith) in
    (
      (b'0' + val) ∷ [],
      refl,
      record {
        reads = λ acc _. rw reads (omega arith);
        digits = (is, tt);
        fits = omega arith;
        shortest = λ _. tt;
      },
    )
decimal-Writes (suc k) started val h =
    let d = 10 ^ suc k in
    let pos : 0 < d = omega arith in
    let q = val / d in
    let r = val % d in
    let small : q < 10 = quotient val d pos (omega arith) in
    let rest : r < d = grind arith in
    let loop : subtract_loop 10 d b'0' val ≡ some (b'0' + q, r) =
      rw (divided val d pos) at (subtract_loop_lem 10 d b'0' q r small rest) in
    let (is, reads) = digit q small in
    elim (Bool-cases (started || not (b'0' + q == b'0'))) [
      | inl writes ↦
          let (cs, e, w) = decimal-Writes k true r rest in
          (
            (b'0' + q) ∷ cs,
            rw (loop, writes, e) refl,
            record {
              reads = λ acc _.
                  value-digit acc q d r val (10 ^ suc (suc k)) cs small pos (divided val d pos)
                    (omega arith) (w.reads (acc * 10 + q) (inl refl));
              digits = (is, w.digits);
              fits = omega (arith, w.fits);
              shortest =
                  λ not_started. IsShortest-ne_zero _ cs (ground (arith, writes, not_started));
            },
          )
      | inr skips ↦
          let unstarted : started ≡ false = ground (arith, skips) in
          let zero_digit : q ≡ 0 = ground (arith, skips) in
          let whole : 0 * d + r ≡ val = rw zero_digit at (divided val d pos) in
          let (cs, e, w) = decimal-Writes k started r rest in
          (
            cs,
            rw (loop, skips, e) refl,
            record {
              reads = λ acc h.
                  let none_before : acc ≡ 0 = ground (arith, h, unstarted) in
                  let now = w.reads 0 (inr refl) in rw none_before (omega (arith, now, whole));
              digits = w.digits;
              fits = omega (arith, w.fits);
              shortest = w.shortest;
            },
          )
    ]

-- Every number of 32 bits has its digits, which it can be read from.
pub decimal_lem :
    (val : ℕ)
    → val < 2 ^ 32
    → (cs : List ℕ) × (decimal powers false val ≡ some cs)
      × (value 0 cs ≡ val)
      × AllDigits cs
      × IsShortest cs
      × (length cs ≤ 10)
decimal_lem val h =
    let (cs, e, w) = decimal-Writes 9 false val (omega arith) in
    (cs, e, omega (arith, w.reads 0 (inr refl)), w.digits, w.shortest refl, w.fits)
