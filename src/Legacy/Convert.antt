-- ===== src/Legacy/Convert.antt =====
-- do_convert: what is in the caller's buffer and registers behind the call.
use simple_as_pi.Common.{
  ℕ, zero, suc, ◌+◌, ◌-◌, ◌*◌, ◌%◌, ◌^◌, ◌≤◌, ◌<◌, ◌≡◌, ◌⊎◌, ◌∙◌, refl, true, false, inl, inr, some,
  List, [], ◌∷◌, arith, leb, length, update,
}
use simple_as_pi.Tasks.{Registers}
use simple_as_pi.Kernel.{set_reg}
use simple_as_pi.Pipe.{sub32}
use simple_as_pi.Texts.{Bytes}
use simple_as_pi.Legacy.{decimal, powers, signed_decimal, up_and_down, converted, store, do_convert}
use simple_as_pi.Legacy.Decimal.{value, AllDigits, IsShortest, decimal_lem}

-- `n` characters from `p`.
abbrev pub chars : Bytes → ℕ → ℕ → List ℕ
chars m p zero = []
chars m p (suc n) = m p ∷ chars m (suc p) n

store-before : (cs : List ℕ) (p q : ℕ) (m : Bytes) → q < p → store cs p m q ≡ m q
store-before [] p q m h = ground arith
store-before (c ∷ cs) p q m h =
    ground (arith, store-before cs (suc p) q (update m p c) (omega arith))

store-after : (cs : List ℕ) (p q : ℕ) (m : Bytes) → p + length cs < q → store cs p m q ≡ m q
store-after [] p q m h = ground arith
store-after (c ∷ cs) p q m h = ground (arith, store-after cs (suc p) q (update m p c) (omega arith))

chars-store : (cs : List ℕ) (p : ℕ) (m : Bytes) → chars (store cs p m) p (length cs) ≡ cs
chars-store [] p m = refl
chars-store (c ∷ cs) p m =
    let here : store cs (suc p) (update m p c) p ≡ c =
      ground (arith, store-before cs (suc p) p (update m p c)) in
    rw (here, chars-store cs (suc p) (update m p c)) refl

store-end : (cs : List ℕ) (p : ℕ) (m : Bytes) → store cs p m (p + length cs) ≡ 0
store-end [] p m = ground arith
store-end (c ∷ cs) p m =
    let e : p + suc (length cs) ≡ suc p + length cs = omega arith in
    rw e (store-end cs (suc p) (update m p c))

-- The call has written the characters with a 0 behind them, and nothing else; r0 is the buffer, r1
-- the end of the text and r2 what is left of the size.
pub record Wrote (cs : List ℕ) (regs regs' : Registers) (m m' : Bytes) : Type 0 where
  pub text : chars m' (regs.r 1) (length cs) ≡ cs
  pub end : m' (regs.r 1 + length cs) ≡ 0
  pub others : (p : ℕ) → (p < regs.r 1) ⊎ (regs.r 1 + length cs < p) → m' p ≡ m p
  pub r0 : regs'.r 0 ≡ regs.r 1
  pub r1 : regs'.r 1 ≡ (regs.r 1 + length cs) % 2 ^ 32
  pub r2 : regs'.r 2 ≡ sub32 (regs.r 2) (length cs)

pub do_convert-Wrote :
    (swi : ℕ) (cs : List ℕ) (regs : Registers) (m : Bytes)
    → converted swi (regs.r 0) ≡ some cs
    → (regs' : Registers) × (m' : Bytes) × (do_convert swi regs m ≡ some (regs', m'))
      × Wrote cs regs regs' m m'
unfolding do_convert
do_convert-Wrote swi cs regs m e =
    let regs' : Registers =
      set_reg 2 (sub32 (regs.r 2) (length cs))
        (set_reg 1 ((regs.r 1 + length cs) % 2 ^ 32) (set_reg 0 (regs.r 1) regs)) in
    (
      regs',
      store cs (regs.r 1) m,
      rw e refl,
      record {
        text = chars-store cs (regs.r 1) m;
        end = store-end cs (regs.r 1) m;
        others = λ p h. elim h [
          | inl before ↦ store-before cs (regs.r 1) p m before
          | inr after ↦ store-after cs (regs.r 1) p m after
        ];
        r0 = refl;
        r1 = refl;
        r2 = refl;
      },
    )

converted_cardinal :
    (bytes val : ℕ)
    → 0 < bytes
    → bytes < 5
    → val < 2 ^ 32
    → converted (0xd4 + bytes) val ≡ decimal powers false (val % 2 ^ (8 * bytes))
unfolding converted
converted_cardinal zero val low high word = absurd (omega arith)
converted_cardinal (suc zero) val low high word =
    let e : val % 2 ^ 8 % 2 ^ 16 % 2 ^ 24 ≡ val % 2 ^ 8 = omega arith in rw e refl
converted_cardinal (suc (suc zero)) val low high word =
    let e : val % 2 ^ 16 % 2 ^ 24 ≡ val % 2 ^ 16 = omega arith in rw e refl
converted_cardinal (suc (suc (suc zero))) val low high word = refl
converted_cardinal (suc (suc (suc (suc zero)))) val low high word =
    let e : val % 2 ^ 32 ≡ val = omega arith in rw e refl
converted_cardinal (suc (suc (suc (suc (suc n))))) val low high word = absurd (omega arith)

converted_negative :
    (val : ℕ) (cs : List ℕ)
    → 2 ^ 31 ≤ val
    → decimal powers false ((2 ^ 32 - val) % 2 ^ 32) ≡ some cs
    → converted 0xdc val ≡ some (b'-' ∷ cs)
unfolding converted signed_decimal
converted_negative val cs h e =
    let negative : leb (2 ^ 31) val ≡ true = ground arith in rw (negative, e) refl

-- OS_ConvertCardinal1 to 4: the characters that are written are decimal digits, at most ten, with
-- no zero before others, from which the low bytes of r0 can be read; they stand at the buffer in
-- r1 with a 0 behind them, and nothing else in memory has changed; r0 is the buffer, r1 the end of
-- the text, and r2 is less by its length.
pub do_convert_cardinal :
    (bytes : ℕ) (regs : Registers) (m : Bytes)
    → 0 < bytes
    → bytes < 5
    → regs.r 0 < 2 ^ 32
    → (cs : List ℕ) × (value 0 cs ≡ regs.r 0 % 2 ^ (8 * bytes))
      × AllDigits cs
      × IsShortest cs
      × (length cs ≤ 10)
      × (regs' : Registers) × (m' : Bytes) × (do_convert (0xd4 + bytes) regs m ≡ some (regs', m'))
      × Wrote cs regs regs' m m'
do_convert_cardinal bytes regs m low high word =
    let val = regs.r 0 % 2 ^ (8 * bytes) in
    let small : val < 2 ^ 32 = omega arith in
    let (cs, e, reads, digits, shortest, fits) = decimal_lem val small in
    let (regs', m', e', wrote) =
      do_convert-Wrote (0xd4 + bytes) cs regs m
        (converted_cardinal bytes (regs.r 0) low high word ∙ e) in
    (cs, reads, digits, shortest, fits, regs', m', e', wrote)

-- OS_ConvertInteger4 writes a minus and the size of a negative number.
pub do_convert_integer :
    (regs : Registers) (m : Bytes)
    → regs.r 0 < 2 ^ 32
    → 2 ^ 31 ≤ regs.r 0
    → (cs : List ℕ) × (value 0 cs ≡ 2 ^ 32 - regs.r 0)
      × AllDigits cs
      × IsShortest cs
      × (regs' : Registers) × (m' : Bytes) × (do_convert 0xdc regs m ≡ some (regs', m'))
      × Wrote (b'-' ∷ cs) regs regs' m m'
do_convert_integer regs m word negative =
    let small : (2 ^ 32 - regs.r 0) % 2 ^ 32 < 2 ^ 32 = omega arith in
    let (cs, e, reads, digits, shortest, fits) = decimal_lem ((2 ^ 32 - regs.r 0) % 2 ^ 32) small in
    let (regs', m', e', wrote) =
      do_convert-Wrote 0xdc (b'-' ∷ cs) regs m (converted_negative (regs.r 0) cs negative e) in
    (cs, omega (arith, reads), digits, shortest, regs', m', e', wrote)

signed_decimal-small : (val : ℕ) → val < 2 ^ 31 → signed_decimal val ≡ decimal powers false val
unfolding signed_decimal
signed_decimal-small val h =
    let positive : leb (2 ^ 31) val ≡ false = ground arith in rw positive refl

converted_integer :
    (bytes val : ℕ)
    → 0 < bytes
    → bytes < 4
    → val < 2 ^ 32
    → converted (0xd8 + bytes) val ≡ decimal powers false (val % 2 ^ (8 * bytes))
unfolding converted
converted_integer zero val low high word = absurd (omega arith)
converted_integer (suc zero) val low high word =
    let e : up_and_down 8 (up_and_down 16 (up_and_down 24 val)) ≡ val % 2 ^ 8 = omega arith in
    rw e (signed_decimal-small (val % 2 ^ 8) (omega arith))
converted_integer (suc (suc zero)) val low high word =
    let e : up_and_down 8 (up_and_down 16 val) ≡ val % 2 ^ 16 = omega arith in
    rw e (signed_decimal-small (val % 2 ^ 16) (omega arith))
converted_integer (suc (suc (suc zero))) val low high word =
    let e : up_and_down 8 val ≡ val % 2 ^ 24 = omega arith in
    rw e (signed_decimal-small (val % 2 ^ 24) (omega arith))
converted_integer (suc (suc (suc (suc n)))) val low high word = absurd (omega arith)

-- OS_ConvertInteger1 to 3 do to the caller and to memory what OS_ConvertCardinal1 to 3 do: no
-- number is written as negative.
pub do_convert_never_negative :
    (bytes : ℕ) (regs : Registers) (m : Bytes)
    → 0 < bytes
    → bytes < 4
    → regs.r 0 < 2 ^ 32
    → do_convert (0xd8 + bytes) regs m ≡ do_convert (0xd4 + bytes) regs m
unfolding do_convert
do_convert_never_negative bytes regs m low high word =
    rw
      (
        converted_integer bytes (regs.r 0) low high word,
        converted_cardinal bytes (regs.r 0) low (omega arith) word,
      )
      refl
