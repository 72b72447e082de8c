-- ===== src/Legacy.antt =====
-- Legacy/kernel_swis.c, do_convert: the OS_Convert calls, which write a number as text.
pub mod Decimal
pub mod Convert
pub mod Hex
pub mod Blocks
pub mod FreeBlocks
pub mod Made
pub mod Freed
use simple_as_pi.Common.{
  ℕ, zero, suc, ◌+◌, ◌-◌, ◌*◌, ◌/◌, ◌%◌, ◌^◌, Bool, true, false, not, ◌&&◌, ◌||◌, Option, none,
  some, List, [], ◌∷◌, ◌++◌, ◌==◌, ltb, leb, if◌then◌else◌, length, update,
}
use simple_as_pi.Tasks.{Registers}
use simple_as_pi.Kernel.{set_reg}
use simple_as_pi.Pipe.{sub32}
use simple_as_pi.Texts.{Bytes}

-- The character of hex[16].
abbrev pub hex : ℕ → ℕ
hex n = if ltb n 10 then b'0' + n else b'A' + (n - 10)

-- hex[(val >> 4 * n) & 0xf]
abbrev pub nibble : ℕ → ℕ → ℕ
nibble n val = hex (val / 2 ^ (4 * n) % 16)

-- The last `n` of the eight digits, in the order of the cases that fall through.
unfoldable pub hex_digits : ℕ → ℕ → List ℕ
hex_digits zero val = []
hex_digits (suc n) val = nibble n val ∷ hex_digits n val

-- `while (val >= d) { c++; val -= d; }`: c and val; `none`: still running.
unfoldable pub subtract_loop : ℕ → ℕ → ℕ → ℕ → Option (ℕ × ℕ)
subtract_loop zero d c val = none
subtract_loop (suc fuel) d c val =
    let rest = subtract_loop fuel d (c + 1) (val - d) in if leb d val then rest else some (c, val)

-- 1000000000 to 10
abbrev pub powers : List ℕ
powers =
    1_000_000_000 ∷ 100_000_000 ∷ 10_000_000 ∷ 1_000_000 ∷ 100_000 ∷ 10_000 ∷ 1_000 ∷ 100 ∷ 10 ∷ []

abbrev pub write : ℕ → Option (List ℕ) → Option (List ℕ)
write c none = none
write c (some cs) = some (c ∷ cs)

-- `if (started || c != '0') { *p++ = c; started = true; }`, and what follows.
abbrev pub with_digit : (Bool → ℕ → Option (List ℕ)) → Bool → Option (ℕ × ℕ) → Option (List ℕ)
with_digit rest started none = none
with_digit rest started (some (c, val)) =
    if started || not (c == b'0') then write c (rest true val) else rest started val

-- The digits that are left to write.
unfoldable pub decimal : List ℕ → Bool → ℕ → Option (List ℕ)
unfolding subtract_loop
decimal [] started val = some ((b'0' + val) ∷ [])
decimal (d ∷ ds) started val =
    with_digit (λ s v. decimal ds s v) started (subtract_loop 10 d b'0' val)

-- OS_ConvertInteger: a sign, and the digits of val or of -val.
unfoldable pub signed_decimal : ℕ → Option (List ℕ)
unfolding decimal
signed_decimal val =
    if leb (2 ^ 31) val
    then write b'-' (decimal powers false ((2 ^ 32 - val) % 2 ^ 32))
    else decimal powers false val

-- (val << n) >> n, without sign
abbrev pub up_and_down : ℕ → ℕ → ℕ
up_and_down n val = val * 2 ^ n % 2 ^ 32 / 2 ^ n

-- The characters that are written, by the number of the call; `none` also for PANIC.
unfoldable pub converted : ℕ → ℕ → Option (List ℕ)
unfolding hex_digits signed_decimal
converted swi val =
    if swi == 0xd4
    then some (hex_digits 8 val)
    else if swi == 0xd3
    then some (hex_digits 6 val)
    else if swi == 0xd2
    then some (hex_digits 4 val)
    else if swi == 0xd1
    then some (hex_digits 2 val)
    else if swi == 0xd0
    then some (hex_digits 1 val)
    else if swi == 0xd5
    then decimal powers false (val % 2 ^ 8 % 2 ^ 16 % 2 ^ 24)
    else if swi == 0xd6
    then decimal powers false (val % 2 ^ 16 % 2 ^ 24)
    else if swi == 0xd7
    then decimal powers false (val % 2 ^ 24)
    else if swi == 0xd8
    then decimal powers false val
    else if swi == 0xd9
    then signed_decimal (up_and_down 8 (up_and_down 16 (up_and_down 24 val)))
    else if swi == 0xda
    then signed_decimal (up_and_down 8 (up_and_down 16 val))
    else if swi == 0xdb
    then signed_decimal (up_and_down 8 val)
    else if swi == 0xdc
    then signed_decimal val
    else none

-- The characters in memory at `p`, and the 0 behind them.
abbrev pub store : List ℕ → ℕ → Bytes → Bytes
store [] p m = update m p 0
store (c ∷ cs) p m = store cs (suc p) (update m p c)

abbrev pub written : Registers → Bytes → Option (List ℕ) → Option (Registers × Bytes)
written regs m none = none
written regs m (some cs) =
    let buf = regs.r 1 in
    some (
      set_reg 2 (sub32 (regs.r 2) (length cs))
          (set_reg 1 ((buf + length cs) % 2 ^ 32) (set_reg 0 buf regs)),
      store cs buf m,
    )

unfoldable pub do_convert : ℕ → Registers → Bytes → Option (Registers × Bytes)
do_convert swi regs m = written regs m (converted swi (regs.r 0))
