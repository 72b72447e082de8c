-- ===== src/Legacy/Hex.antt =====
-- do_convert: the calls that write hexadecimal digits.
use simple_as_pi.Common.{
  ℕ, zero, suc, ◌+◌, ◌-◌, ◌*◌, ◌/◌, ◌%◌, ◌^◌, ◌≤◌, ◌<◌, ◌≡◌, ◌∙◌, ap, refl, some, List, [], ◌∷◌,
  arith, ◌==◌, leb, if◌then◌else◌, length,
}
use native.Mathlib.Nat.{mul-add-mod_self_right, mod-eq_of_lt}
use simple_as_pi.Tasks.{Registers}
use simple_as_pi.Texts.{Bytes}
use simple_as_pi.Legacy.{hex, hex_digits, converted, do_convert}
use simple_as_pi.Legacy.Convert.{Wrote, do_convert-Wrote}

-- The number that hexadecimal digits stand for, read after `acc`.
abbrev pub hex_value : ℕ → List ℕ → ℕ
hex_value acc [] = acc
hex_value acc (c ∷ cs) = hex_value (acc * 16 + (if leb c b'9' then c - b'0' else c - b'A' + 10)) cs

hex-value :
    (acc n : ℕ) (cs : List ℕ) → n < 16 → hex_value acc (hex n ∷ cs) ≡ hex_value (acc * 16 + n) cs
hex-value acc n cs h =
    let back : (if leb (hex n) b'9' then hex n - b'0' else hex n - b'A' + 10) ≡ n = ground arith in
    rw back refl

parts_of : (val d : ℕ) → val ≡ val / d / 16 * (16 * d) + (val / d % 16 * d + val % d)
parts_of val d =
    let outer : val / d * d + val % d ≡ val = grind arith in
    let inner : val / d / 16 * 16 + val / d % 16 ≡ val / d = omega arith in
    let place : (val / d / 16 * 16 + val / d % 16) * d
        ≡ val / d / 16 * (16 * d) + val / d % 16 * d =
      grind arith in
    let joined : val / d * d ≡ val / d / 16 * (16 * d) + val / d % 16 * d = rw inner at place in
    omega (arith, outer, joined)

low_part : (s r d : ℕ) → s < 16 → r < d → s * d + r < 16 * d
low_part s r d h l = let up : s * d ≤ 15 * d = grind arith in omega (arith, up)

hex_place :
    (acc val d : ℕ)
    → 0 < d
    → (acc * 16 + val / d % 16) * d + val % d ≡ acc * (16 * d) + val % (16 * d)
hex_place acc val d pos =
    let s = val / d % 16 in
    let r = val % d in
    let small : r < d = grind arith in
    let low : s * d + r < 16 * d = low_part s r d (omega arith) small in
    let whole : (val / d / 16 * (16 * d) + (s * d + r)) % (16 * d) ≡ s * d + r =
      mul-add-mod_self_right (val / d / 16) (16 * d) (s * d + r) ∙ mod-eq_of_lt low in
    let rest : val % (16 * d) ≡ s * d + r = ap (λ x. x % (16 * d)) (parts_of val d) ∙ whole in
    let place : (acc * 16 + s) * d ≡ acc * (16 * d) + s * d = grind arith in
    omega (arith, rest, place)

pow_pos : (n : ℕ) → 0 < 2 ^ n
pow_pos zero = omega arith
pow_pos (suc n) = omega (arith, pow_pos n)

hex_value-hex_digits :
    (n acc val : ℕ) → hex_value acc (hex_digits n val) ≡ acc * 2 ^ (4 * n) + val % 2 ^ (4 * n)
unfolding hex_digits
hex_value-hex_digits zero acc val = omega arith
hex_value-hex_digits (suc n) acc val =
    let d = 2 ^ (4 * n) in
    let four : 4 * suc n ≡ suc (suc (suc (suc (4 * n)))) = omega arith in
    let power : 2 ^ suc (suc (suc (suc (4 * n)))) ≡ 16 * d = omega arith in
    rw (hex-value acc (val / d % 16) (hex_digits n val) (omega arith), four, power)
      (hex_value-hex_digits n (acc * 16 + val / d % 16) val ∙ hex_place acc val d (pow_pos (4 * n)))

-- How many digits OS_ConvertHex1, 2, 4, 6 and 8 write.
abbrev pub hex_size : ℕ → ℕ
hex_size k = if k == 0 then 1 else 2 * k

length-hex_digits : (n val : ℕ) → length (hex_digits n val) ≡ n
unfolding hex_digits
length-hex_digits zero val = refl
length-hex_digits (suc n) val = omega (arith, length-hex_digits n val)

converted_hex : (k val : ℕ) → k < 5 → converted (0xd0 + k) val ≡ some (hex_digits (hex_size k) val)
unfolding converted
converted_hex zero val h = refl
converted_hex (suc zero) val h = refl
converted_hex (suc (suc zero)) val h = refl
converted_hex (suc (suc (suc zero))) val h = refl
converted_hex (suc (suc (suc (suc zero)))) val h = refl
converted_hex (suc (suc (suc (suc (suc n))))) val h = absurd (omega arith)

-- OS_ConvertHex1 to 8 write the low digits of r0, from which they can be read.
pub do_convert_hex :
    (k : ℕ) (regs : Registers) (m : Bytes)
    → k < 5
    → (cs : List ℕ) × (hex_value 0 cs ≡ regs.r 0 % 2 ^ (4 * hex_size k))
      × (length cs ≡ hex_size k)
      × (regs' : Registers) × (m' : Bytes) × (do_convert (0xd0 + k) regs m ≡ some (regs', m'))
      × Wrote cs regs regs' m m'
do_convert_hex k regs m h =
    let n = hex_size k in
    let cs = hex_digits n (regs.r 0) in
    let (regs', m', e, wrote) =
      do_convert-Wrote (0xd0 + k) cs regs m (converted_hex k (regs.r 0) h) in
    (
      cs,
      omega (arith, hex_value-hex_digits n 0 (regs.r 0)),
      length-hex_digits n (regs.r 0),
      regs',
      m',
      e,
      wrote,
    )
