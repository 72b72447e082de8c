-- ===== src/Tests/Modules.antt =====
-- Texts in memory, numbers to convert, and modules with instances.
use simple_as_pi.Common.{
  ℕ, ◌≤◌, ◌≡◌, ◌↔◌, refl, Bool, true, some, List, [], ◌∷◌, ◌++◌, map, arith, ◌==◌, if◌then◌else◌,
  update, length,
}
use simple_as_pi.Tasks.{Registers}
use simple_as_pi.Texts.{Bytes, module_name_match, count_params, search_list}
use simple_as_pi.Texts.Compare.{lower, module_name_match_lem}
use simple_as_pi.Texts.Parameters.{count_params-parameters}
use simple_as_pi.Texts.Commands.{Command, search_list-find_command}
use simple_as_pi.Legacy.{store, do_convert}
use simple_as_pi.Legacy.Decimal.{value, AllDigits, IsShortest}
use simple_as_pi.Legacy.Convert.{Wrote, do_convert_cardinal, do_convert_never_negative}
use simple_as_pi.Modules.{
  Modules, made, new_module, append_module_to_list, find_module_by_chunk, called, do_service_call,
}
use simple_as_pi.Modules.New.{new_module-find_module_by_chunk}
use simple_as_pi.Modules.Service.{do_service_call_twice}

-- "Wimp%1" at 0x100, "WIMP " at 0x200, and the parameters `a "b c" d` at 0x300.
abbrev wimp : List ℕ
wimp = b'W' ∷ b'i' ∷ b'm' ∷ b'p' ∷ []

abbrev wimp_upper : List ℕ
wimp_upper = b'W' ∷ b'I' ∷ b'M' ∷ b'P' ∷ []

abbrev three : List ℕ
three = b'a' ∷ b' ' ∷ b'"' ∷ b'b' ∷ b' ' ∷ b'c' ∷ b'"' ∷ b' ' ∷ b'd' ∷ []

abbrev texts : Bytes
texts =
    store (wimp ++ b'%' ∷ b'1' ∷ []) 0x100
      (store (wimp_upper ++ b' ' ∷ []) 0x200 (store three 0x300 (λ p. 0)))

module_name_match_lem_example :
    (b : Bool) × (module_name_match 9 0x100 0x200 texts ≡ some b)
    × ((b ≡ true) ↔ (map lower wimp ≡ map lower wimp_upper))
module_name_match_lem_example =
    module_name_match_lem 9 0x100 0x200 texts wimp wimp_upper (omega arith)
      (refl, refl, (refl, refl, (refl, refl, (refl, refl, refl))))
      (refl, refl, (refl, refl, (refl, refl, (refl, refl, refl))))

count_params-parameters_example : count_params 20 0x300 texts ≡ some 3
count_params-parameters_example = count_params-parameters 20 0x300 texts three (omega arith) (
  refl,
  refl,
  (
    refl,
    refl,
    (
      refl,
      refl,
      (refl, refl, (refl, refl, (refl, refl, (refl, refl, (refl, refl, (refl, refl, refl)))))),
    ),
  ),
)

abbrev regs : Registers
regs = record {
  r = λ n. if n == 0 then 0xfffe else if n == 1 then 0x8000 else 12;
  lr = 0;
  spsr = 0;
}

do_convert_cardinal_example :
    (cs : List ℕ) × (value 0 cs ≡ 254)
    × AllDigits cs
    × IsShortest cs
    × (length cs ≤ 10)
    × (regs' : Registers) × (m' : Bytes) × (do_convert 0xd5 regs texts ≡ some (regs', m'))
    × Wrote cs regs regs' texts m'
do_convert_cardinal_example =
    do_convert_cardinal 1 regs texts (omega arith) (omega arith) (omega arith)

do_convert_never_negative_example : do_convert 0xd9 regs texts ≡ do_convert 0xd5 regs texts
do_convert_never_negative_example =
    do_convert_never_negative 1 regs texts (omega arith) (omega arith) (omega arith)

-- The command Help with code at 0x100, for "HELP ".
abbrev help : List ℕ
help = b'H' ∷ b'e' ∷ b'l' ∷ b'p' ∷ []

abbrev help_upper : List ℕ
help_upper = b'H' ∷ b'E' ∷ b'L' ∷ b'P' ∷ []

abbrev commands : Bytes
commands = update (store help 0x400 (store (help_upper ++ b' ' ∷ []) 0x500 (λ p. 0))) 0x409 1

abbrev help_command : Command
help_command = record { first = b'H'; others = b'e' ∷ b'l' ∷ b'p' ∷ []; code_offset = 0x100 }

search_list-find_command_example : search_list 9 9 0x500 0x400 commands ≡ some 0x408
search_list-find_command_example =
    search_list-find_command 9 9 0x500 0x400 commands help_upper (help_command ∷ []) (omega arith)
      (omega arith, tt)
      ((refl, refl, (refl, refl, (refl, refl, (refl, refl, refl)))), refl, refl, refl)
      (refl, refl, (refl, refl, (refl, refl, (refl, refl, refl))))

-- A module 16 with an instance 32 behind it.
abbrev two_modules : Modules
two_modules = record {
  next = λ m. if m == 16 then 32 else 0;
  instances = λ m. if m == 16 then 32 else 0;
  base = λ m. if m == 32 then 16 else 0;
  header = λ m. 0x900;
  preferred = λ m. if m == 16 then 32 else 0;
  handlers = λ m. 0;
  private_word = λ m. 0;
  postfix = λ m. [];
  modules = 16;
  last = 32;
  in_init = 0;
}

-- A SWI of the chunk 0x40240, which the header at 0xa00 has.
abbrev chunks : ℕ → ℕ
chunks h = if h == 0xa00 then 0x40240 else 0

new_module-find_module_by_chunk_example :
    (s' : Modules) × (new_module 9 0xa00 [] 48 two_modules ≡ made s')
    × (find_module_by_chunk chunks 9 0x40243 (append_module_to_list 48 s') ≡ some 48)
new_module-find_module_by_chunk_example =
    new_module-find_module_by_chunk chunks 9 0xa00 48 0x40243 (16 ∷ 32 ∷ []) two_modules
      ((refl, omega arith, (refl, omega arith, refl)), refl, (refl, (refl, tt))) refl (omega arith)
      (omega arith) refl (omega arith) (λ x h. omega arith)

do_service_call_twice_example :
    (regs' : Registers) × (do_service_call (λ m r. r) (λ h. true) 8 two_modules regs
      ≡ called regs' (32 ∷ 32 ∷ []))
do_service_call_twice_example =
    do_service_call_twice (λ m r. r) (λ h. true) 5 16 32 two_modules regs
      (refl, omega arith, (refl, omega arith, refl)) refl refl refl refl (λ m r. refl) (omega arith)
