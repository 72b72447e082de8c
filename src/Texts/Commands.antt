-- ===== src/Texts/Commands.antt =====
-- search_list: the module_command that stands behind the first matching name of a module's list.
use simple_as_pi.Common.{
  ℕ, zero, suc, ◌+◌, ◌*◌, ◌/◌, ◌^◌, ◌<◌, ◌≡◌, ◌≢◌, refl, true, false, not, ◌&&◌, some, List, [],
  ◌∷◌, arith, ◌==◌, ltb, if◌then◌else◌, length,
}
use simple_as_pi.Texts.{
  Bytes, ends_command, skip, riscoscmp, word_at, search_list, mistake_error, check_params,
}
use simple_as_pi.Texts.Compare.{
  TextAt, same_text, compare_loop-same_text, ends_command-KeepsLetters,
}

-- A command of a list: its name and code_offset.
pub record Command : Type 0 where
  pub first : ℕ
  pub others : List ℕ
  pub code_offset : ℕ

abbrev pub name : Command → List ℕ
name c = c.first ∷ c.others

-- The end of a name, which is 0.
abbrev pub end_at : ℕ → List ℕ → ℕ
end_at p xs = p + length xs

-- Where the module_command of a name stands.
abbrev pub entry_of : ℕ → Command → ℕ
entry_of p c = (p + length (name c) + 4) / 4 * 4

-- The list in memory.
abbrev pub CommandsAt : Bytes → ℕ → List Command → Type 0
CommandsAt m p [] = m p ≡ 0
CommandsAt m p (c ∷ cs) =
    TextAt ends_command m p (name c)
    × (m (p + length (name c)) ≡ 0)
    × (word_at (entry_of p c) m ≡ c.code_offset)
    × CommandsAt m (entry_of p c + 16) cs

-- The place of the first command with the name and some code, or 0.
abbrev pub find_command : List ℕ → ℕ → List Command → ℕ
find_command xs p [] = 0
find_command xs p (c ∷ cs) =
    if same_text (name c) xs && not (c.code_offset == 0)
    then entry_of p c
    else find_command xs (entry_of p c + 16) cs

-- Every name is shorter than the fuel.
abbrev pub Shorter : ℕ → List Command → Type 0
Shorter fuel [] = Unit {0}
Shorter fuel (c ∷ cs) = (length (name c) < fuel) × Shorter fuel cs

skip-name :
    (fuel p : ℕ) (m : Bytes) (xs : List ℕ)
    → length xs < fuel
    → TextAt ends_command m p xs
    → m (p + length xs) ≡ 0
    → skip (λ c. ltb 0 c) fuel p m ≡ some (p + length xs)
unfolding skip
skip-name zero p m xs f t e = absurd (omega arith)
skip-name (suc fuel) p m [] f t e =
    let here : p + 0 ≡ p = omega arith in let nul : m p ≡ 0 = rw here at e in rw (nul, here) refl
skip-name (suc fuel) p m (x ∷ xs) f t e =
    let on : p + suc (length xs) ≡ suc p + length xs = omega arith in
    let more : ltb 0 (m p) ≡ true = ground (arith, t.0, t.1) in
    rw (more, on) (skip-name fuel (suc p) m xs (omega arith) t.2 (rw on at e))

-- search_list on a list of commands in memory, with fuel for their number and their names, for a
-- command in memory: it ends, with the module_command behind the first name that is the same but
-- for the case of letters and has code, or 0 if there is none.
pub search_list-find_command :
    (fuel rounds command p : ℕ) (m : Bytes) (xs : List ℕ) (cs : List Command)
    → length cs < rounds
    → Shorter fuel cs
    → CommandsAt m p cs
    → TextAt ends_command m command xs
    → search_list fuel rounds command p m ≡ some (find_command xs p cs)
unfolding search_list riscoscmp
search_list-find_command fuel zero command p m xs cs r f at t = absurd (omega arith)
search_list-find_command fuel (suc rounds) command p m xs [] r f at t = rw at refl
search_list-find_command fuel (suc rounds) command p m xs (c ∷ cs) r f at t =
    let more : (m p == 0) ≡ false = ground (arith, at.0.0, at.0.1) in
    let end = skip-name fuel p m (name c) f.0 at.0 at.1 in
    let same =
      compare_loop-same_text ends_command ends_command-KeepsLetters fuel p command m (name c) xs f.0
        at.0 t in
    let ih =
      search_list-find_command fuel rounds command (entry_of p c + 16) m xs cs (omega arith) f.1
        at.3 t in
    rw (more, end, same, at.2, ih) (ground arith)

-- The number of parameters is compared with the limits first, so the mistake is never reported.
pub check_params_never_mistake :
    (count min_params max_params : ℕ)
    → max_params < 2 ^ 8
    → check_params count min_params max_params ≢ mistake_error
unfolding check_params
check_params_never_mistake count min_params max_params h e = ground arith
