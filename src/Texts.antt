-- ===== src/Texts.antt =====
-- Modules/osmodule.c: the names, commands and parameters in the bytes of memory. A loop that has not
-- ended when the fuel is used up gives `none`.
pub mod Compare
pub mod Parameters
pub mod Commands
use simple_as_pi.Common.{
  ℕ, zero, suc, ◌+◌, ◌-◌, ◌*◌, ◌/◌, ◌%◌, ◌^◌, Bool, true, false, not, ◌&&◌, ◌||◌, Option, none,
  some, ◌==◌, ltb, leb, if◌then◌else◌,
}

-- Characters by address; `char` has no sign.
abbrev pub Bytes : Type 0
Bytes = ℕ → ℕ

-- `while (test( *p )) p++`
unfoldable pub skip : (ℕ → Bool) → ℕ → ℕ → Bytes → Option ℕ
skip test zero p m = none
skip test (suc fuel) p m =
    let rest = skip test fuel (suc p) m in if test (m p) then rest else some p

-- The end of a string, of a line, and of a name or command.
abbrev pub terminator : ℕ → Bool
terminator c = (c == 0) || (c == 13) || (c == 10)

abbrev pub ends_command : ℕ → Bool
ends_command c = (c == 0) || (c == 10) || (c == 13) || (c == b' ')

abbrev pub ends_name : ℕ → Bool
ends_name c = ends_command c || (c == b'%')

abbrev pub is_lower : ℕ → Bool
is_lower c = leb b'a' c && leb c b'z'

-- The loop goes on if diff is 0, or is made 0.
abbrev pub no_difference : ℕ → ℕ → Bool
no_difference l r = (l == r) || ((l == r + 32) && is_lower l) || ((r == l + 32) && is_lower r)

-- The `while` of module_name_match and of riscoscmp, which differ in what ends a text.
unfoldable pub compare_loop : (ℕ → Bool) → ℕ → ℕ → ℕ → Bytes → Option Bool
compare_loop ends zero left right m = none
compare_loop ends (suc fuel) left right m =
    let l = m left in
    let r = m right in
    let rest = compare_loop ends fuel (suc left) (suc right) m in
    if ends l && ends r then some true else if no_difference l r then rest else some false

unfoldable pub module_name_match : ℕ → ℕ → ℕ → Bytes → Option Bool
module_name_match = compare_loop ends_name

unfoldable pub riscoscmp : ℕ → ℕ → ℕ → Bytes → Option Bool
riscoscmp = compare_loop ends_command

abbrev pub then_skip : (ℕ → Bool) → ℕ → Bytes → Option ℕ → Option ℕ
then_skip test fuel m none = none
then_skip test fuel m (some p) = skip test fuel p m

-- The two pointers of split_command.
unfoldable pub command_start : ℕ → ℕ → Bytes → Option ℕ
command_start fuel cmd m = skip (λ c. (c == b' ') || (c == b'*')) fuel cmd m

unfoldable pub command_tail : ℕ → ℕ → Bytes → Option ℕ
command_tail fuel command m =
    then_skip (λ c. c == b' ') fuel m
      (then_skip (λ c. ltb b' ' c) fuel m
        (then_skip (λ c. c == b' ') fuel m (skip (λ c. c == b'%') fuel command m)))

-- Where the inner `while` of count_params ends.
pub data Scan : Type 0 where
  word_ends : ℕ → Scan
  mistake : Scan
  running : Scan

-- Behind a quoted part: the closing quote, if the loop found it before the end.
abbrev pub after_quote : (ℕ → Scan) → Bytes → Option ℕ → Scan
after_quote go m none = running
after_quote go m (some q) = if terminator (m q) then mistake else go (suc q)

unfoldable pub word_loop : ℕ → ℕ → Bytes → Scan
word_loop zero p m = running
word_loop (suc fuel) p m =
    let rest = word_loop fuel (suc p) m in
    let quoted =
      after_quote (λ q. word_loop fuel q m) m
        (skip (λ c. not (terminator c) && not (c == b'"')) fuel (suc p) m) in
    if terminator (m p) || (m p == b' ') then word_ends p else if m p == b'"' then quoted else rest

abbrev pub mistaken : ℕ
mistaken = 0xffffffff

abbrev pub at_next : (ℕ → Option ℕ) → Option ℕ → Option ℕ
at_next go none = none
at_next go (some q) = go q

abbrev pub after_word : (ℕ → Option ℕ) → ℕ → Bytes → Scan → Option ℕ
after_word go fuel m running = none
after_word go fuel m mistake = some mistaken
after_word go fuel m (word_ends p) = at_next go (skip (λ c. c == b' ') fuel p m)

-- The outer `while` of count_params; `fuel` bounds the loops in it.
unfoldable pub params_loop : ℕ → ℕ → ℕ → ℕ → Bytes → Option ℕ
params_loop fuel zero result p m = none
params_loop fuel (suc rounds) result p m =
    let rest =
      after_word (λ q. params_loop fuel rounds (suc result) q m) fuel m (word_loop fuel p m) in
    if terminator (m p) then some result else rest

abbrev pub params_from : ℕ → Bytes → Option ℕ → Option ℕ
params_from fuel m = at_next (λ p. params_loop fuel fuel 0 p m)

unfoldable pub count_params : ℕ → ℕ → Bytes → Option ℕ
count_params fuel params m = params_from fuel m (skip (λ c. c == b' ') fuel params m)

-- What run_module_code does with the count and the command's limits.
pub data Checked : Type 0 where
  panic : Checked
  mistake_error : Checked
  runs_command : Checked

unfoldable pub check_params : ℕ → ℕ → ℕ → Checked
check_params count min_params max_params =
    if ltb count min_params || ltb max_params count
    then panic
    else if count == mistaken
    then mistake_error
    else runs_command

-- The loop of search_list; a command is its name, a terminator, padding to a word, and four words
-- of a module_command, the first of which is code_offset.
abbrev pub word_at : ℕ → Bytes → ℕ
word_at p m = m p + m (p + 1) * 2 ^ 8 + m (p + 2) * 2 ^ 16 + m (p + 3) * 2 ^ 24

abbrev pub entry_after : (ℕ → Option ℕ) → Option ℕ → Option ℕ
entry_after go none = none
entry_after go (some end) = go ((end + 4) / 4 * 4)

abbrev pub if_matched : Option ℕ → Option ℕ → Option Bool → Option ℕ
if_matched found rest none = none
if_matched found rest (some matches) = if matches then found else rest

unfoldable pub search_list : ℕ → ℕ → ℕ → ℕ → Bytes → Option ℕ
search_list fuel zero command cmd m = none
search_list fuel (suc rounds) command cmd m =
    let at_entry : ℕ → Option ℕ = λ c.
      let rest = search_list fuel rounds command (c + 16) m in
      if_matched (if word_at c m == 0 then rest else some c) rest (riscoscmp fuel cmd command m) in
    let entry = entry_after at_entry (skip (λ c. ltb 0 c) fuel cmd m) in
    if m cmd == 0 then some 0 else entry

-- find_module_command on one module's list, 0 if it has none.
unfoldable pub search_commands : ℕ → ℕ → ℕ → Bytes → Option ℕ
search_commands fuel command cmd m =
    if cmd == 0 then some 0 else search_list fuel fuel command cmd m
