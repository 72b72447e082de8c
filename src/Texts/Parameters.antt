-- ===== src/Texts/Parameters.antt =====
-- count_params against a reading of the text one character at a time.
use simple_as_pi.Common.{
  ℕ, zero, suc, ◌+◌, ◌≤◌, ◌<◌, ◌≡◌, ◌⊎◌, ◌∙◌, sym, ap, refl, true, false, not, inl, inr, Bool-cases,
  Option, some, List, [], ◌∷◌, arith, ◌==◌, ◌&&◌, if◌then◌else◌, length,
}
use simple_as_pi.Texts.{
  Bytes, terminator, skip, Scan, word_ends, mistake, running, after_quote, word_loop, mistaken,
  after_word, params_loop, count_params,
}
use simple_as_pi.Texts.Compare.{TextAt}

-- Where a reader of the text is: between parameters, in one, or in quotes in one.
pub data Reader : Type 0 where
  between : Reader
  inside : Reader
  in_quotes : Reader

-- The reader behind the character `x`.
abbrev pub read : Reader → ℕ → Reader
read between x = if x == b' ' then between else if x == b'"' then in_quotes else inside
read inside x = if x == b' ' then between else if x == b'"' then in_quotes else inside
read in_quotes x = if x == b'"' then inside else in_quotes

-- A parameter starts at a character other than a space, between parameters.
abbrev pub starts : Reader → ℕ → ℕ
starts between x = if x == b' ' then 0 else 1
starts inside x = 0
starts in_quotes x = 0

-- The parameters of the text, with `n` before it; a text that ends in quotes is a mistake.
abbrev pub parameters : Reader → ℕ → List ℕ → ℕ
parameters between n [] = n
parameters inside n [] = n
parameters in_quotes n [] = mistaken
parameters r n (x ∷ xs) = parameters (read r x) (n + starts r x) xs

abbrev Text : Bytes → ℕ → List ℕ → Type 0
Text = TextAt terminator

-- The text that is left at `q`, which the reader `r` at `xs` reads as `s` does.
record Left (m : Bytes) (q : ℕ) (r s : Reader) (xs ys : List ℕ) : Type 0 where
  text : Text m q ys
  same : (n : ℕ) → parameters r n xs ≡ parameters s n ys
  shorter : length ys ≤ length xs

abbrev IsSpaceFirst : List ℕ → Type 0
IsSpaceFirst [] = ⊥
IsSpaceFirst (x ∷ xs) = x ≡ b' '

skip-spaces :
    (fuel p : ℕ) (m : Bytes) (xs : List ℕ)
    → length xs < fuel
    → Text m p xs
    → (q : ℕ) × (ys : List ℕ) × (skip (λ c. c == b' ') fuel p m ≡ some q)
      × Left m q between between xs ys
      × (IsSpaceFirst ys → ⊥)
unfolding skip
skip-spaces zero p m xs f t = absurd (omega arith)
skip-spaces (suc fuel) p m [] f t =
    let no_space : (m p == b' ') ≡ false = ground (arith, t) in
    (p, [], rw no_space refl, record { text = t; same = λ n. refl; shorter = omega arith }, λ h. h)
skip-spaces (suc fuel) p m (x ∷ xs) f t = elim (Bool-cases (x == b' ')) [
  | inl space ↦
      let (q, ys, e, left, first) = skip-spaces fuel (suc p) m xs (omega arith) t.2 in
      let zero_more = λ (n : ℕ). let r : n + 0 ≡ n = omega arith in r in
      (
        q,
        ys,
        rw (t.0, space) e,
        record {
          text = left.text;
          same = λ n. rw (space, zero_more n) (left.same n);
          shorter = omega (arith, left.shorter);
        },
        first,
      )
  | inr other ↦ (
    p,
    x ∷ xs,
    rw (t.0, other) refl,
    record { text = t; same = λ n. refl; shorter = omega arith },
    λ h. ground (arith, other, h),
  )
]

abbrev IsQuoteFirst : List ℕ → Type 0
IsQuoteFirst [] = Unit {0}
IsQuoteFirst (x ∷ xs) = x ≡ b'"'

zero_more : (n : ℕ) → n + 0 ≡ n
zero_more n = omega arith

-- The loop in quotes stops at the closing quote, or at the end of the text.
skip-quoted :
    (fuel p : ℕ) (m : Bytes) (xs : List ℕ)
    → length xs < fuel
    → Text m p xs
    → (q : ℕ) × (ys : List ℕ) × (skip (λ c. not (terminator c) && not (c == b'"')) fuel p m
        ≡ some q)
      × Left m q in_quotes in_quotes xs ys
      × IsQuoteFirst ys
unfolding skip
skip-quoted zero p m xs f t = absurd (omega arith)
skip-quoted (suc fuel) p m [] f t =
    (p, [], rw t refl, record { text = t; same = λ n. refl; shorter = omega arith }, tt)
skip-quoted (suc fuel) p m (x ∷ xs) f t = elim (Bool-cases (x == b'"')) [
  | inl quote ↦ (
    p,
    x ∷ xs,
    rw (t.0, t.1, quote) refl,
    record { text = t; same = λ n. refl; shorter = omega arith },
    ground (arith, quote),
  )
  | inr other ↦
      let (q, ys, e, left, first) = skip-quoted fuel (suc p) m xs (omega arith) t.2 in
      (
        q,
        ys,
        rw (t.0, t.1, other) e,
        record {
          text = left.text;
          same = λ n. rw (other, zero_more n) (left.same n);
          shorter = omega (arith, left.shorter);
        },
        first,
      )
]

-- Where a word that starts with `xs` ends.
abbrev Ends : Bytes → List ℕ → Scan → Type 0
Ends m xs running = ⊥
Ends m xs mistake = (n : ℕ) → parameters inside n xs ≡ mistaken
Ends m xs (word_ends q) =
    (ys : List ℕ) × Left m q inside between xs ys
    × ((length ys < length xs) ⊎ IsSpaceFirst xs ⊎ (xs ≡ []))

-- The word goes on behind the character `x`.
Ends-step :
    (m : Bytes) (x : ℕ) (xs ys : List ℕ) (s : Scan)
    → ((n : ℕ) → parameters inside n (x ∷ xs) ≡ parameters inside n ys)
    → length ys < length (x ∷ xs)
    → Ends m ys s
    → Ends m (x ∷ xs) s
Ends-step m x xs ys running same less h = h
Ends-step m x xs ys mistake same less h = λ n. rw (same n) (h n)
Ends-step m x xs ys (word_ends q) same less (zs, left, more) = (
  zs,
  record {
    text = left.text;
    same = λ n. rw (same n) (left.same n);
    shorter = omega (arith, left.shorter);
  },
  inl (omega (arith, left.shorter)),
)

-- Behind an opening quote, with `go` for the rest of the word.
Ends-quoted :
    (m : Bytes) (x q : ℕ) (xs ys : List ℕ) (go : ℕ → Scan)
    → (x == b' ') ≡ false
    → (x == b'"') ≡ true
    → Left m q in_quotes in_quotes xs ys
    → IsQuoteFirst ys
    → ((zs : List ℕ) → length zs < length ys → Text m (suc q) zs → Ends m zs (go (suc q)))
    → Ends m (x ∷ xs) (after_quote go m (some q))
Ends-quoted m x q xs [] go letter quote left first rest =
    rw left.text (λ n. rw (letter, quote, zero_more n) (left.same n))
Ends-quoted m x q xs (y ∷ zs) go letter quote left first rest =
    let here : (y == b'"') ≡ true = ground (arith, first) in
    let more : terminator (m q) ≡ false = rw left.text.0 left.text.1 in
    let same = λ (n : ℕ).
      let on : parameters inside n (x ∷ xs) ≡ parameters inside n zs =
        rw (letter, quote, zero_more n) (rw (here, zero_more n) at (left.same n)) in
      on in
    rw more
      (Ends-step m x xs zs _ same (omega (arith, left.shorter)) (rest zs (omega arith) left.text.2))

word_loop-Ends :
    (fuel p : ℕ) (m : Bytes) (xs : List ℕ)
    → length xs < fuel
    → Text m p xs
    → Ends m xs (word_loop fuel p m)
unfolding word_loop
word_loop-Ends zero p m xs f t = absurd (omega arith)
word_loop-Ends (suc fuel) p m [] f t =
    rw t ([], record { text = t; same = λ n. refl; shorter = omega arith }, inr (inr refl))
word_loop-Ends (suc fuel) p m (x ∷ xs) f t = elim (Bool-cases (x == b' ')) [
  | inl space ↦
      rw (t.0, t.1, space)
        (
          x ∷ xs,
          record { text = t; same = λ n. rw space refl; shorter = omega arith },
          inr (inl (ground (arith, space))),
        )
  | inr letter ↦ elim (Bool-cases (x == b'"')) [
    | inr plain ↦
        rw (t.0, t.1, letter, plain)
          (Ends-step m x xs xs _ (λ n. rw (letter, plain, zero_more n) refl) (omega arith)
            (word_loop-Ends fuel (suc p) m xs (omega arith) t.2))
    | inl quote ↦
        let (q, ys, e, left, first) = skip-quoted fuel (suc p) m xs (omega arith) t.2 in
        rw (t.0, t.1, letter, quote, e)
          (Ends-quoted m x q xs ys (λ q'. word_loop fuel q' m) letter quote left first
            λ zs less u. word_loop-Ends fuel (suc q) m zs (omega (arith, left.shorter)) u)
  ]
]

after_word-parameters :
    (fuel result : ℕ) (m : Bytes) (x : ℕ) (xs : List ℕ) (s : Scan) (go : ℕ → Option ℕ)
    → length (x ∷ xs) < fuel
    → (x == b' ') ≡ false
    → Ends m (x ∷ xs) s
    → ((q : ℕ) (ys : List ℕ)
        → length ys < length (x ∷ xs)
        → Text m q ys
        → (IsSpaceFirst ys → ⊥)
        → go q ≡ some (parameters between result ys))
    → after_word go fuel m s ≡ some (parameters inside result (x ∷ xs))
after_word-parameters fuel result m x xs running go f letter ends rest = absurd ends
after_word-parameters fuel result m x xs mistake go f letter ends rest = rw (ends result) refl
after_word-parameters fuel result m x xs (word_ends p) go f letter (ys, left, inr (inl space))
      rest =
    absurd (ground (arith, letter, space))
after_word-parameters fuel result m x xs (word_ends p) go f letter (ys, left, inr (inr none_left))
      rest =
    absurd (cc)
after_word-parameters fuel result m x xs (word_ends p) go f letter (ys, left, inl less) rest =
    let (q, zs, e, spaces, first) = skip-spaces fuel p m ys (omega arith) left.text in
    let on = rest q zs (omega (arith, spaces.shorter)) spaces.text first in
    let same : parameters inside result (x ∷ xs) ≡ parameters between result zs =
      left.same result ∙ spaces.same result in
    rw e (on ∙ ap some (sym same))

-- Every round of the outer loop reads one parameter.
params_loop-parameters :
    (fuel rounds result p : ℕ) (m : Bytes) (xs : List ℕ)
    → length xs < fuel
    → length xs < rounds
    → Text m p xs
    → (IsSpaceFirst xs → ⊥)
    → params_loop fuel rounds result p m ≡ some (parameters between result xs)
unfolding params_loop
params_loop-parameters fuel zero result p m xs f r t first = absurd (omega arith)
params_loop-parameters fuel (suc rounds) result p m [] f r t first = rw t refl
params_loop-parameters fuel (suc rounds) result p m (x ∷ xs) f r t first =
    let letter : (x == b' ') ≡ false = ground (arith, first) in
    let start : parameters between result (x ∷ xs) ≡ parameters inside (suc result) (x ∷ xs) =
      let count : result + 1 ≡ suc result + 0 = omega arith in rw (letter, count) refl in
    rw (t.0, t.1, start)
      (after_word-parameters fuel (suc result) m x xs (word_loop fuel p m)
        (λ q. params_loop fuel rounds (suc result) q m) f letter
        (word_loop-Ends fuel p m (x ∷ xs) f t)
        λ q ys less u no_space.
          params_loop-parameters fuel rounds (suc result) q m ys (omega arith) (omega arith) u
            no_space)

-- count_params of a text in memory up to its terminator, with fuel for its length: it ends with
-- the number of parameters that a reader finds who goes through the text one character at a time,
-- between parameters, in one, or in quotes in one, and with the mistake if the text ends in
-- quotes.
pub count_params-parameters :
    (fuel p : ℕ) (m : Bytes) (xs : List ℕ)
    → length xs < fuel
    → TextAt terminator m p xs
    → count_params fuel p m ≡ some (parameters between 0 xs)
unfolding count_params
count_params-parameters fuel p m xs f t =
    let (q, ys, e, left, first) = skip-spaces fuel p m xs f t in
    let counts =
      params_loop-parameters fuel fuel 0 q m ys (omega (arith, left.shorter))
        (omega (arith, left.shorter)) left.text first in
    rw e (counts ∙ ap some (sym (left.same 0)))
