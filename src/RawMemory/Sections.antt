-- ===== src/RawMemory/Sections.antt =====
-- Whole sections: what a claim takes, that a claim finds a run of free sections in a word if there
-- is one, and that a release gives back just what was claimed.
use simple_as_pi.Common.{
  ℕ, zero, suc, ◌+◌, ◌*◌, ◌/◌, ◌%◌, ◌^◌, ◌≤◌, ◌<◌, ◌≡◌, ◌⊎◌, refl, Bool, true, false, not, ◌&&◌,
  ◌||◌, inl, inr, Bool-cases, arith, ◌==◌, ltb, leb, if◌then◌else◌, update,
}
use simple_as_pi.RawMemory.{
  Bits, RawMemory, unavailable, section_words, set_words, free_sections, Found, found_at, nowhere,
  searching, Claimed, claimed, claim_found, clear_bits, claim_words, claim_sections,
  claim_contiguous_memory, free_body, free_contiguous_memory, freed,
}
use simple_as_pi.RawMemory.Words.{Finds, search_word-Finds}

-- The section is free.
abbrev pub is_free : (ℕ → Bits) → ℕ → Bool
is_free s n = s (n / 32) (n % 32)

-- Section `n` is one of `count` sections from `first`.
abbrev pub among : ℕ → ℕ → ℕ → Bool
among first count n = leb first n && ltb n (first + count)

set_words_lem :
    (n first i j : ℕ) (s : ℕ → Bits)
    → set_words n first s i j ≡ (if among first n i then true else s i j)
unfolding set_words
set_words_lem zero first i j s = ground arith
set_words_lem (suc n) first i j s =
    ground (arith, set_words_lem n (suc first) i j (update s first (λ k. true)))

free_sections-is_free :
    (section count n : ℕ) (s : ℕ → Bits)
    → is_free (free_sections section count s) n ≡ (is_free s n || among section count n)
unfolding free_sections
free_sections-is_free section count n s =
    elim (Bool-cases (section / 32 == (section + count) / 32)) [
      | inl one ↦ rw one (ground arith)
      | inr more ↦ rw (more, set_words_lem) (ground arith)
    ]

-- `required` sections from `first` were free, and are now taken, and nothing else has changed.
pub record Takes (required first : ℕ) (r r' : RawMemory) : Type 0 where
  pub were_free : (n : ℕ) → among first required n ≡ true → is_free r.sections n ≡ true
  pub are_taken :
      (n : ℕ) → is_free r'.sections n ≡ (is_free r.sections n && not (among first required n))
  pub in_word : first % 32 + required ≤ 32
  pub others : r'.early ≡ r.early

-- No word has `required` free sections in a row, among those from `low` to `high`.
abbrev pub NoRun : ℕ → ℕ → ℕ → RawMemory → Type 0
NoRun required low high r =
    (p : ℕ)
    → low ≤ p
    → p + required ≤ high
    → p % 32 + required ≤ 32
    → (n : ℕ) × (among p required n ≡ true) × (is_free r.sections n ≡ false)

-- What a claim of sections from `low` to `high` comes to.
abbrev pub Claims : ℕ → ℕ → ℕ → RawMemory → Claimed → Type 0
Claims required low high r Claimed.panic = ⊥
Claims required low high r Claimed.runs_on = ⊥
Claims required low high r (claimed page r') =
    ((first : ℕ) × (page ≡ first * 2 ^ 8)
      × (low ≤ first)
      × (first + required ≤ high)
      × Takes required first r r')
    ⊎ ((page ≡ unavailable) × (r' ≡ r) × NoRun required low high r)

Claims-found :
    (required i l0 : ℕ) (r : RawMemory)
    → Finds required 0 (r.sections i) (found_at l0)
    → 0 < required
    → Takes required
        (i * 32 + l0)
        r
        (record r { sections = update r.sections i (clear_bits l0 required (r.sections i)) })
Claims-found required i l0 r (a, b, c) pos =
    let word : (i * 32 + l0) / 32 ≡ i = omega arith in
    let bit : (i * 32 + l0) % 32 ≡ l0 = omega arith in
    record {
      were_free = λ n h.
          let w : n / 32 ≡ i = ground (arith, h) in
          rw w (c (n % 32) (ground (arith, h)) (ground (arith, h)));
      are_taken = λ n. ground arith;
      in_word = omega (arith, bit);
      others = refl;
    }

-- A word without a run, before the others.
Claims-later :
    (required i high : ℕ) (r : RawMemory) (c : Claimed)
    → Finds required 0 (r.sections i) nowhere
    → 0 < required
    → Claims required (suc i * 32) high r c
    → Claims required (i * 32) high r c
Claims-later required i high r Claimed.panic h pos c = c
Claims-later required i high r Claimed.runs_on h pos c = c
Claims-later required i high r (claimed page r') h pos (inl (first, e, low, top, takes)) =
    inl (first, e, omega arith, top, takes)
Claims-later required i high r (claimed page r') h pos (inr (e, same, none_later)) = inr (
  e,
  same,
  λ p a b c. elim (Bool-cases (ltb p (suc i * 32))) [
    | inr later ↦ none_later p (ground (arith, later)) b c
    | inl here ↦
        let word : p / 32 ≡ i = ground (arith, here, a) in
        let (j, from, below, off) = h (p % 32) (omega arith) c in
        let bit : (i * 32 + j) % 32 ≡ j = omega arith in
        let at : (i * 32 + j) / 32 ≡ i = omega arith in
        (i * 32 + j, ground (arith, word, from, below), rw (at, bit) off)
  ],
)

Claims-word :
    (required i n : ℕ) (r : RawMemory) (rest : Claimed) (f : Found)
    → 0 < required
    → Finds required 0 (r.sections i) f
    → Claims required (suc i * 32) ((suc i + n) * 32) r rest
    → Claims required (i * 32) ((i + suc n) * 32) r (claim_found required i r rest f)
Claims-word required i n r rest searching pos found later = absurd found
Claims-word required i n r rest nowhere pos found later =
    let e : suc i + n ≡ i + suc n = omega arith in
    Claims-later required i _ r rest found pos (rw e at later)
Claims-word required i n r rest (found_at l0) pos found later =
    inl (i * 32 + l0, refl, omega arith, omega arith, Claims-found required i l0 r found pos)

claim_words-Claims :
    (n required i : ℕ) (r : RawMemory)
    → 0 < required
    → Claims required (i * 32) ((i + n) * 32) r (claim_words n required i r)
unfolding claim_words
claim_words-Claims zero required i r pos = inr (refl, refl, λ p a b c. absurd (omega arith))
claim_words-Claims (suc n) required i r pos =
    Claims-word required i n r _ _ pos (search_word-Finds required (r.sections i) pos)
      (claim_words-Claims n required (suc i) r pos)

-- A claim of 1 to 31 whole sections: it gives the pages of as many sections of one word, all of
-- which were free and are taken behind it, with every other section and the free pages as they
-- were; or, if no word has so many free sections in a row, it gives contiguous_memory_unavailable
-- and changes nothing.
pub claim_contiguous_memory-Claims :
    (required : ℕ) (r : RawMemory)
    → 0 < required
    → required < 32
    → Claims required 0 (section_words * 32) r (claim_contiguous_memory (required * 2 ^ 8) r)
unfolding claim_contiguous_memory claim_sections
claim_contiguous_memory-Claims required r pos few =
    let aligned : (required * 2 ^ 8 % 2 ^ 8 == 0) ≡ true = ground arith in
    let number : required * 2 ^ 8 / 2 ^ 8 ≡ required = omega arith in
    let in_word : leb 32 required ≡ false = ground arith in
    rw (aligned, number, in_word) (claim_words-Claims section_words required 0 r pos)

give_back : (b c : Bool) → (c ≡ true → b ≡ true) → ((b && not c) || c) ≡ b
give_back b true h = ground (arith, h refl)
give_back true false h = refl
give_back false false h = refl

-- What a claim took is `first`.
Claims-Takes :
    (required first : ℕ) (r r' : RawMemory)
    → Claims required 0 (section_words * 32) r (claimed (first * 2 ^ 8) r')
    → Takes required first r r'
Claims-Takes required first r r' (inr (e, same, no_run)) = absurd (omega arith)
Claims-Takes required first r r' (inl (f, e, low, high, takes)) =
    let at : f ≡ first = omega arith in rw at at takes

-- Where a claim of 1 to 31 whole sections has given pages: releasing them ends, and leaves every
-- section free or taken as it was before the claim, and the free pages too.
pub free_contiguous_memory-claim_contiguous_memory :
    (fuel required first : ℕ) (r r' : RawMemory)
    → 0 < required
    → required < 32
    → claim_contiguous_memory (required * 2 ^ 8) r ≡ claimed (first * 2 ^ 8) r'
    → (back : RawMemory) × (free_contiguous_memory (suc fuel) (first * 2 ^ 8) (required * 2 ^ 8) r'
        ≡ freed back)
      × ((n : ℕ) → is_free back.sections n ≡ is_free r.sections n)
      × (back.early ≡ r.early)
unfolding free_contiguous_memory free_body
free_contiguous_memory-claim_contiguous_memory fuel required first r r' pos few e =
    let takes =
      Claims-Takes required first r r'
        (rw e at (claim_contiguous_memory-Claims required r pos few)) in
    let base : (first * 2 ^ 8 % 2 ^ 8 == 0) ≡ true = ground arith in
    let whole : (required * 2 ^ 8 % 2 ^ 8 == 0) ≡ true = ground arith in
    let section : first * 2 ^ 8 / 2 ^ 8 ≡ first = omega arith in
    let count : required * 2 ^ 8 / 2 ^ 8 ≡ required = omega arith in
    (
      record r' { sections = free_sections first required r'.sections },
      rw (base, whole, section, count) refl,
      λ n.
          rw (free_sections-is_free first required n r'.sections, takes.are_taken n)
            (give_back _ _ (takes.were_free n)),
      takes.others,
    )
