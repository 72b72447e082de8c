-- ===== src/RawMemory/Words.antt =====
-- The search for free sections in one word of bits.
use simple_as_pi.Common.{
  ℕ, zero, suc, ◌+◌, ◌-◌, ◌≤◌, ◌<◌, ◌≡◌, ◌≢◌, refl, Bool, true, false, not, inl, inr, Bool-cases,
  arith, ltb, leb,
}
use simple_as_pi.RawMemory.{
  Bits, shift_left, complement, clear_for, count_leading_zeros, count_leading_ones, Found, found_at,
  nowhere, searching, word_loop, search_word,
}

-- `m` is the number of clear bits at the top.
pub record Leading (v : Bits) (m : ℕ) : Type 0 where
  pub within : m ≤ 32
  pub clear : (j : ℕ) → j < m → v j ≡ false
  pub set : m < 32 → v m ≡ true

clear_for-within : (n k : ℕ) (v : Bits) → clear_for n k v ≤ n
clear_for-within zero k v = omega arith
clear_for-within (suc n) k v = ground (arith, clear_for-within n (suc k) v)

clear_for-clear : (n k j : ℕ) (v : Bits) → k ≤ j → j < k + clear_for n k v → v j ≡ false
clear_for-clear zero k j v l h = absurd (omega arith)
clear_for-clear (suc n) k j v l h = elim (Bool-cases (v k)) [
  | inl here ↦ absurd (ground arith)
  | inr off ↦ elim (Bool-cases (ltb k j)) [
    | inl later ↦ clear_for-clear n (suc k) j v (ground arith) (ground arith)
    | inr at ↦ let e : j ≡ k = ground arith in rw e off
  ]
]

clear_for-set : (n k m : ℕ) (v : Bits) → k + clear_for n k v ≡ m → clear_for n k v < n → v m ≡ true
clear_for-set zero k m v e h = absurd (omega arith)
clear_for-set (suc n) k m v e h = elim (Bool-cases (v k)) [
  | inl here ↦ let at : m ≡ k = ground arith in rw at here
  | inr off ↦ clear_for-set n (suc k) m v (ground arith) (ground arith)
]

pub count_leading_zeros-Leading : (v : Bits) → Leading v (count_leading_zeros v)
unfolding count_leading_zeros
count_leading_zeros-Leading v = record {
  within = clear_for-within 32 0 v;
  clear = λ j h. clear_for-clear 32 0 j v (omega arith) (omega arith);
  set = λ h. clear_for-set 32 0 (clear_for 32 0 v) v (omega arith) h;
}

-- The bits that are set from the bit `k` on.
pub record Run (v : Bits) (k m : ℕ) : Type 0 where
  pub within : k + m ≤ 32
  pub set : (j : ℕ) → k ≤ j → j < k + m → v j ≡ true
  pub clear : k + m < 32 → v (k + m) ≡ false

shift_left-inside : (v : Bits) (k j : ℕ) → k ≤ j → j < 32 → shift_left k v (j - k) ≡ v j
shift_left-inside v k j le lt =
    let e : j - k + k ≡ j = omega arith in
    let h : ltb j 32 ≡ true = ground (arith, lt) in rw (e, h) refl

shift_left-outside : (v : Bits) (k : ℕ) → k ≤ 32 → shift_left k v (32 - k) ≡ false
shift_left-outside v k le = let e : 32 - k + k ≡ 32 = omega arith in rw e refl

true_of_not : (b : Bool) → not b ≡ false → b ≡ true
true_of_not true h = refl
true_of_not false h = ground arith

false_of_not : (b : Bool) → not b ≡ true → b ≡ false
false_of_not true h = ground arith
false_of_not false h = refl

Run-of : (v : Bits) (k m : ℕ) → k ≤ 32 → Leading (complement (shift_left k v)) m → Run v k m
Run-of v k m small lead =
    let fits : k + m ≤ 32 = elim (Bool-cases (leb (k + m) 32)) [
      | inl fits ↦ ground (arith, fits)
      | inr over ↦
          let lt : 32 - k < m = ground (arith, over, small) in
          let bit = true_of_not _ (lead.clear (32 - k) lt) in
          absurd (cc (shift_left-outside v k small))
    ] in
    record {
      within = fits;
      set = λ j a b.
          rw (← shift_left-inside v k j a (omega arith))
            (true_of_not _ (lead.clear (j - k) (omega arith)));
      clear = λ h.
          let e : k + m - k ≡ m = omega arith in
          let bit = false_of_not _ (lead.set (omega arith)) in
          rw (← shift_left-inside v k (k + m) (omega arith) h) (rw e bit);
    }

pub count_leading_ones-Run :
    (v : Bits) (k : ℕ) → k ≤ 32 → Run v k (count_leading_ones (shift_left k v))
unfolding count_leading_ones
count_leading_ones-Run v k small =
    Run-of v k _ small (count_leading_zeros-Leading (complement (shift_left k v)))

-- Where the search from `l0` ends: at the first run that is long enough, or there is none.
abbrev pub Finds : ℕ → ℕ → Bits → Found → Type 0
Finds required l0 v (found_at l) =
    (l0 ≤ l) × (l + required ≤ 32) × ((j : ℕ) → l ≤ j → j < l + required → v j ≡ true)
Finds required l0 v nowhere =
    (p : ℕ) → l0 ≤ p → p + required ≤ 32 → (j : ℕ) × (p ≤ j) × (j < p + required) × (v j ≡ false)
Finds required l0 v searching = ⊥

-- What the search goes on from: the bits from `l0` to `next` hold no run that is long enough.
Finds-skip :
    (required l0 l1 next : ℕ) (v : Bits) (f : Found)
    → Run v l0 l1
    → l1 < required
    → l0 + l1 ≤ next
    → ((j : ℕ) → l0 + l1 ≤ j → j < next → j < 32 → v j ≡ false)
    → Finds required next v f
    → Finds required l0 v f
Finds-skip required l0 l1 next v (found_at l) run short le gap (a, b, c) = (omega arith, b, c)
Finds-skip required l0 l1 next v searching run short le gap h = h
Finds-skip required l0 l1 next v nowhere run short le gap h = λ p a b.
    elim (Bool-cases (ltb p next)) [
      | inr beyond ↦ h p (ground (arith, beyond)) b
      | inl before ↦ elim (Bool-cases (leb p (l0 + l1))) [
        | inl in_run ↦
            let upto : p ≤ l0 + l1 = ground (arith, in_run) in
            (l0 + l1, upto, omega arith, run.clear (omega arith))
        | inr in_gap ↦
            let from : l0 + l1 ≤ p = ground (arith, in_gap) in
            let below : p < next = ground (arith, before) in
            (p, omega arith, omega arith, gap p from below (omega arith))
      ]
    ]

-- The bits that follow a run are clear up to the next that is set.
gap_clear :
    (v : Bits) (k z : ℕ)
    → Leading (shift_left k v) z
    → ((j : ℕ) → k ≤ j → j < k + z → j < 32 → v j ≡ false) × (k + z < 32 → v (k + z) ≡ true)
gap_clear v k z lead = (
  λ j a b c. rw (← shift_left-inside v k j a c) (lead.clear (j - k) (omega arith)),
  λ h.
      let e : k + z - k ≡ z = omega arith in
      rw (← shift_left-inside v k (k + z) (omega arith) h) (rw e (lead.set (omega arith))),
)

-- No run starts among the clear bits at the top.
Finds-front :
    (required z : ℕ) (v : Bits) (f : Found)
    → ((j : ℕ) → j < z → v j ≡ false)
    → 0 < required
    → Finds required z v f
    → Finds required 0 v f
Finds-front required z v (found_at l) clear pos (a, b, c) = (omega arith, b, c)
Finds-front required z v searching clear pos h = h
Finds-front required z v nowhere clear pos h = λ p a b. elim (Bool-cases (ltb p z)) [
  | inl early ↦
      let below : p < z = ground (arith, early) in (p, omega arith, omega arith, clear p below)
  | inr later ↦ h p (ground (arith, later)) b
]

word_loop-Finds :
    (fuel required l0 : ℕ) (v : Bits)
    → 32 - l0 < fuel
    → 0 < required
    → (l0 < 32 → v l0 ≡ true)
    → Finds required l0 v (word_loop fuel required l0 v)
unfolding word_loop
word_loop-Finds zero required l0 v f pos start = absurd (omega arith)
word_loop-Finds (suc fuel) required l0 v f pos start = elim (Bool-cases (ltb l0 32)) [
  | inr over ↦ let high : 32 ≤ l0 = ground (arith, over) in rw over (λ p a b. absurd (omega arith))
  | inl inside ↦
      let low : l0 < 32 = ground (arith, inside) in
      let l1 = count_leading_ones (shift_left l0 v) in
      let z = count_leading_zeros (shift_left (l0 + l1) v) in
      let run = count_leading_ones-Run v l0 (omega arith) in
      let (gap, next_set) = gap_clear v (l0 + l1) z (count_leading_zeros-Leading _) in
      elim (Bool-cases (leb required l1)) [
        | inl enough ↦
            let fits : required ≤ l1 = ground (arith, enough) in
            rw (inside, enough)
              (omega arith, omega (arith, run.within), λ j a b. run.set j a (omega arith))
        | inr short ↦
            let less : l1 < required = ground (arith, short) in
            let one : l1 ≢ 0 = λ e.
              let at : l0 + l1 ≡ l0 = omega arith in
              let off : v (l0 + l1) ≡ false = run.clear (omega arith) in
              let off_here : v l0 ≡ false = rw at at off in cc (start low) in
            let same : l0 + l1 + z ≡ l0 + (l1 + z) = omega arith in
            let rest =
              word_loop-Finds fuel required (l0 + (l1 + z)) v (omega (arith, one)) pos
                (rw same at next_set) in
            rw (inside, short)
              (Finds-skip required l0 l1 _ v _ run less (omega arith) (rw same at gap) rest)
      ]
]

-- The search finds a run of free sections in the word if there is one.
pub search_word-Finds :
    (required : ℕ) (v : Bits) → 0 < required → Finds required 0 v (search_word required v)
unfolding search_word
search_word-Finds required v pos =
    let lead = count_leading_zeros-Leading v in
    let z = count_leading_zeros v in
    let found = word_loop-Finds 33 required z v (omega arith) pos lead.set in
    Finds-front required z v _ lead.clear pos found
