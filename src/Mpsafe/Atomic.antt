-- ===== src/Mpsafe/Atomic.antt =====
-- Every call takes effect at one step, as if no other core were there.
use simple_as_pi.Common.{ℕ, ◌≡◌, refl, ◌≢◌, inl, inr, true, arith, sym, ◌==◌, update, Bool-cases}
use simple_as_pi.Dll.{Links, dll_attach}
use simple_as_pi.Mpsafe.{
  Op, work, Memory, Pc, direct, item_of, Move, call, read, wait, lose, store, take, change, release,
  return, System, Step, step, Reach, start, later, manipulate, insert_at_head, insert_after_head,
}
use simple_as_pi.Mpsafe.Protocol.{
  critical, IsSound, View, Inv, View-stay, View-store, View-take, View-change, View-release,
  View-kept, View-word, View-exclusive,
}

-- What one step does to the list with head `h`: nothing, or all that one call does.
pub data Effect (Allowed : Op → Type 0) (h : ℕ) (s : Links) (h' : ℕ) (s' : Links) : Type 0 where
  nothing : h' ≡ h → s' ≡ s → Effect Allowed h s h' s'
  all_of :
      (op : Op)
      → Allowed op
      → h' ≡ (work op h s).1
      → s' ≡ (work op h s).0
      → Effect Allowed h s h' s'

-- The calls that the cores make, and what they all keep true of a list with a given head, which
-- is then no address 1.
module _ (Allowed : Op → Type 0) (P : ℕ → Links → Type 0)
    (apart : (h : ℕ) (s : Links) → P h s → h ≢ 1)
    (keeps : (op : Op) (h : ℕ) (s : Links)
      → Allowed op
      → P h s
      → P (work op h s).1 (work op h s).0) where
  IsSound-update :
      (pc : ℕ → Pc) (i : ℕ) (p' : Pc)
      → ((j : ℕ) → IsSound Allowed (pc j))
      → IsSound Allowed p'
      → (j : ℕ) → IsSound Allowed (update pc i p' j)
  IsSound-update pc i p' all new j = elim (Bool-cases (j == i)) [
    | inl here ↦ rw here new
    | inr other ↦ rw other (all j)
  ]

  abbrev Kept : System → ℕ → ℕ → Memory → Pc → Type 0
  Kept s h i m p' =
      (h' : ℕ) × View (record { memory = m; pc = update s.pc i p' }) h'
      × IsSound Allowed p'
      × Effect Allowed h s.memory.links h' m.links

  store_work :
      (op : Op) (s : Links)
      → direct op ≡ true
      → (item_of op ≡ (work op 0 s).1) × (s ≡ (work op 0 s).0)
  unfolding work dll_attach
  store_work (manipulate u) s d = absurd (ground arith)
  store_work (insert_at_head i) s d = (refl, refl)
  store_work (insert_after_head i) s d = (refl, refl)

  Move-Kept :
      {s : System} {h : ℕ} (i : ℕ) {p : Pc} {m : Memory} {p' : Pc}
      → View s h
      → P h s.memory.links
      → Move Allowed s.memory p m p'
      → s.pc i ≡ p
      → IsSound Allowed p
      → Kept s h i m p'
  Move-Kept {s} {h} i v hold (call a) e g =
      (h, View-stay s.memory i _ v refl (rw e) refl, a, nothing refl refl)
  Move-Kept {s} {h} i v hold read e g =
      (h, View-stay s.memory i _ v refl (rw e) refl, g, nothing refl refl)
  Move-Kept {s} {h} i v hold (wait one) e g =
      (h, View-stay s.memory i _ v refl (rw e) refl, g, nothing refl refl)
  Move-Kept {s} {h} i v hold (lose ne q) e g =
      (h, View-stay s.memory i _ v refl (rw e) refl, g, nothing refl refl)
  Move-Kept {s} {h} i v hold (store {op} zero_seen d q) e g =
      let ne : s.memory.word ≢ 1 = ground arith in
      let hz : h ≡ 0 = ground (arith, View-word v ne) in
      let w = store_work op s.memory.links d in
      let changed = keeps op h s.memory.links g hold in
      let new : item_of op ≢ 1 = rw (sym w.0) at (apart _ _ (rw hz at changed)) in
      (item_of op, View-store _ i _ v ne new refl, tt, rw hz (all_of op g w.0 w.1))
  Move-Kept {s} {h} i v hold (take {op} {v = old} ne nd q) e g =
      let free : s.memory.word ≢ 1 = ground arith in
      (h, View-take _ i _ v free refl refl (sym q), (g, ne), nothing refl refl)
  Move-Kept {s} {h} i v hold (change {op} {v = old}) e g =
      let c : critical (s.pc i) ≡ true = rw e in
      let k : old ≡ h = rw e at (View-kept i v c) in
      (
        (work op old s.memory.links).1,
        View-change _ i _ v refl c refl,
        rw (sym k) at (apart _ _ (keeps op h s.memory.links g.0 hold)),
        all_of op g.0 (rw k) (rw k),
      )
  Move-Kept {s} {h} i v hold (release {h = new}) e g =
      (h, View-release _ i _ v (rw e) (rw e) g refl, tt, nothing refl refl)
  Move-Kept {s} {h} i v hold return e g =
      (h, View-stay s.memory i _ v refl (rw e) refl, tt, nothing refl refl)

  through : (h : ℕ) (a : Links) (h' : ℕ) (b : Links) → Effect Allowed h a h' b → P h a → P h' b
  through h a h' b (nothing e f) q = rw (e, f) q
  through h a h' b (all_of op g e f) q = rw (e, f) (keeps op h a g q)

  -- Where every call keeps a predicate of a list and its head, and the predicate keeps the head
  -- from being 1: whatever step a core takes in the protocol of the head word, the links and the
  -- head of the shared list are left as they were or become those of one whole call, and the
  -- predicate and what is known of the head word and of the cores hold again.
  pub Step-Effect :
      {s t : System} {h : ℕ}
      → Inv Allowed s h
      → P h s.memory.links
      → Step Allowed s t
      → (h' : ℕ) × Inv Allowed t h'
        × P h' t.memory.links
        × Effect Allowed h s.memory.links h' t.memory.links
  Step-Effect {s} {h = h} inv p (step i {m = m} {p = p'} mv) =
      let (h', v, g, f) = Move-Kept i inv.view p mv refl (inv.sound i) in
      (
        h',
        record { view = v; sound = IsSound-update s.pc i p' inv.sound g },
        through h s.memory.links h' m.links f p,
        f,
      )

  -- Where every call keeps a predicate of a list and its head, and the predicate keeps the head
  -- from being 1: the predicate holds of the shared list in every state that the cores can reach,
  -- in any interleaving of their steps.
  pub Reach-holds :
      {s t : System} {h : ℕ}
      → Inv Allowed s h
      → P h s.memory.links
      → Reach Allowed s t
      → (h' : ℕ) × Inv Allowed t h' × P h' t.memory.links
  Reach-holds inv p start = (_, inv, p)
  Reach-holds {s} inv p (later r st) =
      let (h1, inv1, p1) = Reach-holds inv p r in
      let (h2, inv2, p2, f) = Step-Effect inv1 p1 st in (h2, inv2, p2)

  -- Where every call keeps a predicate of a list and its head, and the predicate keeps the head
  -- from being 1: in no state that the cores can reach are two of them between taking the head
  -- word and storing the new head.
  pub never_together :
      {s t : System} {h : ℕ} (i j : ℕ)
      → Inv Allowed s h
      → P h s.memory.links
      → Reach Allowed s t
      → critical (t.pc i) ≡ true
      → critical (t.pc j) ≡ true
      → i ≡ j
  never_together i j inv p r a b =
      let (h', inv', p') = Reach-holds inv p r in View-exclusive inv'.view i j a b
