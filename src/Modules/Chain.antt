-- ===== src/Modules/Chain.antt =====
-- The chains that `next` makes of modules: the list of all, and those of instances.
use simple_as_pi.Common.{
  ℕ, ◌≡◌, ◌≢◌, refl, sym, true, false, List, [], ◌∷◌, ◌++◌, arith, ◌==◌, has, Distinct, last,
  ne-last, last-append, Distinct-snoc,
}
use simple_as_pi.Modules.{Modules, append_module_to_list}

-- From `p` on the modules are `xs`.
abbrev pub Chain : Modules → ℕ → List ℕ → Type 0
Chain s p [] = p ≡ 0
Chain s p (x ∷ xs) = (p ≡ x) × (x ≢ 0) × Chain s (s.next x) xs

-- shared.module.modules is the list of `xs`.
abbrev pub IsListed : Modules → List ℕ → Type 0
IsListed s [] = (s.modules ≡ 0) × (s.last ≡ 0)
IsListed s (x ∷ xs) = Chain s s.modules (x ∷ xs) × (s.last ≡ last x xs) × Distinct (x ∷ xs)

append_module_to_list-Chain :
    (m p x : ℕ) (xs : List ℕ) (s : Modules)
    → Chain s p (x ∷ xs)
    → s.last ≡ last x xs
    → Distinct (x ∷ xs)
    → has m (x ∷ xs) ≡ false
    → m ≢ 0
    → s.next m ≡ 0
    → Chain (append_module_to_list m s) p (x ∷ xs ++ m ∷ [])
unfolding append_module_to_list
append_module_to_list-Chain m p x [] s chain end d new real unlinked =
    let some_last : (s.last == 0) ≡ false = ground (arith, chain.1, end) in
    let here : (x == s.last) ≡ true = ground (arith, end) in
    let apart : (m == s.last) ≡ false = ground (arith, end, new) in
    rw some_last (chain.0, chain.1, (rw here refl, real, rw apart unlinked))
append_module_to_list-Chain m p x (y ∷ ys) s chain end d new real unlinked =
    let apart : (x == s.last) ≡ false = ground (arith, end, ne-last x y ys d.0) in
    let next_same : (append_module_to_list m s).next x ≡ s.next x = ground (arith, apart) in
    let ih =
      append_module_to_list-Chain m (s.next x) y ys s chain.2 end d.1 (ground (arith, new)) real
        unlinked in
    (chain.0, chain.1, rw next_same ih)

-- A module that is appended is the last of the list.
pub append_module_to_list-IsListed :
    (m : ℕ) (xs : List ℕ) (s : Modules)
    → IsListed s xs
    → has m xs ≡ false
    → m ≢ 0
    → s.next m ≡ 0
    → IsListed (append_module_to_list m s) (xs ++ m ∷ [])
unfolding append_module_to_list
append_module_to_list-IsListed m [] s l new real unlinked =
    rw (l.0, l.1) ((refl, real, unlinked), refl, (refl, tt))
append_module_to_list-IsListed m (x ∷ xs) s l new real unlinked =
    let some_modules : (s.modules == 0) ≡ false = ground (arith, l.0.0, l.0.1) in
    let chain = append_module_to_list-Chain m s.modules x xs s l.0 l.1 l.2 new real unlinked in
    (
      (rw some_modules chain.0, chain.1, chain.2),
      sym (last-append x m xs []),
      Distinct-snoc m (x ∷ xs) (new, l.2),
    )

-- A chain of instances that ends with the last module of the list takes in any module that is
-- appended, of which it is no instance.
pub instances_run_on :
    (b m i : ℕ) (is : List ℕ) (s : Modules)
    → Chain s (s.instances b) (i ∷ is)
    → s.last ≡ last i is
    → Distinct (i ∷ is)
    → has m (i ∷ is) ≡ false
    → m ≢ 0
    → s.next m ≡ 0
    → Chain (append_module_to_list m s) ((append_module_to_list m s).instances b) (i ∷ is ++ m ∷ [])
unfolding append_module_to_list
instances_run_on b m i is s chain end d new real unlinked =
    append_module_to_list-Chain m (s.instances b) i is s chain end d new real unlinked
