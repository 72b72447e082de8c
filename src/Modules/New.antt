-- ===== src/Modules/New.antt =====
-- A module from new_module to its place in the list, and its SWIs.
use simple_as_pi.Common.{
  ℕ, ◌<◌, ◌≡◌, ◌≢◌, refl, Bool, true, false, some, List, [], ◌∷◌, ◌++◌, arith, ◌==◌, update, has,
  length,
}
use simple_as_pi.Modules.{
  Modules, made, with_module, new_module, append_module_to_list, chunk_of, find_module_by_chunk,
}
use simple_as_pi.Modules.Chain.{Chain, IsListed, append_module_to_list-IsListed}
use simple_as_pi.Modules.Search.{find_first, find_module_by_chunk-find_first}

-- A chain without `m` does not see what `m` points to.
Chain-frame :
    (m p : ℕ) (xs : List ℕ) (s s' : Modules)
    → s'.next ≡ update s.next m 0
    → has m xs ≡ false
    → Chain s p xs
    → Chain s' p xs
Chain-frame m p [] s s' e new c = c
Chain-frame m p (x ∷ xs) s s' e new c =
    let apart : (x == m) ≡ false = ground (arith, new) in
    let same : s'.next x ≡ s.next x = rw (e, apart) refl in
    (c.0, c.1, rw same (Chain-frame m (s.next x) xs s s' e (ground (arith, new)) c.2))

IsListed-frame :
    (m : ℕ) (xs : List ℕ) (s s' : Modules)
    → s'.next ≡ update s.next m 0
    → s'.modules ≡ s.modules
    → s'.last ≡ s.last
    → has m xs ≡ false
    → IsListed s xs
    → IsListed s' xs
IsListed-frame m [] s s' e em el new l = (rw em l.0, rw el l.1)
IsListed-frame m (x ∷ xs) s s' e em el new l =
    let (p, real, rest) = Chain-frame m s.modules (x ∷ xs) s s' e new l.0 in
    ((rw em p, real, rest), rw el l.1, l.2)

Chain-of : (xs : List ℕ) (s : Modules) → IsListed s xs → Chain s s.modules xs
Chain-of [] s l = l.0
Chain-of (x ∷ xs) s l = l.0

find_first-append :
    (test : ℕ → Bool) (xs : List ℕ) (m : ℕ)
    → ((x : ℕ) → has x xs ≡ true → test x ≡ false)
    → test m ≡ true
    → find_first test (xs ++ m ∷ []) ≡ m
find_first-append test [] m miss hit = rw hit refl
find_first-append test (x ∷ xs) m miss hit =
    let here : test x ≡ false = miss x (ground arith) in
    rw here (find_first-append test xs m (λ y h. miss y (ground (arith, h))) hit)

-- A new module without a postfix that is appended.
pub record Added (h m : ℕ) (xs : List ℕ) (old s : Modules) : Type 0 where
  pub listed : IsListed s (xs ++ m ∷ [])
  pub header : s.header m ≡ h
  pub preferred : s.preferred m ≡ m
  pub others : (x : ℕ) → x ≢ m → s.header x ≡ old.header x

new_module-Added :
    (fuel h m : ℕ) (xs : List ℕ) (s : Modules)
    → IsListed s xs
    → has m xs ≡ false
    → m ≢ 0
    → m ≢ 0xffffffff
    → (s' : Modules) × (new_module fuel h [] m s ≡ made s')
      × Added h m xs s (append_module_to_list m s')
unfolding new_module append_module_to_list
new_module-Added fuel h m xs s l new real given =
    let some_memory : (m == 0xffffffff) ≡ false = ground (arith, given) in
    let s1 = with_module m h [] s in
    let s' : Modules = record s1 {
      base = update s1.base m 0;
      preferred = update s1.preferred m m;
    } in
    let same : (m == m) ≡ true = ground arith in
    let l' = IsListed-frame m xs s s' refl refl refl new l in
    (
      s',
      rw some_memory refl,
      record {
        listed = append_module_to_list-IsListed m xs s' l' new real (rw same refl);
        header = rw same refl;
        preferred = rw same refl;
        others = λ x h'. ground arith;
      },
    )

-- A module without a postfix that is made in new memory and appended to the list of modules, none
-- of which has the chunk of a SWI that it has, with fuel for the list: find_module_by_chunk then
-- gives that module for the SWI.
pub new_module-find_module_by_chunk :
    (swi_chunk : ℕ → ℕ) (fuel h m swi : ℕ) (xs : List ℕ) (s : Modules)
    → IsListed s xs
    → has m xs ≡ false
    → m ≢ 0
    → m ≢ 0xffffffff
    → swi_chunk h ≡ chunk_of swi
    → length (xs ++ m ∷ []) < fuel
    → ((x : ℕ) → has x xs ≡ true → swi_chunk (s.header x) ≢ chunk_of swi)
    → (s' : Modules) × (new_module fuel h [] m s ≡ made s')
      × (find_module_by_chunk swi_chunk fuel swi (append_module_to_list m s') ≡ some m)
new_module-find_module_by_chunk swi_chunk fuel h m swi xs s l new real given chunk f unknown =
    let (s', e, added) = new_module-Added fuel h m xs s l new real given in
    let s2 = append_module_to_list m s' in
    let finds =
      find_module_by_chunk-find_first swi_chunk fuel swi (xs ++ m ∷ []) s2 f
        (Chain-of (xs ++ m ∷ []) s2 added.listed) in
    let test : ℕ → Bool = λ p. swi_chunk (s2.header p) == chunk_of swi in
    let hit : test m ≡ true = ground (arith, added.header, chunk) in
    let misses = λ (x : ℕ) (h' : has x xs ≡ true).
      let apart : x ≢ m = λ q. let both : has m xs ≡ true = rw q at h' in absurd (cc) in
      let off : test x ≡ false = ground (arith, added.others x apart, unknown x h') in off in
    let first : find_first test (xs ++ m ∷ []) ≡ m = find_first-append test xs m misses hit in
    let there : (m == 0) ≡ false = ground (arith, real) in
    (s', e, rw (first, there, added.preferred) at finds)
