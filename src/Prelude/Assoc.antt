-- ===== src/Prelude/Assoc.antt =====
-- `std::map`: a list of entries in the order of their keys, which is the order of iteration.
use mathlib.Core.Path.{◌≡◌, ◌∙◌}
use mathlib.Core.List.{List, [], ◌∷◌}
use mathlib.Core.Option.{Option, none, some}
use native.Mathlib.Omega.{arith}
use distributed_memory.Prelude.Tests.{if◌then◌else◌}
use distributed_memory.Prelude.Keys.{Key, ◌==◌, ==_iff, own_key_lem}

abbrev pub Map {ℓ} : Type ℓ → Type ℓ → Type ℓ
Map K V = List (K × V)

module _ {ℓ} {K V : Type ℓ} ⦃k : Key K⦄ where
  -- `m.find(a)`; `none` is `m.end()`.
  unfoldable pub find : K → Map K V → Option V
  find a [] = none
  find a ((b, v) ∷ m) = if b == a then some v else find a m

  -- `m[a] = v`
  unfoldable pub put : K → V → Map K V → Map K V
  put a v [] = (a, v) ∷ []
  put a v ((b, w) ∷ m) =
      let rest = put a v m in
      if b == a then (a, v) ∷ m else if k.lt a b then (a, v) ∷ (b, w) ∷ m else (b, w) ∷ rest

  -- `m.insert(pair(a, v))`, which keeps an entry that is there.
  unfoldable pub insert : K → V → Map K V → Map K V
  unfolding find
  insert a v m = elim (find a m) [ none ↦ put a v m | some _ ↦ m ]

  -- `m.erase(it)` with `it` at the key `a`.
  unfoldable pub erase : K → Map K V → Map K V
  erase a [] = []
  erase a ((b, w) ∷ m) = let rest = erase a m in if b == a then rest else (b, w) ∷ rest

  pub find-put :
      (a c : K) (v : V) (m : Map K V) → find c (put a v m) ≡ (if a == c then some v else find c m)
  unfolding find put
  find-put a c v [] = ground arith
  find-put a c v ((b, w) ∷ m) = ground (arith, find-put a c v m, ==_iff b a, ==_iff b c, ==_iff a c)

  pub find-put_same : (a : K) (v : V) (m : Map K V) → find a (put a v m) ≡ some v
  find-put_same a v m = find-put a a v m ∙ own_key_lem a (some v) (find a m)

  pub find-erase :
      (a c : K) (m : Map K V) → find c (erase a m) ≡ (if a == c then none else find c m)
  unfolding find erase
  find-erase a c [] = ground arith
  find-erase a c ((b, w) ∷ m) = ground (arith, find-erase a c m, ==_iff b a, ==_iff b c, ==_iff a c)

  pub find-insert :
      (a c : K) (v : V) (m : Map K V)
      → find c (insert a v m)
        ≡ elim (find c m) [ none ↦ (if a == c then some v else none) | some w ↦ some w ]
  unfolding insert
  find-insert a c v m = ground (arith, find-put a c v m, ==_iff a c)

pub ruleset map_laws = (find-put, find-erase)
