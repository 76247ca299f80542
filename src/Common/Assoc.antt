-- ===== src/Common/Assoc.antt =====
-- Go maps as association lists over keys with `==`: a read gives what was last written, and
-- `contains` tells whether the key is there. The order of a `range` over a map is left open by
-- Go, so a loop over one takes the list of entries as an argument.
use mathlib.Core.Path.{◌≡◌, refl}
use mathlib.Core.Bool.{Bool, false, not, ◌&&◌, ◌||◌}
use mathlib.Core.Option.{Option, none, some}
use mathlib.Core.List.{List, [], ◌∷◌}
use native.Mathlib.Omega.{arith}
use go_service_template.Common.Tests.{if◌then◌else◌}
use go_service_template.Common.Classes.{Eq, ◌==◌, ==_iff}

module _ {ℓ κ} {K : Type ℓ} {V : Type κ} ⦃e : Eq K⦄ where
  -- v, ok := entries[k]
  unfoldable pub lookup : K → List (K × V) → Option V
  lookup k [] = none
  lookup k ((key, value) ∷ entries) = if key == k then some value else lookup k entries

  -- entries[k] = v
  unfoldable pub insert : K → V → List (K × V) → List (K × V)
  insert k v [] = (k, v) ∷ []
  insert k v ((key, value) ∷ entries) =
      if key == k then (k, v) ∷ entries else (key, value) ∷ insert k v entries

  pub lookup-insert :
      (written read : K) (v : V) (entries : List (K × V))
      → lookup read (insert written v entries)
        ≡ (if written == read then some v else lookup read entries)
  unfolding lookup insert
  lookup-insert written read v [] = refl
  lookup-insert written read v ((key, value) ∷ entries) = ground (
    arith,
    lookup-insert written read v entries,
    ==_iff key read,
    ==_iff key written,
    ==_iff written read,
  )

module _ {ℓ} {K : Type ℓ} ⦃e : Eq K⦄ where
  -- A `map[K]struct{}` is the list of its keys.
  unfoldable pub contains : K → List K → Bool
  contains k [] = false
  contains k (j ∷ s) = j == k || contains k s

  -- s[k] = struct{}{}
  unfoldable pub add : K → List K → List K
  unfolding contains
  add k s = if contains k s then s else k ∷ s

  -- delete(s, k)
  unfoldable pub delete : K → List K → List K
  delete k [] = []
  delete k (j ∷ s) = if j == k then delete k s else j ∷ delete k s

  pub contains-add : (k j : K) (s : List K) → contains j (add k s) ≡ (k == j || contains j s)
  unfolding contains add
  contains-add k j s = ground (arith, ==_iff k j)

  pub contains-delete :
      (k j : K) (s : List K) → contains j (delete k s) ≡ (not (k == j) && contains j s)
  unfolding contains delete
  contains-delete k j [] = ground arith
  contains-delete k j (i ∷ s) =
      ground (arith, contains-delete k j s, ==_iff k j, ==_iff i k, ==_iff i j)
