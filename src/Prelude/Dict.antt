-- ===== src/Prelude/Dict.antt =====
-- JavaScript's `Map`: keys in the order of their insertion.
use mathlib.Core.Path.{◌≡◌, refl}
use mathlib.Core.Bool.{Bool}
use mathlib.Core.List.{List, [], ◌∷◌, map}
use mathlib.Core.Option.{Option, none, some}
use native.Mathlib.Omega.{arith}
use threadwire.Prelude.Tests.{if◌then◌else◌, is_some, Eq, ◌==◌}

abbrev pub Dict {ℓ κ} : Type ℓ → Type κ → Type (ℓ ⊔ κ)
Dict K V = List (K × V)

module _ {ℓ κ} {K : Type ℓ} {V : Type κ} ⦃e : Eq K⦄ where
  -- map.get(k)
  unfoldable pub get : Dict K V → K → Option V
  get [] k = none
  get ((j, v) ∷ m) k = if j == k then some v else get m k

  -- map.has(k)
  abbrev pub has : Dict K V → K → Bool
  has m k = is_some (get m k)

  -- map.set(k, v): an old key keeps its place
  unfoldable pub put : Dict K V → K → V → Dict K V
  put [] k v = (k, v) ∷ []
  put ((j, w) ∷ m) k v = let rest = put m k v in if j == k then (j, v) ∷ m else (j, w) ∷ rest

  -- map.delete(k)
  unfoldable pub delete : Dict K V → K → Dict K V
  delete [] k = []
  delete ((j, v) ∷ m) k = let rest = delete m k in if j == k then rest else (j, v) ∷ rest

  pub get-put :
      (m : Dict K V) (k j : K) (v : V) → get (put m k v) j ≡ (if k == j then some v else get m j)
  unfolding get put
  get-put [] k j v = refl
  get-put ((i, w) ∷ m) k j v =
      ground (arith, get-put m k j v, e.beq_iff i k, e.beq_iff i j, e.beq_iff k j)

  pub get-delete :
      (m : Dict K V) (k j : K) → get (delete m k) j ≡ (if k == j then none else get m j)
  unfolding get delete
  get-delete [] k j = ground arith
  get-delete ((i, w) ∷ m) k j =
      ground (arith, get-delete m k j, e.beq_iff i k, e.beq_iff i j, e.beq_iff k j)

-- [...map.keys()]
abbrev pub keys {ℓ κ} : {K : Type ℓ} {V : Type κ} → Dict K V → List K
keys = map λ p. p.0
