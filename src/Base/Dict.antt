-- ===== src/Base/Dict.antt =====
-- A Python dict in insertion order.
use eaistack.Base.Tests.{if◌then◌else◌, Eq, ◌==◌}
use mathlib.Core.Path.{◌≡◌, refl}
use mathlib.Core.Logic.{◌≢◌}
use mathlib.Core.Bool.{Bool, false}
use mathlib.Core.Option.{Option, none, some}
use mathlib.Core.List.{List, [], ◌∷◌}
use native.Mathlib.Omega.{arith}

abbrev pub Dict {ℓ κ} : Type ℓ → Type κ → Type (ℓ ⊔ κ)
Dict K V = List (K × V)

abbrev pub keep {ℓ} : {V : Type ℓ} → (V → Bool) → Option V → Option V
keep p none = none
keep p (some v) = if p v then some v else none

pub keep-keep {ℓ} : {V : Type ℓ} (p : V → Bool) (o : Option V) → keep p (keep p o) ≡ keep p o
keep-keep p none = refl
keep-keep p (some v) = ground arith

module _ {ℓ κ} {K : Type ℓ} {V : Type κ} ⦃e : Eq K⦄ where
  -- `d.get(k)`
  unfoldable pub lookup : K → Dict K V → Option V
  lookup k [] = none
  lookup k ((j, v) ∷ d) = if j == k then some v else lookup k d

  -- `d[k] = v`
  unfoldable pub insert : K → V → Dict K V → Dict K V
  insert k v [] = (k, v) ∷ []
  insert k v ((j, w) ∷ d) = if j == k then (j, v) ∷ d else (j, w) ∷ insert k v d

  pub lookup-insert :
      (k j : K) (v : V) (d : Dict K V)
      → lookup j (insert k v d) ≡ (if k == j then some v else lookup j d)
  unfolding lookup insert
  lookup-insert k j v [] = refl
  lookup-insert k j v ((i, w) ∷ d) =
      ground (arith, e.beq_iff k j, e.beq_iff i k, e.beq_iff i j, lookup-insert k j v d)

  pub lookup-insert_ne :
      (k j : K) (v : V) (d : Dict K V) → k ≢ j → lookup j (insert k v d) ≡ lookup j d
  lookup-insert_ne k j v d h = rw lookup-insert (ground (arith, e.beq_iff k j))

  pub lookup-insert_self : (k : K) (v : V) (d : Dict K V) → lookup k (insert k v d) ≡ some v
  lookup-insert_self k v d = rw lookup-insert (ground (arith, e.beq_iff k k))

  -- A key that is missing is neither the first nor among the rest.
  pub lookup-eq-none :
      (k j : K) (v : V) (d : Dict K V)
      → lookup k ((j, v) ∷ d) ≡ none
      → ((j == k) ≡ false) × (lookup k d ≡ none)
  unfolding lookup
  lookup-eq-none k j v d h = ground arith

  -- No key stands twice.
  abbrev pub IsKeyed : Dict K V → Type κ
  IsKeyed [] = Unit
  IsKeyed ((k, v) ∷ d) = (lookup k d ≡ none) × IsKeyed d

  -- What is left when the entries that fail a test are deleted by their keys.
  unfoldable pub retain : (V → Bool) → Dict K V → Dict K V
  retain p [] = []
  retain p ((k, v) ∷ d) = if p v then (k, v) ∷ retain p d else retain p d

  pub lookup-retain :
      (p : V → Bool) (k : K) (d : Dict K V)
      → IsKeyed d
      → lookup k (retain p d) ≡ keep p (lookup k d)
  unfolding lookup retain
  lookup-retain p k [] h = refl
  lookup-retain p k ((j, v) ∷ d) h = ground (arith, e.beq_iff j k, lookup-retain p k d h.1)

  pub retain-IsKeyed : (p : V → Bool) (d : Dict K V) → IsKeyed d → IsKeyed (retain p d)
  unfolding retain
  retain-IsKeyed p [] h = h
  retain-IsKeyed p ((k, v) ∷ d) h = ground (arith, lookup-retain p k d h.1, retain-IsKeyed p d h.1)

  pub insert-IsKeyed : (k : K) (v : V) (d : Dict K V) → IsKeyed d → IsKeyed (insert k v d)
  unfolding insert lookup
  insert-IsKeyed k v [] h = (refl, tt)
  insert-IsKeyed k v ((j, w) ∷ d) h =
      ground (arith, e.beq_iff k j, e.beq_iff j k, lookup-insert k j v d, insert-IsKeyed k v d h.1)
