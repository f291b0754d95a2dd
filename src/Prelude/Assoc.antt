-- ===== src/Prelude/Assoc.antt =====
-- A Python dict with string keys, as an association list in insertion order.
use Prim.Native.String.{String}
use mathlib.Core.Path.{◌≡◌, refl, subst}
use miriam.Prelude.Lists.{All}
use mathlib.Core.Bool.{Bool, true, false}
use mathlib.Core.Option.{Option, none, some}
use mathlib.Core.List.{List, [], ◌∷◌}
use native.Mathlib.Omega.{arith}
use text.Mathlib.Text.{◌==◌ as str_eq}
use text.Mathlib.TextEquality.{eq_iff}
use text.Mathlib.TextPositions.{eq_refl}
use mathlib.Core.Logic.{inl, inr}
use miriam.Prelude.Tests.{if◌then◌else◌, Bool-cases}
use miriam.Prelude.Int.{ℤ, pos, ◌+ℤ◌, int_laws}

abbrev pub Dict {ℓ} : Type ℓ → Type ℓ
Dict V = List (String × V)

module _ {ℓ} {V : Type ℓ} where
  unfoldable pub lookup : String → Dict V → Option V
  lookup k [] = none
  lookup k ((j, v) ∷ d) = if str_eq j k then some v else lookup k d

  -- `d[k] = v`
  unfoldable pub insert : String → V → Dict V → Dict V
  insert k v [] = (k, v) ∷ []
  insert k v ((j, w) ∷ d) = if str_eq j k then (k, v) ∷ d else (j, w) ∷ insert k v d

  -- `d.get(k, v)`
  abbrev pub get_or : Option V → V → V
  get_or none v = v
  get_or (some w) v = w

  -- `k in d`
  abbrev pub is_some : Option V → Bool
  is_some none = false
  is_some (some v) = true

  -- `d.setdefault(k, v)`, for its effect
  unfoldable pub set_default : String → V → Dict V → Dict V
  set_default k v d = if is_some (lookup k d) then d else insert k v d

  pub lookup-nil : (k : String) → lookup k [] ≡ none
  unfolding lookup
  lookup-nil k = refl

  pub lookup-insert :
      (k j : String) (v : V) (d : Dict V)
      → lookup j (insert k v d) ≡ (if str_eq k j then some v else lookup j d)
  unfolding lookup insert
  lookup-insert k j v [] = refl
  lookup-insert k j v ((i, w) ∷ d) =
      ground (arith, eq_iff k j, eq_iff i k, eq_iff i j, lookup-insert k j v d)

  pub lookup-insert_self : (k : String) (v : V) (d : Dict V) → lookup k (insert k v d) ≡ some v
  lookup-insert_self k v d = simp (lookup-insert, eq_refl)

module _ {ℓ} {V : Type ℓ} where
  -- No key stands twice.
  abbrev pub HasUniqueKeys : Dict V → Type ℓ
  HasUniqueKeys [] = Unit
  HasUniqueKeys ((k, v) ∷ d) = (lookup k d ≡ none) × HasUniqueKeys d

  -- What holds of every entry holds of one that is found.
  pub lookup-All {κ} :
      (P : String → V → Type κ) (k : String) (d : Dict V) {v : V}
      → All (λ (x : String × V). P x.0 x.1) d
      → lookup k d ≡ some v
      → P k v
  unfolding lookup
  lookup-All P k [] h e = absurd (ground arith)
  lookup-All P k ((j, w) ∷ d) {v = v} h e = elim (Bool-cases (str_eq j k)) [
    | inl same ↦
        subst (λ i. P i v) ((eq_iff j k).0 same) (subst (P j) (ground (arith, e, same)) h.0)
    | inr other ↦ lookup-All P k d h.1 (ground (arith, e, other))
  ]

  pub insert-HasUniqueKeys :
      (k : String) (v : V) (d : Dict V)
      → lookup k d ≡ none
      → HasUniqueKeys d
      → HasUniqueKeys (insert k v d)
  unfolding lookup insert
  insert-HasUniqueKeys k v [] e u = (refl, tt)
  insert-HasUniqueKeys k v ((j, w) ∷ d) e u = elim (Bool-cases (str_eq j k)) [
    | inl same ↦ absurd (ground (arith, e, same))
    | inr other ↦ rw other (
      ground (arith, lookup-insert k j v d, u.0, eq_iff k j, eq_iff j k, other),
      insert-HasUniqueKeys k v d (ground (arith, e, other)) u.1,
    )
  ]

-- The sum of the values.
unfoldable pub total : Dict ℤ → ℤ
total [] = pos 0
total ((j, v) ∷ d) = v +ℤ total d

pub total-insert :
    (k : String) (v : ℤ) (d : Dict ℤ)
    → total (insert k v d) +ℤ get_or (lookup k d) (pos 0) ≡ total d +ℤ v
unfolding lookup insert total
total-insert k v [] = omega int_laws
total-insert k v ((j, w) ∷ d) = grind (int_laws, total-insert k v d)
