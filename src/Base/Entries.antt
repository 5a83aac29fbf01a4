-- ===== src/Base/Entries.antt =====
-- Properties that every value of a dict has, under each operation on the dict.
use mathlib.Core.Path.{◌≡◌, sym, subst}
use mathlib.Core.Logic.{inl, inr}
use mathlib.Core.Option.{some}
use mathlib.Core.List.{[], ◌∷◌}
use native.Mathlib.Omega.{arith}
use the_grid_x.Base.Tests.{Bool-cases}
use the_grid_x.Base.Lists.{All}
use the_grid_x.Base.Strings.{Text, text_eq, text_eq_iff}
use the_grid_x.Base.Tables.{Dict, Values, lookup, insert, modify, erase}

module _ {V : Type 0} (P : V → Type 0) where
  pub Values-insert : (k : Text) (v : V) (d : Dict V) → P v → Values P d → Values P (insert k v d)
  unfolding insert
  Values-insert k v [] p h = (p, tt)
  Values-insert k v ((j, w) ∷ d) p h = ground (arith, Values-insert k v d p h.1)

  pub Values-modify :
      (k : Text) (f : V → V) (d : Dict V)
      → ((v : V) → P v → P (f v))
      → Values P d
      → Values P (modify k f d)
  unfolding modify
  Values-modify k f [] keep h = tt
  Values-modify k f ((j, w) ∷ d) keep h = ground (arith, keep w h.0, Values-modify k f d keep h.1)

  -- Where the entry is known, the change need keep the property for its value alone.
  pub Values-modify_at :
      (k : Text) (f : V → V) (d : Dict V) (v : V)
      → lookup k d ≡ some v
      → P (f v)
      → Values P d
      → Values P (modify k f d)
  unfolding modify lookup
  Values-modify_at k f [] v e p h = tt
  Values-modify_at k f ((j, w) ∷ d) v e p h = elim (Bool-cases (text_eq j k)) [
    | inl hit ↦ let same : w ≡ v = ground arith in rw hit (subst (λ x. P (f x)) (sym same) p, h.1)
    | inr miss ↦ rw miss (h.0, Values-modify_at k f d v (ground arith) p h.1)
  ]

  pub Values-lookup : (k : Text) (d : Dict V) (v : V) → lookup k d ≡ some v → Values P d → P v
  unfolding lookup
  Values-lookup k [] v e h = absurd (cc)
  Values-lookup k ((j, w) ∷ d) v e h = elim (Bool-cases (text_eq j k)) [
    | inl hit ↦ let same : w ≡ v = ground arith in subst P same h.0
    | inr miss ↦ Values-lookup k d v (ground arith) h.1
  ]

  pub Values-erase : (k : Text) (d : Dict V) → Values P d → Values P (erase k d)
  unfolding erase
  Values-erase k [] h = tt
  Values-erase k ((j, w) ∷ d) h = ground (arith, Values-erase k d h.1)

module _ {V : Type 0} (P : Text × V → Type 0) where
  pub All-modify :
      (k : Text) (f : V → V) (d : Dict V)
      → ((j : Text) (v : V) → P (j, v) → P (j, f v))
      → All P d
      → All P (modify k f d)
  unfolding modify
  All-modify k f [] keep h = tt
  All-modify k f ((j, v) ∷ d) keep h = ground (arith, keep j v h.0, All-modify k f d keep h.1)

  pub All-erase : (k : Text) (d : Dict V) → All P d → All P (erase k d)
  unfolding erase
  All-erase k [] h = tt
  All-erase k ((j, v) ∷ d) h = ground (arith, All-erase k d h.1)

  pub All-insert : (k : Text) (v : V) (d : Dict V) → P (k, v) → All P d → All P (insert k v d)
  unfolding insert
  All-insert k v [] p h = (p, tt)
  All-insert k v ((j, w) ∷ d) p h = elim (Bool-cases (text_eq j k)) [
    | inl same ↦ rw same (subst (λ (i : Text). P (i, v)) (sym ((text_eq_iff j k).0 same)) p, h.1)
    | inr other ↦ rw other (h.0, All-insert k v d p h.1)
  ]
