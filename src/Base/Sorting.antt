-- ===== src/Base/Sorting.antt =====
-- A stable sort by a test `later`: SQL's `ORDER BY … DESC`, and `list.sort` with a key in reverse.
use Prim.Native.Nat.{ℕ, zero, suc, ◌≤◌}
use mathlib.Core.Path.{◌≡◌, refl, ap, ◌∙◌}
use mathlib.Core.Logic.{inl, inr}
use mathlib.Core.Bool.{Bool}
use mathlib.Core.List.{List, [], ◌∷◌, Permᴰ}
use mathlib.Core.List.Permᴰ
use native.Mathlib.Nat.{le_trans}
use native.Mathlib.Omega.{arith}
use the_grid_x.Base.Tests.{ltb, if◌then◌else◌, Bool-cases}
use the_grid_x.Base.Lists.{length, take, All, All-weaken}

module _ {A : Type 0} (later : A → A → Bool) where
  unfoldable pub insert_sorted : A → List A → List A
  insert_sorted a [] = a ∷ []
  insert_sorted a (x ∷ xs) = if later x a then x ∷ insert_sorted a xs else a ∷ x ∷ xs

  -- Each row goes behind those that are strictly later, and in front of its equals that follow.
  unfoldable pub order_by : List A → List A
  order_by [] = []
  order_by (x ∷ xs) = insert_sorted x (order_by xs)

module _ {A : Type 0} (later : A → A → Bool) where
  pub length-insert_sorted :
      (a : A) (xs : List A) → length (insert_sorted later a xs) ≡ suc (length xs)
  unfolding insert_sorted
  length-insert_sorted a [] = refl
  length-insert_sorted a (x ∷ xs) = ground (arith, length-insert_sorted a xs)

  pub length-order_by : (xs : List A) → length (order_by later xs) ≡ length xs
  unfolding order_by
  length-order_by [] = refl
  length-order_by (x ∷ xs) =
      length-insert_sorted x (order_by later xs) ∙ ap suc (length-order_by xs)

module _ {A : Type 0} (later : A → A → Bool) where
  insert_sorted-Permᴰ : (a : A) (xs : List A) → Permᴰ (insert_sorted later a xs) (a ∷ xs)
  unfolding insert_sorted
  insert_sorted-Permᴰ a [] = Permᴰ.refl (a ∷ [])
  insert_sorted-Permᴰ a (x ∷ xs) = elim (Bool-cases (later x a)) [
    | inl behind ↦
        rw behind (Permᴰ.trans (Permᴰ.cons refl (insert_sorted-Permᴰ a xs)) (Permᴰ.swap refl refl))
    | inr before ↦ rw before (Permᴰ.refl (a ∷ x ∷ xs))
  ]

  pub order_by-Permᴰ : (xs : List A) → Permᴰ (order_by later xs) xs
  unfolding order_by
  order_by-Permᴰ [] = Permᴰ.nil
  order_by-Permᴰ (x ∷ xs) =
      Permᴰ.trans (insert_sorted-Permᴰ x (order_by later xs)) (Permᴰ.cons refl (order_by-Permᴰ xs))

module _ {A : Type 0} (later : A → A → Bool) (P : A → Type 0) where
  pub All-insert_sorted : (a : A) (xs : List A) → P a → All P xs → All P (insert_sorted later a xs)
  unfolding insert_sorted
  All-insert_sorted a [] p h = (p, tt)
  All-insert_sorted a (x ∷ xs) p h = elim (Bool-cases (later x a)) [
    | inl behind ↦ rw behind (h.0, All-insert_sorted a xs p h.1)
    | inr before ↦ rw before (p, h)
  ]

  pub All-order_by : (xs : List A) → All P xs → All P (order_by later xs)
  unfolding order_by
  All-order_by [] h = tt
  All-order_by (x ∷ xs) h = All-insert_sorted x _ h.0 (All-order_by xs h.1)

  pub All-take : (n : ℕ) (xs : List A) → All P xs → All P (take n xs)
  All-take zero xs h = tt
  All-take (suc n) [] h = tt
  All-take (suc n) (x ∷ xs) h = (h.0, All-take n xs h.1)

module _ {A : Type 0} (key : A → ℕ) where
  -- Each row's key is at least that of every row behind it.
  abbrev pub IsDescending : List A → Type 0
  IsDescending [] = Unit
  IsDescending (x ∷ xs) = All (λ y. key y ≤ key x) xs × IsDescending xs

  abbrev pub by_key : A → A → Bool
  by_key a b = ltb (key b) (key a)

  pub insert_sorted-IsDescending :
      (a : A) (xs : List A) → IsDescending xs → IsDescending (insert_sorted by_key a xs)
  unfolding insert_sorted
  insert_sorted-IsDescending a [] h = (tt, tt)
  insert_sorted-IsDescending a (x ∷ xs) h = elim (Bool-cases (by_key x a)) [
    | inl behind ↦
        let below : key a ≤ key x = ground arith in
        rw behind (
          All-insert_sorted by_key (λ y. key y ≤ key x) a xs below h.0,
          insert_sorted-IsDescending a xs h.1,
        )
    | inr before ↦
        let above : key x ≤ key a = ground arith in
        rw before ((above, All-weaken (λ y. key y ≤ key x) _ xs (λ y le. le_trans le above) h.0), h)
  ]

  pub order_by-IsDescending : (xs : List A) → IsDescending (order_by by_key xs)
  unfolding order_by
  order_by-IsDescending [] = tt
  order_by-IsDescending (x ∷ xs) = insert_sorted-IsDescending x _ (order_by-IsDescending xs)

  pub take-IsDescending : (n : ℕ) (xs : List A) → IsDescending xs → IsDescending (take n xs)
  take-IsDescending zero xs h = tt
  take-IsDescending (suc n) [] h = tt
  take-IsDescending (suc n) (x ∷ xs) h =
      (All-take by_key (λ y. key y ≤ key x) n xs h.0, take-IsDescending n xs h.1)
