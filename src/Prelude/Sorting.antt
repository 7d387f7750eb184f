-- ===== src/Prelude/Sorting.antt =====
-- The insertion sort that stands for `sort`: what it returns is ordered and holds the same items.
use mathlib.Core.List.{Perm}
use mathlib.Core.List.Perm
use mathlib.Core.Path.{◌≡◌}
use mathlib.Core.Logic.{inl, inr}
use mathlib.Core.Bool.{Bool, true, false}
use mathlib.Core.List.{List, [], ◌∷◌}
use openwrt_configurator.Prelude.Tests.{Bool-cases}
use openwrt_configurator.Prelude.Lists.{insert_by, sort_by, All, All-map}

-- No later item goes before an earlier one.
abbrev pub Ordered {ℓ} : {A : Type ℓ} → (A → A → Bool) → List A → Type 0
Ordered before [] = Unit
Ordered before (x ∷ xs) = All (λ y. before y x ≡ false) xs × Ordered before xs

module _ {ℓ} {A : Type ℓ} (before : A → A → Bool) where
  insert_by-Perm : (x : A) (ys : List A) → Perm (x ∷ ys) (insert_by before x ys)
  unfolding insert_by
  insert_by-Perm x [] = Perm.refl (x ∷ [])
  insert_by-Perm x (y ∷ ys) = elim (Bool-cases (before y x)) [
    | inl e ↦ rw e (Perm.trans (Perm.swap y x ys) (Perm.cons y (insert_by-Perm x ys)))
    | inr e ↦ rw e (Perm.refl (x ∷ y ∷ ys))
  ]

  pub sort_by-Perm : (xs : List A) → Perm xs (sort_by before xs)
  unfolding sort_by
  sort_by-Perm [] = Perm.refl []
  sort_by-Perm (x ∷ xs) =
      Perm.trans (Perm.cons x (sort_by-Perm xs)) (insert_by-Perm x (sort_by before xs))

  insert_by-All :
      (P : A → Type 0) (x : A) (ys : List A) → P x → All P ys → All P (insert_by before x ys)
  unfolding insert_by
  insert_by-All P x [] p h = (p, h)
  insert_by-All P x (y ∷ ys) p h = elim (Bool-cases (before y x)) [
    | inl e ↦ rw e (h.0, insert_by-All P x ys p h.1)
    | inr e ↦ rw e (p, h)
  ]

  module _ (asym : (x y : A) → before x y ≡ true → before y x ≡ false)
      (trans : (x y z : A) → before y x ≡ false → before z y ≡ false → before z x ≡ false) where
    insert_by-Ordered :
        (x : A) (ys : List A) → Ordered before ys → Ordered before (insert_by before x ys)
    unfolding insert_by
    insert_by-Ordered x [] h = (tt, tt)
    insert_by-Ordered x (y ∷ ys) h = elim (Bool-cases (before y x)) [
      | inl e ↦ rw e (
        insert_by-All (λ z. before z y ≡ false) x ys (asym y x e) h.0,
        insert_by-Ordered x ys h.1,
      )
      | inr e ↦ rw e (
        (
          e,
          All-map (λ z. before z y ≡ false) (λ z. before z x ≡ false) (λ z k. trans x y z e k) ys
              h.0,
        ),
        h,
      )
    ]

    pub sort_by-Ordered : (xs : List A) → Ordered before (sort_by before xs)
    unfolding sort_by
    sort_by-Ordered [] = tt
    sort_by-Ordered (x ∷ xs) = insert_by-Ordered x (sort_by before xs) (sort_by-Ordered xs)
