-- ===== src/Uci/Verify/Keys.antt =====
-- The keys that `verifyConfigs` of src/engine/uci.ts goes through: each of both configs, once, sorted.
use mathlib.Core.Bool.{false≢true}
use mathlib.Core.Path.{subst}
use openwrt_configurator.Prelude.{
  Text, text_eq, text_eq_iff, List, [], ◌∷◌, true, unique_from, includes, any, sorted, text_before,
  All, insert_by, sort_by, ◌≡◌, inl, inr, Bool-cases,
}

-- What holds of every item of a list sorted and without repeats holds of every item of the list.
module _ (P : Text → Type 0) where
  All-insert_by : (x : Text) (ys : List Text) → All P (insert_by text_before x ys) → P x × All P ys
  unfolding insert_by
  All-insert_by x [] h = h
  All-insert_by x (y ∷ ys) h = elim (Bool-cases (text_before y x)) [
    | inl e ↦ (let k = rw e at h in let r = All-insert_by x ys k.1 in (r.0, (k.0, r.1)))
    | inr e ↦ rw e at h
  ]

  pub All-sorted : (xs : List Text) → All P (sorted xs) → All P xs
  unfolding sorted sort_by
  All-sorted [] h = tt
  All-sorted (x ∷ xs) h =
      let r = All-insert_by x (sort_by text_before xs) h in (r.0, All-sorted xs r.1)

  All-includes : (seen : List Text) (x : Text) → All P seen → includes seen x ≡ true → P x
  unfolding includes any
  All-includes [] x a h = elim (false≢true h) [ ]
  All-includes (s ∷ seen) x a h = elim (Bool-cases (text_eq s x)) [
    | inl e ↦ subst P ((text_eq_iff s x).0 e) a.0
    | inr e ↦ All-includes seen x a.1 (rw e at h)
  ]

  pub All-unique_from : (seen xs : List Text) → All P seen → All P (unique_from seen xs) → All P xs
  unfolding unique_from
  All-unique_from seen [] a h = tt
  All-unique_from seen (x ∷ xs) a h = elim (Bool-cases (includes seen x)) [
    | inl e ↦ (All-includes seen x a e, All-unique_from seen xs a (rw e at h))
    | inr e ↦ (let k = rw e at h in (k.0, All-unique_from (x ∷ seen) xs (k.0, a) k.1))
  ]
