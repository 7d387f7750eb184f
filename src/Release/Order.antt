-- ===== src/Release/Order.antt =====
-- The order of releases of src/release.ts is a total preorder.
use openwrt_configurator.Prelude.{
  ℕ, zero, suc, ◌+◌, ◌≤◌, List, [], ◌∷◌, Option, none, some, length, Bool, true, false, ◌≡◌, refl,
  sym, ap, ◌∙◌, arith, Text, Bool-cases, ◌==◌, ==_iff, inl, inr,
}
use openwrt_configurator.Condition.{Comparison, before, same, after}
use openwrt_configurator.Prelude.Int.{ℤ, lt_int}
use openwrt_configurator.Release.{
  Part, less_part, then_by, head_part, tail_parts, larger, compare_parts, compare_orders,
  compare_if, release_order, compare_releases,
}

lt_int_trans : (a b c : ℤ) → lt_int b a ≡ false → lt_int c b ≡ false → lt_int c a ≡ false
lt_int_trans a b c h k = ground arith

less_part_trans :
    (p q r : Part) → less_part q p ≡ false → less_part r q ≡ false → less_part r p ≡ false
less_part_trans p q r h k = ground arith

less_part_asym : (p q : Part) → less_part p q ≡ true → less_part q p ≡ false
less_part_asym p q h = ground arith

tail_length : (x : List Part) (n : ℕ) → length x ≤ suc n → length (tail_parts x) ≤ n
tail_length [] n h = omega arith
tail_length (p ∷ x) n h = omega (arith, h)

abbrev pub reversed : Comparison → Comparison
reversed before = after
reversed same = same
reversed after = before

-- Older than, or the same as.
abbrev pub is_at_most : Comparison → Bool
is_at_most after = false
is_at_most _ = true

then_by-reversed :
    (p q : Part) (c d : Comparison) → d ≡ reversed c → then_by q p d ≡ reversed (then_by p q c)
then_by-reversed p q c d h = ground (arith, h, less_part_asym p q)

then_by_trans :
    (p q r : Part) (c d e : Comparison)
    → (is_at_most c ≡ true → is_at_most d ≡ true → is_at_most e ≡ true)
    → is_at_most (then_by p q c) ≡ true
    → is_at_most (then_by q r d) ≡ true
    → is_at_most (then_by p r e) ≡ true
then_by_trans p q r c d e ih h k = ground (
  arith,
  ih,
  h,
  k,
  less_part_asym p q,
  less_part_asym q r,
  less_part_asym p r,
  less_part_trans p q r,
  less_part_trans q r p,
  less_part_trans r p q,
  less_part_trans r q p,
  less_part_trans q p r,
  less_part_trans p r q,
)

compare_parts-reversed :
    (n : ℕ) (x y : List Part) → compare_parts n y x ≡ reversed (compare_parts n x y)
unfolding compare_parts
compare_parts-reversed zero x y = refl
compare_parts-reversed (suc n) x y =
    then_by-reversed (head_part x) (head_part y) _ _
      (compare_parts-reversed n (tail_parts x) (tail_parts y))

compare_parts_trans :
    (n : ℕ) (x y z : List Part)
    → is_at_most (compare_parts n x y) ≡ true
    → is_at_most (compare_parts n y z) ≡ true
    → is_at_most (compare_parts n x z) ≡ true
unfolding compare_parts
compare_parts_trans zero x y z h k = refl
compare_parts_trans (suc n) x y z h k =
    then_by_trans (head_part x) (head_part y) (head_part z) _ _ _
      (compare_parts_trans n (tail_parts x) (tail_parts y) (tail_parts z)) h k

-- Places past the end of both count for nothing.
compare_parts_one_more :
    (n : ℕ) (x y : List Part)
    → length x ≤ n
    → length y ≤ n
    → compare_parts (suc n) x y ≡ compare_parts n x y
unfolding compare_parts
compare_parts_one_more zero [] [] h k = refl
compare_parts_one_more zero (p ∷ x) y h k = ground (arith, h)
compare_parts_one_more zero [] (q ∷ y) h k = ground (arith, k)
compare_parts_one_more (suc n) x y h k =
    ap (then_by (head_part x) (head_part y)) (
      compare_parts_one_more n (tail_parts x) (tail_parts y) (tail_length x n h)
        (tail_length y n k))

compare_parts_more :
    (m n : ℕ) (x y : List Part)
    → length x ≤ n
    → length y ≤ n
    → n ≤ m
    → compare_parts m x y ≡ compare_parts n x y
compare_parts_more zero n x y h k l = ap (λ i. compare_parts i x y) (omega (arith, l))
compare_parts_more (suc m) n x y h k l = elim (Bool-cases (n == suc m)) [
  | inl e ↦ ap (λ i. compare_parts i x y) (sym ((==_iff n (suc m)).0 e))
  | inr e ↦
      let d : n ≤ m = ground (arith, e, l) in
      compare_parts_one_more m x y (omega (arith, h, d)) (omega (arith, k, d))
      ∙ compare_parts_more m n x y h k d
]

compare_parts_enough :
    (n : ℕ) (x y : List Part)
    → length x ≤ n
    → length y ≤ n
    → compare_parts n x y ≡ compare_orders x y
unfolding compare_orders
compare_parts_enough n x y h k =
    compare_parts_more n (larger (length x) (length y)) x y (ground arith) (ground arith)
      (ground (arith, h, k))

compare_orders-reversed : (x y : List Part) → compare_orders y x ≡ reversed (compare_orders x y)
compare_orders-reversed x y =
    let n = length x + length y in
    sym (compare_parts_enough n y x (omega arith) (omega arith))
    ∙ compare_parts-reversed n x y
    ∙ ap reversed (compare_parts_enough n x y (omega arith) (omega arith))

compare_orders_trans :
    (x y z : List Part)
    → is_at_most (compare_orders x y) ≡ true
    → is_at_most (compare_orders y z) ≡ true
    → is_at_most (compare_orders x z) ≡ true
compare_orders_trans x y z h k =
    let n = length x + length y + length z in
    let e =
      λ (a b : List Part) (l : length a ≤ n) (r : length b ≤ n). compare_parts_enough n a b l r in
    ap is_at_most (sym (e x z (omega arith) (omega arith)))
    ∙ compare_parts_trans n x y z (ap is_at_most (e x y (omega arith) (omega arith)) ∙ h)
        (ap is_at_most (e y z (omega arith) (omega arith)) ∙ k)

abbrev pub reversed_if : Option Comparison → Option Comparison
reversed_if none = none
reversed_if (some c) = some (reversed c)

abbrev pub is_at_most_if : Option Comparison → Bool
is_at_most_if none = false
is_at_most_if (some c) = is_at_most c

compare_if-reversed : (x y : Option (List Part)) → compare_if y x ≡ reversed_if (compare_if x y)
compare_if-reversed (some x) (some y) = ap some (compare_orders-reversed x y)
compare_if-reversed none none = refl
compare_if-reversed none (some y) = refl
compare_if-reversed (some x) none = refl

compare_if_trans :
    (x y z : Option (List Part))
    → is_at_most_if (compare_if x y) ≡ true
    → is_at_most_if (compare_if y z) ≡ true
    → is_at_most_if (compare_if x z) ≡ true
compare_if_trans (some x) (some y) (some z) h k = compare_orders_trans x y z h k
compare_if_trans none y z h k = ground (arith, h)
compare_if_trans (some x) none z h k = ground (arith, h)
compare_if_trans (some x) (some y) none h k = ground (arith, k)

-- Two texts compare one way round where they do the other, with the answer turned.
pub compare_releases-reversed :
    (a b : Text) → compare_releases b a ≡ reversed_if (compare_releases a b)
unfolding compare_releases
compare_releases-reversed a b = compare_if-reversed (release_order a) (release_order b)

-- Where one release is older than a second or the same, and that one than a third, so is the first
-- than the third.
pub compare_releases_trans :
    (a b c : Text)
    → is_at_most_if (compare_releases a b) ≡ true
    → is_at_most_if (compare_releases b c) ≡ true
    → is_at_most_if (compare_releases a c) ≡ true
unfolding compare_releases
compare_releases_trans a b c h k =
    compare_if_trans (release_order a) (release_order b) (release_order c) h k
