-- ===== src/Agent/Decode/Numbers.antt =====
-- The counts of src/agent/records.ts: written in decimal and read back.
use openwrt_configurator.Prelude.{
  Text, ℕ, zero, suc, ◌+◌, ◌-◌, ◌*◌, ◌/◌, ◌%◌, ◌≤◌, some, [], ◌∷◌, ◌++◌, Bool, true, false, ltb,
  all, is_empty, lacks, ◌≡◌, refl, ap, ◌∙◌, inl, inr, Bool-cases, arith,
}
use openwrt_configurator.Agent.Encode.{decimal, decimal_from}
use openwrt_configurator.Agent.Decode.{count_of}
use openwrt_configurator.Release.{is_digit, number_from}

number_from-append :
    (k d : ℕ) (t : Text) → number_from k (t ++ d ∷ []) ≡ 10 * number_from k t + (d - 48)
unfolding number_from
number_from-append k d [] = refl
number_from-append k d (c ∷ t) = number_from-append (10 * k + (c - 48)) d t

all-append :
    (p : ℕ → Bool) (t : Text) (d : ℕ) → all p t ≡ true → p d ≡ true → all p (t ++ d ∷ []) ≡ true
unfolding all
all-append p [] d h k = ground (arith, k)
all-append p (c ∷ t) d h k = ground (arith, h, all-append p t d (ground (arith, h)) k)

is_empty-append : (t : Text) (d : ℕ) → is_empty (t ++ d ∷ []) ≡ false
is_empty-append [] d = refl
is_empty-append (c ∷ t) d = refl

all_digits : (fuel n : ℕ) → n ≤ fuel → all is_digit (decimal_from fuel n) ≡ true
unfolding decimal_from all
all_digits zero n l = ground (arith, l)
all_digits (suc fuel) n l = elim (Bool-cases (ltb n 10)) [
  | inl e ↦ rw e (ground (arith, e))
  | inr e ↦ rw e (
      all-append is_digit (decimal_from fuel (n / 10)) (48 + n % 10)
        (all_digits fuel (n / 10) (ground (arith, e, l))) (ground arith))
]

number_is : (fuel n : ℕ) → n ≤ fuel → number_from 0 (decimal_from fuel n) ≡ n
unfolding decimal_from number_from
number_is zero n l = omega (arith, l)
number_is (suc fuel) n l = elim (Bool-cases (ltb n 10)) [
  | inl e ↦ rw e (omega arith)
  | inr e ↦
      let ih = number_is fuel (n / 10) (ground (arith, e, l)) in
      rw e (number_from-append 0 (48 + n % 10) (decimal_from fuel (n / 10)) ∙ omega (arith, ih))
]

not_empty : (fuel n : ℕ) → is_empty (decimal_from fuel n) ≡ false
unfolding decimal_from
not_empty zero n = refl
not_empty (suc fuel) n = elim (Bool-cases (ltb n 10)) [
  | inl e ↦ rw e refl
  | inr e ↦ rw e (is_empty-append (decimal_from fuel (n / 10)) (48 + n % 10))
]

pub count_of-decimal : (n : ℕ) → count_of (decimal n) ≡ some n
unfolding count_of
count_of-decimal n =
    rw (not_empty n n) (rw (all_digits n n (omega arith)) (ap some (number_is n n (omega arith))))

lacks_digits :
    (sep : ℕ) (t : Text) → is_digit sep ≡ false → all is_digit t ≡ true → lacks sep t ≡ true
unfolding lacks all
lacks_digits sep [] s h = refl
lacks_digits sep (c ∷ t) s h = ground (arith, s, h, lacks_digits sep t s)

pub lacks-decimal : (sep n : ℕ) → is_digit sep ≡ false → lacks sep (decimal n) ≡ true
lacks-decimal sep n s = lacks_digits sep (decimal n) s (all_digits n n (omega arith))
