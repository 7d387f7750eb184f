-- ===== src/Condition/Tokens/Enough.antt =====
-- The tokenizer of src/condition.ts ends: a round for each character is enough.
use mathlib.Core.Bool.{false≢true}
use openwrt_configurator.Prelude.{
  Text, ℕ, zero, suc, ◌≤◌, ◌<◌, Option, none, some, List, [], ◌∷◌, Bool, true, false, ◌||◌, ◌==◌,
  length, includes, is_empty, if◌then◌else◌, ◌≡◌, refl, sym, ap, ◌∙◌, inl, inr, Bool-cases, arith,
}
use openwrt_configurator.Release.{is_digit, span_digits}
use openwrt_configurator.Agent.Encode.{is_white}
use openwrt_configurator.Condition.Tokens.{
  Token, end, punct, quoted, numeric, pairs, after_pair, is_single, add_char, read_string,
  read_fraction, read_digits, read_number, is_letter, is_word_part, span_word, read_token,
  then_tokens, tokens_from, tokenize,
}

span_digits_shorter : (t : Text) → length (span_digits t).1 ≤ length t
unfolding span_digits
span_digits_shorter [] = omega arith
span_digits_shorter (c ∷ t) = elim (Bool-cases (is_digit c)) [
  | inl e ↦ rw e (omega (arith, span_digits_shorter t))
  | inr e ↦ rw e (omega arith)
]

span_word_shorter : (t : Text) → length (span_word t).1 ≤ length t
unfolding span_word
span_word_shorter [] = omega arith
span_word_shorter (c ∷ t) = elim (Bool-cases (is_word_part c)) [
  | inl e ↦ rw e (omega (arith, span_word_shorter t))
  | inr e ↦ rw e (omega arith)
]

-- What is left after a piece that may fail, no longer than what there was.
abbrev Within : ℕ → Option (Text × Text) → Type 0
Within n none = Unit
Within n (some (p, rest)) = length rest ≤ n

add_char-Within : (n c : ℕ) (r : Option (Text × Text)) → Within n r → Within n (add_char c r)
add_char-Within n c none h = tt
add_char-Within n c (some (p, rest)) h = h

Within-suc : (n : ℕ) (r : Option (Text × Text)) → Within n r → Within (suc n) r
Within-suc n none h = tt
Within-suc n (some (p, rest)) h = omega (arith, h)

after_pair-Within : (c : ℕ) (t : Text) → Within (length t) (after_pair c t)
unfolding after_pair
after_pair-Within c [] = tt
after_pair-Within c (d ∷ t) = elim (Bool-cases (includes pairs (c ∷ d ∷ []))) [
  | inl e ↦ rw e (omega arith)
  | inr e ↦ rw e tt
]

read_string-Within : (q : ℕ) (t : Text) → Within (length t) (read_string q t)
unfolding read_string
read_string-Within q [] = tt
read_string-Within q (c ∷ []) = elim (Bool-cases (c == q)) [
  | inl e ↦ rw e (omega arith)
  | inr e ↦ rw e tt
]
read_string-Within q (c ∷ d ∷ t) = elim (Bool-cases (c == q)) [
  | inl e ↦ rw e (omega arith)
  | inr e ↦ elim (Bool-cases (c == 92)) [
    | inl k ↦ rw e (
        rw k (
          Within-suc (suc (length t)) (add_char d (read_string q t)) (
            Within-suc (length t) (add_char d (read_string q t))
              (add_char-Within (length t) d (read_string q t) (read_string-Within q t)))))
    | inr k ↦ rw e (
        rw k (
          Within-suc (suc (length t)) (add_char c (read_string q (d ∷ t))) (
            add_char-Within (suc (length t)) c (read_string q (d ∷ t))
              (read_string-Within q (d ∷ t)))))
  ]
]

fraction_shorter :
    (b : Bool)
    → (c : ℕ) → (t : Text)
    → length
        (if◌then◌else◌ {A = Text × Text} b (c ∷ (span_digits t).0, (span_digits t).1) ([], c ∷ t)).1
      ≤ suc (length t)
fraction_shorter true c t = omega (arith, span_digits_shorter t)
fraction_shorter false c t = omega arith

read_fraction_shorter : (t : Text) → length (read_fraction t).1 ≤ length t
unfolding read_fraction
read_fraction_shorter [] = omega arith
read_fraction_shorter (c ∷ t) = fraction_shorter _ c t

span_digits_strict :
    (t : Text) → is_empty (span_digits t).0 ≡ false → length (span_digits t).1 < length t
unfolding span_digits
span_digits_strict [] h = elim (false≢true (sym h)) [ ]
span_digits_strict (c ∷ t) h = elim (Bool-cases (is_digit c)) [
  | inl e ↦ rw e (omega (arith, span_digits_shorter t))
  | inr e ↦
      elim (false≢true (
        sym h
        ∙ ap
            (λ b.
              is_empty
                (if◌then◌else◌ {A = Text × Text} b (c ∷ (span_digits t).0, (span_digits t).1)
                  ([], c ∷ t)).0)
            e)) [ ]
]

-- Digits take at least one character.
abbrev Less : ℕ → Option (Text × Text) → Type 0
Less n none = Unit
Less n (some (p, rest)) = length rest < n

read_digits-Less : (t : Text) → Less (length t) (read_digits t)
unfolding read_digits
read_digits-Less t = elim (Bool-cases (is_empty (span_digits t).0)) [
  | inl e ↦ rw e tt
  | inr e ↦ rw e (omega (arith, span_digits_strict t e, read_fraction_shorter (span_digits t).1))
]

Less-Within : (n : ℕ) (r : Option (Text × Text)) → Less n r → Within n r
Less-Within n none h = tt
Less-Within n (some (p, rest)) h = omega (arith, h)

Less-Within_next : (n : ℕ) (r : Option (Text × Text)) → Less (suc n) r → Within n r
Less-Within_next n none h = tt
Less-Within_next n (some (p, rest)) h = omega (arith, h)

read_number-Within : (c : ℕ) (t : Text) → Within (length t) (read_number c t)
unfolding read_number
read_number-Within c t = elim (Bool-cases (c == 45)) [
  | inl e ↦ rw e (
      add_char-Within (length t) c (read_digits t)
        (Less-Within (length t) (read_digits t) (read_digits-Less t)))
  | inr e ↦ rw e (Less-Within_next (length t) (read_digits (c ∷ t)) (read_digits-Less (c ∷ t)))
]

abbrev Leaves : ℕ → Option (Token × Text) → Type 0
Leaves n none = Unit
Leaves n (some (k, rest)) = length rest ≤ n

Leaves-if :
    (n : ℕ) (b : Bool) (x y : Option (Token × Text))
    → Leaves n x
    → Leaves n y
    → Leaves n (if b then x else y)
Leaves-if n true x y h k = h
Leaves-if n false x y h k = k

Leaves-or :
    (n : ℕ) (make : Text → Token) (r : Option (Text × Text)) (o : Option (Token × Text))
    → Within n r
    → Leaves n o
    → Leaves n
        (elim r as (λ x. Option (Token × Text)) [ none ↦ o | some (p, rest) ↦ some (make p, rest) ])
Leaves-or n make none o h k = k
Leaves-or n make (some (p, rest)) o h k = h

read_token-Leaves : (c : ℕ) (t : Text) → Leaves (length t) (read_token c t)
unfolding read_token
read_token-Leaves c t = Leaves-or (length t) punct (after_pair c t) _ (after_pair-Within c t) (
    Leaves-if (length t) (is_single c) _ _ (omega arith) (
      Leaves-if (length t) (c == 39 || c == 34) _ _
        (Leaves-or (length t) quoted (read_string c t) none (read_string-Within c t) tt)
        (Leaves-or (length t) numeric (read_number c t) _ (read_number-Within c t)
          (Leaves-if (length t) (is_letter c) _ none (span_word_shorter t) tt))))

none_below : (t : Text) → ¬ (length t < 0)
none_below t h = omega (arith, h)

abbrev round : ℕ → Bool → Text → Option (Token × Text) → Option (Option (List Token))
round n white t r = elim white [
  | true ↦ tokens_from n t
  | false ↦ elim r [ none ↦ some none | some (k, rest) ↦ then_tokens k (tokens_from n rest) ]
]

rounds :
    (n m : ℕ) (white : Bool) (t : Text) (r : Option (Token × Text))
    → ((u : Text) → length u ≤ length t → tokens_from n u ≡ tokens_from m u)
    → Leaves (length t) r
    → round n white t r ≡ round m white t r
rounds n m true t r f h = f t (omega arith)
rounds n m false t none f h = refl
rounds n m false t (some (k, rest)) f h = ap (then_tokens k) (f rest h)

tokens_from-more :
    (n m : ℕ) (t : Text) → length t < n → length t < m → tokens_from n t ≡ tokens_from m t
unfolding tokens_from
tokens_from-more zero m t h k = elim (none_below t h) [ ]
tokens_from-more (suc n) zero t h k = elim (none_below t k) [ ]
tokens_from-more (suc n) (suc m) [] h k = refl
tokens_from-more (suc n) (suc m) (c ∷ t) h k =
    rounds n m (is_white c) t (read_token c t)
      (λ u l. tokens_from-more n m u (omega (arith, h, l)) (omega (arith, k, l)))
      (read_token-Leaves c t)

-- The rounds sufficed.
abbrev Ended : Option (Option (List Token)) → Type 0
Ended r = (a : Option (List Token)) × (r ≡ some a)

then_tokens-Ended :
    (k : Token) (r : Option (Option (List Token))) → Ended r → Ended (then_tokens k r)
then_tokens-Ended k r (none, e) = (none, ap (then_tokens k) e)
then_tokens-Ended k r (some ks, e) = (some (k ∷ ks), ap (then_tokens k) e)

round-Ended :
    (n : ℕ) (white : Bool) (t : Text) (r : Option (Token × Text))
    → ((u : Text) → length u ≤ length t → Ended (tokens_from n u))
    → Leaves (length t) r
    → Ended (round n white t r)
round-Ended n true t r f h = f t (omega arith)
round-Ended n false t none f h = (none, refl)
round-Ended n false t (some (k, rest)) f h = then_tokens-Ended k (tokens_from n rest) (f rest h)

tokens_from-Ended : (n : ℕ) (t : Text) → length t < n → Ended (tokens_from n t)
unfolding tokens_from
tokens_from-Ended zero t h = elim (none_below t h) [ ]
tokens_from-Ended (suc n) [] h = (some (end ∷ []), refl)
tokens_from-Ended (suc n) (c ∷ t) h =
    round-Ended n (is_white c) t (read_token c t)
      (λ u l. tokens_from-Ended n u (omega (arith, h, l))) (read_token-Leaves c t)

answer_of :
    (r : Option (Option (List Token))) → Ended r → r ≡ some (elim r [ none ↦ none | some a ↦ a ])
answer_of r (a, e) = rw e refl

-- The tokenizer ends: with any number of rounds above the length of the text they suffice, and the
-- answer, an error or the tokens, is that of `tokenize`.
pub tokens_from-tokenize : (n : ℕ) (t : Text) → length t < n → tokens_from n t ≡ some (tokenize t)
unfolding tokenize
tokens_from-tokenize n t h =
    tokens_from-more n (suc (length t)) t h (omega arith)
    ∙ answer_of (tokens_from (suc (length t)) t)
        (tokens_from-Ended (suc (length t)) t (omega arith))
