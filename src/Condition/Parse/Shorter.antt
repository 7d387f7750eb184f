-- ===== src/Condition/Parse/Shorter.antt =====
-- The parser of src/condition.ts takes tokens: each of its parts ends, and what one leaves is shorter.
use openwrt_configurator.Prelude.{
  Text, ℕ, zero, suc, ◌≤◌, ◌<◌, codes, Option, none, some, List, [], ◌∷◌, map, Bool, true, false,
  not, ◌&&◌, length, includes, if◌then◌else◌, arith,
}
use openwrt_configurator.Condition.{Order, is_fact}
use openwrt_configurator.Condition.Tokens.{Token, punct, quoted, numeric, word, end}
use openwrt_configurator.Condition.Parse.{
  Parsed, parsed, refused, spent, ◌>>=◌, is_keyword, is_punct, expect, parse_value, parse_release,
  parse_values, order_of, parse_is, parse_in, parse_order, parse_test, reserved, parse_name, upper,
}

-- The calls sufficed, and where a part was read, what is left is shorter than a length.
abbrev pub Shorter : {A : Type 0} → ℕ → Parsed A → Type 0
Shorter n spent = ⊥
Shorter n refused = Unit
Shorter n (parsed (a, rest)) = length rest < n

pub Shorter-weaken : {A : Type 0} → (n m : ℕ) → (p : Parsed A) → n ≤ m → Shorter n p → Shorter m p
Shorter-weaken n m spent l h = h
Shorter-weaken n m refused l h = tt
Shorter-weaken n m (parsed (a, rest)) l h = omega (arith, l, h)

pub Shorter-if :
    {A : Type 0}
    → (n : ℕ) → (b : Bool) → (x y : Parsed A) → Shorter n x
    → Shorter n y
    → Shorter n (if b then x else y)
Shorter-if n true x y h k = h
Shorter-if n false x y h k = k

pub Shorter-bind :
    {A B : Type 0}
    → (n m : ℕ) → (p : Parsed A) → (f : A × List Token → Parsed B) → Shorter n p
    → ((x : A × List Token) → length x.1 < n → Shorter m (f x))
    → Shorter m (p >>= f)
Shorter-bind n m spent f h k = h
Shorter-bind n m refused f h k = tt
Shorter-bind n m (parsed x) f h k = k x h

pub Shorter-elim :
    {A : Type 0}
    → (n : ℕ) → (b : Bool) → (x y : Parsed A) → Shorter n x
    → Shorter n y
    → Shorter n (elim b as (λ c. Parsed A) [ true ↦ x | false ↦ y ])
Shorter-elim n true x y h k = h
Shorter-elim n false x y h k = k

Shorter-order :
    {A : Type 0}
    → (n : ℕ) → (o : Option Order) → (f : Order → Parsed A) → (y : Parsed A)
    → ((p : Order) → Shorter n (f p))
    → Shorter n y
    → Shorter n (elim o as (λ r. Parsed A) [ some p ↦ f p | none ↦ y ])
Shorter-order n none f y h k = k
Shorter-order n (some o) f y h k = h o

pub expect-Shorter : (p : Text) (ts : List Token) → Shorter (length ts) (expect p ts)
unfolding expect
expect-Shorter p [] = tt
expect-Shorter p (t ∷ ts) =
    Shorter-if (suc (length ts)) (is_punct p t) (parsed (tt, ts)) refused (omega arith) tt

parse_value-Shorter : (ts : List Token) → Shorter (length ts) (parse_value ts)
unfolding parse_value
parse_value-Shorter [] = tt
parse_value-Shorter (quoted v ∷ ts) = omega arith
parse_value-Shorter (numeric v ∷ ts) = omega arith
parse_value-Shorter (word w ∷ ts) =
    Shorter-if (suc (length ts)) (is_keyword (codes "TRUE") (word w)) _ _ (omega arith) (
      Shorter-if (suc (length ts)) (is_keyword (codes "FALSE") (word w)) _ refused (omega arith) tt)
parse_value-Shorter (punct p ∷ ts) = tt
parse_value-Shorter (end ∷ ts) = tt

parse_release-Shorter : (ts : List Token) → Shorter (length ts) (parse_release ts)
parse_release-Shorter [] = tt
parse_release-Shorter (quoted v ∷ ts) = omega arith
parse_release-Shorter (numeric v ∷ ts) = omega arith
parse_release-Shorter (word w ∷ ts) = tt
parse_release-Shorter (punct p ∷ ts) = tt
parse_release-Shorter (end ∷ ts) = tt

parse_values-Shorter :
    (fuel : ℕ) (ts : List Token)
    → length ts < fuel
    → Shorter (suc (length ts)) (parse_values fuel ts)
unfolding parse_values
parse_values-Shorter zero ts h = omega (arith, h)
parse_values-Shorter (suc fuel) [] h = tt
parse_values-Shorter (suc fuel) (t ∷ ts) h =
    Shorter-elim (suc (suc (length ts))) (is_punct (codes ",") t) _ (parsed ([], t ∷ ts))
      (Shorter-bind (length ts) (suc (suc (length ts))) (parse_value ts) _ (parse_value-Shorter ts)
        (λ x l.
          Shorter-bind (suc (length x.1)) (suc (suc (length ts))) (parse_values fuel x.1) _
            (parse_values-Shorter fuel x.1 (omega (arith, h, l))) (λ y k. omega (arith, l, k))))
      (omega arith)

parse_in-Shorter : (fact : Text) (ts : List Token) → Shorter (length ts) (parse_in fact ts)
parse_in-Shorter fact ts =
    Shorter-bind (length ts) (length ts) (expect (codes "[") ts) _ (expect-Shorter (codes "[") ts)
      (λ a i.
        Shorter-bind (length a.1) (length ts) (parse_value a.1) _ (parse_value-Shorter a.1) (λ b j.
          Shorter-bind (suc (length b.1)) (length ts) (parse_values (suc (length b.1)) b.1) _
            (parse_values-Shorter (suc (length b.1)) b.1 (omega arith))
            (λ c k.
              Shorter-bind (length c.1) (length ts) (expect (codes "]") c.1) _
                (expect-Shorter (codes "]") c.1) (λ d l. omega (arith, i, j, k, l)))))

parse_is-Shorter :
    (fact : Text) (negated : Bool) (ts : List Token)
    → Shorter (suc (length ts)) (parse_is fact negated ts)
parse_is-Shorter fact negated ts =
    Shorter-bind (length ts) (suc (length ts)) (parse_value ts) _ (parse_value-Shorter ts)
      (λ x l. omega (arith, l))

parse_test-Shorter : (fact : Text) (ts : List Token) → Shorter (length ts) (parse_test fact ts)
unfolding parse_test
parse_test-Shorter fact [] = tt
parse_test-Shorter fact (op ∷ ts) =
    Shorter-if (suc (length ts)) (is_punct (codes "==") op) (parse_is fact false ts) _
      (parse_is-Shorter fact false ts)
      (Shorter-if (suc (length ts)) (is_punct (codes "!=") op) (parse_is fact true ts) _
        (parse_is-Shorter fact true ts)
        (Shorter-order (suc (length ts)) (order_of op) (λ o. parse_order fact o ts) _
          (λ o.
            Shorter-bind (length ts) (suc (length ts)) (parse_release ts) _
              (parse_release-Shorter ts) (λ x l. omega (arith, l)))
          (Shorter-if (suc (length ts)) (is_keyword (codes "IN") op) (parse_in fact ts) refused
            (Shorter-weaken (length ts) (suc (length ts)) (parse_in fact ts) (omega arith)
              (parse_in-Shorter fact ts))
            tt)))

pub parse_name-Shorter : (t : Token) (ts : List Token) → Shorter (suc (length ts)) (parse_name t ts)
unfolding parse_name
parse_name-Shorter (word fact) ts =
    Shorter-if (suc (length ts)) (not (includes reserved (map upper fact)) && is_fact fact)
      (parse_test fact ts) refused
      (Shorter-weaken (length ts) (suc (length ts)) (parse_test fact ts) (omega arith)
        (parse_test-Shorter fact ts))
      tt
parse_name-Shorter (punct p) ts = tt
parse_name-Shorter (quoted v) ts = tt
parse_name-Shorter (numeric v) ts = tt
parse_name-Shorter end ts = tt
