-- ===== src/Condition/Parse/Progress.antt =====
-- The parser of src/condition.ts, each of its calls: with enough fuel it ends, and what
-- it leaves is shorter.
use openwrt_configurator.Prelude.{
  ℕ, zero, suc, ◌+◌, ◌*◌, ◌≤◌, codes, List, [], ◌∷◌, ◌||◌, length, arith,
}
use openwrt_configurator.Condition.{When, always, Kind, every, some_of}
use openwrt_configurator.Condition.Tokens.{Token}
use openwrt_configurator.Condition.Parse.{
  parsed, is_keyword, is_punct, expect, parse_name, chain, joins, parse_primary, parse_not,
  parse_chain, parse_part, parse_rest,
}
use openwrt_configurator.Condition.Parse.Shorter.{
  Shorter, Shorter-if, Shorter-bind, Shorter-elim, Shorter-weaken, expect-Shorter,
  parse_name-Shorter,
}

-- The nested calls that a part of a chain takes of its own.
abbrev pub calls_of : Kind → ℕ
calls_of every = 3
calls_of some_of = 5

pub calls_of_bounds : (k : Kind) → (1 ≤ calls_of k) × (calls_of k ≤ 5)
calls_of_bounds every = (omega arith, omega arith)
calls_of_bounds some_of = (omega arith, omega arith)

pub none_left : (n : ℕ) → ¬ (n + 1 ≤ 0)
none_left n h = omega (arith, h)

-- With enough fuel each call ends, and where it reads it takes a token at least, but for the loop.
pub record Progress (n : ℕ) : Type 0 where
  pub primary : (ts : List Token) → 6 * length ts + 1 ≤ n → Shorter (length ts) (parse_primary n ts)
  pub negated : (ts : List Token) → 6 * length ts + 2 ≤ n → Shorter (length ts) (parse_not n ts)
  pub chained :
      (k : Kind) (ts : List Token)
      → 6 * length ts + calls_of k + 1 ≤ n
      → Shorter (length ts) (parse_chain n k ts)
  pub part :
      (k : Kind) (ts : List Token)
      → 6 * length ts + calls_of k ≤ n
      → Shorter (length ts) (parse_part n k ts)
  pub others :
      (k : Kind) (left : When) (ts : List Token)
      → 6 * length ts + 1 ≤ n
      → Shorter (suc (length ts)) (parse_rest n k left ts)

primary_shorter :
    (n : ℕ)
    → Progress n
    → (ts : List Token) → 6 * length ts + 1 ≤ suc n
    → Shorter (length ts) (parse_primary (suc n) ts)
unfolding parse_primary
primary_shorter n h [] m = tt
primary_shorter n h (t ∷ ts) m =
    Shorter-elim (suc (length ts)) (is_punct (codes "(") t) _ _
      (Shorter-bind (length ts) (suc (length ts)) (parse_chain n some_of ts) _
        (h.chained some_of ts (omega (arith, m)))
        (λ x i.
          Shorter-bind (length x.1) (suc (length ts)) (expect (codes ")") x.1) _
            (expect-Shorter (codes ")") x.1) (λ y j. omega (arith, i, j))))
      (Shorter-if (suc (length ts)) (is_punct (codes "*") t) (parsed (always, ts)) (parse_name t ts)
        (omega arith) (parse_name-Shorter t ts))

not_shorter :
    (n : ℕ)
    → Progress n
    → (ts : List Token) → 6 * length ts + 2 ≤ suc n
    → Shorter (length ts) (parse_not (suc n) ts)
unfolding parse_not
not_shorter n h [] m = tt
not_shorter n h (t ∷ ts) m =
    Shorter-elim (suc (length ts)) (is_keyword (codes "NOT") t || is_punct (codes "!") t) _
      (parse_primary n (t ∷ ts))
      (Shorter-bind (length ts) (suc (length ts)) (parse_not n ts) _
        (h.negated ts (omega (arith, m))) (λ x i. omega (arith, i)))
      (h.primary (t ∷ ts) (omega (arith, m)))

chain_shorter :
    (n : ℕ)
    → Progress n
    → (k : Kind) (ts : List Token) → 6 * length ts + calls_of k + 1 ≤ suc n
    → Shorter (length ts) (parse_chain (suc n) k ts)
unfolding parse_chain
chain_shorter n h k ts m =
    Shorter-bind (length ts) (length ts) (parse_part n k ts) _ (h.part k ts (omega (arith, m)))
      (λ x i.
        Shorter-weaken (suc (length x.1)) (length ts) (parse_rest n k x.0 x.1) (omega (arith, i))
          (h.others k x.0 x.1 (omega (arith, m, i))))

part_shorter :
    (n : ℕ)
    → Progress n
    → (k : Kind) (ts : List Token) → 6 * length ts + calls_of k ≤ suc n
    → Shorter (length ts) (parse_part (suc n) k ts)
unfolding parse_part
part_shorter n h every ts m = h.negated ts (omega (arith, m))
part_shorter n h some_of ts m = h.chained every ts (omega (arith, m))

rest_shorter :
    (n : ℕ)
    → Progress n
    → (k : Kind) (left : When) (ts : List Token) → 6 * length ts + 1 ≤ suc n
    → Shorter (suc (length ts)) (parse_rest (suc n) k left ts)
unfolding parse_rest
rest_shorter n h k left [] m = tt
rest_shorter n h k left (t ∷ ts) m =
    Shorter-elim (suc (suc (length ts))) (joins k t) _ (parsed (left, t ∷ ts))
      (Shorter-bind (length ts) (suc (suc (length ts))) (parse_part n k ts) _
        (h.part k ts (omega (arith, m, (calls_of_bounds k).1)))
        (λ x i.
          Shorter-weaken (suc (length x.1)) (suc (suc (length ts)))
            (parse_rest n k (chain k left x.0) x.1) (omega (arith, i))
            (h.others k (chain k left x.0) x.1 (omega (arith, m, i)))))
      (omega arith)

pub progress : (n : ℕ) → Progress n
progress zero = record {
  primary = λ ts i. elim (none_left (6 * length ts) (omega (arith, i))) [ ];
  negated = λ ts i. elim (none_left (6 * length ts) (omega (arith, i))) [ ];
  chained = λ k ts i. elim (none_left (6 * length ts) (omega (arith, i))) [ ];
  part = λ k ts i. elim (none_left (6 * length ts) (omega (arith, i, (calls_of_bounds k).0))) [ ];
  others = λ k left ts i. elim (none_left (6 * length ts) (omega (arith, i))) [ ];
}
progress (suc n) = record {
  primary = primary_shorter n (progress n);
  negated = not_shorter n (progress n);
  chained = chain_shorter n (progress n);
  part = part_shorter n (progress n);
  others = rest_shorter n (progress n);
}
