-- ===== src/Condition/Parse/Tests.antt =====
-- Conditions of src/condition.ts, read.
use openwrt_configurator.Prelude.{arith, List, codes, none, some, [], ◌∷◌, true, false, ◌≡◌, refl}
use openwrt_configurator.Condition.{
  always, is, one_of, order, all, any_of, not_of, nil, cons, text, less, every, Lookup, word,
  evaluate, evaluate_checked,
}
use openwrt_configurator.Condition.Print.{print_literal, print_when}
use openwrt_configurator.Condition.Tokens.{
  Token, tokens_from, tokenize, then_tokens, punct, quoted, end,
}
use openwrt_configurator.Condition.Tokens.Enough.{tokens_from-tokenize}
use openwrt_configurator.Condition.Tokens.Quoted.{tokens_from-print_literal}
use openwrt_configurator.Condition.Parse.{chain, parse_condition}
use openwrt_configurator.Condition.Parse.Chain.{both, evaluate-chain}
use openwrt_configurator.Release.{compare_releases}

parsed_mixed :
    parse_condition (codes "device.tag.a == 'x' and (!device.tag.b in ['y', 2] or *)")
    ≡ some (
        all (
          cons (is (codes "device.tag.a") (text (codes "x")) false) (
            cons
              (any_of (
                cons
                  (not_of
                    (one_of (codes "device.tag.b") (text (codes "y") ∷ text (codes "2") ∷ [])))
                  (cons always nil)))
              nil)))
unfolding parse_condition
parsed_mixed = refl

unknown_fact : parse_condition (codes "device.nope == 'x'") ≡ none
unfolding parse_condition
unknown_fact = refl

-- The release of an ordering is printed with no escape, so one with a quote does not read back.
order_unread :
    parse_condition (print_when (order (codes "device.version") less (codes "it's"))) ≡ none
unfolding parse_condition print_when
order_unread = refl

evaluate_version :
    evaluate_checked compare_releases
      (λ fact. some (some (word (codes "25.12.0-rc1"))))
      (order (codes "device.version") less (codes "25.12.0"))
    ≡ some true
unfolding evaluate_checked compare_releases
evaluate_version = refl

tokens_from-print_literal_example :
    tokens_from 9 (print_literal (text (codes "it's")))
    ≡ then_tokens (quoted (codes "it's")) (tokens_from 8 [])
unfolding print_literal
tokens_from-print_literal_example = tokens_from-print_literal 8 (codes "it's") []

abbrev tagged : Lookup
tagged fact = some (some (word (codes "x")))

evaluate-chain_example :
    evaluate compare_releases tagged (chain every always (not_of always))
    ≡ both every
        (evaluate compare_releases tagged always)
        (evaluate compare_releases tagged (not_of always))
evaluate-chain_example = evaluate-chain compare_releases tagged every always (not_of always)

tokens_from-tokenize_example :
    tokens_from 60 (codes "ports.count >= -2.5") ≡ some (tokenize (codes "ports.count >= -2.5"))
tokens_from-tokenize_example = tokens_from-tokenize 60 (codes "ports.count >= -2.5") (omega arith)

-- `!* && *`.
abbrev negated_pair : List Token
negated_pair =
    punct (codes "!") ∷ punct (codes "*") ∷ punct (codes "&&") ∷ punct (codes "*") ∷ end ∷ []
