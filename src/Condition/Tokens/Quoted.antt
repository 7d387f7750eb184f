-- ===== src/Condition/Tokens/Quoted.antt =====
-- A literal printed by src/plan/when.ts, as the tokenizer of src/condition.ts reads it.
use openwrt_configurator.Prelude.{
  Text, ℕ, suc, none, some, [], ◌∷◌, ◌++◌, false, ◌||◌, ◌==◌, any, includes, text_eq, ◌≡◌, refl, ap,
  ◌∙◌, inl, inr, Bool-cases, arith,
}
use mathlib.Core.List.{append_assoc}
use openwrt_configurator.Condition.{text}
use openwrt_configurator.Condition.Print.{escape_literal, print_literal}
use openwrt_configurator.Condition.Tokens.{
  quoted, read_string, add_char, read_token, after_pair, pairs, is_single, tokens_from, then_tokens,
}

read_string-closed : (rest : Text) → read_string 39 (39 ∷ rest) ≡ some ([], rest)
unfolding read_string
read_string-closed [] = refl
read_string-closed (d ∷ t) = refl

-- One character that is no quote and no backslash.
read_string-plain :
    (c : ℕ) (t : Text)
    → (c == 92 || c == 39) ≡ false
    → read_string 39 (c ∷ t) ≡ add_char c (read_string 39 t)
unfolding read_string
read_string-plain c [] h = ground (arith, h)
read_string-plain c (d ∷ t) h = ground (arith, h)

read_string-escaped :
    (c : ℕ) (t : Text) → read_string 39 (92 ∷ c ∷ t) ≡ add_char c (read_string 39 t)
unfolding read_string
read_string-escaped c t = refl

read_string-escape_literal :
    (v rest : Text) → read_string 39 (escape_literal v ++ 39 ∷ rest) ≡ some (v, rest)
unfolding escape_literal
read_string-escape_literal [] rest = read_string-closed rest
read_string-escape_literal (c ∷ v) rest = elim (Bool-cases (c == 92 || c == 39)) [
  | inl e ↦ rw e (
      read_string-escaped c (escape_literal v ++ 39 ∷ rest)
      ∙ ap (add_char c) (read_string-escape_literal v rest))
  | inr e ↦ rw e (
      read_string-plain c (escape_literal v ++ 39 ∷ rest) e
      ∙ ap (add_char c) (read_string-escape_literal v rest))
]

after_pair_quote : (t : Text) → after_pair 39 t ≡ none
unfolding after_pair includes pairs text_eq any
after_pair_quote [] = refl
after_pair_quote (d ∷ t) = refl

read_token-quote :
    (v rest : Text) → read_token 39 (escape_literal v ++ 39 ∷ rest) ≡ some (quoted v, rest)
unfolding read_token is_single any
read_token-quote v rest =
    rw (after_pair_quote (escape_literal v ++ 39 ∷ rest), read_token)
      (rw (read_string-escape_literal v rest) refl)

-- A text printed as a literal is read as a string of that text, whatever characters it holds, and
-- what follows is read as it is alone.
pub tokens_from-print_literal :
    (fuel : ℕ) (v rest : Text)
    → tokens_from (suc fuel) (print_literal (text v) ++ rest)
      ≡ then_tokens (quoted v) (tokens_from fuel rest)
unfolding tokens_from print_literal
tokens_from-print_literal fuel v rest =
    rw (append_assoc (escape_literal v) (39 ∷ []) rest)
      (rw (read_token-quote v rest, tokens_from) refl)
