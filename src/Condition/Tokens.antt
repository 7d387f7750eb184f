-- ===== src/Condition/Tokens.antt =====
-- The tokenizer of src/condition.ts. A token's column, for the messages, is left out; `none` is an
-- error. A number is kept as it is written, as the values compare by text.
pub mod Enough
pub mod Quoted
use openwrt_configurator.Prelude.{
  Text, ℕ, zero, suc, codes, text_eq, Option, none, some, List, [], ◌∷◌, ◌++◌, Bool, true, false,
  ◌&&◌, ◌||◌, leb, ◌==◌, length, any, includes, is_empty, if◌then◌else◌,
}
use openwrt_configurator.Release.{is_digit, span_digits}
use openwrt_configurator.Agent.Encode.{is_white}

pub data Token : Type 0 where
  punct : Text → Token
  quoted : Text → Token
  numeric : Text → Token
  word : Text → Token
  end : Token

unfoldable pub pairs : List Text
pairs = codes "==" ∷ codes "!=" ∷ codes "&&" ∷ codes "||" ∷ codes "<=" ∷ codes ">=" ∷ []

-- `source.slice(i, i + 2)` is one of the pairs: what follows it.
unfoldable pub after_pair : ℕ → Text → Option (Text × Text)
unfolding includes pairs
after_pair c [] = none
after_pair c (d ∷ t) = if includes pairs (c ∷ d ∷ []) then some (c ∷ d ∷ [], t) else none

unfoldable pub is_single : ℕ → Bool
unfolding any
is_single c = any (λ d. d == c) (codes "()[],!*<>")

abbrev pub add_char : ℕ → Option (Text × Text) → Option (Text × Text)
add_char c none = none
add_char c (some (value, rest)) = some (c ∷ value, rest)

-- A string up to its closing quote: its value, and what follows. A backslash stands for what it
-- precedes; a string that is not closed is an error.
unfoldable pub read_string : ℕ → Text → Option (Text × Text)
read_string quote [] = none
read_string quote (c ∷ []) = if c == quote then some ([], []) else none
read_string quote (c ∷ d ∷ t) =
    let escaped = read_string quote t in
    let next = read_string quote (d ∷ t) in
    if c == quote
    then some ([], d ∷ t)
    else (if c == 92 then add_char d escaped else add_char c next)

-- `(\.\d+)?`.
unfoldable pub read_fraction : Text → Text × Text
unfolding span_digits
read_fraction [] = ([], [])
read_fraction (c ∷ t) =
    let digits = span_digits t in
    if c == 46 && (elim digits.0 [ [] ↦ false | d ∷ ds ↦ true ])
    then (c ∷ digits.0, digits.1)
    else ([], c ∷ t)

-- `\d+(\.\d+)?`.
unfoldable pub read_digits : Text → Option (Text × Text)
unfolding span_digits read_fraction
read_digits t =
    let digits = span_digits t in
    let fraction = read_fraction digits.1 in
    if is_empty digits.0 then none else some (digits.0 ++ fraction.0, fraction.1)

unfoldable pub read_number : ℕ → Text → Option (Text × Text)
unfolding read_digits
read_number c t = if c == 45 then add_char c (read_digits t) else read_digits (c ∷ t)

abbrev pub is_letter : ℕ → Bool
is_letter c = (leb 65 c && leb c 90) || (leb 97 c && leb c 122) || c == 95

-- `[\w.-]`.
abbrev pub is_word_part : ℕ → Bool
is_word_part c = is_letter c || is_digit c || c == 46 || c == 45

unfoldable pub span_word : Text → Text × Text
span_word [] = ([], [])
span_word (c ∷ t) =
    let rest = span_word t in if is_word_part c then (c ∷ rest.0, rest.1) else ([], c ∷ t)

-- A token that starts with a character, and what follows it.
unfoldable pub read_token : ℕ → Text → Option (Token × Text)
unfolding after_pair is_single read_string read_number span_word
read_token c t = elim (after_pair c t) [
  | some (p, rest) ↦ some (punct p, rest)
  | none ↦
      if is_single c
      then some (punct (c ∷ []), t)
      else (if c == 39 || c == 34
          then elim (read_string c t) [ none ↦ none | some (v, rest) ↦ some (quoted v, rest) ]
          else (elim (read_number c t) [
            | some (n, rest) ↦ some (numeric n, rest)
            | none ↦
                if is_letter c then some (word (c ∷ (span_word t).0), (span_word t).1) else none
          ]))
]

abbrev pub then_tokens : Token → Option (Option (List Token)) → Option (Option (List Token))
then_tokens k none = none
then_tokens k (some none) = some none
then_tokens k (some (some ks)) = some (some (k ∷ ks))

-- The loop, for a number of rounds: `none` where they did not suffice, `some none` an error.
unfoldable pub tokens_from : ℕ → Text → Option (Option (List Token))
unfolding read_token
tokens_from zero t = none
tokens_from (suc fuel) [] = some (some (end ∷ []))
tokens_from (suc fuel) (c ∷ t) = elim (is_white c) [
  | true ↦ tokens_from fuel t
  | false ↦ elim (read_token c t) [
    | none ↦ some none
    | some (k, rest) ↦ then_tokens k (tokens_from fuel rest)
  ]
]

unfoldable pub tokenize : Text → Option (List Token)
unfolding tokens_from
tokenize source = elim (tokens_from (suc (length source)) source) [ none ↦ none | some r ↦ r ]
