-- ===== src/Condition/Parse.antt =====
-- The parser of src/condition.ts, over the tokens of Condition/Tokens, into the tree of Condition.
-- It runs on fuel: a unit for each call, of which a token takes six at most.
pub mod Chain
pub mod Enough
pub mod Progress
pub mod Shorter
pub mod Tests
use openwrt_configurator.Prelude.{
  Text, ℕ, zero, suc, ◌*◌, ◌+◌, codes, text_eq, Option, none, some, List, [], ◌∷◌, map, Bool, true,
  false, not, ◌&&◌, ◌||◌, leb, length, includes, if◌then◌else◌,
}
use openwrt_configurator.Condition.{
  Literal, text, flag, Order, less, at_most, more, at_least, When, always, is, one_of, order, all,
  any_of, not_of, Whens, nil, cons, append, is_fact, Kind, every, some_of,
}
use openwrt_configurator.Condition.Tokens.{Token, punct, quoted, numeric, word, end, tokenize}

-- ASCII letters in upper case; no other character of a word has one.
abbrev pub upper : ℕ → ℕ
upper c = if leb 97 c && leb c 122 then Prim.Native.Nat.◌-◌ c 32 else c

unfoldable pub is_keyword : Text → Token → Bool
unfolding text_eq
is_keyword k (word t) = text_eq (map upper t) k
is_keyword k t = false

unfoldable pub is_punct : Text → Token → Bool
unfolding text_eq
is_punct p (punct t) = text_eq t p
is_punct p t = false

-- What is read, with the tokens that are left; an error; or that the calls allowed did not suffice.
pub data Parsed (A : Type 0) : Type 0 where
  parsed : A × List Token → Parsed A
  refused spent : Parsed A

infixl 5 ◌>>=◌
abbrev pub ◌>>=◌ : {A B : Type 0} → Parsed A → (A × List Token → Parsed B) → Parsed B
parsed p >>= f = f p
refused >>= f = refused
spent >>= f = spent

-- `expect(text)`.
unfoldable pub expect : Text → List Token → Parsed Unit
unfolding is_punct
expect p [] = refused
expect p (t ∷ ts) = if is_punct p t then parsed (tt, ts) else refused

unfoldable pub parse_value : List Token → Parsed Literal
unfolding is_keyword
parse_value (quoted v ∷ ts) = parsed (text v, ts)
parse_value (numeric v ∷ ts) = parsed (text v, ts)
parse_value (word w ∷ ts) =
    if is_keyword (codes "TRUE") (word w)
    then parsed (flag true, ts)
    else (if is_keyword (codes "FALSE") (word w) then parsed (flag false, ts) else refused)
parse_value _ = refused

-- A release, of an ordering.
abbrev pub parse_release : List Token → Parsed Text
parse_release (quoted v ∷ ts) = parsed (v, ts)
parse_release (numeric v ∷ ts) = parsed (v, ts)
parse_release _ = refused

-- The values after the first, up to no comma; a list of tokens is fuel enough.
unfoldable pub parse_values : ℕ → List Token → Parsed (List Literal)
unfolding is_punct parse_value
parse_values zero ts = spent
parse_values (suc fuel) [] = refused
parse_values (suc fuel) (t ∷ ts) = elim (is_punct (codes ",") t) [
  | false ↦ parsed ([], t ∷ ts)
  | true ↦ do
    (v, after) ← parse_value ts
    (vs, last) ← parse_values fuel after
    parsed (v ∷ vs, last)
]

abbrev pub order_of : Token → Option Order
order_of t =
    if is_punct (codes "<") t
    then some less
    else (if is_punct (codes "<=") t
        then some at_most
        else (if is_punct (codes ">") t
            then some more
            else (if is_punct (codes ">=") t then some at_least else none)))

abbrev pub parse_is : Text → Bool → List Token → Parsed When
parse_is fact negated ts = do (v, after) ← parse_value ts; parsed (is fact v negated, after)

abbrev pub parse_in : Text → List Token → Parsed When
parse_in fact ts = do
  (open_bracket, first) ← expect (codes "[") ts
  (v, after) ← parse_value first
  (vs, later) ← parse_values (suc (length after)) after
  (close_bracket, last) ← expect (codes "]") later
  parsed (one_of fact (v ∷ vs), last)

abbrev pub parse_order : Text → Order → List Token → Parsed When
parse_order fact op ts = do
  (release, after) ← parse_release ts
  parsed (order fact op release, after)

-- What follows a name.
unfoldable pub parse_test : Text → List Token → Parsed When
unfolding expect parse_value parse_values is_punct is_keyword
parse_test fact [] = refused
parse_test fact (op ∷ ts) =
    if is_punct (codes "==") op
    then parse_is fact false ts
    else (if is_punct (codes "!=") op then parse_is fact true ts else (elim (order_of op) [
      | some o ↦ parse_order fact o ts
      | none ↦ if is_keyword (codes "IN") op then parse_in fact ts else refused
    ]))

unfoldable pub reserved : List Text
reserved = codes "AND" ∷ codes "OR" ∷ codes "NOT" ∷ codes "IN" ∷ []

unfoldable pub parse_name : Token → List Token → Parsed When
unfolding includes reserved is_fact parse_test
parse_name (word fact) ts =
    if not (includes reserved (map upper fact)) && is_fact fact then parse_test fact ts else refused
parse_name t ts = refused

-- The parts of a node within a chain of a kind, itself where it is of none.
abbrev pub own_parts : Kind → When → Whens
own_parts every (all ns) = ns
own_parts some_of (any_of ns) = ns
own_parts k n = cons n nil

-- `join(kind, left, right)`.
unfoldable pub chain : Kind → When → When → When
unfolding append
chain every l r = all (append (own_parts every l) (own_parts every r))
chain some_of l r = any_of (append (own_parts some_of l) (own_parts some_of r))

abbrev pub joins : Kind → Token → Bool
joins every t = is_keyword (codes "AND") t || is_punct (codes "&&") t
joins some_of t = is_keyword (codes "OR") t || is_punct (codes "||") t

unfoldable mutual
  unfolding parse_name expect is_punct is_keyword chain

  pub parse_primary : ℕ → List Token → Parsed When
  parse_primary zero ts = spent
  parse_primary (suc fuel) [] = refused
  parse_primary (suc fuel) (t ∷ ts) = elim (is_punct (codes "(") t) [
    | true ↦ do
      (inner, after) ← parse_chain fuel some_of ts
      (close_bracket, last) ← expect (codes ")") after
      parsed (inner, last)
    | false ↦ if is_punct (codes "*") t then parsed (always, ts) else parse_name t ts
  ]

  pub parse_not : ℕ → List Token → Parsed When
  parse_not zero ts = spent
  parse_not (suc fuel) [] = refused
  parse_not (suc fuel) (t ∷ ts) = elim (is_keyword (codes "NOT") t || is_punct (codes "!") t) [
    | true ↦ do (inner, after) ← parse_not fuel ts; parsed (not_of inner, after)
    | false ↦ parse_primary fuel (t ∷ ts)
  ]

  -- `and`, and `or` of several `and`s.
  pub parse_chain : ℕ → Kind → List Token → Parsed When
  parse_chain zero k ts = refused
  parse_chain (suc fuel) k ts = do
    (left, after) ← parse_part fuel k ts
    parse_rest fuel k left after

  pub parse_part : ℕ → Kind → List Token → Parsed When
  parse_part zero k ts = refused
  parse_part (suc fuel) every ts = parse_not fuel ts
  parse_part (suc fuel) some_of ts = parse_chain fuel every ts

  -- The loop of `binary`.
  pub parse_rest : ℕ → Kind → When → List Token → Parsed When
  parse_rest zero k left ts = refused
  parse_rest (suc fuel) k left [] = refused
  parse_rest (suc fuel) k left (t ∷ ts) = elim (joins k t) [
    | false ↦ parsed (left, t ∷ ts)
    | true ↦ do (right, after) ← parse_part fuel k ts; parse_rest fuel k (chain k left right) after
  ]

-- Nothing but the end is left.
abbrev pub whole : Parsed When → Option When
whole (parsed (n, end ∷ [])) = some n
whole _ = none

unfoldable pub parse_tokens : List Token → Option When
unfolding parse_chain
parse_tokens ts = whole (parse_chain (6 * length ts + 6) some_of ts)

unfoldable pub parse_condition : Text → Option When
unfolding tokenize parse_tokens
parse_condition condition = elim (tokenize condition) [ none ↦ none | some ts ↦ parse_tokens ts ]
