-- ===== src/Condition/Print.antt =====
-- `printWhen` of src/plan/when.ts.
use openwrt_configurator.Prelude.{
  Text, codes, [], ◌∷◌, ◌++◌, map, Bool, true, false, ◌==◌, ◌||◌, if◌then◌else◌, join,
}
use openwrt_configurator.Condition.{
  Literal, text, flag, Order, less, at_most, more, at_least, When, always, is, one_of, order, all,
  any_of, not_of, Whens, nil, cons,
}

-- `value.replace(/[\\']/g, "\\$&")`.
unfoldable pub escape_literal : Text → Text
escape_literal [] = []
escape_literal (c ∷ v) =
    let rest = escape_literal v in if c == 92 || c == 39 then 92 ∷ c ∷ rest else c ∷ rest

unfoldable pub print_literal : Literal → Text
unfolding escape_literal
print_literal (text t) = 39 ∷ escape_literal t ++ 39 ∷ []
print_literal (flag true) = codes "true"
print_literal (flag false) = codes "false"

abbrev pub print_order : Order → Text
print_order less = codes "<"
print_order at_most = codes "<="
print_order more = codes ">"
print_order at_least = codes ">="

abbrev pub bracketed : Text → Text
bracketed t = codes "(" ++ t ++ codes ")"

abbrev pub print_is : Bool → Text
print_is negated = if negated then codes " != " else codes " == "

-- What stands between two parts.
abbrev pub spaced : Text → Whens → Text → Text
spaced sep nil later = []
spaced sep (cons n ns) later = sep ++ later

-- `inner(child, "not")` and `inner(child, "all")` of a child's text; `inner(child, "any")` is the text.
abbrev pub in_not : When → Text → Text
in_not (all ns) t = bracketed t
in_not (any_of ns) t = bracketed t
in_not n t = t

abbrev pub in_all : When → Text → Text
in_all (any_of ns) t = bracketed t
in_all n t = t

unfoldable mutual
  unfolding print_literal join

  pub print_when : When → Text
  print_when always = codes "*"
  print_when (is fact value negated) = fact ++ print_is negated ++ print_literal value
  print_when (one_of fact values) =
      fact ++ codes " in [" ++ join (codes ", ") (map print_literal values) ++ codes "]"
  print_when (order fact op release) =
      fact ++ 32 ∷ print_order op ++ codes " '" ++ release ++ codes "'"
  print_when (all ns) = print_all ns
  print_when (any_of ns) = print_any ns
  print_when (not_of n) = codes "NOT " ++ in_not n (print_when n)

  pub print_all : Whens → Text
  print_all nil = []
  print_all (cons n ns) = in_all n (print_when n) ++ spaced (codes " AND ") ns (print_all ns)

  pub print_any : Whens → Text
  print_any nil = []
  print_any (cons n ns) = print_when n ++ spaced (codes " OR ") ns (print_any ns)
