-- ===== src/Uci/Verify/Sound.antt =====
-- What `verifyConfigs` of src/engine/uci.ts comes to where it finds no problem: what is declared is what
-- the device has.
use mathlib.Core.Bool.{false≢true}
use openwrt_configurator.Prelude.{
  Text, codes, text_eq, text_eq_iff, Option, none, some, List, [], ◌∷◌, ◌++◌, Bool, true, false,
  not, ◌&&◌, map, flat_map, select, is_empty, keys, lookup, find, has_key, or_else, unique, Object,
  All, All-map, All-append_right, ◌≡◌, refl, sym, ap, ◌∙◌, inl, inr, Bool-cases, arith,
}
use openwrt_configurator.Uci.{OptionValue, one, many, UciSection, UciConfigs, KeepEntry, is_kept}
use openwrt_configurator.Uci.Verify.{
  same_items, same_value, Problem, section_missing, option_unexpected, expected_problems,
  option_problems, then_problems, all_problems, paired_problems, section_problems, config_problems,
  verify_configs, is_owned, label, merged_problems, order, same_name,
}
use openwrt_configurator.Uci.Verify.Keys.{All-sorted, All-unique_from}

append-nil : {A : Type 0} (xs ys : List A) → xs ++ ys ≡ [] → (xs ≡ []) × (ys ≡ [])
append-nil [] ys e = (refl, e)
append-nil (x ∷ xs) ys e = ground (arith, ap is_empty e)

flat_map-nil :
    {A B : Type 0} (f : A → List B) (xs : List A) → flat_map f xs ≡ [] → All (λ x. f x ≡ []) xs
unfolding flat_map
flat_map-nil f [] e = tt
flat_map-nil f (x ∷ xs) e =
    let (a, b) = append-nil (f x) (flat_map f xs) e in (a, flat_map-nil f xs b)

map-select-nil :
    {A B : Type 0} (f : A → B) (p : A → Bool) (xs : List A)
    → map f (select p xs) ≡ []
    → All (λ x. p x ≡ false) xs
unfolding select
map-select-nil f p [] e = tt
map-select-nil f p (x ∷ xs) e = elim (Bool-cases (p x)) [
  | inl k ↦ ground (arith, ap is_empty (rw k at e))
  | inr k ↦ (k, map-select-nil f p xs (rw k at e))
]

then_problems-nil :
    (a b : Option (List Problem)) → then_problems a b ≡ some [] → (a ≡ some []) × (b ≡ some [])
then_problems-nil none b e = ground (arith, e)
then_problems-nil (some xs) none e = ground (arith, e)
then_problems-nil (some xs) (some ys) e =
    let (a, b) = append-nil xs ys (ap (λ o. or_else o []) e) in (ap some a, ap some b)

all_problems-nil :
    {A : Type 0} (f : A → Option (List Problem)) (xs : List A)
    → all_problems f xs ≡ some []
    → All (λ x. f x ≡ some []) xs
unfolding all_problems
all_problems-nil f [] e = tt
all_problems-nil f (x ∷ xs) e =
    let (a, b) = then_problems-nil (f x) (all_problems f xs) e in (a, all_problems-nil f xs b)

and-true : (a b : Bool) → a && b ≡ true → (a ≡ true) × (b ≡ true)
and-true true b h = (refl, h)
and-true false b h = elim (false≢true h) [ ]

same_items-eq : (xs ys : List Text) → same_items xs ys ≡ true → xs ≡ ys
unfolding same_items
same_items-eq [] [] h = refl
same_items-eq [] (y ∷ ys) h = elim (false≢true h) [ ]
same_items-eq (x ∷ xs) [] h = elim (false≢true h) [ ]
same_items-eq (x ∷ xs) (y ∷ ys) h =
    let t = and-true (text_eq x y) (same_items xs ys) h in
    ap (λ z. z ∷ xs) ((text_eq_iff x y).0 t.0) ∙ ap (λ zs. y ∷ zs) (same_items-eq xs ys t.1)

same_value-eq : (v w : OptionValue) → same_value v w ≡ true → v ≡ w
unfolding same_value
same_value-eq (one a) (one b) h = ap one ((text_eq_iff a b).0 h)
same_value-eq (many a) (many b) h = ap many (same_items-eq a b h)
same_value-eq (one a) (many b) h = elim (false≢true h) [ ]
same_value-eq (many a) (one b) h = elim (false≢true h) [ ]

-- The values read again are the declared ones, and no other option is there.
abbrev pub SameOptions : Object OptionValue → Object OptionValue → Type 0
SameOptions declared actual =
    All (λ o. lookup o.0 actual ≡ some o.1) declared
    × All (λ key. has_key key declared ≡ true) (keys actual)

expected-held :
    (place key : Text) (v : OptionValue) (o : Option OptionValue)
    → expected_problems place v o key ≡ []
    → o ≡ some v
unfolding expected_problems
expected-held place key v none e = ground (arith, ap is_empty e)
expected-held place key v (some w) e = elim (Bool-cases (same_value v w)) [
  | inl k ↦ ap some (sym (same_value-eq v w k))
  | inr k ↦ ground (arith, ap is_empty (rw k at e))
]

option_problems-SameOptions :
    (place : Text) (declared actual : Object OptionValue)
    → option_problems place declared actual true ≡ []
    → SameOptions declared actual
unfolding option_problems
option_problems-SameOptions place declared actual e =
    let (a, b) = append-nil _ _ e in
    (
      All-map (λ o. expected_problems place o.1 (lookup o.0 actual) o.0 ≡ [])
          (λ o. lookup o.0 actual ≡ some o.1)
          (λ o h. expected-held place o.0 o.1 (lookup o.0 actual) h) declared
          (flat_map-nil (λ o. expected_problems place o.1 (lookup o.0 actual) o.0) declared a),
      All-map (λ key. not (has_key key declared) ≡ false) (λ key. has_key key declared ≡ true)
          (λ key h. ground (arith, h)) (keys actual)
          (map-select-nil (option_unexpected place) (λ key. not (has_key key declared))
            (keys actual) b),
    )

-- Each declared section, in order, has the section at its place with the same options.
abbrev pub Paired : List UciSection → List UciSection → Type 0
Paired [] has = Unit
Paired (want ∷ wants) [] = ⊥
Paired (want ∷ wants) (h ∷ has) = SameOptions want.options h.options × Paired wants has

paired_problems-Paired :
    (key : Text) (wants has : List UciSection)
    → paired_problems key wants has ≡ some []
    → Paired wants has
unfolding paired_problems
paired_problems-Paired key [] has e = tt
paired_problems-Paired key (want ∷ wants) [] e = ground (arith, e)
paired_problems-Paired key (want ∷ wants) (h ∷ has) e =
    let place : Text = key ++ codes "." ++ label want in
    let (a, b) =
      then_problems-nil (some (option_problems place want.options h.options true))
        (paired_problems key wants has) e in
    (
      option_problems-SameOptions place want.options h.options (ap (λ o. or_else o []) a),
      paired_problems-Paired key wants has b,
    )

section_problems-Paired :
    (key : Text) (has wants : List UciSection)
    → section_problems key has wants ≡ some []
    → (order has ≡ order wants) × Paired wants has
unfolding section_problems
section_problems-Paired key has wants e = elim (Bool-cases (text_eq (order has) (order wants))) [
  | inl k ↦ (
    (text_eq_iff (order has) (order wants)).0 k,
    paired_problems-Paired key wants has (rw k at e),
  )
  | inr k ↦ ground (arith, ap (λ o. is_empty (or_else o [])) (rw k at e))
]

-- The device has a section of the name, with the declared options and maybe others.
abbrev pub Merged : List UciSection → UciSection → Type 0
Merged has want =
    (found : UciSection) × ((find (λ (s : UciSection). same_name s.name want.name) has ≡ some found)
      × All (λ o. lookup o.0 found.options ≡ some o.1) want.options)

found-held :
    (place : Text) (missing : Problem) (want : UciSection) (o : Option UciSection)
    → (elim o as (λ x. List Problem) [
      | none ↦ missing ∷ []
      | some found ↦ option_problems place want.options found.options false
    ])
      ≡ []
    → (found : UciSection) × ((o ≡ some found)
        × All (λ p. lookup p.0 found.options ≡ some p.1) want.options)
unfolding option_problems
found-held place missing want none e = ground (arith, ap is_empty e)
found-held place missing want (some found) e = (
  found,
  (
    refl,
    All-map (λ p. expected_problems place p.1 (lookup p.0 found.options) p.0 ≡ [])
        (λ p. lookup p.0 found.options ≡ some p.1)
        (λ p h. expected-held place p.0 p.1 (lookup p.0 found.options) h) want.options
        (flat_map-nil (λ p. expected_problems place p.1 (lookup p.0 found.options) p.0) want.options
          (append-nil _ [] e).0),
  ),
)

merged_problems-Merged :
    (key : Text) (has : List UciSection) (want : UciSection)
    → merged_problems key has want ≡ []
    → Merged has want
unfolding merged_problems
merged_problems-Merged key has want e =
    found-held (key ++ codes "." ++ label want) (section_missing key (label want)) want
      (find (λ (s : UciSection). same_name s.name want.name) has) e

-- A declared config that has a section is on the device: the declared sections of the types that are
-- not kept, in their order, each with its options and no other, and those of the kept types each with
-- its options at least.
abbrev pub OnDevice : List KeepEntry → Text → Option (List UciSection) → List UciSection → Type 0
OnDevice keep key actual [] = Unit
OnDevice keep key none (want ∷ wants) = ⊥
OnDevice keep key (some has) (want ∷ wants) =
    (order (select (is_owned keep key) has) ≡ order (select (is_owned keep key) (want ∷ wants)))
    × Paired (select (is_owned keep key) (want ∷ wants)) (select (is_owned keep key) has)
    × All (Merged has) (select (λ s. is_kept keep key (some s.type)) (want ∷ wants))

config_problems-OnDevice :
    (keep : List KeepEntry) (key : Text) (actual : Option (List UciSection))
    (wants : List UciSection)
    → config_problems keep key actual wants ≡ some []
    → OnDevice keep key actual wants
unfolding config_problems
config_problems-OnDevice keep key actual [] e = tt
config_problems-OnDevice keep key none (want ∷ wants) e =
    ground (arith, ap (λ o. is_empty (or_else o [])) e)
config_problems-OnDevice keep key (some has) (want ∷ wants) e =
    let owned = select (is_owned keep key) (want ∷ wants) in
    let kept = select (λ (s : UciSection). is_kept keep key (some s.type)) (want ∷ wants) in
    let (a, b) =
      then_problems-nil (section_problems key (select (is_owned keep key) has) owned)
        (some (flat_map (merged_problems key has) kept)) e in
    let (c, d) = section_problems-Paired key (select (is_owned keep key) has) owned a in
    (
      c,
      d,
      All-map (λ want. merged_problems key has want ≡ []) (Merged has)
          (merged_problems-Merged key has) kept
          (flat_map-nil (merged_problems key has) kept (ap (λ o. or_else o []) b)),
    )

pub verify_configs-OnDevice :
    (actual declared : UciConfigs) (keep : List KeepEntry)
    → verify_configs actual declared keep ≡ some []
    → All
        (λ key. OnDevice keep key (lookup key actual) (or_else (lookup key declared) []))
        (keys declared)
unfolding verify_configs unique
verify_configs-OnDevice actual declared keep e =
    let wanted = λ (key : Text). or_else (lookup key declared) [] in
    let P = λ (key : Text). config_problems keep key (lookup key actual) (wanted key) ≡ some [] in
    All-map P (λ key. OnDevice keep key (lookup key actual) (wanted key))
      (λ key h. config_problems-OnDevice keep key (lookup key actual) (wanted key) h)
      (keys declared)
      (All-append_right P (keys actual) (keys declared) (
        All-unique_from P [] (keys actual ++ keys declared) tt
          (All-sorted P _ (all_problems-nil _ _ e))))
