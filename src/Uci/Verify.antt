-- ===== src/Uci/Verify.antt =====
-- `sameValue`, `optionProblems` and `verifyConfigs` of src/engine/uci.ts.
mod Keys
pub mod Sound
use openwrt_configurator.Prelude.{
  Text, codes, text_eq, Option, none, some, List, [], ◌∷◌, ◌++◌, Bool, true, false, not, ◌&&◌, map,
  if◌then◌else◌, flat_map, select, find, is_empty, keys, lookup, has_key, or_else, unique, sorted,
  join,
}
use openwrt_configurator.Uci.{OptionValue, one, many, UciSection, UciConfigs, KeepEntry, is_kept}

unfoldable pub same_items : List Text → List Text → Bool
unfolding text_eq
same_items [] [] = true
same_items (a ∷ as') (b ∷ bs) = text_eq a b && same_items as' bs
same_items _ _ = false

-- Whether two option values are the same: a list item by item, in order.
unfoldable pub same_value : OptionValue → OptionValue → Bool
unfolding same_items
same_value (one a) (one b) = text_eq a b
same_value (many as') (many bs) = same_items as' bs
same_value _ _ = false

-- What is wrong with a section: the messages as data, each naming what it names.
pub data Problem : Type 0 where
  no_config : Text → Problem
  section_order : Text → Text → Text → Problem
  section_missing : Text → Text → Problem
  option_missing option_differs option_unexpected : Text → Text → Problem

unfoldable pub expected_problems : Text → OptionValue → Option OptionValue → Text → List Problem
unfolding same_value
expected_problems where' v none key = option_missing where' key ∷ []
expected_problems where' v (some w) key =
    if same_value v w then [] else option_differs where' key ∷ []

unfoldable pub option_problems :
    Text → List (Text × OptionValue) → List (Text × OptionValue) → Bool → List Problem
unfolding expected_problems flat_map lookup select keys has_key
option_problems where' expected actual exact =
    flat_map (λ o. expected_problems where' o.1 (lookup o.0 actual) o.0) expected
    ++ (if exact
        then map (option_unexpected where')
            (select (λ key. not (has_key key expected)) (keys actual))
        else [])

unfoldable pub label : UciSection → Text
label s = or_else s.name (codes "(anonymous " ++ s.type ++ codes ")")

unfoldable pub order : List UciSection → Text
unfolding join label
order sections = join (codes ", ") (map (λ s. label s ++ codes "=" ++ s.type) sections)

-- One list of problems after another; `none` is an error thrown on the way.
abbrev pub then_problems : Option (List Problem) → Option (List Problem) → Option (List Problem)
then_problems none others = none
then_problems (some here) none = none
then_problems (some here) (some others) = some (here ++ others)

unfoldable pub all_problems :
    {A : Type 0} → (A → Option (List Problem)) → List A → Option (List Problem)
all_problems f [] = some []
all_problems f (x ∷ xs) = then_problems (f x) (all_problems f xs)

-- The declared sections' options, each against the section at its place on the device; where there is
-- none, reading its options throws.
unfoldable pub paired_problems : Text → List UciSection → List UciSection → Option (List Problem)
unfolding option_problems label
paired_problems key [] has = some []
paired_problems key (want ∷ wants) [] = none
paired_problems key (want ∷ wants) (h ∷ has) =
    then_problems
      (some (option_problems (key ++ codes "." ++ label want) want.options h.options true))
      (paired_problems key wants has)

unfoldable pub is_owned : List KeepEntry → Text → UciSection → Bool
unfolding is_kept
is_owned keep key s = not (is_kept keep key (some s.type))

unfoldable pub section_problems : Text → List UciSection → List UciSection → Option (List Problem)
unfolding order text_eq paired_problems
section_problems key has_owned wants_owned =
    if text_eq (order has_owned) (order wants_owned)
    then paired_problems key wants_owned has_owned
    else some (section_order key (order wants_owned) (order has_owned) ∷ [])

-- `s.name === want.name`.
unfoldable pub same_name : Option Text → Option Text → Bool
unfolding text_eq
same_name none none = true
same_name (some a) (some b) = text_eq a b
same_name _ _ = false

unfoldable pub merged_problems : Text → List UciSection → UciSection → List Problem
unfolding option_problems label same_name find
merged_problems key has want = elim (find (λ (s : UciSection). same_name s.name want.name) has) [
  | none ↦ section_missing key (label want) ∷ []
  | some found ↦ option_problems (key ++ codes "." ++ label want) want.options found.options false
]

unfoldable pub config_problems :
    List KeepEntry → Text → Option (List UciSection) → List UciSection → Option (List Problem)
unfolding section_problems merged_problems is_owned select flat_map
config_problems keep key none wants = some (if is_empty wants then [] else no_config key ∷ [])
config_problems keep key (some has) wants =
    then_problems
      (section_problems key (select (is_owned keep key) has) (select (is_owned keep key) wants))
      (some
        (flat_map (merged_problems key has) (select (λ s. is_kept keep key (some s.type)) wants)))

-- `none` where it throws.
unfoldable pub verify_configs : UciConfigs → UciConfigs → List KeepEntry → Option (List Problem)
unfolding config_problems all_problems sorted unique keys lookup
verify_configs actual declared keep =
    all_problems
      (λ key. config_problems keep key (lookup key actual) (or_else (lookup key declared) []))
      (sorted (unique (keys actual ++ keys declared)))
