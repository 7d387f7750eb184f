-- ===== src/Condition.antt =====
-- src/plan/when.ts: when a declaration applies, as a typed tree over what is known of a device. The
-- order of releases, src/release.ts, is an argument: `none` for a text that is not a release. The
-- printing is in Condition/Print, and what `joined` means in Condition/Joined.
pub mod Print
pub mod Joined
pub mod Tokens
pub mod Parse
pub mod Tests
use openwrt_configurator.Prelude.{
  Text, codes, text_eq, Option, none, some, List, [], ◌∷◌, ◌++◌, Bool, true, false, not, ◌&&◌, ◌||◌,
  any, includes, length, ltb, is_some, ℕ,
}
use openwrt_configurator.Agent.Verbs.{after_prefix}

pub data Literal : Type 0 where
  text : Text → Literal
  flag : Bool → Literal

pub data Order : Type 0 where
  less at_most more at_least : Order

mutual
  pub data When : Type 0 where
    always : When
    is : (fact : Text) → Literal → (negated : Bool) → When
    one_of : (fact : Text) → List Literal → When
    order : (fact : Text) → Order → (release : Text) → When
    all any_of : Whens → When
    not_of : When → When

  pub data Whens : Type 0 where
    nil : Whens
    cons : When → Whens → Whens

abbrev pub tag_prefix : Text
tag_prefix = codes "device.tag."

unfoldable pub built_in_facts : List Text
built_in_facts =
    codes "device.sw_config"
    ∷ codes "device.hostname"
    ∷ codes "device.ipaddr"
    ∷ codes "device.model_id"
    ∷ codes "device.version"
    ∷ codes "device.target"
    ∷ codes "device.wifi_2g"
    ∷ codes "device.wifi_5g"
    ∷ codes "device.wifi_6g"
    ∷ codes "device.mesh_2g"
    ∷ codes "device.mesh_5g"
    ∷ codes "device.mesh_6g"
    ∷ []

unfoldable pub is_fact : Text → Bool
unfolding after_prefix includes built_in_facts
is_fact name =
    is_some (after_prefix tag_prefix name) && ltb (length tag_prefix) (length name)
    || includes built_in_facts name

abbrev pub is_always : When → Bool
is_always always = true
is_always _ = false

unfoldable pub has_always : Whens → Bool
has_always nil = false
has_always (cons n ns) = is_always n || has_always ns

unfoldable pub append : Whens → Whens → Whens
append nil ms = ms
append (cons n ns) ms = cons n (append ns ms)

pub data Kind : Type 0 where
  every some_of : Kind

-- The parts of a node within a chain of a kind.
unfoldable pub parts : Kind → When → Whens
parts k always = nil
parts every (all ns) = ns
parts some_of (any_of ns) = ns
parts k n = cons n nil

-- `of.filter((n) => n.kind !== "always").flatMap(…)`.
unfoldable pub flat : Kind → Whens → Whens
unfolding append parts
flat k nil = nil
flat k (cons n ns) = append (parts k n) (flat k ns)

abbrev pub of_kind : Kind → Whens → When
of_kind every nil = always
of_kind some_of nil = not_of always
of_kind k (cons n nil) = n
of_kind every (cons n (cons m ms)) = all (cons n (cons m ms))
of_kind some_of (cons n (cons m ms)) = any_of (cons n (cons m ms))

unfoldable pub joined : Kind → Whens → When
unfolding has_always flat
joined every ns = of_kind every (flat every ns)
joined some_of ns = elim (has_always ns) [
  | true ↦ always
  | false ↦ of_kind some_of (flat some_of ns)
]

unfoldable mutual
  -- Every fact a condition mentions.
  pub facts_in : When → List Text
  facts_in always = []
  facts_in (is fact value negated) = fact ∷ []
  facts_in (one_of fact values) = fact ∷ []
  facts_in (order fact op release) = fact ∷ []
  facts_in (all ns) = facts_of ns
  facts_in (any_of ns) = facts_of ns
  facts_in (not_of n) = facts_in n

  pub facts_of : Whens → List Text
  facts_of nil = []
  facts_of (cons n ns) = facts_in n ++ facts_of ns

-- What a fact is on a device: a string, a boolean or a number by its text, or several of these.
pub data FactValue : Type 0 where
  word other : Text → FactValue
  several : List Text → FactValue

-- `none` is a name that cannot exist, which throws; `some none` an absent value.
abbrev pub Lookup : Type 0
Lookup = Text → Option (Option FactValue)

-- `String(value)`.
abbrev pub literal_text : Literal → Text
literal_text (text t) = t
literal_text (flag true) = codes "true"
literal_text (flag false) = codes "false"

unfoldable pub matches : Option FactValue → List Literal → Bool
unfolding any text_eq
matches none wanted = false
matches (some (word t)) wanted = any (λ w. text_eq t (literal_text w)) wanted
matches (some (other t)) wanted = any (λ w. text_eq t (literal_text w)) wanted
matches (some (several ts)) wanted = any (λ w. any (λ t. text_eq t (literal_text w)) ts) wanted

-- How one release stands to another.
pub data Comparison : Type 0 where
  before same after : Comparison

abbrev pub stands : Order → Comparison → Bool
stands less before = true
stands at_most before = true
stands at_most same = true
stands more after = true
stands at_least after = true
stands at_least same = true
stands _ _ = false

abbrev pub Releases : Type 0
Releases = Text → Text → Option Comparison

abbrev pub compared : Releases → Order → Text → Option FactValue → Bool
compared releases op release (some (word t)) = elim (releases t release) [
  | none ↦ false
  | some c ↦ stands op c
]
compared releases op release _ = false

abbrev pub negate_if : Bool → Bool → Bool
negate_if negated b = elim negated [ true ↦ not b | false ↦ b ]

abbrev pub then_all : Option Bool → Option Bool → Option Bool
then_all none later = none
then_all (some false) later = some false
then_all (some true) later = later

abbrev pub then_any : Option Bool → Option Bool → Option Bool
then_any none later = none
then_any (some true) later = some true
then_any (some false) later = later

abbrev pub found : {A : Type 0} → (Option FactValue → A) → Option (Option FactValue) → Option A
found f none = none
found f (some v) = some (f v)

module _ (releases : Releases) (lookup : Lookup) where
  unfoldable mutual
    unfolding matches

    -- `none` where a lookup throws before the answer is known.
    pub evaluate : When → Option Bool
    evaluate always = some true
    evaluate (all ns) = all_hold ns
    evaluate (any_of ns) = any_holds ns
    evaluate (not_of n) = elim (evaluate n) [ none ↦ none | some b ↦ some (not b) ]
    evaluate (order fact op release) = found (compared releases op release) (lookup fact)
    evaluate (is fact value negated) =
        found (λ v. negate_if negated (matches v (value ∷ []))) (lookup fact)
    evaluate (one_of fact values) = found (λ v. matches v values) (lookup fact)

    pub all_hold : Whens → Option Bool
    all_hold nil = some true
    all_hold (cons n ns) = then_all (evaluate n) (all_hold ns)

    pub any_holds : Whens → Option Bool
    any_holds nil = some false
    any_holds (cons n ns) = then_any (evaluate n) (any_holds ns)

  abbrev known : Text → Bool
  known fact = is_some (lookup fact)

  unfoldable pub evaluate_checked : When → Option Bool
  unfolding any facts_in evaluate
  evaluate_checked n = elim (any (λ fact. not (known fact)) (facts_in n)) [
    | true ↦ none
    | false ↦ evaluate n
  ]
