-- ===== src/Engine/Operations.antt =====
-- src/engine/getUciCommands.ts: the uci operations that declare a config, and the name patterns of
-- src/plan/rules.ts that they check.
use openwrt_configurator.Prelude.{
  Text, ℕ, codes, Option, none, some, List, [], ◌∷◌, ◌++◌, map, Bool, not, ◌&&◌, ◌||◌, leb, ◌==◌,
  if◌then◌else◌, is_empty, all, flat_map,
}
use openwrt_configurator.Uci.Print.{shell_quote}
use openwrt_configurator.Engine.{Value, single, several, OpenWrtSection, OpenWrtConfig}
use openwrt_configurator.Engine.Declared.{uci_string}

unfoldable pub is_word_char : ℕ → Bool
is_word_char c =
    (leb b'a' c && leb c b'z')
    || (leb b'A' c && leb c b'Z')
    || (leb b'0' c && leb c b'9')
    || c == b'_'

-- `/^[A-Za-z0-9_]+$/`: sections and options.
unfoldable pub is_plain_name : Text → Bool
unfolding all is_word_char
is_plain_name name = not (is_empty name) && all is_word_char name

-- `/^[A-Za-z0-9_-]+$/`: packages and section types.
unfoldable pub is_package_name : Text → Bool
unfolding all is_word_char
is_package_name name = not (is_empty name) && all (λ c. is_word_char c || c == b'-') name

pub data UciOperation : Type 0 where
  section : (key type : Text) → UciOperation
  set add_list : (key value : Text) → UciOperation

-- An operation as `uci batch` reads it.
unfoldable pub uci_line : UciOperation → Text
unfolding shell_quote
uci_line (section key type) = codes "set " ++ key ++ 61 ∷ type
uci_line (set key value) = codes "set " ++ key ++ 61 ∷ shell_quote value
uci_line (add_list key value) = codes "add_list " ++ key ++ 61 ∷ shell_quote value

unfoldable pub option_operations : Text → Text → Value → List UciOperation
unfolding uci_string
option_operations identifier option (single v) = set (identifier ++ 46 ∷ option) (uci_string v) ∷ []
option_operations identifier option (several vs) =
    set (identifier ++ 46 ∷ option) []
    ∷ map (λ v. add_list (identifier ++ 46 ∷ option) (uci_string v)) vs

-- `none` where `checkName` throws.
unfoldable pub section_operations : Text → Text → OpenWrtSection → Option (List UciOperation)
unfolding is_package_name is_plain_name option_operations flat_map all
section_operations key type s =
    if is_package_name key
      && is_package_name type
      && is_plain_name s.name
      && all (λ o. is_plain_name o.0) s.options
    then some (
        section (key ++ 46 ∷ s.name) type
        ∷ flat_map (λ o. option_operations (key ++ 46 ∷ s.name) o.0 o.1) s.options)
    else none

-- Lists of results that may throw, joined: the first throw stops.
unfoldable pub flat_map_option {ℓ κ} :
    {A : Type ℓ} {B : Type κ} → (A → Option (List B)) → List A → Option (List B)
flat_map_option f [] = some []
flat_map_option f (x ∷ xs) = elim (f x) [
  | none ↦ none
  | some ys ↦ elim (flat_map_option f xs) [ none ↦ none | some zs ↦ some (ys ++ zs) ]
]

-- `uciOperations`, with nothing redacted.
unfoldable pub uci_operations : OpenWrtConfig → Option (List UciOperation)
unfolding section_operations flat_map_option
uci_operations config =
    flat_map_option
      (λ c. flat_map_option (λ t. flat_map_option (section_operations c.0 t.0) t.1) c.1) config
