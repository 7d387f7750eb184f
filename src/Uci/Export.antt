-- ===== src/Uci/Export.antt =====
-- `parseUciExport` of src/engine/uci.ts.
use openwrt_configurator.Prelude.{
  Text, codes, text_eq, Option, none, some, List, [], ◌∷◌, ◌++◌, Bool, true, false, ◌&&◌,
  if◌then◌else◌, or_else, lookup, put,
}
use openwrt_configurator.Uci.{OptionValue, one, many, UciSection, UciConfigs}
use openwrt_configurator.Uci.Lexer.{lines}

-- The parse's variables: `sections` is the list of the config at `current`, and `section`, when
-- `in_section`, its last one.
pub record Export : Type 0 where
  pub configs : UciConfigs
  pub unreadable : List Text
  pub current : Option Text
  pub in_section : Bool

abbrev pub unreadable_mark : Text
unreadable_mark = codes "__ONC_UNREADABLE__"

-- `args[0]` used as a key or pushed: a missing one reads "undefined".
abbrev pub first_word : List Text → Text
first_word [] = codes "undefined"
first_word (w ∷ ws) = w

abbrev pub second_word : List Text → Option Text
second_word [] = none
second_word (w ∷ []) = none
second_word (w ∷ x ∷ ws) = some x

unfoldable pub change_last : (UciSection → UciSection) → List UciSection → List UciSection
change_last f [] = []
change_last f (s ∷ []) = f s ∷ []
change_last f (s ∷ t ∷ ss) = s ∷ change_last f (t ∷ ss)

-- What a list option holds already.
abbrev pub list_items : Option OptionValue → List Text
list_items none = []
list_items (some (one v)) = []
list_items (some (many vs)) = vs

unfoldable pub set_option : Text → Text → UciSection → UciSection
unfolding put
set_option key value s = record s { options = put key (one value) s.options }

unfoldable pub add_item : Text → Text → UciSection → UciSection
unfolding put lookup
add_item key value s = record s {
  options = put key (many (list_items (lookup key s.options) ++ value ∷ [])) s.options;
}

-- The sections at the current config changed in place.
unfoldable pub in_config : (List UciSection → List UciSection) → Text → Export → Export
unfolding put lookup
in_config f key e = record e { configs = put key (f (or_else (lookup key e.configs) [])) e.configs }

-- One line; `none` is the error for an unexpected line.
unfoldable pub parse_line : Text → List Text → Export → Option Export
unfolding text_eq put change_last set_option add_item in_config
parse_line keyword args e =
    if text_eq keyword (codes "package")
    then some (record e {
      configs = put (first_word args) [] e.configs;
      current = some (first_word args);
      in_section = false;
    })
    else if text_eq keyword unreadable_mark
    then some (record e { unreadable = e.unreadable ++ first_word args ∷ [] })
    else elim e.current [
      | none ↦ none
      | some key ↦
          if text_eq keyword (codes "config")
          then some
              (record (in_config
                (λ ss.
                  ss
                  ++ record { type = first_word args; name = second_word args; options = [] } ∷ [])
                key e) { in_section = true })
          else if text_eq keyword (codes "option") && e.in_section
          then some (
              in_config (change_last (set_option (first_word args) (or_else (second_word args) [])))
                key e)
          else if text_eq keyword (codes "list") && e.in_section
          then some (
              in_config (change_last (add_item (first_word args) (or_else (second_word args) [])))
                key e)
          else none
    ]

unfoldable pub parse_lines : List (List Text) → Export → Option Export
unfolding parse_line
parse_lines [] e = some e
parse_lines ([] ∷ rest) e = none
parse_lines ((keyword ∷ args) ∷ rest) e = elim (parse_line keyword args e) [
  | none ↦ none
  | some e' ↦ parse_lines rest e'
]

abbrev pub empty_export : Export
empty_export = record { configs = []; unreadable = []; current = none; in_section = false }

-- `none` where the source throws.
unfoldable pub parse_uci_export : Text → Option Export
unfolding lines parse_lines
parse_uci_export text = elim (lines text) [ none ↦ none | some ls ↦ parse_lines ls empty_export ]
