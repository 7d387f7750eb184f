-- ===== src/Uci/Print.antt =====
-- `uciFileText` of src/engine/uci.ts and `shellQuote` of src/shell.ts.
use openwrt_configurator.Prelude.{
  Text, codes, none, some, List, [], ◌∷◌, ◌++◌, map, ◌==◌, if◌then◌else◌, join, flat_map,
}
use openwrt_configurator.Uci.{OptionValue, one, many, UciSection}

-- `value.replace(/'/g, "'\\''")`.
unfoldable pub escape_quotes : Text → Text
escape_quotes [] = []
escape_quotes (c ∷ v) =
    let rest = escape_quotes v in if c == 39 then 39 ∷ 92 ∷ 39 ∷ 39 ∷ rest else c ∷ rest

unfoldable pub shell_quote : Text → Text
unfolding escape_quotes
shell_quote v = 39 ∷ (escape_quotes v ++ 39 ∷ [])

-- `hide` stands in for a secret, by its option's name.
abbrev pub Redact : Type 0
Redact = Text → Text → Text

unfoldable pub option_lines : Redact → Text → OptionValue → List Text
unfolding shell_quote
option_lines hide key (one v) = (9 ∷ codes "option " ++ key ++ 32 ∷ shell_quote (hide v key)) ∷ []
option_lines hide key (many vs) =
    map (λ v. 9 ∷ codes "list " ++ key ++ 32 ∷ shell_quote (hide v key)) vs

unfoldable pub header_line : UciSection → Text
unfolding shell_quote
header_line s = codes "config " ++ s.type ++ elim s.name [ none ↦ [] | some n ↦ 32 ∷ shell_quote n ]

unfoldable pub section_text : Redact → UciSection → Text
unfolding header_line option_lines flat_map join
section_text hide s =
    join (10 ∷ []) (header_line s ∷ flat_map (λ o. option_lines hide o.0 o.1) s.options)

unfoldable pub uci_file_text : Redact → List UciSection → Text
unfolding section_text join
uci_file_text hide sections = join (10 ∷ 10 ∷ []) (map (section_text hide) sections) ++ 10 ∷ []
