-- ===== src/Engine/Declared.antt =====
-- `declaredConfigs` of src/engine/uci.ts: the declared config in the shape that `uci export` reads
-- back.
use openwrt_configurator.Prelude.{Text, codes, some, [], ◌∷◌, map, if◌then◌else◌, flat_map, Object}
use openwrt_configurator.Uci.{OptionValue, one, many, UciSection, UciConfigs}
use openwrt_configurator.Engine.{
  Scalar, text, num, flag, Value, single, several, OpenWrtSection, OpenWrtConfig,
}

unfoldable pub uci_string : Scalar → Text
uci_string (text t) = t
uci_string (num t) = t
uci_string (flag b) = if b then codes "1" else codes "0"

-- An option that uci would not store is left out.
unfoldable pub declared_option : Text → Value → Object OptionValue
unfolding uci_string
declared_option key (several []) = []
declared_option key (several (v ∷ vs)) = (key, many (map uci_string (v ∷ vs))) ∷ []
declared_option key (single (text [])) = []
declared_option key (single v) = (key, one (uci_string v)) ∷ []

unfoldable pub declared_section : Text → OpenWrtSection → UciSection
unfolding declared_option flat_map
declared_section type s = record {
  type = type;
  name = some s.name;
  options = flat_map (λ o. declared_option o.0 o.1) s.options;
}

unfoldable pub declared_configs : OpenWrtConfig → UciConfigs
unfolding declared_section flat_map
declared_configs config =
    map (λ c. (c.0, flat_map (λ t. map (declared_section t.0) t.1) c.1)) config
