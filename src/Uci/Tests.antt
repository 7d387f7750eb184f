-- ===== src/Uci/Tests.antt =====
-- Small configs and texts on which the properties of the uci modules apply.
use openwrt_configurator.Prelude.{
  codes, none, some, List, [], ◌∷◌, map, ◌≡◌, refl, false, join, select, text_eq,
}
use openwrt_configurator.Uci.{UciSection, UciConfigs, one, many, KeepEntry}
use openwrt_configurator.Uci.Lexer.{lines}
use openwrt_configurator.Uci.Print.{shell_quote}
use openwrt_configurator.Uci.Quoting.{lines-shell_quote}
use openwrt_configurator.Uci.Verify.{same_name}
use openwrt_configurator.Uci.Wipe.{Delete, named, first_of_type, wipe_config}
use openwrt_configurator.Uci.Wipe.Leaves.{remove_first, delete_all, unwiped, wipe_config-leaves}

lines-shell_quote_example :
    lines (join (32 ∷ []) (map shell_quote (codes "it's" ∷ codes "a\nb" ∷ [])))
    ≡ some ((codes "it's" ∷ codes "a\nb" ∷ []) ∷ [])
lines-shell_quote_example = lines-shell_quote (codes "it's") (codes "a\nb" ∷ [])

abbrev uci_delete : Delete → List UciSection → List UciSection
uci_delete (named n) l = remove_first (λ s. same_name s.name (some n)) l
uci_delete (first_of_type t) l = remove_first (λ s. text_eq s.type t) l

abbrev dhcp_sections : List UciSection
dhcp_sections =
    record { type = codes "host"; name = none; options = [] }
    ∷ record { type = codes "dhcp"; name = some (codes "lan"); options = [] }
    ∷ record { type = codes "host"; name = some (codes "nas"); options = [] }
    ∷ []

abbrev keep_dhcp : List KeepEntry
keep_dhcp = record { config = codes "dhcp"; type = some (codes "dhcp"); optional = false } ∷ []

wipe_config-leaves_example :
    delete_all uci_delete
      (λ n l. refl)
      (λ t l. refl)
      (wipe_config keep_dhcp (codes "dhcp") dhcp_sections)
      dhcp_sections
    ≡ select (unwiped keep_dhcp (codes "dhcp")) dhcp_sections
unfolding same_name text_eq
wipe_config-leaves_example =
    wipe_config-leaves uci_delete (λ n l. refl) (λ t l. refl) keep_dhcp (codes "dhcp") dhcp_sections
      ((refl, (refl, tt)), ((refl, tt), (tt, tt)))

abbrev declared_system : UciConfigs
declared_system =
    (
      codes "system",
      record {
        type = codes "system";
        name = some (codes "main");
        options = (codes "hostname", one (codes "ap")) ∷ [];
      }
          ∷ record {
            type = codes "led";
            name = some (codes "wan");
            options = (codes "sysfs", many (codes "green" ∷ [])) ∷ [];
          }
          ∷ [],
    )
    ∷ []

abbrev keeps_leds : List KeepEntry
keeps_leds = record { config = codes "system"; type = some (codes "led"); optional = false } ∷ []

-- The device has an option of its own in the section of the kept type, which also stands first.
abbrev read_system : UciConfigs
read_system =
    (
      codes "system",
      record {
        type = codes "led";
        name = some (codes "wan");
        options =
            (codes "trigger", one (codes "none")) ∷ (codes "sysfs", many (codes "green" ∷ [])) ∷ [];
      }
          ∷ record {
            type = codes "system";
            name = some (codes "main");
            options = (codes "hostname", one (codes "ap")) ∷ [];
          }
          ∷ [],
    )
    ∷ []
