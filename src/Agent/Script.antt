-- ===== src/Agent/Script.antt =====
-- src/getDeviceScript.ts: what each of the agent's step verbs is given.
use openwrt_configurator.Prelude.{
  Text, codes, text_eq, Option, none, some, List, [], ◌∷◌, ◌++◌, map, Bool, true, false, not, ◌&&◌,
  ◌==◌, if◌then◌else◌, is_empty, any, select, flat_map, includes, unique, sorted, join, lookup,
  or_else, Object,
}
use openwrt_configurator.Uci.{UciConfigs, KeepEntry}
use openwrt_configurator.Uci.Print.{uci_file_text}
use openwrt_configurator.Uci.Wipe.{Delete, named, first_of_type, wipe_operations, changed_configs}
use openwrt_configurator.Engine.{text, single, OpenWrtSection, OpenWrtState, Service, StateFile}
use openwrt_configurator.Engine.Declared.{declared_configs}
use openwrt_configurator.Engine.Operations.{UciOperation, uci_line, uci_operations}
use openwrt_configurator.Engine.Operations as Operations
use openwrt_configurator.Agent.{
  AgentRecord, seed, remove, add, batch, set, add_list, remove_file, write, commit, protocol,
  enable, disable, restart, run,
}

abbrev pub managed_files_manifest : Text
managed_files_manifest = codes "/etc/onc/managed_files"

abbrev pub files_keep_list : Text
files_keep_list = codes "/lib/upgrade/keep.d/onc-files"

-- A value that an `if` takes for true: not absent, not the empty text.
abbrev pub truthy : Option Text → Option Text
truthy none = none
truthy (some []) = none
truthy (some (c ∷ t)) = some (c ∷ t)

unfoldable pub packages_to_add : OpenWrtState → List Text → List Text
unfolding select includes
packages_to_add state installed = select (λ name. not (includes installed name)) state.add

unfoldable pub packages_to_remove : OpenWrtState → List Text → List Text
unfolding select includes
packages_to_remove state installed = select (includes installed) state.remove

-- Declared configs nothing of which is kept: the ones the tool writes whole.
unfoldable pub owned_configs : OpenWrtState → UciConfigs
unfolding select any text_eq declared_configs
owned_configs state =
    select
      (λ c. not (is_empty c.1) && not (any (λ (k : KeepEntry). text_eq k.config c.0) state.keep))
      (declared_configs state.config)

abbrev pub config_path : Text → Text
config_path key = codes "/etc/config/" ++ key

unfoldable pub seeded_config_paths : OpenWrtState → List Text
unfolding owned_configs
seeded_config_paths state = map (λ c. config_path c.0) (owned_configs state)

unfoldable pub prepare_records : OpenWrtState → List Text → List AgentRecord
unfolding owned_configs uci_file_text packages_to_remove packages_to_add
prepare_records state installed =
    map (λ c. seed (config_path c.0) (uci_file_text (λ v o. v) c.1)) (owned_configs state)
    ++ map remove (packages_to_remove state installed)
    ++ map add (packages_to_add state installed)

-- An operation that stage takes: a delete of the wipe is one line.
pub data Operation : Type 0 where
  delete : Text → Operation
  declare : UciOperation → Operation

-- The record of an operation that stands alone: its value spans lines.
unfoldable pub alone : Operation → Option AgentRecord
unfolding any
alone (delete line) = none
alone (declare (Operations.section key type)) = none
alone (declare (Operations.set key value)) =
    if any (λ c. c == 10) value then some (set key value) else none
alone (declare (Operations.add_list key value)) =
    if any (λ c. c == 10) value then some (add_list key value) else none

unfoldable pub operation_line : Operation → Text
unfolding uci_line
operation_line (delete line) = line
operation_line (declare o) = uci_line o

-- A line at the end of the last batch, or of a new one.
unfoldable pub add_line : Text → List AgentRecord → List AgentRecord
add_line line [] = batch (line ∷ []) ∷ []
add_line line (batch ops ∷ []) = batch (ops ++ line ∷ []) ∷ []
add_line line (r ∷ []) = r ∷ batch (line ∷ []) ∷ []
add_line line (r ∷ s ∷ rs) = r ∷ add_line line (s ∷ rs)

unfoldable pub add_operation : List AgentRecord → Operation → List AgentRecord
unfolding alone operation_line add_line
add_operation records o = elim (alone o) [
  | some r ↦ records ++ r ∷ []
  | none ↦ add_line (operation_line o) records
]

unfoldable pub uci_records_from : List AgentRecord → List Operation → List AgentRecord
unfolding add_operation
uci_records_from records [] = records
uci_records_from records (o ∷ os) = uci_records_from (add_operation records o) os

-- A delete of the wipe as a line: the texts of `wipeOperations`.
unfoldable pub delete_line : Text → Delete → Text
delete_line key (named n) = codes "delete " ++ key ++ 46 ∷ n
delete_line key (first_of_type t) = codes "delete " ++ key ++ codes ".@" ++ t ++ codes "[0]"

unfoldable pub stale_files : OpenWrtState → List Text → List Text
unfolding select any text_eq
stale_files state managed =
    select (λ path. not (any (λ (f : StateFile). text_eq f.path path) state.files)) managed

unfoldable pub manifest_records : OpenWrtState → List Text → List AgentRecord
unfolding sorted join
manifest_records state stale =
    let paths = map (λ (f : StateFile). f.path) state.files in
    if is_empty state.files && is_empty stale
    then []
    else write managed_files_manifest (codes "0644") (join (10 ∷ []) paths) none
      ∷ write files_keep_list (codes "0644")
          (join (10 ∷ []) (sorted (paths ++ managed_files_manifest ∷ [])) ++ 10 ∷ []) none
      ∷ []

unfoldable pub file_record : StateFile → AgentRecord
file_record f = write f.path (or_else f.mode (codes "0644")) f.content (truthy f.run_after)

-- `none` where a name is no uci name: the source throws.
unfoldable pub stage_records : OpenWrtState → UciConfigs → List Text → Option (List AgentRecord)
unfolding flat_map wipe_operations delete_line uci_operations uci_records_from stale_files
    file_record manifest_records
stage_records state current managed =
    let stale = stale_files state managed in
    let deletes =
      flat_map (λ c. map (λ d. delete (delete_line c.0 d)) c.1)
        (wipe_operations current state.keep) in
    elim (uci_operations state.config) [
      | none ↦ none
      | some ops ↦ some (
          uci_records_from [] (deletes ++ map declare ops)
          ++ map remove_file stale
          ++ map file_record state.files
          ++ manifest_records state stale)
    ]

abbrev pub builtin_protocols : List Text
builtin_protocols = codes "none" ∷ codes "static" ∷ codes "dhcp" ∷ codes "dhcpv6" ∷ []

-- An interface's protocol, where netifd may not know it.
unfoldable pub protocol_of : OpenWrtSection → List Text
unfolding lookup includes
protocol_of s = elim (lookup (codes "proto") s.options) [
  | some (single (text p)) ↦ if includes builtin_protocols p then [] else p ∷ []
  | _ ↦ []
]

unfoldable pub refreshed_protocols : OpenWrtState → List Text
unfolding protocol_of lookup flat_map unique
refreshed_protocols state = unique (
    flat_map protocol_of (
      or_else (lookup (codes "interface") (or_else (lookup (codes "network") state.config) [])) []))

unfoldable pub finalise_records : OpenWrtState → UciConfigs → List AgentRecord
unfolding changed_configs declared_configs refreshed_protocols
finalise_records state current =
    map commit (changed_configs current (declared_configs state.config) state.keep)
    ++ map protocol (refreshed_protocols state)

abbrev pub service_configs : Object Text
service_configs =
    (codes "dnsmasq", codes "dhcp")
    ∷ (codes "odhcpd", codes "dhcp")
    ∷ (codes "sysntpd", codes "system")
    ∷ (codes "log", codes "system")
    ∷ []

-- The config that a service reads, where it is not its own name.
unfoldable pub config_of_service : Text → Text
unfolding lookup
config_of_service name = or_else (lookup name service_configs) name

-- Whether `name` starts with `pattern` up to a final `*`, or is `pattern`.
unfoldable pub matches_pattern : Text → Text → Bool
unfolding text_eq
matches_pattern [] name = is_empty name
matches_pattern (c ∷ []) name = if c == b'*' then true else text_eq (c ∷ []) name
matches_pattern (c ∷ d ∷ p) [] = false
matches_pattern (c ∷ d ∷ p) (e ∷ name) = c == e && matches_pattern (d ∷ p) name

unfoldable pub is_swapped : List Text → Service → Bool
unfolding any matches_pattern
is_swapped changed s =
    any (λ name. any (λ p. matches_pattern p name) (or_else s.restart_on_packages [])) changed

-- `s.enabled !== false`.
abbrev pub is_enabled : Service → Bool
is_enabled s = or_else s.enabled true

-- procd holds no reload trigger of the service for its config.
unfoldable pub lacks_trigger : Object (List Text) → Service → Bool
unfolding lookup includes config_of_service
lacks_trigger triggers s = elim (lookup s.name triggers) [
  | none ↦ false
  | some watched ↦ not (includes watched (config_of_service s.name))
]

unfoldable pub services_records : OpenWrtState → Object (List Text) → List Text → List AgentRecord
unfolding select is_swapped lacks_trigger config_of_service
services_records state triggers changed =
    let enabled = select is_enabled state.services in
    map (λ (s : Service). enable s.name) enabled
    ++ map (λ (s : Service). disable s.name) (select (λ s. not (is_enabled s)) state.services)
    ++ map (λ (s : Service). restart s.name none) (select (is_swapped changed) enabled)
    ++ map (λ (s : Service). restart s.name (some (config_of_service s.name)))
        (select (λ s. not (is_swapped changed s) && lacks_trigger triggers s) enabled)

abbrev hook_of : StateFile → List Text
hook_of f = elim (truthy f.run_after_reload) [ none ↦ [] | some c ↦ c ∷ [] ]

unfoldable pub hook_commands : OpenWrtState → List Text
unfolding flat_map
hook_commands state = flat_map hook_of state.files

unfoldable pub hook_records : List Text → List AgentRecord
hook_records commands = map run commands
