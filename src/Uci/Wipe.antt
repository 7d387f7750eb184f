-- ===== src/Uci/Wipe.antt =====
-- `wipeOperations`, `changedConfigs` and `unmatchedKeeps` of src/engine/uci.ts.
pub mod Leaves
use openwrt_configurator.Prelude.{
  Text, none, some, List, [], ◌∷◌, ◌++◌, Bool, not, ◌&&◌, flat_map, select, any, is_empty, keys,
  unique, sorted, has_key,
}
use openwrt_configurator.Uci.{UciSection, UciConfigs, KeepEntry, is_kept}

-- The `uci batch` deletes: `delete config.name`, or `delete config.@type[0]`.
pub data Delete : Type 0 where
  named : Text → Delete
  first_of_type : Text → Delete

unfoldable pub named_delete : UciSection → List Delete
named_delete s = elim s.name [ none ↦ [] | some n ↦ named n ∷ [] ]

unfoldable pub anonymous_delete : UciSection → List Delete
anonymous_delete s = elim s.name [ none ↦ first_of_type s.type ∷ [] | some n ↦ [] ]

unfoldable pub is_wiped : List KeepEntry → Text → UciSection → Bool
unfolding is_kept
is_wiped keep key s = not (is_kept keep key (some s.type))

-- The deletes of one config.
unfoldable pub wipe_config : List KeepEntry → Text → List UciSection → List Delete
unfolding select flat_map named_delete anonymous_delete is_wiped
wipe_config keep key sections =
    let wiped = select (is_wiped keep key) sections in
    flat_map named_delete wiped ++ flat_map anonymous_delete wiped

unfoldable pub wipe_operations : UciConfigs → List KeepEntry → List (Text × List Delete)
unfolding wipe_config flat_map
wipe_operations current keep = flat_map (λ c. (c.0, wipe_config keep c.0 c.1) ∷ []) current

-- The configs that a wipe or the declared config changes, and so must commit.
unfoldable pub changed_configs : UciConfigs → UciConfigs → List KeepEntry → List Text
unfolding select any is_wiped keys sorted unique
changed_configs current declared keep = sorted (
    unique (
      keys (select (λ c. any (is_wiped keep c.0) c.1) current)
      ++ keys (select (λ c. not (is_empty c.1)) declared)))

-- Keep entries that name a config the device lacks.
unfoldable pub unmatched_keeps : List KeepEntry → UciConfigs → List KeepEntry
unfolding select has_key
unmatched_keeps keep current =
    select (λ entry. not entry.optional && not (has_key entry.config current)) keep
