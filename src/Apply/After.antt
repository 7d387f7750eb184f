-- ===== src/Apply/After.antt =====
-- src/apply/after.ts: what follows once the config is live everywhere.
use openwrt_configurator.Prelude.{Text, Option, none, some, List, [], ◌∷◌, Bool, true, false}
use openwrt_configurator.Agent.Script.{hook_records}
use openwrt_configurator.Agent.Verbs.{Steps}
use openwrt_configurator.Agent.Verbs as Verbs
use openwrt_configurator.Apply.Io.{pure, attempt, ◌>>=◌, ◌>>◌}
use openwrt_configurator.Apply.Run.{Net, M, Run, asks, call}
use openwrt_configurator.Apply.Configure.{steps_verb}

abbrev pub hooked : Option Steps → Bool
hooked none = false
hooked (some s) = s.done

module _ ⦃net : Net⦄ where
  -- Whether the hooks all ran.
  unfoldable pub run_post_reload_hooks : Run → net.Session → M Bool
  run_post_reload_hooks run session = elim run.hooks [
    | [] ↦ pure true
    | h ∷ hs ↦ do
      answer ← call session (steps_verb run.run_id (Verbs.hooks (hook_records run.hooks)))
      pure (hooked answer)
  ]

  -- The services that are down; `none` where they could not be checked.
  unfoldable pub check_services : Run → net.Session → M (Option (List Text))
  check_services run session = elim run.services_to_check [
    | [] ↦ pure (some [])
    | s ∷ ss ↦ attempt (
        asks (net.services_settled session 10000)
        >> asks (net.not_running session run.services_to_check))
  ]
