-- ===== src/Apply/Arm.antt =====
-- src/apply/arm.ts: stage and arm a device's rollback.
use openwrt_configurator.Prelude.{
  Text, ℕ, ◌+◌, ◌*◌, codes, none, some, List, [], ◌∷◌, ◌++◌, map, Bool, true, false, not, or_else,
  ltb, length, select, includes, unique, has_key, if◌then◌else◌,
}
use openwrt_configurator.Engine.{Service, StateFile}
use openwrt_configurator.Agent.Script.{packages_to_add, managed_files_manifest}
use openwrt_configurator.Agent.Verbs.{ArmPlan, Verb, ExecResult, verb, says, staged_of, unarmable}
use openwrt_configurator.Agent.Verbs as Verbs
use openwrt_configurator.Apply.Io.{pure, attempt, ◌>>=◌}
use openwrt_configurator.Apply.Run.{
  Net, M, Run, Phase, Result, ok, err, failure, nothing_left, now, call, guarded,
}
use openwrt_configurator.Apply.Recover.{reconnect, is_true}

abbrev pub drop_verb : Text → Verb Bool
drop_verb id = verb id Verbs.drop (says (codes "ONC_DROPPED"))

abbrev pub install_verb : Text → Verb Bool
install_verb id = verb id Verbs.install (says (codes "ONC_BEGUN"))

abbrev pub stage_packages_verb : Text → List Text → Verb ℕ
stage_packages_verb id packages = verb id (Verbs.stage_packages packages) staged_of

abbrev pub arm_verb : Text → ArmPlan → Verb Bool
arm_verb id plan = verb id (Verbs.arm plan) (says (codes "ONC_ARMED"))

-- What a rollback of this run puts back, beyond /etc/config.
unfoldable pub arm_plan : {S : Type 0} → openwrt_configurator.Apply.Run.DeviceRun S → ℕ → ArmPlan
unfolding select includes unique has_key packages_to_add
arm_plan run timeout =
    let new_files = map (λ (f : StateFile). f.path) run.state.files in
    record {
      timeout_seconds = timeout;
      mode = run.rollback_mode;
      recover_seconds = run.recover_seconds;
      reload_wireless = has_key (codes "wireless") run.state.config;
      files_to_restore = unique (run.managed_files ++ new_files ++ managed_files_manifest ∷ []);
      files_to_delete = select (λ path. not (includes run.managed_files path)) new_files;
      new_packages = packages_to_add run.state run.installed_packages;
      services = map (λ (s : Service). s.name) run.state.services;
      restart_after_restore =
          map (λ (s : Service). s.name)
            (select (λ s. or_else s.restart_after_rollback false) run.state.services);
    }

module _ ⦃net : Net⦄ where
  -- Take a staged or partly armed rollback off the device: whether it is gone.
  unfoldable pub discard_rollback : Run → M Bool
  unfolding reconnect
  discard_rollback run = do
    dropped ← call run.ssh (drop_verb run.run_id)
    elim (is_true dropped) [
      | true ↦ pure true
      | false ↦ do
        fresh ← attempt (reconnect run 15)
        elim fresh [
          | none ↦ pure false
          | some session ↦ do again ← call session (drop_verb run.run_id); pure (is_true again)
        ]
    ]

  unfoldable pub install_agent : Run → Phase Run
  unfolding guarded
  install_agent run =
      guarded
        (do
          installed ← call run.ssh (install_verb run.run_id)
          pure (if is_true installed then ok run else err (failure nothing_left)))
        nothing_left

  -- The packages that the run removes, kept for a rollback.
  unfoldable pub stage_packages : Run → Phase Run
  stage_packages run = do
    staged ← call run.ssh (stage_packages_verb run.run_id run.removal_cascade)
    pure (
        if ltb (or_else staged 0) (length run.removal_cascade)
        then err (failure nothing_left)
        else ok run)

  unfoldable pub stage_rollback : Run → Phase Run
  unfolding install_agent stage_packages guarded
  stage_rollback run =
      guarded
        (do
          installed ← install_agent run
          elim installed [
            | err e ↦ pure (err e)
            | ok r ↦ elim run.removal_cascade [ [] ↦ pure (ok run) | p ∷ ps ↦ stage_packages run ]
          ])
        nothing_left

  -- The deadline is measured from before the watchdog starts.
  unfoldable pub arm_rollback : Run → ℕ → Phase Run
  unfolding arm_plan guarded
  arm_rollback run timeout =
      guarded
        (elim (unarmable (arm_plan run timeout)) [
          | some path ↦ pure (err (failure nothing_left))
          | none ↦ do
            armed_at ← now
            answer ← call run.ssh (arm_verb run.run_id (arm_plan run timeout))
            pure (
                if is_true answer
                then ok (record run { deadline = some (armed_at + timeout * 1000) })
                else err (failure nothing_left))
        ])
        nothing_left
