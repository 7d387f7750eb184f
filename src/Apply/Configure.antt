-- ===== src/Apply/Configure.antt =====
-- src/apply/configure.ts and src/apply/commit.ts: make the device's staged config the declared one,
-- check it, and commit it.
use openwrt_configurator.Prelude.{
  Text, ℕ, ◌+◌, ◌*◌, codes, Option, none, some, List, Bool, true, false, not, ◌||◌, leb, any,
  select, is_empty, if◌then◌else◌, [], ◌∷◌,
}
use openwrt_configurator.Uci.{UciConfigs, is_kept}
use openwrt_configurator.Uci.Verify.{verify_configs}
use openwrt_configurator.Engine.Declared.{declared_configs}
use openwrt_configurator.Agent.{AgentRecord}
use openwrt_configurator.Agent.Script.{stage_records, finalise_records}
use openwrt_configurator.Agent.Verbs.{Command, Verb, Steps, verb, steps_of, after_prefix}
use openwrt_configurator.Agent.Verbs as Verbs
use openwrt_configurator.Prelude.{is_some}
use openwrt_configurator.Apply.Io.{pure, throw, ◌>>=◌, ◌>>◌}
use openwrt_configurator.Apply.Run.{
  Net, M, Run, Phase, PhaseFailure, Left, Result, ok, err, failure, asks, now, call, guarded, step,
  configuring, committing,
}

abbrev pub steps_verb : Text → Command → Verb Steps
steps_verb id c = verb id c steps_of

-- A changed file's run_after was started among these steps.
unfoldable pub ran_after_in : List Text → Bool
unfolding any after_prefix
ran_after_in started = any (λ s. is_some (after_prefix (codes "run_after ") s)) started

module _ ⦃net : Net⦄ where
  unfoldable pub revert_staged : Run → M Unit
  revert_staged run = call run.ssh (steps_verb run.run_id Verbs.revert) >> pure tt

  unfoldable pub configure_failure : Run → Bool → Bool → PhaseFailure
  configure_failure run unknown ran_after = failure (record {
    committed = false;
    left_armed = run.has_irreversible_steps || unknown;
    roll_back_now = false;
    ran_after = ran_after || unknown;
  })

  -- What one of the agent's step verbs came to: the steps it started, or the failure.
  unfoldable pub steps_result : Run → Option Steps → Result (List Text) PhaseFailure
  unfolding configure_failure ran_after_in
  steps_result run none = err (configure_failure run true run.ran_after)
  steps_result run (some s) =
      if s.done then ok s.started else err (configure_failure run false (ran_after_in s.started))

  unfoldable pub run_steps : Run → Command → Phase (List Text)
  unfolding steps_result
  run_steps run c = do
    answer ← call run.ssh (steps_verb run.run_id c)
    pure (steps_result run answer)

  -- An unreadable config that is not kept refuses the run.
  unfoldable pub readable : Run → UciConfigs × List Text → Result UciConfigs PhaseFailure
  unfolding select is_kept configure_failure
  readable run (configs, unreadable) =
      if is_empty (select (λ key. not (is_kept run.state.keep key none)) unreadable)
      then ok configs
      else err (configure_failure run false run.ran_after)

  unfoldable pub read_configs : Run → Phase UciConfigs
  unfolding readable
  read_configs run = do read ← asks (net.uci_configs run.ssh); pure (readable run read)

  -- The guarantee: what is staged is what is declared.
  unfoldable pub verified : Run → UciConfigs → UciConfigs → Phase Run
  unfolding verify_configs declared_configs finalise_records configure_failure
  verified run current actual =
      elim (verify_configs actual (declared_configs run.state.config) run.state.keep) [
        | none ↦ throw
        | some [] ↦
            pure (ok (record run { finalise_records = some (finalise_records run.state current) }))
        | some (p ∷ ps) ↦ pure (err (configure_failure run false run.ran_after))
      ]

  unfoldable pub check_staged : Run → UciConfigs → Phase Run
  unfolding read_configs verified
  check_staged run current = do
    actual ← read_configs run
    elim actual [ err e ↦ pure (err e) | ok configs ↦ verified run current configs ]

  unfoldable pub stage_config : Run → UciConfigs → Phase Run
  unfolding run_steps check_staged
  stage_config run current = elim (stage_records run.state current run.managed_files) [
    | none ↦ throw
    | some records ↦ do
      staged ← run_steps run (Verbs.stage records)
      elim staged [
        | err e ↦ pure (err e)
        | ok started ↦ check_staged (record run { ran_after = ran_after_in started }) current
      ]
  ]

  unfoldable pub configure_steps : Run → Phase Run
  unfolding run_steps read_configs stage_config
  configure_steps run = do
    prepared ← run_steps run (Verbs.prepare run.prepare_records)
    elim prepared [
      | err e ↦ pure (err e)
      | ok started ↦ do
        current ← read_configs run
        elim current [
          | err e ↦ pure (err e)
          | ok configs ↦ step run configuring >> stage_config run configs
        ]
    ]

  abbrev pub left_armed_only : Left
  left_armed_only = record {
    committed = false;
    left_armed = true;
    roll_back_now = false;
    ran_after = false;
  }

  abbrev pub committed_only : Left
  committed_only = record {
    committed = true;
    left_armed = false;
    roll_back_now = false;
    ran_after = false;
  }

  unfoldable pub configure_device : Run → Phase Run
  unfolding configure_steps revert_staged guarded
  configure_device run = do
    result ← guarded (configure_steps run) left_armed_only
    elim result [ ok r ↦ pure (ok r) | err e ↦ revert_staged run >> pure (err e) ]

  -- `earliest - now >= minimum * confirmsLeft`.
  unfoldable pub ensure_time_to_confirm : Run → ℕ → ℕ → Phase Run
  unfolding revert_staged configure_failure
  ensure_time_to_confirm run earliest confirms_left = do
    t ← now
    elim (leb (run.minimum_confirm_window_ms * confirms_left + t) earliest) [
      | true ↦ pure (ok run)
      | false ↦ revert_staged run >> pure (err (configure_failure run false run.ran_after))
    ]

  -- A dropped link is no failure: the commit is confirmed later.
  unfoldable pub finalise : Run → List AgentRecord → Phase Run
  unfolding revert_staged
  finalise run records = do
    step run committing
    finalised ← call run.ssh (steps_verb run.run_id (Verbs.finalise records))
    elim finalised [
      | none ↦ pure (ok run)
      | some s ↦ elim s.done [
        | true ↦ pure (ok run)
        | false ↦ revert_staged run >> pure (err (failure committed_only))
      ]
    ]

  unfoldable pub commit_device : Run → Phase Run
  unfolding finalise guarded
  commit_device run = elim run.finalise_records [
    | none ↦ throw
    | some records ↦ guarded (finalise run records) committed_only
  ]
