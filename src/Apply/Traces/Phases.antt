-- ===== src/Apply/Traces/Phases.antt =====
-- What arming, configuring, committing and confirming a device add to the log.
use openwrt_configurator.Prelude.{ℕ, Option, none, some, List, [], ◌∷◌, true, false, leb, ◌*◌, ◌+◌}
use openwrt_configurator.Uci.{UciConfigs}
use openwrt_configurator.Uci.Verify.{Problem, verify_configs}
use openwrt_configurator.Engine.Declared.{declared_configs}
use openwrt_configurator.Apply.Io.{pure, throw}
use openwrt_configurator.Agent.{AgentRecord}
use openwrt_configurator.Agent.Script.{stage_records}
use openwrt_configurator.Agent.Verbs.{ExecResult, Command, unarmable, Steps}
use openwrt_configurator.Agent.Verbs as Verbs
use openwrt_configurator.Apply.Run.{
  Net, M, Run, Event, sent, Result, ok, err, PhaseFailure, nothing_left,
}
use openwrt_configurator.Apply.Recover.{is_true}
use openwrt_configurator.Apply.Arm.{
  drop_verb, install_verb, stage_packages_verb, arm_verb, arm_plan, discard_rollback, install_agent,
  stage_packages, stage_rollback, arm_rollback,
}
use openwrt_configurator.Apply.Configure.{
  steps_verb, revert_staged, run_steps, read_configs, verified, check_staged, stage_config,
  configure_steps, configure_device, ensure_time_to_confirm, finalise, commit_device,
  left_armed_only, committed_only, ran_after_in,
}
use openwrt_configurator.Apply.Confirm.{
  start_services, check_finished, confirm_device, commit_finished_verb,
}
use openwrt_configurator.Apply.After.{run_post_reload_hooks, check_services}
use openwrt_configurator.Apply.Network.Abort.{with_live_session}
use openwrt_configurator.Apply.Network.Phases.{reach}
use openwrt_configurator.Apply.Traces.{
  Emits, IsMild, Emits-pure, Emits-throw, Emits-attempt, Emits-bind, Emits-asks, Emits-now,
  Emits-emit, Emits-call, Emits-guarded, Emits-bool, Emits-option, Emits-does,
}
use openwrt_configurator.Apply.Traces.Devices.{reconnect-Emits, reconnect_settled-Emits}

module _ ⦃net : Net⦄ {P : Event → Type 0} where
  pub Emits-result :
      {A B : Type 0} {f : PhaseFailure → M B} {g : A → M B} (r : Result A PhaseFailure)
      → ((e : PhaseFailure) → Emits P (f e))
      → ((a : A) → Emits P (g a))
      → Emits P (elim r [ err e ↦ f e | ok a ↦ g a ])
  Emits-result (ok a) hf hg = hg a
  Emits-result (err e) hf hg = hf e

  pub Emits-list :
      {A B : Type 0} {m : M B} {f : A → List A → M B} (l : List A)
      → Emits P m
      → ((a : A) (as' : List A) → Emits P (f a as'))
      → Emits P (elim l [ [] ↦ m | x ∷ xs ↦ f x xs ])
  Emits-list [] hm hf = hm
  Emits-list (x ∷ xs) hm hf = hf x xs

module _ ⦃net : Net⦄ (P : Event → Type 0) (mild : (e : Event) → IsMild e → P e) where
  pub discard_rollback-Emits : (run : Run) → Emits P (discard_rollback run)
  unfolding discard_rollback
  discard_rollback-Emits run =
      Emits-bind (Emits-call run.ssh (drop_verb run.run_id) (λ r. mild _ tt)) (λ d.
        Emits-bool (is_true d) (Emits-pure true) (
          Emits-bind (Emits-attempt (reconnect-Emits P mild run 15)) (λ fresh.
            Emits-option fresh (Emits-pure false) (λ s.
              Emits-bind (Emits-call s (drop_verb run.run_id) (λ r. mild _ tt))
                (λ a. Emits-pure _)))))

  install_agent-Emits : (run : Run) → Emits P (install_agent run)
  unfolding install_agent
  install_agent-Emits run = Emits-guarded nothing_left (
      Emits-bind (Emits-call run.ssh (install_verb run.run_id) (λ r. mild _ tt))
        (λ i. Emits-pure _))

  stage_packages-Emits : (run : Run) → Emits P (stage_packages run)
  unfolding stage_packages
  stage_packages-Emits run =
      Emits-bind
        (Emits-call run.ssh (stage_packages_verb run.run_id run.removal_cascade) (λ r. mild _ tt))
        (λ i. Emits-pure _)

  pub stage_rollback-Emits : (run : Run) → Emits P (stage_rollback run)
  unfolding stage_rollback
  stage_rollback-Emits run = Emits-guarded nothing_left (
      Emits-bind (install_agent-Emits run) (λ i.
        Emits-result i (λ e. Emits-pure _)
          (λ r. Emits-list run.removal_cascade (Emits-pure _) (λ p ps. stage_packages-Emits run))))

  arm_body-Emits : (run : Run) (timeout : ℕ) → Emits P (arm_rollback run timeout)
  unfolding arm_rollback
  arm_body-Emits run timeout = Emits-guarded nothing_left (
      Emits-option (unarmable (arm_plan run timeout))
        (Emits-bind Emits-now (λ t.
          Emits-bind
            (Emits-call run.ssh (arm_verb run.run_id (arm_plan run timeout)) (λ r. mild _ tt))
            (λ a. Emits-pure _)))
        (λ path. Emits-pure _))

  pub arm_rollback-Emits : (run : Run) (timeout : ℕ) → Emits P (arm_rollback run timeout)
  arm_rollback-Emits = arm_body-Emits

  revert_staged-Emits : (run : Run) → Emits P (revert_staged run)
  unfolding revert_staged
  revert_staged-Emits run =
      Emits-bind (Emits-call run.ssh (steps_verb run.run_id Verbs.revert) (λ r. mild _ tt))
        (λ a. Emits-pure tt)

  run_steps-Emits :
      (run : Run) (c : Command)
      → ((r : Option ExecResult) → P (sent run.run_id c r))
      → Emits P (run_steps run c)
  unfolding run_steps
  run_steps-Emits run c h =
      Emits-bind (Emits-call run.ssh (steps_verb run.run_id c) h) (λ a. Emits-pure _)

  read_configs-Emits : (run : Run) → Emits P (read_configs run)
  unfolding read_configs
  read_configs-Emits run = Emits-bind (Emits-asks _) (λ r. Emits-pure _)

  verified-Emits : (run : Run) (current actual : UciConfigs) → Emits P (verified run current actual)
  unfolding verified
  verified-Emits run current actual =
      compared _ _ (verify_configs actual (declared_configs run.state.config) run.state.keep)
    where
      compared :
          (a b : Result Run PhaseFailure) (found : Option (List Problem))
          → Emits P (elim found as (λ x. M (Result Run PhaseFailure)) [
            | none ↦ throw
            | some [] ↦ pure a
            | some (p ∷ ps) ↦ pure b
          ])
      compared a b none = Emits-throw
      compared a b (some []) = Emits-pure _
      compared a b (some (p ∷ ps)) = Emits-pure _

  check_staged-Emits : (run : Run) (current : UciConfigs) → Emits P (check_staged run current)
  unfolding check_staged
  check_staged-Emits run current =
      Emits-bind (read_configs-Emits run)
        (λ r. Emits-result r (λ e. Emits-pure _) (λ c. verified-Emits run current c))

  stage_config-Emits : (run : Run) (current : UciConfigs) → Emits P (stage_config run current)
  unfolding stage_config
  stage_config-Emits run current =
      Emits-option (stage_records run.state current run.managed_files) Emits-throw (λ records.
        Emits-bind (run_steps-Emits run (Verbs.stage records) (λ r. mild _ tt)) (λ s.
          Emits-result s (λ e. Emits-pure _)
            (λ started.
              check_staged-Emits (record run { ran_after = ran_after_in started }) current)))

  configure_steps-Emits : (run : Run) → Emits P (configure_steps run)
  unfolding configure_steps
  configure_steps-Emits run =
      Emits-bind (run_steps-Emits run (Verbs.prepare run.prepare_records) (λ r. mild _ tt)) (λ s.
        Emits-result s (λ e. Emits-pure _)
          (λ started. Emits-bind (read_configs-Emits run) (λ c.
            Emits-result c (λ e. Emits-pure _)
              (λ configs.
                Emits-bind (Emits-emit _ (mild _ tt)) (λ _. stage_config-Emits run configs)))))

  pub configure_device-Emits : (run : Run) → Emits P (configure_device run)
  unfolding configure_device
  configure_device-Emits run =
      Emits-bind (Emits-guarded left_armed_only (configure_steps-Emits run)) (λ r.
        Emits-result r (λ e. Emits-bind (revert_staged-Emits run) (λ _. Emits-pure _))
          (λ a. Emits-pure _))

  pub ensure_time-Emits :
      (run : Run) (earliest left : ℕ) → Emits P (ensure_time_to_confirm run earliest left)
  unfolding ensure_time_to_confirm
  ensure_time-Emits run earliest left = Emits-bind Emits-now (λ t.
      Emits-bool (leb (run.minimum_confirm_window_ms * left + t) earliest) (Emits-pure _)
        (Emits-bind (revert_staged-Emits run) (λ _. Emits-pure _)))

  finalise-Emits :
      (run : Run) (records : List AgentRecord)
      → ((r : Option ExecResult) → P (sent run.run_id (Verbs.finalise records) r))
      → Emits P (finalise run records)
  unfolding finalise
  finalise-Emits run records h = Emits-bind (Emits-emit _ (mild _ tt)) (λ _.
      Emits-bind (Emits-call run.ssh (steps_verb run.run_id (Verbs.finalise records)) h) (λ a.
        Emits-option a (Emits-pure _) (λ s.
          Emits-bool s.done (Emits-pure _)
            (Emits-bind (revert_staged-Emits run) (λ _. Emits-pure _)))))

  -- A commit adds commits of its own device only.
  pub commit_device-Emits :
      (run : Run)
      → ((records : List AgentRecord) (r : Option ExecResult)
          → P (sent run.run_id (Verbs.finalise records) r))
      → Emits P (commit_device run)
  unfolding commit_device
  commit_device-Emits run h =
      Emits-option run.finalise_records Emits-throw
        (λ records. Emits-guarded committed_only (finalise-Emits run records (h records)))

  start_services-Emits : (run : Run) (s : net.Session) → Emits P (start_services run s)
  unfolding start_services
  start_services-Emits run s = Emits-list run.service_records (Emits-pure tt) (λ r rs.
      Emits-bind Emits-now (λ t. Emits-bind (Emits-call s _ (λ r. mild _ tt)) (λ _. Emits-pure tt)))

  pub confirm_device-Emits : (run : Run) → Emits P (confirm_device run)
  unfolding confirm_device check_finished
  confirm_device-Emits run = Emits-bind (Emits-emit _ (mild _ tt)) (λ _. Emits-bind Emits-now (λ t.
      Emits-bind
        (Emits-attempt
          (reconnect_settled-Emits P mild run (start_services run) _ (start_services-Emits run)))
        (λ session. Emits-option session (Emits-pure _) (λ s.
          Emits-bind (Emits-call s (commit_finished_verb run.run_id) (λ r. mild _ tt))
            (λ f. Emits-bool (is_true f) (Emits-pure _) (Emits-pure _))))))

  pub run_post_reload_hooks-Emits :
      (run : Run) (s : net.Session) → Emits P (run_post_reload_hooks run s)
  unfolding run_post_reload_hooks
  run_post_reload_hooks-Emits run s =
      Emits-list run.hooks (Emits-pure true)
        (λ h hs. Emits-bind (Emits-call s _ (λ r. mild _ tt)) (λ a. Emits-pure _))

  pub check_services-Emits : (run : Run) (s : net.Session) → Emits P (check_services run s)
  unfolding check_services
  check_services-Emits run s =
      Emits-list run.services_to_check (Emits-pure _)
        (λ n ns. Emits-attempt (Emits-bind (Emits-asks _) (λ _. Emits-asks _)))

  with_live_session-Emits : (run : Run) → Emits P (with_live_session run)
  unfolding with_live_session
  with_live_session-Emits run =
      Emits-bind (Emits-does _) (λ alive.
        Emits-bool alive (Emits-pure _) (Emits-bind (Emits-asks _) (λ fresh. Emits-pure _)))

  pub reach-Emits : (run : Run) → Emits P (reach run)
  unfolding reach
  reach-Emits run =
      Emits-guarded nothing_left (Emits-bind (with_live_session-Emits run) (λ r. Emits-pure _))
