-- ===== src/Apply/Traces/Values.antt =====
-- What the phases return: a run with the id that it had, and after a failed commit a device that
-- counts as changed.
use openwrt_configurator.Prelude.{
  Text, ℕ, ltb, length, or_else, Option, none, some, List, [], ◌∷◌, Bool, true, false, ◌≡◌, refl,
  leb, ◌*◌, ◌+◌, if◌then◌else◌,
}
use openwrt_configurator.Uci.{UciConfigs}
use openwrt_configurator.Uci.Verify.{Problem, verify_configs}
use openwrt_configurator.Engine.Declared.{declared_configs}
use openwrt_configurator.Agent.{AgentRecord}
use openwrt_configurator.Agent.Script.{stage_records}
use openwrt_configurator.Agent.Verbs.{Steps, unarmable}
use openwrt_configurator.Apply.Io.{Outcome, returned, thrown, pure, throw, ◌>>=◌, continue}
use openwrt_configurator.Apply.Run.{
  Net, World, M, Run, Phase, Left, PhaseFailure, Result, ok, err, guarded, or_failure, nothing_left,
}
use openwrt_configurator.Apply.Recover.{is_true}
use openwrt_configurator.Apply.Arm.{
  arm_plan, stage_rollback, arm_rollback, stage_packages, install_agent,
}
use openwrt_configurator.Apply.Configure.{
  run_steps, ran_after_in, verified, check_staged, stage_config, configure_steps, configure_device,
  ensure_time_to_confirm, finalise, commit_device, left_armed_only, committed_only,
}
use openwrt_configurator.Apply.Network.Abort.{with_live_session}
use openwrt_configurator.Apply.Network.Phases.{reach, is_changed}

module _ ⦃net : Net⦄ where
  abbrev pub Holds : {A : Type 0} → (A → Type 0) → Outcome A → Type 0
  Holds Q thrown = Unit
  Holds Q (returned a) = Q a

  -- Whatever `m` returns is `Q`.
  pub record Yields {A : Type 0} (Q : A → Type 0) (m : M A) : Type 0 where
    pub at : (w : World net.State) → Holds Q (m w).0

  module _ {A : Type 0} {Q : A → Type 0} where
    pub Yields-pure : (a : A) → Q a → Yields Q (pure a)
    unfolding pure
    Yields-pure a q = record { at = λ w. q }

    pub Yields-throw : Yields Q throw
    unfolding throw
    Yields-throw = record { at = λ w. tt }

    Yields-continue :
        {B : Type 0} (o : Outcome B) (f : B → M A) (w : World net.State)
        → ((b : B) → Yields Q (f b))
        → Holds Q (continue o f w).0
    Yields-continue (returned b) f w h = (h b).at w
    Yields-continue thrown f w h = tt

    -- Only what the last action returns counts.
    pub Yields-bind :
        {B : Type 0} (m : M B) {f : B → M A} → ((b : B) → Yields Q (f b)) → Yields Q (m >>= f)
    unfolding ◌>>=◌
    Yields-bind m {f} h = record { at = λ w. Yields-continue (m w).0 f (m w).1 h }

  module _ {A B : Type 0} {R : B → Type 0} {Q : A → Type 0} where
    then-continue :
        (o : Outcome B) (f : B → M A) (w : World net.State)
        → Holds R o
        → ((b : B) → R b → Yields Q (f b))
        → Holds Q (continue o f w).0
    then-continue (returned b) f w r h = (h b r).at w
    then-continue thrown f w r h = tt

    pub Yields-then :
        {m : M B} {f : B → M A} → Yields R m → ((b : B) → R b → Yields Q (f b)) → Yields Q (m >>= f)
    unfolding ◌>>=◌
    Yields-then {m} {f} hm h = record { at = λ w. then-continue (m w).0 f (m w).1 (hm.at w) h }

  or_failure-Holds :
      {A : Type 0} (Q : Result A PhaseFailure → Type 0) (left : Left)
      (o : Outcome (Result A PhaseFailure))
      → Q (err (record { kind = openwrt_configurator.Apply.Run.unreachable; left = left }))
      → Holds Q o
      → (w : World net.State)
      → Holds Q
          (continue
            (elim o [ returned a ↦ returned (some a) | thrown ↦ returned none ])
            (λ r. pure (or_failure left r))
            w).0
  unfolding or_failure pure
  or_failure-Holds Q left (returned r) q h w = h
  or_failure-Holds Q left thrown q h w = q

  pub Yields-guarded :
      {A : Type 0} {Q : Result A PhaseFailure → Type 0} {body : Phase A} (left : Left)
      → Q (err (record { kind = openwrt_configurator.Apply.Run.unreachable; left = left }))
      → Yields Q body
      → Yields Q (guarded body left)
  unfolding guarded ◌>>=◌
  Yields-guarded {Q} {body} left q h = record {
    at = λ w. or_failure-Holds Q left (body w).0 q (h.at w) (body w).1;
  }

  -- The run returned is of the same id.
  abbrev pub SameRun : Text → Result Run PhaseFailure → Type 0
  SameRun id (ok r) = r.run_id ≡ id
  SameRun id (err e) = Unit

  -- As well, a failure counts as a change.
  abbrev pub SameOrChanged : Text → Result Run PhaseFailure → Type 0
  SameOrChanged id (ok r) = r.run_id ≡ id
  SameOrChanged id (err e) = is_changed e ≡ true

  module _ {A : Type 0} {Q : A → Type 0} where
    Yields-bool :
        {m n : M A} (b : Bool)
        → Yields Q m
        → Yields Q n
        → Yields Q (elim b [ true ↦ m | false ↦ n ])
    Yields-bool true hm hn = hm
    Yields-bool false hm hn = hn

    pub Yields-option :
        {B : Type 0} {m : M A} {f : B → M A} (o : Option B)
        → Yields Q m
        → ((b : B) → Yields Q (f b))
        → Yields Q (elim o [ none ↦ m | some b ↦ f b ])
    Yields-option none hm hf = hm
    Yields-option (some b) hm hf = hf b

  -- Where the run's id is kept so far, what follows starts from a run of that id.
  Yields-same :
      {Q : Result Run PhaseFailure → Type 0} {id : Text} {f : PhaseFailure → Phase Run}
      {g : Run → Phase Run} (r : Result Run PhaseFailure)
      → SameRun id r
      → ((e : PhaseFailure) → Yields Q (f e))
      → ((a : Run) → a.run_id ≡ id → Yields Q (g a))
      → Yields Q (elim r [ err e ↦ f e | ok a ↦ g a ])
  Yields-same (ok a) h hf hg = hg a h
  Yields-same (err e) h hf hg = hf e

  pub Yields-result :
      {A : Type 0} {Q : Result Run PhaseFailure → Type 0} {f : PhaseFailure → Phase Run}
      {g : A → Phase Run} (r : Result A PhaseFailure)
      → ((e : PhaseFailure) → Yields Q (f e))
      → ((a : A) → Yields Q (g a))
      → Yields Q (elim r [ err e ↦ f e | ok a ↦ g a ])
  Yields-result (ok a) hf hg = hg a
  Yields-result (err e) hf hg = hf e

  with_live_session-SameRun :
      (run : Run) → Yields (λ r. r.run_id ≡ run.run_id) (with_live_session run)
  unfolding with_live_session
  with_live_session-SameRun run = Yields-bind _ (λ alive. Yields-bool alive (Yields-pure run refl) (
      Yields-bind _
        (λ fresh. Yields-pure (record run { options = record run.options { ssh = fresh } }) refl)))

  pub reach-SameRun : (run : Run) → Yields (SameRun run.run_id) (reach run)
  unfolding reach
  reach-SameRun run =
      Yields-guarded nothing_left tt
        (Yields-then (with_live_session-SameRun run) (λ r h. Yields-pure (ok r) h))

  either-SameRun :
      {id : Text} (b : Bool) (r : Run) (e : PhaseFailure)
      → r.run_id ≡ id
      → SameRun id (if b then ok r else err e)
  either-SameRun true r e h = h
  either-SameRun false r e h = tt

  -- By what comparing found.
  compared-SameRun :
      {id : Text} (found : Option (List Problem)) (r : Run) (e : PhaseFailure)
      → r.run_id ≡ id
      → Yields
          (SameRun id)
          (elim found [ none ↦ throw | some [] ↦ pure (ok r) | some (p ∷ ps) ↦ pure (err e) ])
  compared-SameRun none r e h = Yields-throw
  compared-SameRun (some []) r e h = Yields-pure (ok r) h
  compared-SameRun (some (p ∷ ps)) r e h = Yields-pure (err e) tt

  verified-SameRun : (r : Run) (c a : UciConfigs) → Yields (SameRun r.run_id) (verified r c a)
  unfolding verified
  verified-SameRun r c a =
      compared-SameRun (verify_configs a (declared_configs r.state.config) r.state.keep) _ _ refl

  stage_config-SameRun :
      (run : Run) (current : UciConfigs) → Yields (SameRun run.run_id) (stage_config run current)
  unfolding stage_config check_staged
  stage_config-SameRun run current =
      Yields-option (stage_records run.state current run.managed_files) Yields-throw (λ records.
        Yields-bind (run_steps run (openwrt_configurator.Agent.Verbs.stage records)) (λ s.
          Yields-result s (λ e. Yields-pure (err e) tt)
            (λ started. Yields-bind _ (λ actual.
              Yields-result actual (λ e. Yields-pure (err e) tt)
                (λ configs.
                  verified-SameRun (record run { ran_after = ran_after_in started }) current
                    configs)))))

  configure_steps-SameRun : (run : Run) → Yields (SameRun run.run_id) (configure_steps run)
  unfolding configure_steps
  configure_steps-SameRun run = Yields-bind _ (λ s.
      Yields-result s (λ e. Yields-pure (err e) tt)
        (λ started. Yields-bind _ (λ c.
          Yields-result c (λ e. Yields-pure (err e) tt)
            (λ configs. Yields-bind _ (λ u. stage_config-SameRun run configs)))))

  pub configure_device-SameRun : (run : Run) → Yields (SameRun run.run_id) (configure_device run)
  unfolding configure_device
  configure_device-SameRun run =
      Yields-then (Yields-guarded left_armed_only tt (configure_steps-SameRun run)) (λ r h.
        Yields-same r h (λ e. Yields-bind _ (λ u. Yields-pure (err e) tt))
          (λ a q. Yields-pure (ok a) q))

  pub ensure_time-SameRun :
      (run : Run) (earliest n : ℕ)
      → Yields (SameRun run.run_id) (ensure_time_to_confirm run earliest n)
  unfolding ensure_time_to_confirm
  ensure_time-SameRun run earliest n = Yields-bind _ (λ t.
      Yields-bool (leb (run.minimum_confirm_window_ms * n + t) earliest) (Yields-pure (ok run) refl)
        (Yields-bind _ (λ u. Yields-pure (err _) tt)))

  pub commit_device-SameOrChanged :
      (run : Run) → Yields (SameOrChanged run.run_id) (commit_device run)
  unfolding commit_device finalise
  commit_device-SameOrChanged run = Yields-option run.finalise_records Yields-throw (λ records.
      Yields-guarded committed_only refl (
        Yields-bind _ (λ u. Yields-bind _ (λ a. Yields-option a (Yields-pure (ok run) refl) (λ s.
          Yields-bool s.done (Yields-pure (ok run) refl)
            (Yields-bind _ (λ v. Yields-pure (err _) refl)))))))

  install_agent-SameRun : (run : Run) → Yields (SameRun run.run_id) (install_agent run)
  unfolding install_agent
  install_agent-SameRun run =
      Yields-guarded nothing_left tt
        (Yields-bind _ (λ i. Yields-pure _ (either-SameRun (is_true i) run _ refl)))

  either_err-SameRun :
      {id : Text} (b : Bool) (r : Run) (e : PhaseFailure)
      → r.run_id ≡ id
      → SameRun id (if b then err e else ok r)
  either_err-SameRun true r e h = tt
  either_err-SameRun false r e h = h

  stage_packages-SameRun : (run : Run) → Yields (SameRun run.run_id) (stage_packages run)
  unfolding stage_packages
  stage_packages-SameRun run = Yields-bind _ (λ n.
      Yields-pure _
        (either_err-SameRun (ltb (or_else n 0) (length run.removal_cascade)) run _ refl))

  Yields-list :
      {A B : Type 0} {Q : A → Type 0} {m : M A} {f : B → List B → M A} (l : List B)
      → Yields Q m
      → ((b : B) (bs : List B) → Yields Q (f b bs))
      → Yields Q (elim l [ [] ↦ m | x ∷ xs ↦ f x xs ])
  Yields-list [] hm hf = hm
  Yields-list (x ∷ xs) hm hf = hf x xs

  pub stage_rollback-SameRun : (run : Run) → Yields (SameRun run.run_id) (stage_rollback run)
  unfolding stage_rollback
  stage_rollback-SameRun run = Yields-guarded nothing_left tt (
      Yields-bind _ (λ i.
        Yields-result i (λ e. Yields-pure (err e) tt)
          (λ r.
            Yields-list run.removal_cascade (Yields-pure (ok run) refl)
              (λ p ps. stage_packages-SameRun run))))

  pub arm_rollback-SameRun :
      (run : Run) (timeout : ℕ) → Yields (SameRun run.run_id) (arm_rollback run timeout)
  unfolding arm_rollback
  arm_rollback-SameRun run timeout = Yields-guarded nothing_left tt (
      Yields-option (unarmable (arm_plan run timeout))
        (Yields-bind _ (λ t. Yields-bind _ (λ a. Yields-pure _ (
          either-SameRun (is_true a) (record run { deadline = some (t + timeout * 1000) }) _
            refl))))
        (λ path. Yields-pure (err _) tt))
