-- ===== src/Apply/Traces/Verified.antt =====
-- The guarantee of `configureSteps` in src/apply/configure.ts, checked rather than assumed.
use mathlib.Core.Path.{subst}
use openwrt_configurator.Prelude.{
  All, lookup, or_else, keys, Text, Option, none, some, List, [], ◌∷◌, true, false, ◌≡◌, refl, sym,
  ap, ◌∙◌, arith, is_empty, not, select,
}
use openwrt_configurator.Uci.{UciConfigs, is_kept}
use openwrt_configurator.Uci.Verify.{Problem, verify_configs}
use openwrt_configurator.Uci.Verify.Sound.{OnDevice, verify_configs-OnDevice}
use openwrt_configurator.Engine.Declared.{declared_configs}
use openwrt_configurator.Agent.{AgentRecord}
use openwrt_configurator.Agent.Script.{stage_records}
use openwrt_configurator.Agent.Verbs.{Command, Steps}
use openwrt_configurator.Agent.Verbs as Verbs
use openwrt_configurator.Apply.Io.{Outcome, returned, thrown, pure, throw, ◌>>=◌}
use openwrt_configurator.Apply.Io.Returns.{pure-returned, throw-returned, bind-returned}
use openwrt_configurator.Apply.Run.{
  Net, World, M, Run, PhaseFailure, Result, ok, err, asks, call, guarded, step, configuring,
}
use openwrt_configurator.Apply.Configure.{
  readable, read_configs, ran_after_in, verified, check_staged, stage_config, run_steps,
  configure_steps, configure_device, left_armed_only, steps_verb, steps_result, revert_staged,
}
use openwrt_configurator.Apply.Traces.Succeeds.{
  is_ok, ok-if, is_empty-nil, Succeeds, err-Succeeds, ok-Succeeds, some-Succeeds, then-Succeeds,
  guarded-Succeeds,
}

module _ ⦃net : Net⦄ where
  -- A verb of steps sent to the run's device was answered, with all of them done.
  abbrev pub Done : Run → Command → World net.State → Steps → World net.State → Type 0
  Done run c w s v =
      (call run.ssh (steps_verb run.run_id c) w ≡ (returned (some s), v)) × (s.done ≡ true)

  -- The configs that the run's device reports, each unreadable one kept, and nothing else happens.
  abbrev pub Reads : Run → World net.State → UciConfigs → World net.State → Type 0
  Reads run w configs v =
      (unreadable : List Text) × ((net.uci_configs run.ssh w.state
          ≡ (some (configs, unreadable), v.state))
        × ((v.log ≡ w.log)
            × (select (λ key. not (is_kept run.state.keep key none)) unreadable ≡ [])))

  asked :
      {A : Type 0} (f : net.State → Option A × net.State) (w v : World net.State) (a : A)
      → asks f w ≡ (returned a, v)
      → (f w.state ≡ (some a, v.state)) × (v.log ≡ w.log)
  unfolding asks
  asked {A} f w v a e = (
    ap (λ o. (o, (f w.state).1)) (some-returned (f w.state).0 (ap (λ p. p.0) e))
        ∙ ap (λ p. (some a, p.1.state)) e,
    sym (ap (λ p. p.1.log) e),
  )
    where
      held_in : Outcome A → Option A
      held_in (returned x) = some x
      held_in thrown = none

      some-returned :
          (o : Option A)
          → (elim o as (λ x. Outcome A) [ none ↦ thrown | some x ↦ returned x ]) ≡ returned a
          → o ≡ some a
      some-returned none k = ap held_in k
      some-returned (some x) k = ap held_in k

  steps_result-done :
      (run : Run) (o : Option Steps) (started : List Text)
      → steps_result run o ≡ ok started
      → (s : Steps) × ((o ≡ some s) × ((s.done ≡ true) × (s.started ≡ started)))
  unfolding steps_result
  steps_result-done run none started e = ground (arith, ap is_ok e)
  steps_result-done run (some s) started e =
      let (d, l) = ok-if s.done s.started started _ e in (s, (refl, (d, l)))

  run_steps-Done :
      (run : Run) (c : Command) (started : List Text) (w v : World net.State)
      → Succeeds (run_steps run c) w started v
      → (s : Steps) × (Done run c w s v × (s.started ≡ started))
  unfolding run_steps
  run_steps-Done run c started w v h =
      let (o, (u, (q, k))) = bind-returned _ (λ o. pure (steps_result run o)) w (ok started) v h in
      let (e, f) = pure-returned (steps_result run o) (ok started) u v k in
      let (s, (p, (d, l))) = steps_result-done run o started e in
      (s, ((q ∙ ap (λ x. (returned x, u)) p ∙ ap (λ x. (returned (some s), x)) f, d), l))

  read_configs-Reads :
      (run : Run) (configs : UciConfigs) (w v : World net.State)
      → Succeeds (read_configs run) w configs v
      → Reads run w configs v
  unfolding read_configs readable
  read_configs-Reads run configs w v h =
      let ((read, unreadable), (u, (q, k))) =
        bind-returned (asks (net.uci_configs run.ssh)) (λ r. pure (readable run r)) w (ok configs) v
          h in
      let (e, f) = pure-returned (readable run (read, unreadable)) (ok configs) u v k in
      let (l, m) = ok-if (is_empty _) read configs _ e in
      let (a, b) = asked (net.uci_configs run.ssh) w u (read, unreadable) q in
      (
        unreadable,
        (
          a
              ∙ ap (λ c. (some (c, unreadable), u.state)) m
              ∙ ap (λ x. (some (configs, unreadable), x.state)) f,
          (sym (ap (λ x. x.log) f) ∙ b, is_empty-nil _ l),
        ),
      )

  compared-ok :
      (found : Option (List Problem)) (a b r : Result Run PhaseFailure) (w v : World net.State)
      → is_ok b ≡ false
      → is_ok r ≡ true
      → ◌≡◌ {A = Outcome (Result Run PhaseFailure) × World net.State}
          ((elim found as (λ x. M (Result Run PhaseFailure)) [
            | none ↦ throw
            | some [] ↦ pure a
            | some (p ∷ ps) ↦ pure b
          ])
            w)
          (returned r, v)
      → (found ≡ some []) × (w ≡ v)
  compared-ok none a b r w v f t h = elim (throw-returned r w v h) [ ]
  compared-ok (some []) a b r w v f t h = (refl, (pure-returned a r w v h).1)
  compared-ok (some (p ∷ ps)) a b r w v f t h =
      ground (arith, f, t, ap is_ok (pure-returned b r w v h).0)

  verified-same :
      (run r : Run) (current actual : UciConfigs) (w v : World net.State)
      → Succeeds (verified run current actual) w r v
      → (verify_configs actual (declared_configs run.state.config) run.state.keep ≡ some [])
        × (w ≡ v)
  unfolding verified
  verified-same run r current actual w v h =
      compared-ok (verify_configs actual (declared_configs run.state.config) run.state.keep) _ _
        (ok r) w v refl refl h

  -- Every declared config is on the device as it was read, where it has a section.
  abbrev pub HasDeclared : Run → UciConfigs → Type 0
  HasDeclared run actual =
      All
        (λ key.
          OnDevice run.state.keep key (lookup key actual)
            (or_else (lookup key (declared_configs run.state.config)) []))
        (keys (declared_configs run.state.config))

  -- Prepared, read, staged and read again, in this order, the last as the last thing that happened;
  -- comparing what it gave with what is declared found no problem, and all of that is there.
  abbrev pub IsVerified : Run → World net.State → World net.State → Type 0
  IsVerified run w v =
      (prepared staged : Steps) × ((started seen next after : World net.State) × ((current
            actual : UciConfigs)
          × ((records : List AgentRecord) × (Done run (Verbs.prepare run.prepare_records) w prepared
                  started
                × Reads run started current seen
                × (step run configuring seen ≡ (returned tt, next))
                × (stage_records run.state current run.managed_files ≡ some records)
                × Done run (Verbs.stage records) next staged after
                × Reads run after actual v
                × (verify_configs actual (declared_configs run.state.config) run.state.keep
                    ≡ some [])
                × HasDeclared run actual))))

  check_staged-Reads :
      (run r : Run) (current : UciConfigs) (w v : World net.State)
      → Succeeds (check_staged run current) w r v
      → (actual : UciConfigs) × (Reads run w actual v
          × (verify_configs actual (declared_configs run.state.config) run.state.keep ≡ some []))
  unfolding check_staged
  check_staged-Reads run r current w v h =
      let (actual, (u, (q, k))) = then-Succeeds (read_configs run) (verified run current) r w v h in
      let (e, f) = verified-same run r current actual u v k in
      (actual, (subst (Reads run w actual) f (read_configs-Reads run actual w u q), e))

  -- From the staging on.
  abbrev Staged : Run → UciConfigs → World net.State → World net.State → Type 0
  Staged run current w v =
      (records : List AgentRecord) × ((staged : Steps) × ((after : World net.State)
          × ((actual : UciConfigs) × ((stage_records run.state current run.managed_files
                  ≡ some records)
                × (Done run (Verbs.stage records) w staged after
                    × (Reads run after actual v
                        × (verify_configs actual (declared_configs run.state.config) run.state.keep
                            ≡ some [])))))))

  stage_config-Staged :
      (run r : Run) (current : UciConfigs) (w v : World net.State)
      → Succeeds (stage_config run current) w r v
      → Staged run current w v
  unfolding stage_config
  stage_config-Staged run r current w v h =
      let (records, (e, k)) =
        some-Succeeds (stage_records run.state current run.managed_files)
          (λ records. run_steps run (Verbs.stage records) >>= λ s. elim s [
            | err e ↦ pure (err e)
            | ok started ↦ check_staged (record run { ran_after = ran_after_in started }) current
          ])
          r w v h in
      let (started, (u, (q, l))) =
        then-Succeeds (run_steps run (Verbs.stage records))
          (λ started. check_staged (record run { ran_after = ran_after_in started }) current) r w v
          k in
      let (s, (d, m)) = run_steps-Done run (Verbs.stage records) started w u q in
      let (actual, (a, b)) =
        check_staged-Reads (record run { ran_after = ran_after_in started }) r current u v l in
      (records, (s, (u, (actual, (e, (d, (a, b)))))))

  configure_steps-IsVerified :
      (run r : Run) (w v : World net.State)
      → Succeeds (configure_steps run) w r v
      → IsVerified run w v
  unfolding configure_steps
  configure_steps-IsVerified run r w v h =
      let (started, (a, (q, k))) =
        then-Succeeds (run_steps run (Verbs.prepare run.prepare_records))
          (λ started. read_configs run >>= λ c. elim c [
            | err e ↦ pure (err e)
            | ok configs ↦ step run configuring >>= λ u. stage_config run configs
          ])
          r w v h in
      let (s, (d, m)) = run_steps-Done run (Verbs.prepare run.prepare_records) started w a q in
      let (current, (b, (p, l))) =
        then-Succeeds (read_configs run)
          (λ configs. step run configuring >>= λ u. stage_config run configs) r a v k in
      let (t, (c, (f, g))) =
        bind-returned (step run configuring) (λ u. stage_config run current) b (ok r) v l in
      let (records, (staged, (after, (actual, (e, (x, (y, z))))))) =
        stage_config-Staged run r current c v g in
      (
        s,
        staged,
        (
          a,
          b,
          c,
          after,
          (
            current,
            actual,
            (
              records,
              (
                d,
                read_configs-Reads run current a b p,
                f,
                e,
                x,
                y,
                z,
                verify_configs-OnDevice actual (declared_configs run.state.config) run.state.keep z,
              ),
            ),
          ),
        ),
      )

  -- Where configuring a device succeeds, over any network: once its packages and files were prepared,
  -- its config was read and the batch that makes it the declared one was staged with all steps done;
  -- then the config was read again, as the last thing that happened, with each unreadable config kept.
  -- Comparing what was read then with the declared config found no problem: each declared config that
  -- has a section is there, the sections of types that are not kept in their order and with their
  -- options and no other, those of kept types with their options at least.
  pub configure_device-IsVerified :
      (run r : Run) (w v : World net.State)
      → configure_device run w ≡ (returned (ok r), v)
      → IsVerified run w v
  unfolding configure_device
  configure_device-IsVerified run r w v h =
      let (x, (u, (q, k))) =
        bind-returned (guarded (configure_steps run) left_armed_only) _ w (ok r) v h in
      let (a, (e, l)) =
        ok-Succeeds x (λ e. revert_staged run >>= λ t. pure (err e)) (λ b. pure (ok b)) r u v
          (λ e n. reverted e u n) k in
      configure_steps-IsVerified run a w v (
        guarded-Succeeds (configure_steps run) left_armed_only a w v (
          q
          ∙ ap (λ y. (returned y, u)) e
          ∙ ap (λ y. (returned (ok a), y)) (pure-returned (ok a) (ok r) u v l).1))
    where
      reverted :
          (e : PhaseFailure) (y : World net.State)
          → ¬ (Succeeds (revert_staged run >>= λ t. pure (err e)) y r v)
      reverted e y n =
          let (t, (z, (f, g))) =
            bind-returned (revert_staged run) (λ t. pure (err e)) y (ok r) v n in
          err-Succeeds e r z v g
