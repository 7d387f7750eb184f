-- ===== src/Apply/Traces/Undo.antt =====
-- What the undoing of a run adds to the log: disarms of the devices that were never changed, and
-- nothing else but mild events.
use mathlib.Core.List.{reverse}
use openwrt_configurator.Prelude.{
  ℕ, Option, none, some, List, [], ◌∷◌, ◌++◌, ◌+◌, ◌*◌, Bool, true, false, ◌≡◌, refl, All, map, any,
}
use openwrt_configurator.Agent.Verbs.{ExecResult, Asleep}
use openwrt_configurator.Agent.Verbs as Verbs
use openwrt_configurator.Apply.Io.{pure, ◌>>◌}
use openwrt_configurator.Apply.Run.{Net, M, Run, Event, sent, ok, err, PhaseFailure}
use openwrt_configurator.Apply.Recover.{
  Disarm, disarmed, fired, call_live, disarm_live, wait_for_recovery, recover_after_deadline,
}
use openwrt_configurator.Apply.Network.Abort.{
  Committed, roll_back_all, await_all, stand_down, stand_down_all, abort,
}
use openwrt_configurator.Apply.Network.Phases.{
  Confirmed, Asked, asked_device, with_session, without_session, undo, is_changed, unconfirmed,
  confirm_all, fired_early, ready_to_disarm, asleep_verb, has_fired, fires_at, is_late, await_lost,
  lost_outcomes, discard_all, await_stray, stop_arming,
}
use openwrt_configurator.Apply.Traces.{
  Emits, IsMild, Emits-pure, Emits-bind, Emits-now, Emits-bool, Emits-option,
}
use openwrt_configurator.Apply.Traces.Devices.{
  wait_for_recovery-Emits, recover_after_deadline-Emits, roll_back_now-Emits, finish_run-Emits,
  call_live-Emits, disarm_live-Emits,
}
use openwrt_configurator.Apply.Traces.Phases.{
  Emits-result, confirm_device-Emits, discard_rollback-Emits,
}

module _ ⦃net : Net⦄ {P : Event → Type 0} where
  pub Emits-cases :
      {A : Type 0} {m n : M A} (b : Bool)
      → (b ≡ true → Emits P m)
      → (b ≡ false → Emits P n)
      → Emits P (elim b [ true ↦ m | false ↦ n ])
  Emits-cases true hm hn = hm refl
  Emits-cases false hm hn = hn refl

module _ ⦃net : Net⦄ (P : Event → Type 0) (mild : (e : Event) → IsMild e → P e) where
  -- A disarm of this run may be added.
  abbrev pub MayDisarm : Run → Type 0
  MayDisarm run = (r : Option ExecResult) → P (sent run.run_id Verbs.disarm r)

  roll_back_all-Emits : (l : List Committed) → Emits P (roll_back_all l)
  unfolding roll_back_all
  roll_back_all-Emits [] = Emits-pure []
  roll_back_all-Emits ((run, s) ∷ rest) =
      Emits-bind (roll_back_now-Emits P mild run s)
        (λ b. Emits-bind (roll_back_all-Emits rest) (λ l. Emits-pure _))

  await_all-Emits : (l : List Run) → Emits P (await_all l)
  unfolding await_all
  await_all-Emits [] = Emits-pure []
  await_all-Emits (run ∷ rest) =
      Emits-bind (recover_after_deadline-Emits P mild run)
        (λ b. Emits-bind (await_all-Emits rest) (λ l. Emits-pure _))

  stand_down_after :
      (run : Run) (o : Option (Disarm × net.Session))
      → Emits P (elim o [
        | none ↦ recover_after_deadline run
        | some (disarmed, session) ↦
            openwrt_configurator.Apply.Recover.finish_run run session >> pure true
        | some (fired, session) ↦ wait_for_recovery run
      ])
  stand_down_after run none = recover_after_deadline-Emits P mild run
  stand_down_after run (some (disarmed, s)) =
      Emits-bind (finish_run-Emits P mild run s) (λ _. Emits-pure true)
  stand_down_after run (some (fired, s)) = wait_for_recovery-Emits P mild run

  stand_down-Emits : (run : Run) → MayDisarm run → Emits P (stand_down run)
  unfolding stand_down
  stand_down-Emits run h =
      Emits-bind (disarm_live-Emits P mild run run.ssh true h) (stand_down_after run)

  stand_down_all-Emits : (l : List Run) → All MayDisarm l → Emits P (stand_down_all l)
  unfolding stand_down_all
  stand_down_all-Emits [] h = Emits-pure []
  stand_down_all-Emits (run ∷ rest) h =
      Emits-bind (stand_down-Emits run h.0)
        (λ b. Emits-bind (stand_down_all-Emits rest h.1) (λ l. Emits-pure _))

  pub abort-Emits :
      (committed : List Committed) (never unreachable : List Run)
      → All MayDisarm never
      → Emits P (abort committed never unreachable)
  unfolding abort
  abort-Emits committed never unreachable h =
      Emits-bind (roll_back_all-Emits (reverse committed)) (λ a.
        Emits-bind (await_all-Emits unreachable)
          (λ b. Emits-bind (stand_down_all-Emits never h) (λ c. Emits-pure _)))

  -- The failed device is disarmed only where it was not changed.
  pub undo-Emits :
      (committed : List Run) (run : Run) (rest : List Run) (e : PhaseFailure)
      → (is_changed e ≡ false → MayDisarm run)
      → All MayDisarm rest
      → Emits P (undo committed run rest e)
  unfolding undo
  undo-Emits committed run rest e h hs =
      Emits-bind
        (Emits-cases (is_changed e)
          (λ _. abort-Emits (map without_session (committed ++ run ∷ [])) rest [] hs)
          (λ f. abort-Emits (map without_session committed) (run ∷ rest) [] (h f, hs)))
        (λ o. Emits-pure _)

  unconfirmed-Emits :
      (done : List Confirmed) (run : Run) (rest : List Run) (e : PhaseFailure)
      → Emits P (unconfirmed done run rest e)
  unfolding unconfirmed
  unconfirmed-Emits done run rest e =
      Emits-bind
        (Emits-bool e.left.roll_back_now
          (abort-Emits (map with_session done ++ (run, none) ∷ map without_session rest) [] [] tt)
          (abort-Emits (map with_session done ++ map without_session rest) [] (run ∷ []) tt))
        (λ o. Emits-pure _)

  -- Confirming disarms no device, whether it fails or not.
  pub confirm_all-Emits :
      (done : List Confirmed) (l : List Run) (earliest : ℕ) → Emits P (confirm_all done l earliest)
  unfolding confirm_all
  confirm_all-Emits done [] earliest = Emits-pure (ok done)
  confirm_all-Emits done (run ∷ rest) earliest =
      Emits-bind (confirm_device-Emits P mild (record run { deadline = some earliest })) (λ r.
        Emits-result r
          (λ e. Emits-bind (unconfirmed-Emits done run rest e) (λ f. Emits-pure (err f)))
          (λ s. confirm_all-Emits (done ++ (run, s) ∷ []) rest earliest))

  fired_early-Emits :
      (ready : List Asked) (run : Run) (rest : List Confirmed)
      → Emits P (fired_early ready run rest)
  unfolding fired_early
  fired_early-Emits ready run rest =
      Emits-bind
        (abort-Emits
          (map (λ (a : Asked). with_session (asked_device a)) ready ++ map with_session rest) [] []
          tt)
        (λ o. Emits-bind (wait_for_recovery-Emits P mild run) (λ b. Emits-pure _))

  -- Nor does asking whether they sleep.
  pub ready_to_disarm-Emits :
      (ready : List Asked) (l : List Confirmed) → Emits P (ready_to_disarm ready l)
  unfolding ready_to_disarm
  ready_to_disarm-Emits ready [] = Emits-pure _
  ready_to_disarm-Emits ready ((run, session) ∷ rest) = Emits-bind Emits-now (λ t.
      Emits-bind (call_live-Emits P mild run session (asleep_verb run.run_id) (λ r. mild _ tt))
        (λ got.
          Emits-option got
            (Emits-bind
              (abort-Emits
                (map (λ (a : Asked). with_session (asked_device a)) ready ++ map with_session rest)
                [] (run ∷ []) tt)
              (λ o. Emits-pure _))
            (λ p.
              Emits-bool (has_fired p.0)
                (Emits-bind (fired_early-Emits ready run rest) (λ f. Emits-pure _))
                (Emits-bind Emits-now (λ u.
                  Emits-bool
                    (any (λ (a : Asked). is_late u a.1)
                      (ready ++ ((run, p.1), fires_at t p.0) ∷ []))
                    (Emits-bind
                      (abort-Emits
                        (map (λ (a : Asked). with_session (asked_device a))
                            (ready ++ ((run, p.1), fires_at t p.0) ∷ [])
                          ++ map with_session rest)
                        [] [] tt)
                      (λ o. Emits-pure _))
                    (ready_to_disarm-Emits (ready ++ ((run, p.1), fires_at t p.0) ∷ []) rest))))))

  await_lost-Emits : (run : Run) (b : Bool) → Emits P (await_lost run b)
  unfolding await_lost
  await_lost-Emits run true = wait_for_recovery-Emits P mild run
  await_lost-Emits run false = recover_after_deadline-Emits P mild run

  pub lost_outcomes-Emits : (l : List (Run × Bool)) → Emits P (lost_outcomes l)
  unfolding lost_outcomes
  lost_outcomes-Emits [] = Emits-pure []
  lost_outcomes-Emits ((run, b) ∷ rest) =
      Emits-bind (await_lost-Emits run b)
        (λ o. Emits-bind (lost_outcomes-Emits rest) (λ l. Emits-pure _))

  discard_all-Emits : (l : List Run) → Emits P (discard_all l)
  unfolding discard_all
  discard_all-Emits [] = Emits-pure []
  discard_all-Emits (run ∷ rest) =
      Emits-bind (discard_rollback-Emits P mild run)
        (λ b. Emits-bind (discard_all-Emits rest) (λ l. Emits-pure _))

  await_stray-Emits :
      (from : Option ℕ) (timeout : ℕ) (l : List (Run × Bool)) → Emits P (await_stray from timeout l)
  unfolding await_stray
  await_stray-Emits none timeout l = Emits-pure tt
  await_stray-Emits (some from) timeout [] = Emits-pure tt
  await_stray-Emits (some from) timeout ((run, true) ∷ rest) = Emits-pure tt
  await_stray-Emits (some from) timeout ((run, false) ∷ rest) =
      Emits-bind
        (recover_after_deadline-Emits P mild
          (record run { deadline = some (from + timeout * 1000) }))
        (λ b. Emits-pure tt)

  pub stop_arming-Emits :
      (armed pending : List Run) (from : Option ℕ) (timeout : ℕ)
      → All MayDisarm armed
      → Emits P (stop_arming armed pending from timeout)
  unfolding stop_arming
  stop_arming-Emits armed pending from timeout h = Emits-bind (abort-Emits [] armed [] h) (λ o.
      Emits-bind (discard_all-Emits pending)
        (λ gone. Emits-bind (await_stray-Emits from timeout gone) (λ u. Emits-pure _)))
