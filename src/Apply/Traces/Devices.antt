-- ===== src/Apply/Traces/Devices.antt =====
-- What each phase adds to the log of one device's run.
use openwrt_configurator.Prelude.{
  ℕ, zero, suc, ◌+◌, ◌-◌, Option, none, some, Bool, true, false, leb,
}
use openwrt_configurator.Agent.Verbs.{
  ExecResult, Verb, RollbackMode, reload, reboot, reload_then_reboot,
}
use openwrt_configurator.Agent.Verbs as Verbs
use openwrt_configurator.Apply.Io.{pure}
use openwrt_configurator.Apply.Run.{
  Net, M, Run, Event, sent, DeviceStep, step, reverted, rolling_back, rolled_back, recovering,
  confirmed,
}
use openwrt_configurator.Apply.Reconnect.{
  in_time, reconnect_loop, reconnect_until, connect_to, reachable_session, settle,
  reconnect_settled, rounds, reconnect_interval_ms,
}
use openwrt_configurator.Apply.Recover.{
  restored_session, await_recovery, wait_for_recovery, reconnect, recover_after_deadline, wake,
  wake_over, wake_fresh, recovered_verb, finish_verb, disarm_verb, is_true, roll_back_now,
  finish_run, call_live, report_disarm, disarm_live, Disarm, disarmed, fired, wake_verb,
}
use openwrt_configurator.Apply.Traces.{
  Emits, IsMild, Emits-pure, Emits-throw, Emits-attempt, Emits-bind, Emits-asks, Emits-now,
  Emits-sleep, Emits-emit, Emits-call, Emits-bool, Emits-option,
}

module _ ⦃net : Net⦄ (P : Event → Type 0) (mild : (e : Event) → IsMild e → P e) where
  in_time-Emits : (deadline : ℕ) (s : net.Session) → Emits P (in_time deadline s)
  unfolding in_time
  in_time-Emits deadline s =
      Emits-bind Emits-now (λ t. Emits-bool (leb deadline t) Emits-throw (Emits-pure s))

  reconnect_loop-Emits :
      (fuel : ℕ) (connect : M net.Session) (deadline : ℕ)
      → Emits P connect
      → Emits P (reconnect_loop fuel connect deadline)
  unfolding reconnect_loop
  reconnect_loop-Emits zero connect deadline h = Emits-throw
  reconnect_loop-Emits (suc fuel) connect deadline h = Emits-bind Emits-now (λ t.
      Emits-bool (leb deadline t) Emits-throw (
        Emits-bind (Emits-attempt (Emits-bind h (λ s. in_time-Emits deadline s))) (λ tried.
          Emits-option tried
            (Emits-bind Emits-now (λ u.
              Emits-bool (leb deadline (u + reconnect_interval_ms)) Emits-throw (
                Emits-bind (Emits-sleep reconnect_interval_ms)
                  (λ _. reconnect_loop-Emits fuel connect deadline h))))
            (λ s. Emits-pure s))))

  reconnect_until-Emits :
      (connect : M net.Session) (deadline : ℕ)
      → Emits P connect
      → Emits P (reconnect_until connect deadline)
  unfolding reconnect_until
  reconnect_until-Emits connect deadline h =
      Emits-bind Emits-now (λ t. reconnect_loop-Emits (rounds deadline t) connect deadline h)

  connect_to-Emits : (run : Run) → Emits P (connect_to run)
  connect_to-Emits run = Emits-asks (net.connect run.hostname)

  reachable_session-Emits : (run : Run) → Emits P (reachable_session run)
  unfolding reachable_session
  reachable_session-Emits run = Emits-bind (connect_to-Emits run) (λ s.
      Emits-bool (net.is_local s)
        (Emits-bind (Emits-asks (net.answers_ssh s run.ip_address))
          (λ b. Emits-bool b (Emits-pure s) Emits-throw))
        (Emits-pure s))

  pub reconnect-Emits : (run : Run) (seconds : ℕ) → Emits P (reconnect run seconds)
  unfolding reconnect
  reconnect-Emits run seconds =
      Emits-bind Emits-now (λ t. reconnect_until-Emits (connect_to run) _ (connect_to-Emits run))

  settle-Emits : (s : net.Session) (deadline : ℕ) → Emits P (settle s deadline)
  unfolding settle
  settle-Emits s deadline =
      Emits-bind Emits-now
        (λ t. Emits-bool (leb 13000 (deadline - t)) (Emits-asks _) (Emits-pure tt))

  pub reconnect_settled-Emits :
      (run : Run) (before : net.Session → M Unit) (deadline : ℕ)
      → ((s : net.Session) → Emits P (before s))
      → Emits P (reconnect_settled run before deadline)
  unfolding reconnect_settled
  reconnect_settled-Emits run before deadline h =
      Emits-bind (reconnect_until-Emits (connect_to run) deadline (connect_to-Emits run)) (λ first.
        Emits-bind (Emits-attempt (Emits-bind (h first) (λ _. settle-Emits first deadline))) (λ _.
          reconnect_until-Emits (reachable_session run) deadline (reachable_session-Emits run)))

  restored_session-Emits : (run : Run) → Emits P (restored_session run)
  unfolding restored_session
  restored_session-Emits run = Emits-bind (reachable_session-Emits run) (λ s.
      Emits-bind (Emits-call s (recovered_verb run.run_id) (λ r. mild _ tt))
        (λ told. Emits-bool (is_true told) (Emits-pure s) Emits-throw))

  step-Emits : (run : Run) (s : DeviceStep) → Emits P (step run s)
  step-Emits run s = Emits-emit _ (mild _ tt)

  await_recovery-Emits : (run : Run) → Emits P (await_recovery run)
  unfolding await_recovery
  await_recovery-Emits run = Emits-bind Emits-now (λ t.
      Emits-bind
        (Emits-attempt
          (reconnect_until-Emits (restored_session run) _ (restored_session-Emits run)))
        (λ back.
          Emits-option back (Emits-bind (step-Emits run recovering) (λ _. Emits-pure false))
            (λ s. Emits-bind (step-Emits run rolled_back) (λ _. Emits-pure true))))

  wait_for_recovery_by :
      (run : Run) (mode : RollbackMode)
      → Emits P (elim mode [ reboot ↦ pure false | _ ↦ await_recovery run ])
  wait_for_recovery_by run reload = await_recovery-Emits run
  wait_for_recovery_by run reboot = Emits-pure false
  wait_for_recovery_by run reload_then_reboot = await_recovery-Emits run

  pub wait_for_recovery-Emits : (run : Run) → Emits P (wait_for_recovery run)
  unfolding wait_for_recovery
  wait_for_recovery-Emits run = wait_for_recovery_by run run.rollback_mode

  pub recover_after_deadline-Emits : (run : Run) → Emits P (recover_after_deadline run)
  unfolding recover_after_deadline
  recover_after_deadline-Emits run =
      Emits-bind Emits-now (λ t. Emits-bind (Emits-sleep _) (λ _. wait_for_recovery-Emits run))

  wake-Emits : (run : Run) (s : net.Session) → Emits P (wake run s)
  unfolding wake
  wake-Emits run s =
      Emits-bind (Emits-call s (wake_verb run.run_id) (λ r. mild _ tt)) (λ w. Emits-pure _)

  wake_over-Emits : (run : Run) (s : Option net.Session) → Emits P (wake_over run s)
  unfolding wake_over
  wake_over-Emits run none = Emits-pure false
  wake_over-Emits run (some s) = wake-Emits run s

  wake_fresh-Emits : (run : Run) → Emits P (wake_fresh run)
  unfolding wake_fresh
  wake_fresh-Emits run =
      Emits-bind (Emits-attempt (Emits-bind (reconnect-Emits run 15) (λ s. wake-Emits run s)))
        (λ r. Emits-pure _)

  pub roll_back_now-Emits : (run : Run) (s : Option net.Session) → Emits P (roll_back_now run s)
  unfolding roll_back_now
  roll_back_now-Emits run s = Emits-bind (step-Emits run rolling_back) (λ _.
      Emits-bind (wake_over-Emits run s) (λ woken.
        Emits-bind (Emits-bool woken (Emits-pure true) (wake_fresh-Emits run)) (λ again.
          Emits-bool again (wait_for_recovery-Emits run) (recover_after_deadline-Emits run))))

  pub finish_run-Emits : (run : Run) (s : net.Session) → Emits P (finish_run run s)
  unfolding finish_run
  finish_run-Emits run s =
      Emits-bind (Emits-call s (finish_verb run.run_id) (λ r. mild _ tt)) (λ _. Emits-pure tt)

  pub call_live-Emits :
      {A : Type 0} (run : Run) (s : net.Session) (v : Verb A)
      → ((r : Option ExecResult) → P (sent v.run_id v.command r))
      → Emits P (call_live run s v)
  unfolding call_live
  call_live-Emits run s v h = Emits-bind (Emits-call s v h) (λ first.
      Emits-option first
        (Emits-bind (Emits-attempt (reconnect-Emits run 15)) (λ fresh.
          Emits-option fresh (Emits-pure none) (λ other.
            Emits-bind (Emits-call other v h)
              (λ again. Emits-option again (Emits-pure none) (λ a. Emits-pure _)))))
        (λ a. Emits-pure _))

  pub report_disarm-Emits : (run : Run) (d : Disarm) (u : Bool) → Emits P (report_disarm run d u)
  unfolding report_disarm
  report_disarm-Emits run d true = step-Emits run reverted
  report_disarm-Emits run fired false = step-Emits run rolling_back
  report_disarm-Emits run disarmed false = step-Emits run confirmed

  pub disarm_live-Emits :
      (run : Run) (s : net.Session) (u : Bool)
      → ((r : Option ExecResult) → P (sent run.run_id Verbs.disarm r))
      → Emits P (disarm_live run s u)
  unfolding disarm_live
  disarm_live-Emits run s u h =
      Emits-bind (call_live-Emits run s (disarm_verb run.run_id) h) (λ got.
        Emits-option got (Emits-pure none)
          (λ a. Emits-bind (report_disarm-Emits run a.0 u) (λ _. Emits-pure _)))
