-- ===== src/Apply/Recover.antt =====
-- src/apply/recover.ts: disarm, and the ways a committed change is undone.
use openwrt_configurator.Prelude.{
  Text, ℕ, ◌+◌, ◌-◌, ◌*◌, codes, Option, none, some, Bool, true, false, or_else, if◌then◌else◌,
}
use openwrt_configurator.Agent.Verbs.{
  RollbackMode, reload, reboot, reload_then_reboot, Command, Verb, ExecResult, verb, says,
}
use openwrt_configurator.Agent.Verbs as Verbs
use openwrt_configurator.Apply.Io.{pure, throw, attempt, ◌>>=◌, ◌>>◌}
use openwrt_configurator.Apply.Run.{
  Net, M, Run, now, sleep, call, step, reverted, rolling_back, rolled_back, recovering, confirmed,
}
use openwrt_configurator.Apply.Reconnect.{reconnect_until, reachable_session, connect_to}

abbrev pub is_true : Option Bool → Bool
is_true none = false
is_true (some b) = b

pub data Disarm : Type 0 where
  disarmed fired : Disarm

-- `"disarmed"` when the device says so, else `"fired"`.
abbrev pub disarm_of : ExecResult → Disarm
disarm_of r = if says (codes "ONC_DISARMED") r then disarmed else fired

abbrev pub wake_verb : Text → Verb Bool
wake_verb id = verb id Verbs.wake (says (codes "ONC_WOKEN"))

abbrev pub recovered_verb : Text → Verb Bool
recovered_verb id = verb id Verbs.recovered (says (codes "ONC_RECOVERED"))

abbrev pub finish_verb : Text → Verb Bool
finish_verb id = verb id Verbs.finish (says (codes "ONC_DONE"))

abbrev pub disarm_verb : Text → Verb Disarm
disarm_verb id = verb id Verbs.disarm disarm_of

module _ ⦃net : Net⦄ where
  -- The session is one only once the device says that it has restored.
  unfoldable pub restored_session : Run → M net.Session
  unfolding reachable_session
  restored_session run = do
    session ← reachable_session run
    told ← call session (recovered_verb run.run_id)
    elim (is_true told) [ true ↦ pure session | false ↦ throw ]

  unfoldable pub await_recovery : Run → M Bool
  unfolding restored_session reconnect_until
  await_recovery run = do
    t ← now
    back ← attempt (reconnect_until (restored_session run) (t + run.recover_seconds * 1000 + 60000))
    elim back [
      | some session ↦ step run rolled_back >> pure true
      | none ↦ step run recovering >> pure false
    ]

  -- Whether it came back.
  unfoldable pub wait_for_recovery : Run → M Bool
  unfolding await_recovery
  wait_for_recovery run = elim run.rollback_mode [ reboot ↦ pure false | _ ↦ await_recovery run ]

  unfoldable pub reconnect : Run → ℕ → M net.Session
  unfolding reconnect_until
  reconnect run seconds = do t ← now; reconnect_until (connect_to run) (t + seconds * 1000)

  unfoldable pub recover_after_deadline : Run → M Bool
  unfolding wait_for_recovery
  recover_after_deadline run = do t ← now; sleep (or_else run.deadline 0 - t); wait_for_recovery run

  unfoldable pub wake : Run → net.Session → M Bool
  wake run live = do woken ← call live (wake_verb run.run_id); pure (is_true woken)

  unfoldable pub wake_over : Run → Option net.Session → M Bool
  unfolding wake
  wake_over run none = pure false
  wake_over run (some session) = wake run session

  unfoldable pub wake_fresh : Run → M Bool
  unfolding wake reconnect
  wake_fresh run = do r ← attempt (reconnect run 15 >>= wake run); pure (is_true r)

  -- Undo a committed change now: wake the watchdog, then wait for the device to recover.
  unfoldable pub roll_back_now : Run → Option net.Session → M Bool
  unfolding wake_over wake_fresh wait_for_recovery recover_after_deadline
  roll_back_now run session = do
    step run rolling_back
    woken ← wake_over run session
    again ← elim woken [ true ↦ pure true | false ↦ wake_fresh run ]
    elim again [ true ↦ wait_for_recovery run | false ↦ recover_after_deadline run ]

  unfoldable pub finish_run : Run → net.Session → M Unit
  finish_run run session = call session (finish_verb run.run_id) >> pure tt

  -- A verb over the given session, else over a new one.
  unfoldable pub call_live :
      {A : Type 0} → Run → net.Session → Verb A → M (Option (A × net.Session))
  unfolding reconnect
  call_live run session v = do
    first ← call session v
    elim first [
      | some a ↦ pure (some (a, session))
      | none ↦ do
        fresh ← attempt (reconnect run 15)
        elim fresh [
          | none ↦ pure none
          | some other ↦ do
            again ← call other v
            elim again [ none ↦ pure none | some a ↦ pure (some (a, other)) ]
        ]
    ]

  unfoldable pub report_disarm : Run → Disarm → Bool → M Unit
  report_disarm run result true = step run reverted
  report_disarm run fired false = step run rolling_back
  report_disarm run disarmed false = step run confirmed

  -- Stand the watchdog down; `none` where no session got in.
  unfoldable pub disarm_live : Run → net.Session → Bool → M (Option (Disarm × net.Session))
  unfolding call_live report_disarm
  disarm_live run session untouched = do
    got ← call_live run session (disarm_verb run.run_id)
    elim got [
      | none ↦ pure none
      | some answer ↦ report_disarm run answer.0 untouched >> pure (some answer)
    ]
