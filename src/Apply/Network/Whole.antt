-- ===== src/Apply/Network/Whole.antt =====
-- `runNetwork` and `provisionNetwork` of src/apply/provisionNetwork.ts.
use openwrt_configurator.Prelude.{
  Text, ℕ, ◌+◌, ◌*◌, Option, none, some, List, [], ◌∷◌, map, Bool, true, false, length, or_else,
  if◌then◌else◌,
}
use Prim.Native.Nat.{min, max}
use openwrt_configurator.Apply.Io.{pure, attempt, ◌>>=◌, ◌>>◌}
use openwrt_configurator.Apply.Run.{
  Net, M, Run, Result, ok, err, DeviceRun, DeviceRunOptions, ProblemKind, emit, windowed,
}
use openwrt_configurator.Apply.Run as Run
use openwrt_configurator.Apply.Recover.{finish_run}
use openwrt_configurator.Apply.After.{run_post_reload_hooks, check_services}
use openwrt_configurator.Apply.Plan.{Options, plan_device}
use openwrt_configurator.Apply.Network.{
  RunEnd, RunFailure, RunResult, ended, failed, plan_stale, partial, rolled_back,
  applied_with_problems,
}
use openwrt_configurator.Apply.Network.Phases.{
  Confirmed, Disarmed, arm_all, configure_all, confirm_all, ready_to_disarm, disarm_all,
  lost_outcomes,
}
use openwrt_configurator.Apply.Network.Unconfirmed.{run_unconfirmed}

abbrev pub end_of : ProblemKind → RunEnd
end_of Run.plan_stale = plan_stale
end_of _ = failed

module _ ⦃net : Net⦄ where
  unfoldable pub plan_all : List Options → M (Result (List Run) RunFailure)
  unfolding plan_device
  plan_all [] = pure (ok [])
  plan_all (device ∷ rest) = do
    planned ← plan_device device
    elim planned [
      | err e ↦ pure (err (ended (end_of e.kind) []))
      | ok run ↦ do
        later ← plan_all rest
        elim later [ err f ↦ pure (err f) | ok runs ↦ pure (ok (run ∷ runs)) ]
    ]

  -- The earliest deadline, and the latest time by which a device has its old settings back.
  unfoldable pub earliest_deadline : Run → List Run → ℕ
  earliest_deadline run [] = or_else run.deadline 0
  earliest_deadline run (r ∷ rs) = min (or_else run.deadline 0) (earliest_deadline r rs)

  abbrev pub restored_by : Run → ℕ
  restored_by run = or_else run.deadline 0 + run.recover_seconds * 1000

  unfoldable pub latest_restore : Run → List Run → ℕ
  latest_restore run [] = restored_by run
  latest_restore run (r ∷ rs) = max (restored_by run) (latest_restore r rs)

  unfoldable pub after_one : Run → net.Session → M Bool
  unfolding run_post_reload_hooks check_services finish_run
  after_one run session = do
    hooked ← run_post_reload_hooks run session
    elim hooked [ true ↦ check_services run session >> pure tt | false ↦ pure tt ]
    finish_run run session
    pure hooked

  -- Whether every kept device's hooks ran.
  unfoldable pub after_all : List Confirmed → M Bool
  unfolding after_one
  after_all [] = pure true
  after_all ((run, session) ∷ rest) = do
    hooked ← after_one run session
    later ← after_all rest
    pure (if hooked then later else false)

  abbrev pub names : List Confirmed → List Text
  names kept = map (λ (c : Confirmed). let (run, session) = c in run.hostname) kept

  abbrev pub result_of : List Confirmed → Bool → RunResult
  result_of kept hooked = if hooked then ok (length kept) else err (ended applied_with_problems [])

  abbrev pub lost_result :
      List Text → List (Text × openwrt_configurator.Apply.Network.DeviceOutcome) → RunFailure
  lost_result [] outcomes = ended rolled_back outcomes
  lost_result (n ∷ ns) outcomes = record {
    end = partial;
    kept = some (n ∷ ns);
    outcomes = outcomes;
  }

  -- After the disarming: the kept devices' hooks, then how it came out.
  unfoldable pub conclude : Disarmed → M RunResult
  unfolding after_all lost_outcomes
  conclude d = do
    hooked ← after_all d.kept
    elim d.lost [
      | [] ↦ pure (result_of d.kept hooked)
      | l ∷ ls ↦ do
        outcomes ← lost_outcomes (l ∷ ls)
        pure (err (lost_result (names d.kept) outcomes))
    ]

  -- 3 and 4: configure and commit each, confirm all, only then disarm.
  unfoldable pub change_all : List Run → ℕ → M RunResult
  unfolding configure_all confirm_all ready_to_disarm disarm_all conclude
  change_all armed earliest = do
    committed ← configure_all [] armed earliest
    elim committed [
      | err f ↦ pure (err f)
      | ok runs ↦ do
        confirmed ← confirm_all [] runs earliest
        elim confirmed [
          | err f ↦ pure (err f)
          | ok done ↦ do
            ready ← ready_to_disarm [] done
            elim ready [ err f ↦ pure (err f) | ok all ↦ do d ← disarm_all all; conclude d ]
        ]
    ]

  -- With no device, `armed.value[0].now()` throws.
  unfoldable pub change_armed : List Run → M RunResult
  unfolding earliest_deadline latest_restore change_all
  change_armed [] = openwrt_configurator.Apply.Io.throw
  change_armed (run ∷ rest) = do
    emit (windowed (earliest_deadline run rest) (latest_restore run rest))
    change_all (run ∷ rest) (earliest_deadline run rest)

  -- 2: arm every device's rollback first.
  unfoldable pub run_confirmed : List Run → ℕ → M RunResult
  unfolding arm_all change_armed
  run_confirmed runs confirm_timeout = do
    armed ← arm_all runs (confirm_timeout * length runs)
    elim armed [ err f ↦ pure (err f) | ok rs ↦ change_armed rs ]

  unfoldable pub run_network : List Options → Bool → ℕ → M RunResult
  unfolding plan_all run_unconfirmed run_confirmed
  run_network devices confirm confirm_timeout = do
    planned ← plan_all devices
    elim planned [
      | err f ↦ pure (err f)
      | ok runs ↦ elim confirm [
        | false ↦ run_unconfirmed (length runs) [] runs
        | true ↦ run_confirmed runs confirm_timeout
      ]
    ]

  abbrev pub or_failed : Option RunResult → RunResult
  or_failed none = err (ended failed [])
  or_failed (some r) = r

  -- Anything thrown stopped the run before what it would have done.
  unfoldable pub provision_network : List Options → Bool → ℕ → M RunResult
  unfolding run_network
  provision_network devices confirm confirm_timeout = do
    r ← attempt (run_network devices confirm confirm_timeout)
    pure (or_failed r)
