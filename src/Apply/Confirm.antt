-- ===== src/Apply/Confirm.antt =====
-- src/apply/confirm.ts: reconnect after the commit and check that it finished.
use openwrt_configurator.Prelude.{
  Text, ℕ, ◌-◌, ◌*◌, codes, Option, none, some, [], ◌∷◌, Bool, true, false, or_else,
}
use Prim.Native.Nat.{min, max}
use openwrt_configurator.Agent.Verbs.{Verb, verb, says, steps_of}
use openwrt_configurator.Agent.Verbs as Verbs
use openwrt_configurator.Apply.Io.{pure, attempt, ◌>>=◌, ◌>>◌}
use openwrt_configurator.Apply.Run.{
  Net, M, Run, Phase, Left, ok, err, failure, now, call, step, confirming,
}
use openwrt_configurator.Apply.Reconnect.{reconnect_settled, reconnect_interval_ms}
use openwrt_configurator.Apply.Recover.{is_true}
use openwrt_configurator.Apply.Configure.{steps_verb, committed_only}

abbrev pub commit_finished_verb : Text → Verb Bool
commit_finished_verb id = verb id Verbs.commit_finished (says (codes "ONC_COMMITTED"))

-- What is left of the window for the services, short of the confirm itself.
abbrev pub services_timeout : Option ℕ → ℕ → Option ℕ
services_timeout none t = none
services_timeout (some deadline) t = some (max 15000 (min 120000 (deadline - t - 30000)))

abbrev pub roll_back_left : Left
roll_back_left = record {
  committed = true;
  left_armed = false;
  roll_back_now = true;
  ran_after = false;
}

module _ ⦃net : Net⦄ where
  unfoldable pub start_services : Run → net.Session → M Unit
  start_services run session = elim run.service_records [
    | [] ↦ pure tt
    | r ∷ rs ↦ do
      t ← now
      call session (
          steps_verb run.run_id
            (Verbs.services run.service_records (services_timeout run.deadline t)))
      pure tt
  ]

  unfoldable pub check_finished : Run → net.Session → Phase net.Session
  check_finished run session = do
    finished ← call session (commit_finished_verb run.run_id)
    elim (is_true finished) [
      | true ↦ pure (ok session)
      | false ↦ pure (err (failure roll_back_left))
    ]

  unfoldable pub confirm_device : Run → Phase net.Session
  unfolding reconnect_settled start_services check_finished
  confirm_device run = do
    step run confirming
    t ← now
    session ← attempt (
        reconnect_settled run (start_services run)
          (or_else run.deadline t - reconnect_interval_ms * 2))
    elim session [ none ↦ pure (err (failure committed_only)) | some s ↦ check_finished run s ]
