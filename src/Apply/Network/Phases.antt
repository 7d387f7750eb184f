-- ===== src/Apply/Network/Phases.antt =====
-- `armAll`, `configureAll`, `confirmAll`, `readyToDisarm`, `disarmAll` and `lostOutcomes` of
-- src/apply/provisionNetwork.ts: each phase over every device, with what a failure undoes.
use openwrt_configurator.Prelude.{
  Text, ℕ, suc, ◌+◌, ◌*◌, Option, none, some, List, [], ◌∷◌, ◌++◌, map, Bool, true, false, not,
  ◌||◌, if◌then◌else◌, is_empty, any, length,
}
use openwrt_configurator.Prelude.Int.{ℤ, pos, lt_int, plus_times}
use openwrt_configurator.Agent.Verbs.{Verb, Asleep, asleep_for, awake, asleep_of, verb}
use openwrt_configurator.Agent.Verbs as Verbs
use openwrt_configurator.Apply.Io.{pure, ◌>>=◌, ◌>>◌}
use openwrt_configurator.Apply.Run.{
  Net, M, Run, Phase, PhaseFailure, Result, ok, err, now, guarded, nothing_left,
}
use openwrt_configurator.Apply.Recover.{
  Disarm, disarmed, fired, call_live, disarm_live, wait_for_recovery, recover_after_deadline,
}
use openwrt_configurator.Apply.Arm.{stage_rollback, arm_rollback, discard_rollback}
use openwrt_configurator.Apply.Configure.{configure_device, ensure_time_to_confirm, commit_device}
use openwrt_configurator.Apply.Confirm.{confirm_device}
use openwrt_configurator.Apply.Network.{
  RunEnd, RunFailure, ended, ran_after_on, failed, rolled_back,
}
use openwrt_configurator.Apply.Network.Abort.{with_live_session, Committed, Outcomes, abort, rolled}

abbrev pub asleep_verb : Text → Verb Asleep
asleep_verb id = verb id Verbs.asleep asleep_of

abbrev pub disarm_margin_ms : ℤ
disarm_margin_ms = pos 20000

-- A device asked, with when its watchdog fires; absent where it died asleep.
abbrev pub fires_at : ℕ → Asleep → Option ℤ
fires_at asked (asleep_for seconds) = some (plus_times asked 1000 seconds)
fires_at asked (awake kept) = none

-- `firesAt !== undefined && firesAt - now < margin`.
abbrev pub is_late : ℕ → Option ℤ → Bool
is_late t none = false
is_late t (some fires) = lt_int fires (pos (t + 20000))

-- Neither asleep nor kept: it restored, or is restoring.
abbrev pub has_fired : Asleep → Bool
has_fired (asleep_for seconds) = false
has_fired (awake kept) = not kept

module _ ⦃net : Net⦄ where
  abbrev pub Confirmed : Type 0
  Confirmed = Run × net.Session

  abbrev pub with_session : Confirmed → Committed
  with_session (run, session) = (run, some session)

  abbrev pub without_session : Run → Committed
  without_session run = (run, none)

  unfoldable pub discard_all : List Run → M (List (Run × Bool))
  unfolding discard_rollback
  discard_all [] = pure []
  discard_all (run ∷ rest) = do
    gone ← discard_rollback run
    later ← discard_all rest
    pure ((run, gone) ∷ later)

  -- A failure before anything was changed takes all of it back. The first of those pending may have
  -- a watchdog, where it failed as it was armed (`from` its arming).
  unfoldable pub await_stray : Option ℕ → ℕ → List (Run × Bool) → M Unit
  unfolding recover_after_deadline
  await_stray (some from) timeout ((run, false) ∷ rest) =
      recover_after_deadline (record run { deadline = some (from + timeout * 1000) }) >> pure tt
  await_stray _ timeout gone = pure tt

  unfoldable pub stop_arming : List Run → List Run → Option ℕ → ℕ → M RunFailure
  unfolding abort discard_all await_stray
  stop_arming armed pending from timeout = do
    abort [] armed []
    gone ← discard_all pending
    await_stray from timeout gone
    pure (ended failed [])

  -- On a failure, the devices staged before, with the failed one.
  unfoldable pub stage_all : List Run → List Run → ℕ → M (Result (List Run) RunFailure)
  unfolding stage_rollback stop_arming
  stage_all staged [] timeout = pure (ok staged)
  stage_all staged (run ∷ rest) timeout = do
    result ← stage_rollback run
    elim result [
      | ok r ↦ stage_all (staged ++ r ∷ []) rest timeout
      | err e ↦ do f ← stop_arming [] (staged ++ run ∷ []) none timeout; pure (err f)
    ]

  unfoldable pub arm_staged : List Run → List Run → ℕ → M (Result (List Run) RunFailure)
  unfolding arm_rollback stop_arming
  arm_staged armed [] timeout = pure (ok armed)
  arm_staged armed (run ∷ rest) timeout = do
    from ← now
    result ← arm_rollback run timeout
    elim result [
      | ok r ↦ arm_staged (armed ++ r ∷ []) rest timeout
      | err e ↦ do f ← stop_arming armed (run ∷ rest) (some from) timeout; pure (err f)
    ]

  unfoldable pub arm_all : List Run → ℕ → M (Result (List Run) RunFailure)
  unfolding stage_all arm_staged
  arm_all runs timeout = do
    staged ← stage_all [] runs timeout
    elim staged [ err f ↦ pure (err f) | ok rs ↦ arm_staged [] rs timeout ]

  -- Configure and commit one device; `before` devices are committed.
  unfoldable pub commit_in_time : Run → ℕ → ℕ → Phase Run
  unfolding configure_device ensure_time_to_confirm commit_device
  commit_in_time run earliest before = do
    configured ← configure_device run
    elim configured [
      | err e ↦ pure (err e)
      | ok r ↦ do
        timely ← ensure_time_to_confirm r earliest (suc before)
        elim timely [ err e ↦ pure (err e) | ok r' ↦ commit_device r' ]
    ]

  -- `guarded(async () => ok(await withLiveSession(armedRun)))`.
  unfoldable pub reach : Run → Phase Run
  unfolding with_live_session guarded
  reach run = guarded (do r ← with_live_session run; pure (ok r)) nothing_left

  -- It may have been changed, so it is rolled back and never disarmed.
  abbrev pub is_changed : PhaseFailure → Bool
  is_changed e = e.left.committed || e.left.left_armed

  abbrev pub undo_end : List Run → Run → PhaseFailure → RunEnd
  undo_end committed run e =
      if not (is_empty committed)
        || is_changed e
        || not (is_empty (ran_after_on committed))
        || e.left.ran_after
      then rolled_back
      else failed

  unfoldable pub undo : List Run → Run → List Run → PhaseFailure → M RunFailure
  unfolding abort
  undo committed run rest e = do
    outcomes ← elim (is_changed e) [
      | true ↦ abort (map without_session (committed ++ run ∷ [])) rest []
      | false ↦ abort (map without_session committed) (run ∷ rest) []
    ]
    pure (ended (undo_end committed run e) outcomes)

  unfoldable pub configure_all : List Run → List Run → ℕ → M (Result (List Run) RunFailure)
  unfolding reach commit_in_time undo
  configure_all committed [] earliest = pure (ok committed)
  configure_all committed (armed ∷ rest) earliest = do
    reached ← reach armed
    elim reached [
      | err e ↦ do f ← undo committed armed rest e; pure (err f)
      | ok run ↦ do
        result ← commit_in_time run earliest (length committed)
        elim result [
          | ok r ↦ configure_all (committed ++ r ∷ []) rest earliest
          | err e ↦ do f ← undo committed run rest e; pure (err f)
        ]
    ]

  unfoldable pub unconfirmed : List Confirmed → Run → List Run → PhaseFailure → M RunFailure
  unfolding abort
  unconfirmed done run rest e = do
    outcomes ← elim e.left.roll_back_now [
      | true ↦ abort (map with_session done ++ (run, none) ∷ map without_session rest) [] []
      | false ↦ abort (map with_session done ++ map without_session rest) [] (run ∷ [])
    ]
    pure (ended rolled_back outcomes)

  -- Confirm every device, by the earliest deadline.
  unfoldable pub confirm_all :
      List Confirmed → List Run → ℕ → M (Result (List Confirmed) RunFailure)
  unfolding confirm_device unconfirmed
  confirm_all done [] earliest = pure (ok done)
  confirm_all done (run ∷ rest) earliest = do
    result ← confirm_device (record run { deadline = some earliest })
    elim result [
      | ok session ↦ confirm_all (done ++ (run, session) ∷ []) rest earliest
      | err e ↦ do f ← unconfirmed done run rest e; pure (err f)
    ]

  -- A device asked whether it sleeps.
  abbrev pub Asked : Type 0
  Asked = Confirmed × Option ℤ

  abbrev pub asked_device : Asked → Confirmed
  asked_device (c, fires) = c

  unfoldable pub fired_early : List Asked → Run → List Confirmed → M RunFailure
  unfolding abort wait_for_recovery
  fired_early ready run rest = do
    outcomes ← abort (map (λ a. with_session (asked_device a)) ready ++ map with_session rest) [] []
    back ← wait_for_recovery run
    pure (ended rolled_back (outcomes ++ (run.hostname, rolled back) ∷ []))

  unfoldable pub ready_to_disarm :
      List Asked → List Confirmed → M (Result (List Confirmed) RunFailure)
  unfolding call_live abort fired_early any
  ready_to_disarm ready [] = pure (ok (map asked_device ready))
  ready_to_disarm ready ((run, session) ∷ rest) = do
    asked_at ← now
    got ← call_live run session (asleep_verb run.run_id)
    elim got [
      | none ↦ do
        outcomes ←
            abort (map (λ a. with_session (asked_device a)) ready ++ map with_session rest) []
              (run ∷ [])
        pure (err (ended rolled_back outcomes))
      | some (state, live) ↦ elim (has_fired state) [
        | true ↦ do f ← fired_early ready run rest; pure (err f)
        | false ↦ do
          let asked = ready ++ ((run, live), fires_at asked_at state) ∷ []
          t ← now
          elim (any (λ (a : Asked). is_late t a.1) asked) [
            | true ↦ do
              outcomes ←
                  abort (map (λ a. with_session (asked_device a)) asked ++ map with_session rest) []
                    []
              pure (err (ended rolled_back outcomes))
            | false ↦ ready_to_disarm asked rest
          ]
      ]
    ]

  -- The devices disarmed, and those lost (`true`: it fired).
  pub record Disarmed : Type 0 where
    pub kept : List Confirmed
    pub lost : List (Run × Bool)

  abbrev pub count_disarm : Run → Option (Disarm × net.Session) → Disarmed → Disarmed
  count_disarm run none d = record d { lost = (run, false) ∷ d.lost }
  count_disarm run (some (fired, session)) d = record d { lost = (run, true) ∷ d.lost }
  count_disarm run (some (disarmed, session)) d = record d { kept = (run, session) ∷ d.kept }

  unfoldable pub disarm_all : List Confirmed → M Disarmed
  unfolding disarm_live
  disarm_all [] = pure (record { kept = []; lost = [] })
  disarm_all ((run, session) ∷ rest) = do
    answer ← disarm_live run session false
    later ← disarm_all rest
    pure (count_disarm run answer later)

  unfoldable pub await_lost : Run → Bool → M Bool
  unfolding wait_for_recovery recover_after_deadline
  await_lost run true = wait_for_recovery run
  await_lost run false = recover_after_deadline run

  unfoldable pub lost_outcomes : List (Run × Bool) → M Outcomes
  unfolding await_lost
  lost_outcomes [] = pure []
  lost_outcomes ((run, went_off) ∷ rest) = do
    back ← await_lost run went_off
    later ← lost_outcomes rest
    pure ((run.hostname, rolled back) ∷ later)
