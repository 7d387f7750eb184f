-- ===== src/Apply/Network/Abort.antt =====
-- `withLiveSession` and `abort` of src/apply/provisionNetwork.ts.
use openwrt_configurator.Prelude.{
  Text, Option, none, some, List, [], ◌∷◌, ◌++◌, Bool, true, false, if◌then◌else◌,
}
use mathlib.Core.List.{reverse}
use openwrt_configurator.Apply.Io.{pure, ◌>>=◌, ◌>>◌}
use openwrt_configurator.Apply.Run.{Net, M, Run, does}
use openwrt_configurator.Apply.Reconnect.{connect_to}
use openwrt_configurator.Apply.Recover.{
  disarmed, fired, roll_back_now, recover_after_deadline, wait_for_recovery, disarm_live,
  finish_run,
}
use openwrt_configurator.Apply.Network.{DeviceOutcome, was_rolled_back, is_rolling_back, untouched}

abbrev pub rolled : Bool → DeviceOutcome
rolled b = if b then was_rolled_back else is_rolling_back

module _ ⦃net : Net⦄ where
  -- Use the device's session if it is still alive, else open a fresh one.
  unfoldable pub with_live_session : Run → M Run
  with_live_session run = do
    alive ← does (net.is_alive run.ssh)
    elim alive [
      | true ↦ pure run
      | false ↦ do
        fresh ← connect_to run
        pure (record run { options = record run.options { ssh = fresh } })
    ]

  -- A device that was committed, with a session where there is one.
  abbrev pub Committed : Type 0
  Committed = Run × Option net.Session

  abbrev pub Outcomes : Type 0
  Outcomes = List (Text × DeviceOutcome)

  unfoldable pub roll_back_all : List Committed → M Outcomes
  unfolding roll_back_now
  roll_back_all [] = pure []
  roll_back_all ((run, session) ∷ rest) = do
    back ← roll_back_now run session
    later ← roll_back_all rest
    pure ((run.hostname, rolled back) ∷ later)

  unfoldable pub await_all : List Run → M Outcomes
  unfolding recover_after_deadline
  await_all [] = pure []
  await_all (run ∷ rest) = do
    back ← recover_after_deadline run
    later ← await_all rest
    pure ((run.hostname, rolled back) ∷ later)

  -- Whether a device never changed is left as it was.
  unfoldable pub stand_down : Run → M Bool
  unfolding disarm_live finish_run wait_for_recovery recover_after_deadline
  stand_down run = do
    answer ← disarm_live run run.ssh true
    elim answer [
      | none ↦ recover_after_deadline run
      | some (disarmed, session) ↦ finish_run run session >> pure true
      | some (fired, session) ↦ wait_for_recovery run
    ]

  abbrev pub kept_outcome : Bool → DeviceOutcome
  kept_outcome b = if b then untouched else is_rolling_back

  unfoldable pub stand_down_all : List Run → M Outcomes
  unfolding stand_down
  stand_down_all [] = pure []
  stand_down_all (run ∷ rest) = do
    kept ← stand_down run
    later ← stand_down_all rest
    pure ((run.hostname, kept_outcome kept) ∷ later)

  -- Undo the run: the committed devices, latest first, then those that cannot be reached, then
  -- those never touched.
  unfoldable pub abort : List Committed → List Run → List Run → M Outcomes
  unfolding roll_back_all await_all stand_down_all
  abort committed never unreachable = do
    back ← roll_back_all (reverse committed)
    later ← await_all unreachable
    kept ← stand_down_all never
    pure (back ++ later ++ kept)
