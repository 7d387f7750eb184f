-- ===== src/Apply/Network.antt =====
-- src/apply/provisionNetwork.ts: provisioning a whole network as one change. The order is in
-- Network/Order, what undoes a run in Network/Abort, the phases over every device in Network/Phases,
-- the run in Network/Whole and the one without a confirm in Network/Unconfirmed.
pub mod Order
pub mod Tests
pub mod Abort
pub mod Phases
pub mod Whole
pub mod Unconfirmed
use openwrt_configurator.Prelude.{Text, ℕ, Option, none, some, List, [], ◌∷◌, map, Bool, select}
use openwrt_configurator.Apply.Run.{Net, Run, Result, err, M}

-- How a run ended that did not simply apply (src/apply/outcome.ts).
pub data RunEnd : Type 0 where
  applied_with_problems rolled_back partial failed plan_stale : RunEnd

-- How a device came out of a run that was undone.
pub data DeviceOutcome : Type 0 where
  was_rolled_back is_rolling_back untouched : DeviceOutcome

-- `outcomes` is what the message sums up.
pub record RunFailure : Type 0 where
  pub end : RunEnd
  pub kept : Option (List Text)
  pub outcomes : List (Text × DeviceOutcome)

-- The count of devices confirmed, or how it ended.
abbrev pub RunResult : Type 0
RunResult = Result ℕ RunFailure

abbrev pub ended : RunEnd → List (Text × DeviceOutcome) → RunFailure
ended end outcomes = record { end = end; kept = none; outcomes = outcomes }

module _ ⦃net : Net⦄ where
  -- The devices among these on which a changed file's run_after ran.
  unfoldable pub ran_after_on : List Run → List Text
  unfolding select
  ran_after_on runs = map (λ (r : Run). r.hostname) (select (λ (r : Run). r.ran_after) runs)
