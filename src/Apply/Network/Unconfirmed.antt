-- ===== src/Apply/Network/Unconfirmed.antt =====
-- `runUnconfirmed` of src/apply/provisionNetwork.ts: no rollback to arm, so nothing to undo.
use openwrt_configurator.Prelude.{
  Text, ℕ, Option, none, some, List, [], ◌∷◌, ◌++◌, Bool, true, false, ◌&&◌, ◌==◌, if◌then◌else◌,
  length,
}
use openwrt_configurator.Apply.Io.{pure, throw, attempt, ◌>>=◌, ◌>>◌}
use openwrt_configurator.Apply.Run.{Net, M, Run, ok, err}
use openwrt_configurator.Apply.Recover.{reconnect, finish_run}
use openwrt_configurator.Apply.Arm.{install_agent}
use openwrt_configurator.Apply.Configure.{configure_device, commit_device}
use openwrt_configurator.Apply.Confirm.{start_services}
use openwrt_configurator.Apply.After.{run_post_reload_hooks, check_services}
use openwrt_configurator.Apply.Network.{
  RunFailure, RunResult, failed, partial, applied_with_problems,
}
use openwrt_configurator.Apply.Network.Abort.{with_live_session}

-- How a run ends that stops at a device: `committed` when that device was (or may have been) changed,
-- `whole` when its commit went through.
unfoldable pub stopped : List Text → ℕ → Text → Bool → Bool → RunFailure
stopped applied count hostname committed whole =
    let kept = if committed then applied ++ hostname ∷ [] else applied in
    elim kept [
      | [] ↦ record { end = failed; kept = none; outcomes = [] }
      | k ∷ ks ↦
          if length (k ∷ ks) == count && whole
          then record { end = applied_with_problems; kept = none; outcomes = [] }
          else record { end = partial; kept = some (k ∷ ks); outcomes = [] }
    ]

-- How far a device's change came.
pub data Progress (R : Type 0) : Type 0 where
  not_committed : Progress R
  half_committed : Progress R
  committed : R → Progress R

module _ ⦃net : Net⦄ where
  -- Up to the commit.
  unfoldable pub change_device : Run → M (Progress Run)
  unfolding with_live_session install_agent configure_device finish_run commit_device
  change_device planned = do
    live ← with_live_session planned
    installed ← install_agent live
    elim installed [
      | err e ↦ pure not_committed
      | ok agent ↦ do
        configured ← configure_device agent
        elim configured [
          | err e ↦ finish_run agent agent.ssh >> pure not_committed
          | ok run ↦ do
            commit ← commit_device run
            elim commit [ err e ↦ pure half_committed | ok r ↦ pure (committed run) ]
        ]
    ]

  -- What `finally` does whether the body threw or not.
  unfoldable pub rethrow : Option Bool → M Bool
  rethrow none = throw
  rethrow (some b) = pure b

  unfoldable pub services_and_hooks : Run → net.Session → M Bool
  unfolding start_services run_post_reload_hooks check_services
  services_and_hooks run session = do
    start_services run session
    hooked ← run_post_reload_hooks run session
    elim hooked [ false ↦ pure false | true ↦ check_services run session >> pure true ]

  -- After the commit, over a new session: whether the hooks ran.
  unfoldable pub follow_up : Run → M Bool
  unfolding reconnect services_and_hooks finish_run rethrow
  follow_up run = do
    session ← reconnect run 60
    r ← attempt (services_and_hooks run session)
    finish_run run session
    rethrow r

  unfoldable pub run_unconfirmed : ℕ → List Text → List Run → M RunResult
  unfolding change_device follow_up stopped
  run_unconfirmed count applied [] = pure (ok 0)
  run_unconfirmed count applied (planned ∷ rest) = do
    changed ← attempt (change_device planned)
    elim changed [
      | none ↦ pure (err (stopped applied count planned.hostname false false))
      | some not_committed ↦ pure (err (stopped applied count planned.hostname false false))
      | some half_committed ↦ pure (err (stopped applied count planned.hostname true false))
      | some (committed run) ↦ do
        done ← attempt (follow_up run)
        elim done [
          | some true ↦ run_unconfirmed count (applied ++ planned.hostname ∷ []) rest
          | _ ↦ pure (err (stopped applied count planned.hostname true true))
        ]
    ]
