-- ===== src/Apply/Kept/Arming.antt =====
-- The arming of src/apply/provisionNetwork.ts: nothing is committed in it, nothing is disarmed
-- unless it fails, and the runs it returns are those it was given.
use mathlib.Core.Path.{subst}
use openwrt_configurator.Prelude.{
  All-each, Text, ℕ, ◌*◌, length, Option, none, some, List, [], ◌∷◌, ◌++◌, ◌≡◌, ◌⊎◌, inl, All, ◌∙◌,
  sym, append-nil,
}
use openwrt_configurator.Apply.Io.{Outcome, returned, thrown, pure, ◌>>=◌, ◌>>◌}
use openwrt_configurator.Apply.Run.{Net, World, M, Run, Result, ok, err, now, emit, windowed}
use openwrt_configurator.Apply.Arm.{stage_rollback, arm_rollback}
use openwrt_configurator.Apply.Network.{RunFailure}
use openwrt_configurator.Apply.Network.Phases.{stage_all, arm_staged, arm_all, stop_arming}
use openwrt_configurator.Apply.Network.Whole.{
  earliest_deadline, latest_restore, change_armed, run_confirmed,
}
use openwrt_configurator.Apply.Traces.{Emits, Grew-All, Emits-now, Emits-emit}
use openwrt_configurator.Apply.Traces.Phases.{stage_rollback-Emits, arm_rollback-Emits}
use openwrt_configurator.Apply.Traces.Undo.{stop_arming-Emits}
use openwrt_configurator.Apply.Traces.Values.{
  Holds, SameRun, stage_rollback-SameRun, arm_rollback-SameRun,
}
use openwrt_configurator.Apply.Kept.{
  NotCommit, NotDisarm, NotKept, mild-NotCommit, mild-NotDisarm, Post, then_post, result_post,
  Absent, HasDistinctIds,
}
use openwrt_configurator.Apply.Kept.Whole.{Final, IsUndone, change_all-Final}

module _ ⦃net : Net⦄ where
  -- A run replaced by one of the same id.
  Absent-replace :
      (id : Text) (before : List Run) (run r : Run) (rest : List Run)
      → r.run_id ≡ run.run_id
      → Absent id (before ++ run ∷ rest)
      → Absent id ((before ++ r ∷ []) ++ rest)
  Absent-replace id [] run r rest e h = ((λ f. h.0 (sym e ∙ f)), h.1)
  Absent-replace id (b ∷ bs) run r rest e h = (h.0, Absent-replace id bs run r rest e h.1)

  HasDistinctIds-replace :
      (before : List Run) (run r : Run) (rest : List Run)
      → r.run_id ≡ run.run_id
      → HasDistinctIds (before ++ run ∷ rest)
      → HasDistinctIds ((before ++ r ∷ []) ++ rest)
  HasDistinctIds-replace [] run r rest e h = (subst (λ i. Absent i rest) (sym e) h.0, h.1)
  HasDistinctIds-replace (b ∷ bs) run r rest e h =
      (Absent-replace b.run_id bs run r rest e h.0, HasDistinctIds-replace bs run r rest e h.1)

  HasDistinctIds-end : (before : List Run) → HasDistinctIds (before ++ []) → HasDistinctIds before
  HasDistinctIds-end before h = subst HasDistinctIds (append-nil before) h

  module _ (id : Text) where
    abbrev Quiet : {A : Type 0} → Post A
    Quiet (o, w) = All (NotDisarm id) w.log × All (NotCommit id) w.log

    abbrev Armed : Post (Result (List Run) RunFailure)
    Armed (returned (ok rs), w) =
        HasDistinctIds rs × (All (NotDisarm id) w.log × All (NotCommit id) w.log)
    Armed (returned (err f), w) = All (NotCommit id) w.log
    Armed (thrown, w) = Unit

    Quiet-mild :
        {A : Type 0} (m : M A) (w : World net.State)
        → Emits (NotDisarm id) m
        → Emits (NotCommit id) m
        → Quiet {A = A} (thrown, w)
        → Quiet (m w)
    Quiet-mild m w gd gc h = (Grew-All (gd.at w) h.0, Grew-All (gc.at w) h.1)

    stopped-Armed :
        (armed pending : List Run) (from : Option ℕ) (timeout : ℕ) (w : World net.State)
        → All (NotCommit id) w.log
        → Armed ((stop_arming armed pending from timeout >>= λ f. pure (err f)) w)
    unfolding pure
    stopped-Armed armed pending from timeout w h =
        then_post Armed (λ p. All (NotCommit id) p.1.log) (stop_arming armed pending from timeout) _
          w
          (Grew-All
            ((stop_arming-Emits (NotCommit id) (mild-NotCommit id) armed pending from timeout
                (All-each armed (λ s r. tt))).at
              w)
            h)
          (λ v k. tt) (λ f v k. k)

    stage_all-Armed :
        (staged runs : List Run) (timeout : ℕ) (w : World net.State)
        → HasDistinctIds (staged ++ runs)
        → All (NotDisarm id) w.log × All (NotCommit id) w.log
        → Armed (stage_all staged runs timeout w)
    unfolding stage_all pure
    stage_all-Armed staged [] timeout w d h = (HasDistinctIds-end staged d, h)
    stage_all-Armed staged (run ∷ rest) timeout w d h =
        then_post Armed
          (λ p.
            Holds (SameRun run.run_id) p.0
            × (All (NotDisarm id) p.1.log × All (NotCommit id) p.1.log))
          (stage_rollback run) _ w
          (
            (stage_rollback-SameRun run).at w,
            Quiet-mild (stage_rollback run) w (stage_rollback-Emits _ (mild-NotDisarm id) run)
                (stage_rollback-Emits _ (mild-NotCommit id) run) h,
          )
          (λ v k. tt)
          (λ o v k.
            result_post Armed _ _ o v
              (λ e q. stopped-Armed [] (staged ++ run ∷ []) none timeout v k.1.1)
              (λ r q.
                stage_all-Armed (staged ++ r ∷ []) rest timeout v
                  (HasDistinctIds-replace staged run r rest (subst (SameRun run.run_id) q k.0) d)
                  k.1))

    arm_staged-Armed :
        (armed runs : List Run) (timeout : ℕ) (w : World net.State)
        → HasDistinctIds (armed ++ runs)
        → All (NotDisarm id) w.log × All (NotCommit id) w.log
        → Armed (arm_staged armed runs timeout w)
    unfolding arm_staged pure
    arm_staged-Armed armed [] timeout w d h = (HasDistinctIds-end armed d, h)
    arm_staged-Armed armed (run ∷ rest) timeout w d h =
        then_post Armed Quiet now _ w (Quiet-mild now w Emits-now Emits-now h) (λ v k. tt)
          (λ from u h'.
            then_post Armed
              (λ p.
                Holds (SameRun run.run_id) p.0
                × (All (NotDisarm id) p.1.log × All (NotCommit id) p.1.log))
              (arm_rollback run timeout) _ u
              (
                (arm_rollback-SameRun run timeout).at u,
                Quiet-mild (arm_rollback run timeout) u
                    (arm_rollback-Emits _ (mild-NotDisarm id) run timeout)
                    (arm_rollback-Emits _ (mild-NotCommit id) run timeout) h',
              )
              (λ v k. tt)
              (λ o v k.
                result_post Armed _ _ o v
                  (λ e q. stopped-Armed armed (run ∷ rest) (some from) timeout v k.1.1)
                  (λ r q.
                    arm_staged-Armed (armed ++ r ∷ []) rest timeout v
                      (HasDistinctIds-replace armed run r rest (subst (SameRun run.run_id) q k.0) d)
                      k.1)))

    arm_all-Armed :
        (runs : List Run) (timeout : ℕ) (w : World net.State)
        → HasDistinctIds runs
        → All (NotDisarm id) w.log × All (NotCommit id) w.log
        → Armed (arm_all runs timeout w)
    unfolding arm_all pure
    arm_all-Armed runs timeout w d h =
        then_post Armed Armed (stage_all [] runs timeout) _ w
          (stage_all-Armed [] runs timeout w d h) (λ v k. tt)
          (λ o v k.
            result_post Armed _ _ o v (λ f q. subst (λ x. Armed (returned x, v)) q k)
              (λ rs q.
                let a = subst (λ x. Armed (returned x, v)) q k in
                arm_staged-Armed [] rs timeout v a.0 a.1))

    change_armed-Final :
        (armed : List Run) (w : World net.State)
        → HasDistinctIds armed
        → All (NotDisarm id) w.log × All (NotCommit id) w.log
        → Final id (change_armed armed w)
    unfolding change_armed openwrt_configurator.Apply.Io.throw
    change_armed-Final [] w d h = tt
    change_armed-Final (run ∷ rest) w d h =
        then_post (Final id) Quiet
          (emit (windowed (earliest_deadline run rest) (latest_restore run rest))) _ w
          (Quiet-mild _ w (Emits-emit _ tt) (Emits-emit _ tt) h) (λ v k. tt)
          (λ u v k. change_all-Final id (run ∷ rest) (earliest_deadline run rest) v d k.0 k.1)

  run_confirmed-Final :
      (id : Text) (runs : List Run) (confirm_timeout : ℕ) (w : World net.State)
      → HasDistinctIds runs
      → All (NotDisarm id) w.log × All (NotCommit id) w.log
      → Final id (run_confirmed runs confirm_timeout w)
  unfolding run_confirmed pure
  run_confirmed-Final id runs confirm_timeout w d h =
      then_post (Final id) (Armed id) (arm_all runs (confirm_timeout * length runs)) _ w
        (arm_all-Armed id runs (confirm_timeout * length runs) w d h) (λ v k. tt)
        (λ o v k.
          result_post (Final id) _ _ o v (λ f q u. inl (subst (λ x. Armed id (returned x, v)) q k))
            (λ rs q.
              let a = subst (λ x. Armed id (returned x, v)) q k in
              change_armed-Final id rs v a.0 a.1))

  -- A confirmed run of devices with distinct run ids, over any network, clock and answers, from an
  -- empty log: where it returns a failure with the end `rolled_back`, `failed` or `plan_stale`, then
  -- for each run id either no commit was sent to that run's device, or that device never answered a
  -- disarm with the keeping of its config.
  pub run_confirmed-undone :
      (id : Text) (runs : List Run) (confirm_timeout : ℕ) (s : net.State) (f : RunFailure)
      (v : World net.State)
      → HasDistinctIds runs
      → run_confirmed runs confirm_timeout (record { state = s; log = [] }) ≡ (returned (err f), v)
      → IsUndone f.end
      → All (NotCommit id) v.log ⊎ All (NotKept id) v.log
  run_confirmed-undone id runs confirm_timeout s f v d e u =
      subst (Final id) e (run_confirmed-Final id runs confirm_timeout _ d (tt, tt)) u
