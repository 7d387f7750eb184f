-- ===== src/Apply/Job/Promoting.antt =====
-- From `claim` to `jobEnding` of src/apply/job.ts: what is live once a run has applied.
use openwrt_configurator.Prelude.{
  Text, ℕ, Option, none, some, Bool, true, false, ◌≡◌, refl, ◌∙◌, ◌⊎◌, inl, inr, text_eq_refl, any,
}
use openwrt_configurator.Lock.{Dir, is_token, holder_of, holder_in, named_in, release_lock}
use openwrt_configurator.Lock.Answers.{held_by}
use openwrt_configurator.Apply.Run.{ok}
use openwrt_configurator.Apply.Job.{JobRecord, JobStore, Processes}
use openwrt_configurator.Apply.Job.Claim.{ClaimOptions, source_text, claim}
use openwrt_configurator.Apply.Job.Running.{with_intent, claim-Begun}
use openwrt_configurator.Apply.Job.Ending.{
  JobFile, live_file, previous_file, outcome_file, snapshot_file, applied_file, exited, outcome_of,
  job_ending, promote, applied_exits,
}

-- The snapshot is live, with what was live before kept.
abbrev pub Replaced : Option Text → Option Text → JobStore → Type 0
Replaced was text store = (store.live ≡ text) × ((was ≡ none) ⊎ (store.previous ≡ was))

module _ (writes : JobFile → Bool) (all : (f : JobFile) → writes f ≡ true) where
  promote-Replaced :
      (was : Option Text) (text : Text) (store : JobStore)
      → store.live ≡ was
      → store.snapshot ≡ some text
      → Replaced was (some text) (promote writes store)
        × ((promote writes store).locks ≡ store.locks)
        × ((promote writes store).outcome ≡ store.outcome)
  unfolding promote
  promote-Replaced none text store e s = rw e (
      rw s (
        rw (all live_file)
          (rw (all snapshot_file) (rw (all applied_file) ((refl, inl refl), refl, refl)))))
  promote-Replaced (some was) text store e s = rw e (
      rw (all previous_file) (
        rw s (
          rw (all live_file)
            (rw (all snapshot_file) (rw (all applied_file) ((refl, inr refl), refl, refl))))))

  is_token-held_by :
      (run_id : Text) (at : ℕ) (lock : Option Dir)
      → named_in (some run_id) ≡ some run_id
      → lock ≡ held_by run_id at
      → is_token run_id (holder_in lock) ≡ true
  unfolding holder_in
  is_token-held_by run_id at lock token l = rw l (rw token (text_eq_refl run_id))

  ending-Replaced :
      (run_id text : Text) (was : Option Text) (store : JobStore)
      → is_token run_id (holder_in store.locks.lock) ≡ true
      → store.live ≡ was
      → store.snapshot ≡ some text
      → Replaced was (some text) (job_ending writes run_id (exited 0) (false, store)).1
        × ((job_ending writes run_id (exited 0) (false, store)).1.locks.lock ≡ none)
        × ((job_ending writes run_id (exited 0) (false, store)).1.outcome
            ≡ some (outcome_of run_id store.locks.now (exited 0)))
  unfolding job_ending holder_of release_lock applied_exits any
  ending-Replaced run_id text was store t e s =
      let kept : JobStore = record store {
        outcome = some (outcome_of run_id store.locks.now (exited 0));
      } in
      let q = promote-Replaced was text kept e s in
      rw (all outcome_file) (rw t (rw q.1 (rw t (q.0, refl, q.2))))

-- A run whose preparing rewrites the saved settings at most, that was started, that still holds the
-- lock when it ends as applied with the live settings and the snapshot as they were left, and that can
-- write its files makes live the settings as they were once it was prepared, whatever became of the
-- saved ones meanwhile; what was live before is kept, the run's outcome says that it succeeded, and
-- the lock is free.
pub claim-job_ending :
    (sha256 : Text → Text) (processes : Processes) (run_id : Text) (options : ClaimOptions)
    (rewrite : Option Text → Option Text) (store later last : JobStore) (run : JobRecord)
    (text : Text) (writes : JobFile → Bool)
    → ((s : JobStore) → options.prepare s ≡ some (with_intent rewrite s))
    → named_in (some run_id) ≡ some run_id
    → source_text options.source (with_intent rewrite store) ≡ some text
    → claim sha256 processes run_id options store ≡ (some (ok run), later)
    → last.locks.lock ≡ later.locks.lock
    → last.live ≡ later.live
    → last.snapshot ≡ later.snapshot
    → ((f : JobFile) → writes f ≡ true)
    → Replaced store.live (some text) (job_ending writes run_id (exited 0) (false, last)).1
      × ((job_ending writes run_id (exited 0) (false, last)).1.locks.lock ≡ none)
      × ((job_ending writes run_id (exited 0) (false, last)).1.outcome
          ≡ some (outcome_of run_id last.locks.now (exited 0)))
claim-job_ending sha256 processes run_id options rewrite store later last run text writes prepares
      token from e l v s all =
    let (j, i, p, t, held, n, snap, live) =
      claim-Begun sha256 processes run_id options rewrite prepares store later run e in
    ending-Replaced writes all run_id text store.live last
      (is_token-held_by writes all run_id store.locks.now last.locks.lock token (l ∙ held))
      (v ∙ live) (s ∙ snap ∙ from)
