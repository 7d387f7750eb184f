-- ===== src/Apply/Job/Tests.antt =====
-- The theorems on runs of src/apply/job.ts at concrete inputs.
use openwrt_configurator.Prelude.{
  Text, Option, codes, none, some, Bool, true, false, ◌≡◌, refl, arith,
}
use openwrt_configurator.Lock.{named_in}
use openwrt_configurator.Lock.Answers.{held_by}
use openwrt_configurator.Apply.Run.{ok, err}
use openwrt_configurator.Apply.Job.{JobRecord, JobStore, Processes, apply_running}
use openwrt_configurator.Apply.Job.Claim.{applying, ClaimOptions, saved, claim}
use openwrt_configurator.Apply.Job.Ending.{
  JobFile, previous_file, outcome_of, exited, job_ending, KeptOrReplaced, job_ending-KeptOrReplaced,
}
use openwrt_configurator.Apply.Job.Running.{
  SameButLocks, with_intent, after_ms, claim-apply_running, claim-claim,
}
use openwrt_configurator.Apply.Job.Promoting.{Replaced, claim-job_ending}

abbrev first_run : Text
first_run = codes "m1-a"

abbrev second_run : Text
second_run = codes "m2-b"

abbrev before : JobStore
before = record {
  locks = record { now = 100; lock = none; takeover = none };
  action_lock = none;
  intent = some (codes "new");
  snapshot = none;
  live = some (codes "old");
  previous = none;
  events = some (codes "e");
  log = none;
  verify = none;
  job = none;
  outcome = none;
  applied = none;
}

abbrev options : ClaimOptions
options = record {
  source = saved;
  undo = false;
  verify = none;
  version = some (codes "new");
  prepare = λ s. some s;
}

abbrev alone : Processes
alone pid = none

-- The saved text stands for its own hash.
abbrev same : Text → Text
same t = t

abbrev run : JobRecord
run = record { run_id = first_run; started_at = 100; pid = none; command_line = none; undo = false }

abbrev begun : JobStore
begun = record before {
  locks = record { now = 100; lock = held_by first_run 100; takeover = none };
  events = none;
  snapshot = some (codes "new");
  job = some run;
}

claim-begun : claim same alone first_run options before ≡ (some (ok run), begun)
unfolding claim
claim-begun = refl

abbrev no_previous : JobFile → Bool
no_previous previous_file = false
no_previous f = true

-- Its record written, the disk is full as it ends: the live settings stay.
job_ending-KeptOrReplaced_example :
    KeptOrReplaced no_previous begun (job_ending no_previous first_run (exited 0) (false, begun)).1
job_ending-KeptOrReplaced_example =
    job_ending-KeptOrReplaced no_previous first_run (exited 0) false begun

claim-apply_running_example :
    ((claim same alone second_run options begun).0 ≡ some (err applying))
    × SameButLocks begun (claim same alone second_run options begun).1
    × ((claim same alone second_run options begun).1.locks.lock ≡ begun.locks.lock)
unfolding apply_running
claim-apply_running_example = claim-apply_running same alone second_run options begun refl

claim-claim_example :
    ((claim same alone second_run options (after_ms 59999 begun)).0 ≡ some (err applying))
    × SameButLocks
        (after_ms 59999 begun)
        (claim same alone second_run options (after_ms 59999 begun)).1
unfolding named_in
claim-claim_example =
    claim-claim same alone first_run options before begun run (λ s. refl) refl claim-begun 59999
      (omega arith) second_run options alone

-- An undo that restores the settings that were live before the last apply as the saved ones.
abbrev restored : Option Text → Option Text
restored t = some (codes "oldest")

abbrev undoing : ClaimOptions
undoing = record options { undo = true; prepare = λ s. some (with_intent restored s) }

abbrev undo_run : JobRecord
undo_run = record run { undo = true }

abbrev undo_begun : JobStore
undo_begun = record begun {
  intent = some (codes "oldest");
  snapshot = some (codes "oldest");
  job = some undo_run;
}

claim-undo_begun : claim same alone first_run undoing before ≡ (some (ok undo_run), undo_begun)
unfolding claim
claim-undo_begun = refl

-- The saved settings are edited while it runs.
abbrev last : JobStore
last = record undo_begun { intent = some (codes "newer") }

claim-job_ending_example :
    Replaced
      (some (codes "old"))
      (some (codes "oldest"))
      (job_ending (λ f. true) first_run (exited 0) (false, last)).1
    × ((job_ending (λ f. true) first_run (exited 0) (false, last)).1.locks.lock ≡ none)
    × ((job_ending (λ f. true) first_run (exited 0) (false, last)).1.outcome
        ≡ some (outcome_of first_run 100 (exited 0)))
unfolding named_in
claim-job_ending_example =
    claim-job_ending same alone first_run undoing restored before undo_begun last undo_run
      (codes "oldest") (λ f. true) (λ s. refl) refl refl claim-undo_begun refl refl refl (λ f. refl)
