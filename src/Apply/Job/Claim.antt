-- ===== src/Apply/Job/Claim.antt =====
-- `claim` of src/apply/job.ts: the lock taken and a fresh run's files laid down, or a refusal that
-- gives the lock back.
use openwrt_configurator.Prelude.{
  Text, Option, none, some, [], Bool, false, not, or_else, text_eq, if◌then◌else◌,
}
use openwrt_configurator.Lock.{
  Taken, taken, held, failed, LockFiles, take_lock, release_lock, lock_fresh,
}
use openwrt_configurator.Apply.Run.{Result, ok, err}
use openwrt_configurator.Apply.Job.{JobRecord, JobStore, Processes, holder_gone}

-- What is applied: the saved intent, or (undoing) the settings that were live before.
pub data Source : Type 0 where
  saved before_live : Source

-- Why a run is not started.
pub data Refusal : Type 0 where
  applying acting changed unprepared : Refusal

-- `none` is an error of the file system, which leaves the lock held.
abbrev pub Claimed : Type 0
Claimed = Option (Result JobRecord Refusal)

pub record ClaimOptions : Type 0 where
  pub source : Source
  pub undo : Bool
  pub verify : Option Text
  pub version : Option Text
  -- Done with the lock held, before the snapshot is taken; `none` is its refusal.
  pub prepare : JobStore → Option JobStore

abbrev pub source_text : Source → JobStore → Option Text
source_text saved store = store.intent
source_text before_live store = store.previous

abbrev pub refused : Text → Refusal → JobStore → Claimed × JobStore
refused run_id why store =
    (some (err why), record store { locks = release_lock run_id store.locks })

-- Nothing of the last run's progress, outcome or output.
abbrev pub cleaned : JobStore → JobStore
cleaned store = record store { events = none; outcome = none; log = none; verify = none }

abbrev pub kept_verify : Option Text → JobStore → JobStore
kept_verify none store = store
kept_verify (some text) store = record store { verify = some text }

-- From the removal of the last run's files on.
abbrev pub lay_down : Text → ClaimOptions → JobStore → Claimed × JobStore
lay_down run_id options store = elim (source_text options.source store) [
  | none ↦ (none, kept_verify options.verify (cleaned store))
  | some text ↦
      let run : JobRecord = record {
        run_id = run_id;
        started_at = store.locks.now;
        pid = none;
        command_line = none;
        undo = options.undo;
      } in
      (
        some (ok run),
        record (kept_verify options.verify (cleaned store)) {
          snapshot = some text;
          job = some run;
        },
      )
]

abbrev pub prepared : Text → ClaimOptions → JobStore → Claimed × JobStore
prepared run_id options store = elim (options.prepare store) [
  | none ↦ refused run_id unprepared store
  | some later ↦ lay_down run_id options later
]

abbrev pub is_changed : (Text → Text) → Option Text → Option Text → Bool
is_changed sha256 intent none = false
is_changed sha256 intent (some version) = not (text_eq (sha256 (or_else intent [])) version)

module _ (sha256 : Text → Text) (processes : Processes) where
  -- With the lock taken.
  abbrev pub claim_locked : Text → ClaimOptions → JobStore → Claimed × JobStore
  claim_locked run_id options store =
      if lock_fresh 1 (record store.locks { lock = store.action_lock })
      then refused run_id acting store
      else (if is_changed sha256 store.intent options.version
          then refused run_id changed store
          else prepared run_id options store)

  abbrev pub claim_by : Text → ClaimOptions → JobStore → Taken × LockFiles → Claimed × JobStore
  claim_by run_id options store (taken, locks) =
      claim_locked run_id options (record store { locks = locks })
  claim_by run_id options store (held, locks) =
      (some (err applying), record store { locks = locks })
  claim_by run_id options store (failed, locks) = (none, record store { locks = locks })

  unfoldable pub claim : Text → ClaimOptions → JobStore → Claimed × JobStore
  unfolding take_lock holder_gone lock_fresh release_lock text_eq
  claim run_id options store =
      claim_by run_id options store (take_lock (holder_gone processes store) run_id store.locks)
