-- ===== src/Apply/Job.antt =====
-- src/apply/job.ts: an apply's files beside the intent, and whether its run is alive. A file that is
-- not there or does not read is `none`; a run's list of changes, for its summary, is left out.
pub mod Claim
pub mod Ending
pub mod Running
pub mod Promoting
pub mod Tests
use openwrt_configurator.Prelude.{
  Text, ℕ, ◌-◌, codes, Option, none, some, List, [], ◌∷◌, ◌++◌, Bool, true, false, not, ◌&&◌, ◌||◌,
  ltb, ◌==◌, text_eq, is_empty, is_some, if◌then◌else◌,
}
use openwrt_configurator.Agent.Verbs.{after_prefix}
use openwrt_configurator.Lock.{Dir, LockFiles, Stale, older_than, holder_of, since}

pub record JobRecord : Type 0 where
  pub run_id : Text
  pub started_at : ℕ
  pub pid : Option ℕ
  pub command_line : Option Text
  pub undo : Bool

-- How the run exited, or the signal that stopped it.
pub record JobOutcome : Type 0 where
  pub run_id : Text
  pub at : ℕ
  pub exit_code : Option ℕ
  pub signal : Option Text

-- When the live settings and the ones before them were applied.
pub record Applied : Type 0 where
  pub live_at : Option ℕ
  pub previous_at : Option ℕ

pub record JobStore : Type 0 where
  -- `provision.lock`, with the clock.
  pub locks : LockFiles
  pub action_lock : Option Dir
  pub intent : Option Text
  pub snapshot : Option Text
  pub live : Option Text
  pub previous : Option Text
  pub events : Option Text
  pub log : Option Text
  pub verify : Option Text
  pub job : Option JobRecord
  pub outcome : Option JobOutcome
  pub applied : Option Applied

-- `commandLineOf`: a process's command line by its pid.
abbrev pub Processes : Type 0
Processes = ℕ → Option Text

abbrev pub starting_ms : ℕ
starting_ms = 60000

-- `line.includes(part)`.
unfoldable pub contains : Text → Text → Bool
unfolding after_prefix
contains part [] = is_some (after_prefix part [])
contains part (c ∷ line) = is_some (after_prefix part (c ∷ line)) || contains part line

abbrev pub run_id_flag : Text
run_id_flag = codes "--run-id"

abbrev pub is_its_line : JobRecord → Option Text → Text → Bool
is_its_line run (some own) line = text_eq line own
is_its_line run none line = contains (run_id_flag ++ 32 ∷ run.run_id) line

abbrev pub has_line : JobRecord → Option Text → Bool
has_line run none = false
has_line run (some line) = not (is_empty line) && is_its_line run run.command_line line

abbrev pub alive_by : Processes → JobRecord → ℕ → Option ℕ → Bool
alive_by processes run now none = ltb (now - run.started_at) starting_ms
alive_by processes run now (some pid) = has_line run (processes pid)

unfoldable pub run_alive : Processes → JobRecord → ℕ → Bool
unfolding contains text_eq
run_alive processes run now = alive_by processes run now run.pid

pub data ProvisionState : Type 0 where
  idle running succeeded failed_run applied_with_problems interrupted : ProvisionState

abbrev pub applied_with_problems_exit : ℕ
applied_with_problems_exit = 3

abbrev pub state_by : Option ℕ → ProvisionState
state_by none = interrupted
state_by (some code) =
    if code == 0
    then succeeded
    else (if code == applied_with_problems_exit then applied_with_problems else failed_run)

abbrev pub state_of : Option JobOutcome → ProvisionState
state_of none = interrupted
state_of (some outcome) = state_by outcome.exit_code

-- The outcome of this run, not of one before it.
abbrev pub own_outcome : JobRecord → Option JobOutcome → Option JobOutcome
own_outcome run none = none
own_outcome run (some outcome) = if text_eq outcome.run_id run.run_id then some outcome else none

abbrev pub state_unsaid : Processes → ℕ → JobRecord → Option JobOutcome → ProvisionState
state_unsaid processes now run (some outcome) = state_of (some outcome)
state_unsaid processes now run none = if run_alive processes run now then running else interrupted

unfoldable pub job_state : Processes → JobStore → ProvisionState
unfolding run_alive text_eq
job_state processes store = elim store.job [
  | none ↦ idle
  | some run ↦ state_unsaid processes store.locks.now run (own_outcome run store.outcome)
]

-- The record is the holder's.
abbrev pub is_holder : Option JobRecord → Option Text → Bool
is_holder none holder = false
is_holder (some run) none = false
is_holder (some run) (some holder) = text_eq run.run_id holder

abbrev pub since_gone : ℕ → Option ℕ → Bool
since_gone now none = true
since_gone now (some at) = older_than starting_ms now (some at)

abbrev pub run_gone : Processes → ℕ → Option JobRecord → Bool
run_gone processes now none = true
run_gone processes now (some run) = not (run_alive processes run now)

-- Whether the run that holds the lock is gone, so that its lock may be taken over.
unfoldable pub holder_gone : Processes → JobStore → Stale
unfolding run_alive older_than text_eq
holder_gone processes store holder at =
    if is_holder store.job holder
    then run_gone processes store.locks.now store.job
    else since_gone store.locks.now at

unfoldable pub apply_running : Processes → JobStore → Bool
unfolding holder_gone holder_of
apply_running processes store =
    is_some store.locks.lock
    && not (holder_gone processes store (holder_of store.locks) (since store.locks))
