-- ===== src/Lock.antt =====
-- src/lock.ts: one lock across processes, a directory that holds its owner's token. `take_lock` and
-- `release_lock` here are the calls of one process that no other interrupts; Lock/Machine takes them
-- apart into the calls on files that several processes interleave. A process is named by its token.
pub mod Machine
pub mod Exclusive
pub mod Alone
pub mod Answers
pub mod Tests
use openwrt_configurator.Prelude.{
  Text, ℕ, suc, ◌-◌, ◌*◌, Option, none, some, List, [], ◌∷◌, Bool, true, false, not, ◌&&◌, ltb, leb,
  text_eq, is_empty, is_some, if◌then◌else◌,
}
use openwrt_configurator.Agent.Verbs.{trim_start, trim_end}

-- The lock's directory: when it last changed, and its file `owner`.
pub record Dir : Type 0 where
  pub changed : ℕ
  pub owner : Option Text

-- The clock, the lock, and the takeover lock by when it was made.
pub record LockFiles : Type 0 where
  pub now : ℕ
  pub lock : Option Dir
  pub takeover : Option ℕ

abbrev pub takeover_stale_ms : ℕ
takeover_stale_ms = 60000

-- `text || undefined`.
unfoldable pub or_none : Text → Option Text
or_none t = if is_empty t then none else some t

unfoldable pub named_in : Option Text → Option Text
unfolding or_none trim_start trim_end
named_in none = none
named_in (some t) = or_none (trim_start (trim_end t))

unfoldable pub holder_in : Option Dir → Option Text
unfolding named_in
holder_in none = none
holder_in (some d) = named_in d.owner

unfoldable pub holder_of : LockFiles → Option Text
unfolding holder_in
holder_of files = holder_in files.lock

abbrev pub since_in : Option Dir → Option ℕ
since_in none = none
since_in (some d) = some d.changed

-- `files.modifiedAt(lock)`.
abbrev pub since : LockFiles → Option ℕ
since files = since_in files.lock

-- `files.makeDir(lock)`: what it leaves, `none` where the directory is there already.
abbrev pub make_lock : LockFiles → Option LockFiles
make_lock files = elim files.lock [
  | some d ↦ none
  | none ↦ some (record files { lock = some (record { changed = files.now; owner = none }) })
]

abbrev pub make_takeover : LockFiles → Option LockFiles
make_takeover files = elim files.takeover [
  | some at ↦ none
  | none ↦ some (record files { takeover = some files.now })
]

abbrev pub remove_lock : LockFiles → LockFiles
remove_lock files = record files { lock = none }

abbrev pub remove_takeover : LockFiles → LockFiles
remove_takeover files = record files { takeover = none }

-- `files.writeTextFile(ownerFile(lock), owner)`: a new file changes its directory; `none` is the
-- error of a directory that is not there.
abbrev pub own : Text → LockFiles → Option LockFiles
own token files = elim files.lock [
  | none ↦ none
  | some d ↦
      some (record files { lock = some (record { changed = files.now; owner = some token }) })
]

unfoldable pub older_than : ℕ → ℕ → Option ℕ → Bool
older_than ms now none = false
older_than ms now (some at) = ltb ms (now - at)

abbrev pub takeover_stale : LockFiles → Bool
takeover_stale files = older_than takeover_stale_ms files.now files.takeover

-- What `takeLock` comes to: its two answers, and an error of the file system.
pub data Taken : Type 0 where
  taken held failed : Taken

abbrev pub Stale : Type 0
Stale = Option Text → Option ℕ → Bool

abbrev pub owned : Text → LockFiles → Taken × LockFiles
owned token files = elim (own token files) [ none ↦ (failed, files) | some later ↦ (taken, later) ]

abbrev pub given_back : Taken × LockFiles → Taken × LockFiles
given_back (answer, files) = (answer, remove_takeover files)

abbrev pub made_over : Text → LockFiles → Taken × LockFiles
made_over token files = elim (make_lock (remove_lock files)) [
  | none ↦ (held, remove_lock files)
  | some later ↦ owned token later
]

-- Within the takeover lock.
unfoldable pub take_over : Stale → Text → LockFiles → Taken × LockFiles
unfolding holder_of
take_over stale token files =
    if stale (holder_of files) (since files) then made_over token files else (held, files)

unfoldable pub cleared : LockFiles → LockFiles
unfolding older_than
cleared files = if takeover_stale files then remove_takeover files else files

-- From `makeDir(takeover)` on.
abbrev pub claim_takeover : Stale → Text → LockFiles → Taken × LockFiles
claim_takeover stale token files = elim (make_takeover files) [
  | none ↦ (held, files)
  | some later ↦ given_back (take_over stale token later)
]

unfoldable pub take_lock : Stale → Text → LockFiles → Taken × LockFiles
unfolding cleared
take_lock stale token files = elim (make_lock files) [
  | some later ↦ owned token later
  | none ↦ claim_takeover stale token (cleared files)
]

abbrev pub is_token : Text → Option Text → Bool
is_token token none = false
is_token token (some t) = text_eq t token

unfoldable pub release_lock : Text → LockFiles → LockFiles
unfolding holder_of text_eq
release_lock token files = if is_token token (holder_of files) then remove_lock files else files

-- A lock of `withLock`, held and not so old that it would be taken over.
unfoldable pub lock_fresh : ℕ → LockFiles → Bool
unfolding older_than
lock_fresh stale_minutes files =
    is_some files.lock && not (older_than (stale_minutes * 60000) files.now (since files))

-- `old` of `withLock`.
unfoldable pub is_old : ℕ → ℕ → Stale
unfolding older_than
is_old stale_minutes now holder none = true
is_old stale_minutes now holder (some at) = older_than (stale_minutes * 60000) now (some at)
