-- ===== src/Lock/Machine.antt =====
-- `takeLock`, `releaseLock` and `withLock` of src/lock.ts in several processes at once: each call on
-- a file is a step, except that what `stale` reads of its own is one step, and the processes take
-- their steps in any order. A process may be killed at any
-- step, and time may pass between any two.
use openwrt_configurator.Prelude.{
  Text, ℕ, ◌+◌, Option, none, some, List, [], ◌∷◌, text_eq, if◌then◌else◌,
}
use openwrt_configurator.Lock.{
  Taken, taken, held, failed, Stale, LockFiles, make_lock, make_takeover, remove_lock,
  remove_takeover, own, is_token, holder_of, since, takeover_stale,
}

-- The call that a process makes next.
pub data Pc : Type 0 where
  -- Not in `takeLock`, without the lock: at first or once it gave the lock back, and where `takeLock`
  -- returned false, or threw.
  idle refused broken : Pc
  -- `makeDir(lock)`, and the token's write after it.
  asking owning : Pc
  -- The takeover lock's age, its removal when stale, and `makeDir(takeover)`.
  measuring clearing claiming : Pc
  -- Who holds the lock, since when, and whether the holder is gone.
  reading : Pc
  dating : Option Text → Pc
  judging : Option Text → Option ℕ → Pc
  -- `removeDir(lock)`, `makeDir(lock)`, and the token's write after it.
  removing remaking owning_over : Pc
  -- `removeDir(takeover)`, and how `takeLock` then ends.
  leaving : Taken → Pc
  -- `takeLock` has returned true: the holder's work, then the test of `releaseLock`.
  holding : Pc
  -- `removeDir(lock)` of `releaseLock`.
  freeing : Pc
  -- Killed.
  gone : Pc

abbrev pub end_of : Taken → Pc
end_of taken = holding
end_of held = refused
end_of failed = broken

-- After `makeDir`: `new` where it made the directory, `there` where it found one.
abbrev pub made : Pc → Pc → LockFiles → Option LockFiles → LockFiles × Pc
made new there files none = (files, there)
made new there files (some later) = (later, new)

unfoldable pub next : Stale → Text → LockFiles → Pc → LockFiles × Pc
unfolding holder_of text_eq
next stale token files idle = (files, asking)
next stale token files refused = (files, asking)
next stale token files broken = (files, asking)
next stale token files asking = made owning measuring files (make_lock files)
next stale token files owning = made holding broken files (own token files)
next stale token files measuring =
    if takeover_stale files then (files, clearing) else (files, claiming)
next stale token files clearing = (remove_takeover files, claiming)
next stale token files claiming = made reading refused files (make_takeover files)
next stale token files reading = (files, dating (holder_of files))
next stale token files (dating holder) = (files, judging holder (since files))
next stale token files (judging holder at) =
    if stale holder at then (files, removing) else (files, leaving held)
next stale token files removing = (remove_lock files, remaking)
next stale token files remaking = made owning_over (leaving held) files (make_lock files)
next stale token files owning_over = made (leaving taken) (leaving failed) files (own token files)
next stale token files (leaving answer) = (remove_takeover files, end_of answer)
next stale token files holding =
    if is_token token (holder_of files) then (files, freeing) else (files, idle)
next stale token files freeing = (remove_lock files, idle)
next stale token files gone = (files, gone)

pub record Machine : Type 0 where
  pub files : LockFiles
  pub pcs : Text → Pc

pub data Event : Type 0 where
  passes : (ms : ℕ) → Event
  killed : (token : Text) → Event
  continues : (token : Text) → Event

unfoldable pub set_pc : Text → Pc → (Text → Pc) → Text → Pc
unfolding text_eq
set_pc token pc pcs other = if text_eq token other then pc else pcs other

-- What `stale` answers may depend on all that there is, the processes included.
module _ (stale : Machine → Stale) where
  unfoldable pub step : Event → Machine → Machine
  unfolding next set_pc
  step (passes ms) m = record m { files = record m.files { now = m.files.now + ms } }
  step (killed token) m = record m { pcs = set_pc token gone m.pcs }
  step (continues token) m =
      let after = next (stale m) token m.files (m.pcs token) in
      record { files = after.0; pcs = set_pc token after.1 m.pcs }

  unfoldable pub steps : List Event → Machine → Machine
  unfolding step
  steps [] m = m
  steps (e ∷ es) m = steps es (step e m)

abbrev pub start : ℕ → Machine
start now = record {
  files = record { now = now; lock = none; takeover = none };
  pcs = λ token. idle;
}
