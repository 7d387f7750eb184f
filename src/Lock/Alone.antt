-- ===== src/Lock/Alone.antt =====
-- One process's `takeLock` of src/lock.ts, which no other interrupts, against what it is for: when the
-- lock is given, and what that leaves.
use openwrt_configurator.Prelude.{
  Text, ℕ, zero, suc, ◌≤◌, Option, none, some, Bool, true, false, not, ◌&&◌, ◌||◌, is_some,
  if◌then◌else◌, ltb, ◌-◌, ◌≡◌, refl, Bool-cases, inl, inr, arith,
}
use openwrt_configurator.Lock.{
  Dir, Stale, take_over, LockFiles, take_lock, holder_of, Taken, taken, held, holder_in, since,
}
use openwrt_configurator.Lock.Answers.{held_by}
use openwrt_configurator.Lock.Machine.{Pc, asking, next, end_of}

-- A number of a process's steps, from the first.
unfoldable pub run_alone : Stale → Text → ℕ → LockFiles × Pc → LockFiles × Pc
unfolding next
run_alone stale token zero (files, c) = (files, c)
run_alone stale token (suc n) (files, c) = run_alone stale token n (next stale token files c)

-- A takeover is under way: its lock is there, and no older than a minute.
abbrev pub taking_over : ℕ → Option ℕ → Bool
taking_over now none = false
taking_over now (some at) = not (ltb 60000 (now - at))

-- The lock is free, or its holder is gone and no takeover is under way.
abbrev pub is_granted : Stale → LockFiles → Bool
is_granted stale files =
    not (is_some files.lock)
    || (not (taking_over files.now files.takeover) && stale (holder_of files) (since files))

abbrev pub granted_answer : Bool → Taken
granted_answer true = taken
granted_answer false = held

-- The lock with the token where it is given, as it was where not; and no takeover lock but one that
-- was there, where the lock was free or a takeover is under way.
abbrev pub granted_files : Stale → Text → LockFiles → LockFiles
granted_files stale token files = record {
  now = files.now;
  lock = if is_granted stale files then held_by token files.now else files.lock;
  takeover =
      if not (is_some files.lock) || taking_over files.now files.takeover
      then files.takeover
      else none;
}

abbrev Grants : Stale → Text → LockFiles → Type 0
Grants stale token files =
    (take_lock stale token files
      ≡ (granted_answer (is_granted stale files), granted_files stale token files))
    × ((n : ℕ) × (n ≤ 11)
        × (run_alone stale token n (files, asking)
            ≡ (granted_files stale token files, end_of (granted_answer (is_granted stale files)))))

abbrev files_of : ℕ → Option Dir → Option ℕ → LockFiles
files_of now l o = record { now = now; lock = l; takeover = o }

module _ (stale : Stale) (token : Text) (now : ℕ) where
  -- With no takeover lock there.
  over_none : (d : Dir) → Grants stale token (files_of now (some d) none)
  unfolding run_alone next take_lock take_over holder_of
  over_none d = elim (Bool-cases (stale (holder_in (some d)) (some d.changed))) [
    | inl e ↦ (rw e refl, (10, omega arith, rw e refl))
    | inr e ↦ (rw e refl, (7, omega arith, rw e refl))
  ]

  -- With the takeover lock there: removed when stale, and else the lock is held.
  over_some : (d : Dir) (at : ℕ) → Grants stale token (files_of now (some d) (some at))
  unfolding run_alone next take_lock take_over holder_of
  over_some d at = elim (Bool-cases (ltb 60000 (now - at))) [
    | inr e ↦ (rw e refl, (3, omega arith, rw e refl))
    | inl e ↦ elim (Bool-cases (stale (holder_in (some d)) (some d.changed))) [
      | inl k ↦ (rw e (rw k refl), (11, omega arith, rw e (rw k refl)))
      | inr k ↦ (rw e (rw k refl), (8, omega arith, rw e (rw k refl)))
    ]
  ]

  grants : (l : Option Dir) (o : Option ℕ) → Grants stale token (files_of now l o)
  unfolding run_alone next take_lock
  grants none o = (refl, (2, omega arith, refl))
  grants (some d) none = over_none d
  grants (some d) (some at) = over_some d at

-- A process that no other interrupts is given the lock just where it is free, or its holder is gone
-- and no takeover is under way; then its token is in the lock, and else the lock is as it was. It
-- never throws, and the calls on files that it makes one at a time come to the same answer and files
-- within eleven steps.
pub take_lock-run_alone :
    (stale : Stale) (token : Text) (files : LockFiles)
    → (take_lock stale token files
        ≡ (granted_answer (is_granted stale files), granted_files stale token files))
      × ((n : ℕ) × (n ≤ 11)
          × (run_alone stale token n (files, asking) ≡ (
            granted_files stale token files,
            end_of (granted_answer (is_granted stale files)),
          )))
take_lock-run_alone stale token files = grants stale token files.now files.lock files.takeover
