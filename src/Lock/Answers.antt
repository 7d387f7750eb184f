-- ===== src/Lock/Answers.antt =====
-- What the two answers of `takeLock` of src/lock.ts say of the lock.
use openwrt_configurator.Prelude.{
  Text, ℕ, Option, none, some, Bool, true, false, not, ◌&&◌, is_some, ◌≡◌, refl, ◌⊎◌, inl, inr,
  Bool-cases, arith,
}
use openwrt_configurator.Lock.{
  Dir, Taken, taken, held, Stale, LockFiles, take_over, take_lock, holder_in, since_in,
  takeover_stale, holder_of,
}

abbrev files_of : ℕ → Option Dir → Option ℕ → LockFiles
files_of now l o = record { now = now; lock = l; takeover = o }

-- The lock as its new holder has it.
abbrev pub held_by : Text → ℕ → Option Dir
held_by token now = some (record { changed = now; owner = some token })

abbrev Answered : Text → LockFiles → Taken × LockFiles → Type 0
Answered token files (answer, later) =
    (later.now ≡ files.now)
    × (((answer ≡ taken) × (later.lock ≡ held_by token files.now))
        ⊎ ((answer ≡ held) × (later.lock ≡ files.lock)))

module _ (stale : Stale) (token : Text) (now : ℕ) where
  over_none :
      (d : Dir)
      → Answered token
          (files_of now (some d) none)
          (take_lock stale token (files_of now (some d) none))
  unfolding take_lock take_over holder_of
  over_none d = elim (Bool-cases (stale (holder_in (some d)) (some d.changed))) [
    | inl e ↦ rw e (refl, inl (refl, refl))
    | inr e ↦ rw e (refl, inr (refl, refl))
  ]

  over_some :
      (d : Dir) (at : ℕ)
      → Answered token
          (files_of now (some d) (some at))
          (take_lock stale token (files_of now (some d) (some at)))
  unfolding take_lock take_over holder_of
  over_some d at = elim (Bool-cases (takeover_stale (files_of now (some d) (some at)))) [
    | inr e ↦ rw e (refl, inr (refl, refl))
    | inl e ↦ elim (Bool-cases (stale (holder_in (some d)) (some d.changed))) [
      | inl k ↦ rw e (rw k (refl, inl (refl, refl)))
      | inr k ↦ rw e (rw k (refl, inr (refl, refl)))
    ]
  ]

  answers :
      (l : Option Dir) (o : Option ℕ)
      → Answered token (files_of now l o) (take_lock stale token (files_of now l o))
  unfolding take_lock
  answers none o = (refl, inl (refl, refl))
  answers (some d) none = over_none d
  answers (some d) (some at) = over_some d at

pub take_lock_lem :
    (stale : Stale) (token : Text) (files : LockFiles)
    → Answered token files (take_lock stale token files)
take_lock_lem stale token files = answers stale token files.now files.lock files.takeover

module _ (stale : Stale) (token : Text) (now : ℕ) (d : Dir)
    (alive : stale (holder_in (some d)) (some d.changed) ≡ false) where
  held_from :
      (o : Option ℕ)
      → ((take_lock stale token (files_of now (some d) o)).0 ≡ held)
        × ((take_lock stale token (files_of now (some d) o)).1.lock ≡ some d)
  unfolding take_lock take_over holder_of
  held_from none = rw alive (refl, refl)
  held_from (some at) = elim (Bool-cases (takeover_stale (files_of now (some d) (some at)))) [
    | inr e ↦ rw e (refl, refl)
    | inl e ↦ rw e (rw alive (refl, refl))
  ]

-- A lock that is there, and whose holder is not judged gone.
abbrev pub is_held : Stale → LockFiles → Bool
is_held stale files = is_some files.lock && not (stale (holder_in files.lock) (since_in files.lock))

held_lem :
    (stale : Stale) (token : Text) (now : ℕ) (l : Option Dir) (o : Option ℕ)
    → is_held stale (files_of now l o) ≡ true
    → ((take_lock stale token (files_of now l o)).0 ≡ held)
      × ((take_lock stale token (files_of now l o)).1.lock ≡ l)
held_lem stale token now none o h = ground (arith, h)
held_lem stale token now (some d) o h = held_from stale token now d (ground (arith, h)) o

pub take_lock-is_held :
    (stale : Stale) (token : Text) (files : LockFiles)
    → is_held stale files ≡ true
    → ((take_lock stale token files).0 ≡ held) × ((take_lock stale token files).1.lock ≡ files.lock)
take_lock-is_held stale token files = held_lem stale token files.now files.lock files.takeover
