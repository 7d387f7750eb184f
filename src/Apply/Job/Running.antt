-- ===== src/Apply/Job/Running.antt =====
-- One run at a time, by src/apply/job.ts: while a run is going no other is started, and one that has
-- just been started is going.
use mathlib.Core.Path.{subst}
use openwrt_configurator.Prelude.{
  Text, ℕ, ◌+◌, ◌<◌, Option, none, some, true, ◌≡◌, refl, sym, ◌∙◌, ◌⊎◌, inl, inr, Bool-cases,
  arith, text_eq_iff,
}
use openwrt_configurator.Lock.{
  Taken, taken, held, failed, LockFiles, take_lock, holder_of, holder_in, named_in, lock_fresh,
  older_than,
}
use openwrt_configurator.Lock.Answers.{held_by, take_lock_lem, take_lock-is_held}
use openwrt_configurator.Apply.Run.{ok, err}
use openwrt_configurator.Apply.Job.{
  JobRecord, JobStore, Processes, holder_gone, apply_running, run_alive, starting_ms,
}
use openwrt_configurator.Apply.Job.Claim.{
  Source, saved, before_live, source_text, lay_down, prepared, is_changed, ClaimOptions, applying,
  Claimed, claim, claim_by, claim_locked,
}

-- All but the locks.
abbrev pub SameButLocks : JobStore → JobStore → Type 0
SameButLocks before after = record after { locks = before.locks } ≡ before

module _ (sha256 : Text → Text) (processes : Processes) where
  claim_by_held :
      (run_id : Text) (options : ClaimOptions) (store : JobStore) (t : Taken × LockFiles)
      → t.0 ≡ held
      → claim_by sha256 processes run_id options store t
        ≡ (some (err applying), record store { locks = t.1 })
  claim_by_held run_id options store (held, locks) e = refl
  claim_by_held run_id options store (taken, locks) e = ground (arith, e)
  claim_by_held run_id options store (failed, locks) e = ground (arith, e)

  -- While an apply is running no run is started: the answer says so, and no file changes but the
  -- takeover lock.
  pub claim-apply_running :
      (run_id : Text) (options : ClaimOptions) (store : JobStore)
      → apply_running processes store ≡ true
      → ((claim sha256 processes run_id options store).0 ≡ some (err applying))
        × SameButLocks store (claim sha256 processes run_id options store).1
        × ((claim sha256 processes run_id options store).1.locks.lock ≡ store.locks.lock)
  unfolding claim apply_running holder_of
  claim-apply_running run_id options store h =
      let k = take_lock-is_held (holder_gone processes store) run_id store.locks h in
      rw
        (claim_by_held run_id options store
          (take_lock (holder_gone processes store) run_id store.locks) k.0)
        (refl, refl, k.1)

-- What is prepared, with the lock held: the saved settings rewritten (an undo that restores them), or
-- nothing where the function gives what it is given.
abbrev pub with_intent : (Option Text → Option Text) → JobStore → JobStore
with_intent rewrite store = record store { intent = rewrite store.intent }

-- What a run that has been started leaves: its record, its hold of the lock, the snapshot of what it
-- applies, and the live settings as they were.
abbrev pub Begun :
    (Option Text → Option Text) → Text → Source → JobStore → JobRecord → JobStore → Type 0
Begun rewrite run_id source before run after =
    (after.job ≡ some run)
    × (run.run_id ≡ run_id)
    × (run.pid ≡ none)
    × (run.started_at ≡ before.locks.now)
    × (after.locks.lock ≡ held_by run_id before.locks.now)
    × (after.locks.now ≡ before.locks.now)
    × (after.snapshot ≡ source_text source (with_intent rewrite before))
    × (after.live ≡ before.live)

source_text-locks :
    (rewrite : Option Text → Option Text) (source : Source) (store : JobStore) (locks : LockFiles)
    → source_text source (with_intent rewrite (record store { locks = locks }))
      ≡ source_text source (with_intent rewrite store)
source_text-locks rewrite saved store locks = refl
source_text-locks rewrite before_live store locks = refl

abbrev BegunIf :
    (Option Text → Option Text) → Text → Source → JobStore → Claimed × JobStore → Type 0
BegunIf rewrite run_id source before (some (ok run), later) =
    Begun rewrite run_id source before run later
BegunIf rewrite run_id source before (some (err why), later) = Unit
BegunIf rewrite run_id source before (none, later) = Unit

module _ (sha256 : Text → Text) (processes : Processes) (run_id : Text) (options : ClaimOptions)
    (rewrite : Option Text → Option Text)
    (prepares : (s : JobStore) → options.prepare s ≡ some (with_intent rewrite s)) where
  lay_down-BegunIf :
      (store : JobStore) (locks : LockFiles)
      → locks.lock ≡ held_by run_id store.locks.now
      → locks.now ≡ store.locks.now
      → (verify source : Option Text) → options.verify ≡ verify
      → source_text options.source (with_intent rewrite (record store { locks = locks })) ≡ source
      → BegunIf rewrite run_id options.source store
          (lay_down run_id options (with_intent rewrite (record store { locks = locks })))
  lay_down-BegunIf store locks h n verify none v e = rw (e, lay_down) tt
  lay_down-BegunIf store locks h n none (some text) v e =
      rw (e, lay_down)
        (rw v (
          refl,
          refl,
          refl,
          n,
          h,
          n,
          sym e ∙ source_text-locks rewrite options.source store locks,
          refl,
        ))
  lay_down-BegunIf store locks h n (some t) (some text) v e =
      rw (e, lay_down)
        (rw v (
          refl,
          refl,
          refl,
          n,
          h,
          n,
          sym e ∙ source_text-locks rewrite options.source store locks,
          refl,
        ))

  prepared-BegunIf :
      (store : JobStore) (locks : LockFiles)
      → locks.lock ≡ held_by run_id store.locks.now
      → locks.now ≡ store.locks.now
      → BegunIf rewrite run_id options.source store
          (prepared run_id options (record store { locks = locks }))
  prepared-BegunIf store locks h n =
      rw (prepares (record store { locks = locks }), prepared)
        (lay_down-BegunIf store locks h n options.verify _ refl refl)

  claim_locked-BegunIf :
      (store : JobStore) (locks : LockFiles)
      → locks.lock ≡ held_by run_id store.locks.now
      → locks.now ≡ store.locks.now
      → BegunIf rewrite run_id options.source store
          (claim_locked sha256 processes run_id options (record store { locks = locks }))
  claim_locked-BegunIf store locks h n =
      elim (Bool-cases (lock_fresh 1 (record locks { lock = store.action_lock }))) [
        | inl e ↦ rw e tt
        | inr e ↦ elim (Bool-cases (is_changed sha256 store.intent options.version)) [
          | inl f ↦ rw e (rw f tt)
          | inr f ↦ rw e (rw f (prepared-BegunIf store locks h n))
        ]
      ]

  claim_by-BegunIf :
      (store : JobStore) (t : Taken × LockFiles)
      → t.1.now ≡ store.locks.now
      → ((t.0 ≡ taken) × (t.1.lock ≡ held_by run_id store.locks.now))
        ⊎ ((t.0 ≡ held) × (t.1.lock ≡ store.locks.lock))
      → BegunIf rewrite run_id options.source store
          (claim_by sha256 processes run_id options store t)
  claim_by-BegunIf store (held, locks) n h = tt
  claim_by-BegunIf store (failed, locks) n h = tt
  claim_by-BegunIf store (taken, locks) n (inl h) = claim_locked-BegunIf store locks h.1 n
  claim_by-BegunIf store (taken, locks) n (inr h) = ground (arith, h.0)

  claim-BegunIf :
      (store : JobStore)
      → BegunIf rewrite run_id options.source store (claim sha256 processes run_id options store)
  unfolding claim
  claim-BegunIf store =
      let h = take_lock_lem (holder_gone processes store) run_id store.locks in
      claim_by-BegunIf store (take_lock (holder_gone processes store) run_id store.locks) h.0 h.1

  pub claim-Begun :
      (store later : JobStore) (run : JobRecord)
      → claim sha256 processes run_id options store ≡ (some (ok run), later)
      → Begun rewrite run_id options.source store run later
  claim-Begun store later run e =
      subst (BegunIf rewrite run_id options.source store) e (claim-BegunIf store)

-- The files some time later.
abbrev pub after_ms : ℕ → JobStore → JobStore
after_ms ms store = record store { locks = record store.locks { now = store.locks.now + ms } }

module _ (processes : Processes) (run_id : Text)
    (token : named_in (some run_id) ≡ some run_id) where
  starting-alive :
      (after : JobStore) (run : JobRecord) (ms : ℕ)
      → ms < starting_ms
      → run.pid ≡ none
      → run.started_at ≡ after.locks.now
      → run_alive processes run (after.locks.now + ms) ≡ true
  unfolding run_alive
  starting-alive after run ms m p t = rw p (rw t (ground (arith, m)))

  apply_running-Begun :
      (rewrite : Option Text → Option Text) (source : Source) (before after : JobStore)
      (run : JobRecord) (ms : ℕ)
      → ms < starting_ms
      → Begun rewrite run_id source before run after
      → apply_running processes (after_ms ms after) ≡ true
  unfolding apply_running holder_gone holder_of holder_in older_than
  apply_running-Begun rewrite source before after run ms m (j, i, p, t, l, n, s, v) = rw l (
      rw j (
        rw token (
          rw ((text_eq_iff run.run_id run_id).1 i)
            (rw (starting-alive after run ms m p (t ∙ sym n)) refl))))

-- A run just started, with no process of its own yet, keeps every other from starting for a minute,
-- whatever settings that one is given.
pub claim-claim :
    (sha256 : Text → Text) (processes : Processes) (run_id : Text) (options : ClaimOptions)
    (store later : JobStore) (run : JobRecord)
    → ((s : JobStore) → options.prepare s ≡ some s)
    → named_in (some run_id) ≡ some run_id
    → claim sha256 processes run_id options store ≡ (some (ok run), later)
    → (ms : ℕ) → ms < starting_ms
    → (other : Text) (others : ClaimOptions) (seen : Processes)
    → ((claim sha256 seen other others (after_ms ms later)).0 ≡ some (err applying))
      × SameButLocks (after_ms ms later) (claim sha256 seen other others (after_ms ms later)).1
claim-claim sha256 processes run_id options store later run unprepared token e ms m other others
      seen =
    let b = claim-Begun sha256 processes run_id options (λ t. t) unprepared store later run e in
    let h = apply_running-Begun seen run_id token (λ t. t) options.source store later run ms m b in
    let k = claim-apply_running sha256 seen other others (after_ms ms later) h in (k.0, k.1)
