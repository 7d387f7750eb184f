-- ===== src/Apply/Job/Ending.antt =====
-- `jobEnding` of src/apply/job.ts: how a run ends, once. `writes` tells of each file whether writing
-- it, or of the snapshot removing it, succeeds.
use openwrt_configurator.Prelude.{
  Text, ℕ, Option, none, some, List, [], ◌∷◌, Bool, true, false, ◌&&◌, ◌==◌, any, text_eq,
  if◌then◌else◌, ◌≡◌, refl, sym, ◌∙◌, ◌⊎◌, inl, inr, Bool-cases,
}
use openwrt_configurator.Lock.{holder_of, is_token, release_lock}
use openwrt_configurator.Apply.Job.{JobOutcome, JobStore, Applied, applied_with_problems_exit}

pub data End : Type 0 where
  exited : ℕ → End
  stopped : (signal : Text) → End

pub data JobFile : Type 0 where
  outcome_file previous_file live_file snapshot_file applied_file : JobFile

unfoldable pub applied_exits : List ℕ
applied_exits = 0 ∷ applied_with_problems_exit ∷ []

abbrev pub outcome_of : Text → ℕ → End → JobOutcome
outcome_of run_id at (exited code) = record {
  run_id = run_id;
  at = at;
  exit_code = some code;
  signal = none;
}
outcome_of run_id at (stopped signal) = record {
  run_id = run_id;
  at = at;
  exit_code = none;
  signal = some signal;
}

abbrev pub is_applied : End → Bool
is_applied (exited code) = any (λ c. c == code) applied_exits
is_applied (stopped signal) = false

abbrev pub live_time : Option Applied → Option ℕ
live_time none = none
live_time (some times) = times.live_at

-- The times, where something was live before.
abbrev pub times_after : ℕ → Option Text → Option Applied → Applied
times_after now none times = record { live_at = some now; previous_at = none }
times_after now (some was) times = record { live_at = some now; previous_at = live_time times }

module _ (writes : JobFile → Bool) where
  abbrev pub keep_outcome : Text → End → JobStore → JobStore
  keep_outcome run_id end store =
      if writes outcome_file
      then record store { outcome = some (outcome_of run_id store.locks.now end) }
      else store

  abbrev pub keep_times : Option Text → JobStore → JobStore
  keep_times was store =
      if writes applied_file
      then record store { applied = some (times_after store.locks.now was store.applied) }
      else store

  -- The snapshot made live; an error leaves the rest undone.
  abbrev pub replace_live : Option Text → Option Text → JobStore → JobStore
  replace_live was none store = store
  replace_live was (some text) store =
      if writes live_file
      then (if writes snapshot_file
          then keep_times was (record store { live = some text; snapshot = none })
          else record store { live = some text })
      else store

  -- What was live kept as what an undo puts back, and then the snapshot made live.
  abbrev pub promote_from : Option Text → JobStore → JobStore
  promote_from none store = replace_live none store.snapshot store
  promote_from (some was) store =
      if writes previous_file
      then replace_live (some was) store.snapshot (record store { previous = some was })
      else store

  unfoldable pub promote : JobStore → JobStore
  promote store = promote_from store.live store

  abbrev pub promote_if : Bool → JobStore → JobStore
  promote_if true store = promote store
  promote_if false store = store

  abbrev pub job_end : Text → End → JobStore → JobStore
  job_end run_id end store =
      let kept = keep_outcome run_id end store in
      let after = promote_if (is_applied end && is_token run_id (holder_of kept.locks)) kept in
      record after { locks = release_lock run_id after.locks }

  -- The function that `jobEnding` gives: whether it was called, and the files.
  unfoldable pub job_ending : Text → End → Bool × JobStore → Bool × JobStore
  unfolding applied_exits promote holder_of release_lock text_eq
  job_ending run_id end (true, store) = (true, store)
  job_ending run_id end (false, store) = (true, job_end run_id end store)

  -- The live settings stay, or the snapshot replaces them with what they were kept.
  abbrev pub KeptOrReplaced : JobStore → JobStore → Type 0
  KeptOrReplaced before after =
      (after.live ≡ before.live)
      ⊎ ((after.live ≡ before.snapshot) × ((before.live ≡ none) ⊎ (after.previous ≡ before.live)))

  keep_times_lem :
      (was : Option Text) (store : JobStore)
      → ((keep_times was store).live ≡ store.live)
        × ((keep_times was store).previous ≡ store.previous)
  keep_times_lem was store = elim (Bool-cases (writes applied_file)) [
    | inl e ↦ rw e (refl, refl)
    | inr e ↦ rw e (refl, refl)
  ]

  replace_live_lem :
      (was snap : Option Text) (store : JobStore)
      → ((replace_live was snap store).previous ≡ store.previous)
        × (((replace_live was snap store).live ≡ store.live)
            ⊎ ((replace_live was snap store).live ≡ snap))
  replace_live_lem was none store = (refl, inl refl)
  replace_live_lem was (some text) store = elim (Bool-cases (writes live_file)) [
    | inr e ↦ rw e (refl, inl refl)
    | inl e ↦ elim (Bool-cases (writes snapshot_file)) [
      | inr k ↦ rw e (rw k (refl, inr refl))
      | inl k ↦ rw e (
          rw k (
            let h = keep_times_lem was (record store { live = some text; snapshot = none }) in
            (h.1, inr h.0)))
    ]
  ]

  promote_from_lem :
      (was : Option Text) (store : JobStore)
      → store.live ≡ was
      → KeptOrReplaced store (promote_from was store)
  promote_from_lem none store e = elim (replace_live_lem none store.snapshot store).1 [
    | inl h ↦ inl h
    | inr h ↦ inr (h, inl e)
  ]
  promote_from_lem (some was) store e = elim (Bool-cases (writes previous_file)) [
    | inr k ↦ rw k (inl refl)
    | inl k ↦ rw k (
        let later : JobStore = record store { previous = some was } in
        let h = replace_live_lem (some was) store.snapshot later in
        elim h.1 [ inl l ↦ inl l | inr l ↦ inr (l, inr (h.0 ∙ sym e)) ])
  ]

  promote_if_lem : (b : Bool) (store : JobStore) → KeptOrReplaced store (promote_if b store)
  unfolding promote
  promote_if_lem false store = inl refl
  promote_if_lem true store = promote_from_lem store.live store refl

  job_end_lem :
      (run_id : Text) (end : End) (store : JobStore)
      → KeptOrReplaced store (job_end run_id end store)
  job_end_lem run_id end store = elim (Bool-cases (writes outcome_file)) [
    | inr e ↦ rw e (promote_if_lem _ store)
    | inl e ↦
        rw e (
          promote_if_lem _
            (record store { outcome = some (outcome_of run_id store.locks.now end) }))
  ]

  -- However a run ends, and whichever of its files cannot be written, the live settings stay as they
  -- were, or become the snapshot with what was live before kept as what an undo applies.
  pub job_ending-KeptOrReplaced :
      (run_id : Text) (end : End) (ended : Bool) (store : JobStore)
      → KeptOrReplaced store (job_ending run_id end (ended, store)).1
  unfolding job_ending
  job_ending-KeptOrReplaced run_id end true store = inl refl
  job_ending-KeptOrReplaced run_id end false store = job_end_lem run_id end store
