-- ===== src/Lock/Tests.antt =====
-- Runs of the lock of src/lock.ts at concrete inputs.
use openwrt_configurator.Prelude.{
  Text, ℕ, zero, suc, ◌≤◌, codes, none, some, List, [], ◌∷◌, Bool, true, false, ◌≡◌, refl, sym,
  text_eq, text_eq_iff, is_some, Bool-cases, inl, inr,
}
use openwrt_configurator.Lock.{Stale, LockFiles, taken, older_than, take_lock}
use openwrt_configurator.Lock.Answers.{held_by}
use openwrt_configurator.Lock.Machine.{
  Pc, idle, refused, broken, asking, gone, holding, set_pc, Machine, Event, passes, killed,
  continues, step, steps, start, next,
}
use openwrt_configurator.Lock.Exclusive.{Due, Timely, Due-Timely, steps-exclusive}
use openwrt_configurator.Lock.Exclusive.Invariant.{has_lock, AtMostOne, Nobody}
use openwrt_configurator.Lock.Alone.{run_alone, take_lock-run_alone}

abbrev crashed : Text
crashed = codes "k1"

abbrev later : Text
later = codes "k2"

-- A lock with no token is stale after a minute.
abbrev by_age : Machine → Stale
by_age m none at = older_than 60000 m.files.now at
by_age m (some holder) at = false

-- One makes the lock and is killed; the other takes it over a minute later.
abbrev crash : List Event
crash =
    continues crashed
    ∷ continues crashed
    ∷ killed crashed
    ∷ passes 60001
    ∷ continues later
    ∷ continues later
    ∷ continues later
    ∷ continues later
    ∷ continues later
    ∷ continues later
    ∷ continues later
    ∷ continues later
    ∷ continues later
    ∷ continues later
    ∷ continues later
    ∷ []

-- Until the other has read that the lock has no token, and since when.
abbrev contested : List Event
contested =
    continues crashed
    ∷ continues crashed
    ∷ killed crashed
    ∷ passes 60001
    ∷ continues later
    ∷ continues later
    ∷ continues later
    ∷ continues later
    ∷ continues later
    ∷ continues later
    ∷ []

infixr 3 ◌&◌
abbrev ◌&◌ : {A B : Type 0} → A → B → A × B
a & b = (a, b)

crash_taken : (steps by_age crash (start 5)).pcs later ≡ holding
unfolding steps step next set_pc text_eq older_than
crash_taken = refl

-- A state whose processes are these two.
two :
    (m : Machine) (P : Pc → Type 0)
    → P (m.pcs crashed)
    → P (m.pcs later)
    → ((p : Text) → text_eq crashed p ≡ false → text_eq later p ≡ false → P (m.pcs p))
    → (p : Text) → P (m.pcs p)
two m P h k others p = elim (Bool-cases (text_eq crashed p)) [
  | inl e ↦ rw (sym ((text_eq_iff crashed p).0 e)) h
  | inr e ↦ elim (Bool-cases (text_eq later p)) [
    | inl f ↦ rw (sym ((text_eq_iff later p).0 f)) k
    | inr f ↦ others p e f
  ]
]

calm :
    (m : Machine)
    → Due crashed m.pcs (by_age m) (is_some m.files.lock) (m.pcs crashed)
    → Due later m.pcs (by_age m) (is_some m.files.lock) (m.pcs later)
    → ((p : Text) → text_eq crashed p ≡ false → text_eq later p ≡ false → m.pcs p ≡ idle)
    → Timely by_age m
calm m h k others = Due-Timely by_age m (
    two m (λ c. Due later m.pcs (by_age m) (is_some m.files.lock) c) h k
      (λ p e f. rw (others p e f) tt))

nobody :
    (m : Machine)
    → has_lock (m.pcs crashed) ≡ false
    → has_lock (m.pcs later) ≡ false
    → ((p : Text) → text_eq crashed p ≡ false → text_eq later p ≡ false → m.pcs p ≡ idle)
    → Nobody has_lock m.pcs
nobody m h k others = two m (λ c. has_lock c ≡ false) h k (λ p e f. rw (others p e f) refl)

steps-exclusive_example : AtMostOne has_lock (steps by_age crash (start 5)).pcs
unfolding steps step next set_pc text_eq older_than
steps-exclusive_example = steps-exclusive by_age 5 crash (
    calm _ tt tt (λ p e f. refl)
    & calm _ tt tt (λ p e f. rw e refl)
    & calm _ tt tt (λ p e f. rw e refl)
    & calm _ tt tt (λ p e f. rw e refl)
    & calm _ tt tt (λ p e f. rw e refl)
    & calm _ tt tt (λ p e f. rw e (rw f refl))
    & calm _ tt tt (λ p e f. rw e (rw f refl))
    & calm _ tt tt (λ p e f. rw e (rw f refl))
    & calm _ tt tt (λ p e f. rw e (rw f refl))
    & calm _ tt tt (λ p e f. rw e (rw f refl))
    & calm _ tt
        (λ k.
          (refl, nobody (steps by_age contested (start 5)) refl refl (λ p e f. rw e (rw f refl))))
        (λ p e f. rw e (rw f refl))
    & calm _ tt tt (λ p e f. rw e (rw f refl))
    & calm _ tt tt (λ p e f. rw e (rw f refl))
    & calm _ tt tt (λ p e f. rw e (rw f refl))
    & calm _ tt tt (λ p e f. rw e (rw f refl))
    & calm _ tt tt (λ p e f. rw e (rw f refl)))

-- A lock without a token, and a takeover lock, that are both old.
abbrev abandoned : LockFiles
abandoned = record {
  now = 70000;
  lock = some (record { changed = 5; owner = none });
  takeover = some 9;
}

abbrev by_minutes : Stale
by_minutes holder at = older_than 60000 70000 at

take_lock-run_alone_example :
    (take_lock by_minutes later abandoned
      ≡ (taken, record { now = 70000; lock = held_by later 70000; takeover = none }))
    × ((n : ℕ) × (n ≤ 11)
        × (run_alone by_minutes later n (abandoned, asking)
            ≡ (record { now = 70000; lock = held_by later 70000; takeover = none }, holding)))
unfolding older_than
take_lock-run_alone_example = take_lock-run_alone by_minutes later abandoned

-- A holder is gone once its process is neither in `takeLock` nor holding.
abbrev is_out : Pc → Bool
is_out idle = true
is_out refused = true
is_out broken = true
is_out gone = true
is_out c = false

abbrev by_process : Machine → Stale
by_process m none at = false
by_process m (some holder) at = is_out (m.pcs holder)

abbrev third : Text
third = codes "k3"

abbrev turns : Text → ℕ → List Event → List Event
turns token zero es = es
turns token (suc n) es = continues token ∷ turns token n es

-- The holder releases the lock and a third takes it, between the takeover's reading of the holder
-- and its removal of the lock.
abbrev race : List Event
race = turns crashed 3 (turns later 6 (turns crashed 2 (turns third 3 (turns later 5 []))))

race_both :
    ((steps by_process race (start 5)).pcs third ≡ holding)
    × ((steps by_process race (start 5)).pcs later ≡ holding)
unfolding steps step next set_pc text_eq older_than
race_both = (refl, refl)
