-- ===== src/Lock/Exclusive.antt =====
-- When the lock of src/lock.ts is held by at most one, whatever the order of the processes' steps:
-- where each removal is still right when it is decided (Timely).
pub mod Invariant
mod Updates
use openwrt_configurator.Prelude.{
  Text, ℕ, Option, none, some, List, [], ◌∷◌, Bool, true, false, ◌≡◌, refl, sym, text_eq_iff,
  is_some, Bool-cases, inl, inr, arith,
}
use openwrt_configurator.Lock.{
  Dir, taken, held, failed, Stale, LockFiles, is_token, holder_in, takeover_stale,
}
use openwrt_configurator.Lock.Machine.{
  Pc, idle, refused, broken, asking, owning, measuring, clearing, claiming, reading, dating,
  judging, removing, remaking, owning_over, leaving, holding, freeing, gone, next, set_pc, Machine,
  Event, passes, killed, continues, step, steps, start,
}
use openwrt_configurator.Lock.Exclusive.Invariant.{
  has_lock, takes_over, removes, AtMostOne, Nobody, Inv, removes-takes_over,
}
use openwrt_configurator.Lock.Exclusive.Updates.{
  lapse, makes_lock, makes_takeover, drops_takeover, drops_lock, decides,
}

-- What makes removing safe when it is decided: a takeover lock found stale is no process's that takes
-- over now, and a lock whose holder is judged gone is still there, with no process that has it.
pub record Timely (stale : Machine → Stale) (m : Machine) : Type 0 where
  pub clears : (p q : Text) → m.pcs p ≡ clearing → takes_over (m.pcs q) ≡ false
  pub judges_there :
      (p : Text) (holder : Option Text) (at : Option ℕ)
      → m.pcs p ≡ judging holder at
      → stale m holder at ≡ true
      → is_some m.files.lock ≡ true
  pub judges_free :
      (p : Text) (holder : Option Text) (at : Option ℕ)
      → m.pcs p ≡ judging holder at
      → stale m holder at ≡ true
      → Nobody has_lock m.pcs

-- At every step of a run.
abbrev pub Throughout : (Machine → Stale) → (Machine → Type 0) → List Event → Machine → Type 0
Throughout stale P [] m = P m
Throughout stale P (e ∷ es) m = P m × Throughout stale P es (step stale e m)

abbrev files_of : ℕ → Option Dir → Option ℕ → LockFiles
files_of now l o = record { now = now; lock = l; takeover = o }

abbrev Safe : LockFiles → (Text → Pc) → Type 0
Safe files pcs = Inv (is_some files.lock) (is_some files.takeover) pcs

module _ (p : Text) (pcs : Text → Pc) where
  -- A step that leaves its process without the lock and the takeover lock.
  stops :
      {there over : Bool} (c : Pc)
      → has_lock c ≡ false
      → takes_over c ≡ false
      → removes c ≡ false
      → Inv there over pcs
      → Inv there over (set_pc p c pcs)
  stops c h t r inv = lapse inv p c (ground (arith, h)) (ground (arith, t)) (ground (arith, r))

  -- What Timely says of a process by the call it makes next.
  abbrev pub Due : Stale → Bool → Pc → Type 0
  Due judge there clearing = Nobody takes_over pcs
  Due judge there (judging holder at) =
      judge holder at ≡ true → (there ≡ true) × Nobody has_lock pcs
  Due judge there _ = Unit

  abbrev Kept : Stale → ℕ → Option Dir → Option ℕ → Pc → Type 0
  Kept judge now l o c =
      pcs p ≡ c
      → Due judge (is_some l) c
      → Safe (files_of now l o) pcs
      → Safe (next judge p (files_of now l o) c).0
          (set_pc p (next judge p (files_of now l o) c).1 pcs)

  has_freeing : pcs p ≡ freeing → has_lock (pcs p) ≡ true
  has_freeing e = rw e refl

  next-Safe :
      (judge : Stale) (now : ℕ) (l : Option Dir) (o : Option ℕ) (c : Pc) → Kept judge now l o c
  unfolding next
  next-Safe judge now l o idle e due inv = stops asking refl refl refl inv
  next-Safe judge now l o refused e due inv = stops asking refl refl refl inv
  next-Safe judge now l o broken e due inv = stops asking refl refl refl inv
  next-Safe judge now none o asking e due inv =
      makes_lock inv p owning (λ h. ground (arith, h)) refl
  next-Safe judge now (some d) o asking e due inv = stops measuring refl refl refl inv
  next-Safe judge now none o owning e due inv = stops broken refl refl refl inv
  next-Safe judge now (some d) o owning e due inv =
      lapse inv p holding (λ h. rw e refl) (λ h. ground (arith, h)) (λ h. ground (arith, h))
  next-Safe judge now l o measuring e due inv =
      elim (Bool-cases (takeover_stale (files_of now l o))) [
        | inl k ↦ rw k (stops clearing refl refl refl inv)
        | inr k ↦ rw k (stops claiming refl refl refl inv)
      ]
  next-Safe judge now l o clearing e due inv =
      drops_takeover inv p claiming (λ h. ground (arith, h)) refl refl
        (λ q h. ground (arith, h, due q))
  next-Safe judge now l none claiming e due inv =
      makes_takeover inv p reading (λ h. ground (arith, h)) refl
  next-Safe judge now l (some at) claiming e due inv = stops refused refl refl refl inv
  next-Safe judge now l o reading e due inv =
      lapse inv p (dating _) (λ h. ground (arith, h)) (λ h. rw e refl) (λ h. ground (arith, h))
  next-Safe judge now l o (dating holder) e due inv =
      lapse inv p (judging holder _) (λ h. ground (arith, h)) (λ h. rw e refl)
        (λ h. ground (arith, h))
  next-Safe judge now l o (judging holder at) e due inv = elim (Bool-cases (judge holder at)) [
    | inl k ↦ rw k (decides inv (due k).0 p removing (rw e refl) (due k).1 refl)
    | inr k ↦ rw k (
        lapse inv p (leaving held) (λ h. ground (arith, h)) (λ h. rw e refl)
          (λ h. ground (arith, h)))
  ]
  next-Safe judge now l o removing e due inv =
      drops_lock inv p remaking refl (λ h. rw e refl) refl
        (λ q h. ground (arith, h, inv.removes_free p q (rw e refl)))
        (λ q h. inv.one_takes p q (rw e refl) (removes-takes_over (pcs q) h))
  next-Safe judge now none o remaking e due inv = makes_lock inv p owning_over (λ h. rw e refl) refl
  next-Safe judge now (some d) o remaking e due inv =
      lapse inv p (leaving held) (λ h. ground (arith, h)) (λ h. rw e refl) (λ h. ground (arith, h))
  next-Safe judge now none o owning_over e due inv =
      lapse inv p (leaving failed) (λ h. ground (arith, h)) (λ h. rw e refl)
        (λ h. ground (arith, h))
  next-Safe judge now (some d) o owning_over e due inv =
      lapse inv p (leaving taken) (λ h. rw e refl) (λ h. rw e refl) (λ h. ground (arith, h))
  next-Safe judge now l o (leaving taken) e due inv =
      drops_takeover inv p holding (λ h. rw e refl) refl refl
        (λ q h. inv.one_takes p q (rw e refl) h)
  next-Safe judge now l o (leaving held) e due inv =
      drops_takeover inv p refused (λ h. ground (arith, h)) refl refl
        (λ q h. inv.one_takes p q (rw e refl) h)
  next-Safe judge now l o (leaving failed) e due inv =
      drops_takeover inv p broken (λ h. ground (arith, h)) refl refl
        (λ q h. inv.one_takes p q (rw e refl) h)
  next-Safe judge now l o holding e due inv = elim (Bool-cases (is_token p (holder_in l))) [
    | inl k ↦
        rw k
          (lapse inv p freeing (λ h. rw e refl) (λ h. ground (arith, h)) (λ h. ground (arith, h)))
    | inr k ↦ rw k (stops idle refl refl refl inv)
  ]
  next-Safe judge now l o freeing e due inv =
      drops_lock inv p idle refl (λ h. ground (arith, h)) refl
        (λ q h. inv.one_has p q (rw e refl) h)
        (λ q h. ground (arith, e, h, inv.removes_free q p h, has_freeing e))
  next-Safe judge now l o gone e due inv = stops gone refl refl refl inv

  kill-Safe : (files : LockFiles) → Safe files pcs → Safe files (set_pc p gone pcs)
  kill-Safe files inv = stops gone refl refl refl inv

Timely-Due :
    (stale : Machine → Stale) (m : Machine) (p : Text) (c : Pc)
    → m.pcs p ≡ c
    → Timely stale m
    → Due p m.pcs (stale m) (is_some m.files.lock) c
Timely-Due stale m p clearing e t = λ q. t.clears p q e
Timely-Due stale m p (judging holder at) e t =
    λ k. (t.judges_there p holder at e k, t.judges_free p holder at e k)
Timely-Due stale m p _ e t = tt

pub Due-Timely :
    (stale : Machine → Stale) (m : Machine)
    → ((p : Text) → Due p m.pcs (stale m) (is_some m.files.lock) (m.pcs p))
    → Timely stale m
Due-Timely stale m d = record {
  clears = λ p q e. at_due p e q;
  judges_there = λ p holder at e k. (at_due p e k).0;
  judges_free = λ p holder at e k. (at_due p e k).1;
}
  where
    at_due : (p : Text) {c : Pc} → m.pcs p ≡ c → Due p m.pcs (stale m) (is_some m.files.lock) c
    at_due p e = rw (sym e) (d p)

step-Safe :
    (stale : Machine → Stale) (e : Event) (m : Machine)
    → Timely stale m
    → Safe m.files m.pcs
    → Safe (step stale e m).files (step stale e m).pcs
unfolding step
step-Safe stale (passes ms) m t inv = inv
step-Safe stale (killed p) m t inv = kill-Safe p m.pcs m.files inv
step-Safe stale (continues p) m t inv =
    next-Safe p m.pcs (stale m) m.files.now m.files.lock m.files.takeover (m.pcs p) refl
      (Timely-Due stale m p (m.pcs p) refl t) inv

steps-Safe :
    (stale : Machine → Stale) (es : List Event) (m : Machine)
    → Throughout stale (Timely stale) es m
    → Safe m.files m.pcs
    → Safe (steps stale es m).files (steps stale es m).pcs
unfolding steps
steps-Safe stale [] m t inv = inv
steps-Safe stale (e ∷ es) m t inv =
    steps-Safe stale es (step stale e m) t.1 (step-Safe stale e m t.0 inv)

start-Safe : (now : ℕ) → Safe (start now).files (start now).pcs
start-Safe now = record {
  one_has = λ a b h k. ground (arith, h);
  has_there = λ a h. ground (arith, h);
  one_takes = λ a b h k. ground (arith, h);
  takes_there = λ a h. ground (arith, h);
  removes_there = λ a h. ground (arith, h);
  removes_free = λ a b h. refl;
}

-- Whatever the order in which processes take their calls of `takeLock` and `releaseLock`, are killed
-- and let time pass, no two hold the lock at once, where at every step a takeover lock that is
-- removed as stale is not in use, and the lock of a holder judged gone is there and has no other.
pub steps-exclusive :
    (stale : Machine → Stale) (now : ℕ) (es : List Event)
    → Throughout stale (Timely stale) es (start now)
    → AtMostOne has_lock (steps stale es (start now)).pcs
steps-exclusive stale now es t = (steps-Safe stale es (start now) t (start-Safe now)).one_has
