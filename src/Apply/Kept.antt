-- ===== src/Apply/Kept.antt =====
-- What a run of src/apply/provisionNetwork.ts that was undone leaves: no device both had its config
-- committed and answered that it keeps it. A run that ends as partial is not one of these.
pub mod Before
pub mod Disarming
pub mod Whole
pub mod Arming
pub mod Tests
use openwrt_configurator.Prelude.{
  Text, text_eq, text_eq_refl, eq_of_text_eq, Option, none, some, List, [], ◌∷◌, Bool, true, false,
  ◌≡◌, refl, ◌≢◌, ◌⊎◌, inl, inr, All, All-map, sym, ◌∙◌, ap, arith,
}
use openwrt_configurator.Agent.Verbs as Verbs
use openwrt_configurator.Agent.Verbs.{ExecResult}
use openwrt_configurator.Apply.Io.{Outcome, returned, thrown, ◌>>=◌, continue}
use openwrt_configurator.Apply.Run.{
  Net, World, M, Run, Event, sent, stepped, windowed, answer, Result, ok, err,
}
use openwrt_configurator.Apply.Recover.{Disarm, disarmed, fired, disarm_of}
use openwrt_configurator.Apply.Traces.{IsMild}

-- No config of the run `id` was committed.
abbrev pub NotCommit : Text → Event → Type 0
NotCommit id (sent i (Verbs.finalise records) r) = i ≢ id
NotCommit id _ = Unit

-- The device of the run `id` was not sent a disarm.
abbrev pub NotDisarm : Text → Event → Type 0
NotDisarm id (sent i Verbs.disarm r) = i ≢ id
NotDisarm id _ = Unit

abbrev pub is_disarmed : Option Disarm → Bool
is_disarmed (some disarmed) = true
is_disarmed _ = false

-- The device of the run `id` did not answer that it keeps what was committed.
abbrev pub NotKept : Text → Event → Type 0
NotKept id (sent i Verbs.disarm r) = (i ≢ id) ⊎ (is_disarmed (answer disarm_of r) ≡ false)
NotKept id _ = Unit

pub mild-NotCommit : (id : Text) (e : Event) → IsMild e → NotCommit id e
mild-NotCommit id (sent i (Verbs.finalise records) r) h = elim h [ ]
mild-NotCommit id _ h = tt

pub mild-NotDisarm : (id : Text) (e : Event) → IsMild e → NotDisarm id e
mild-NotDisarm id (sent i Verbs.disarm r) h = elim h [ ]
mild-NotDisarm id _ h = tt

pub mild-NotKept : (id : Text) (e : Event) → IsMild e → NotKept id e
mild-NotKept id (sent i Verbs.disarm r) h = elim h [ ]
mild-NotKept id _ h = tt

pub NotKept-NotDisarm : (id : Text) (e : Event) → NotDisarm id e → NotKept id e
NotKept-NotDisarm id (sent i Verbs.disarm r) h = inl h
NotKept-NotDisarm id _ h = tt

pub text_cases : (a b : Text) → (a ≡ b) ⊎ (a ≢ b)
text_cases a b =
    elim_cases (text_eq a b) (λ e. inl (eq_of_text_eq a b e))
      (λ f. inr (λ e. ground (arith, text_eq_refl b)))
  where
    elim_cases : {X : Type 0} (c : Bool) → (c ≡ true → X) → (c ≡ false → X) → X
    elim_cases true h k = h refl
    elim_cases false h k = k refl

module _ ⦃net : Net⦄ where
  abbrev pub Post : Type 0 → Type 1
  Post A = Outcome A × World net.State → Type 0

  then_continue :
      {A B : Type 0} (T : Post B) (R : Post A) (f : A → M B) (o : Outcome A) (w : World net.State)
      → R (o, w)
      → ((v : World net.State) → R (thrown, v) → T (thrown, v))
      → ((a : A) (v : World net.State) → R (returned a, v) → T (f a v))
      → T (continue o f w)
  then_continue T R f (returned a) w r ht hf = hf a w r
  then_continue T R f thrown w r ht hf = ht w r

  -- What holds after `m` carries over to what holds after the whole.
  pub then_post :
      {A B : Type 0} (T : Post B) (R : Post A) (m : M A) (f : A → M B) (w : World net.State)
      → R (m w)
      → ((v : World net.State) → R (thrown, v) → T (thrown, v))
      → ((a : A) (v : World net.State) → R (returned a, v) → T (f a v))
      → T ((m >>= f) w)
  unfolding ◌>>=◌
  then_post T R m f w r ht hf = then_continue T R f (m w).0 (m w).1 r ht hf

  -- None of these runs is `id`.
  abbrev pub Absent : Text → List Run → Type 0
  Absent id runs = All (λ (r : Run). r.run_id ≢ id) runs

  abbrev pub HasDistinctIds : List Run → Type 0
  HasDistinctIds [] = Unit
  HasDistinctIds (r ∷ rs) = Absent r.run_id rs × HasDistinctIds rs

  pub result_post :
      {A B E : Type 0} (T : Post B) (f : E → M B) (g : A → M B) (r : Result A E)
      (v : World net.State)
      → ((e : E) → r ≡ err e → T (f e v))
      → ((a : A) → r ≡ ok a → T (g a v))
      → T ((elim r as (λ x. M B) [ err e ↦ f e | ok a ↦ g a ]) v)
  result_post T f g (ok a) v hf hg = hg a refl
  result_post T f g (err e) v hf hg = hf e refl

  pub option_post :
      {A B : Type 0} (T : Post B) (m : M B) (f : A → M B) (o : Option A) (v : World net.State)
      → (o ≡ none → T (m v))
      → ((a : A) → o ≡ some a → T (f a v))
      → T ((elim o as (λ x. M B) [ none ↦ m | some a ↦ f a ]) v)
  option_post T m f none v hm hf = hm refl
  option_post T m f (some a) v hm hf = hf a refl
