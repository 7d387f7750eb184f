-- ===== src/Apply/Traces.antt =====
-- What an action adds to the log: one rule for each way to build an action, then the phases.
pub mod Devices
pub mod Phases
pub mod Values
pub mod Undo
pub mod Succeeds
pub mod Verified
use openwrt_configurator.Prelude.{
  Text, ℕ, Option, none, some, List, [], ◌∷◌, Bool, true, false, ◌≡◌, All,
}
use openwrt_configurator.Agent.Verbs.{Command, ExecResult, Verb}
use openwrt_configurator.Agent.Verbs as Verbs
use openwrt_configurator.Apply.Io.{
  Outcome, returned, thrown, pure, throw, attempt, ◌>>=◌, ◌>>◌, continue,
}
use openwrt_configurator.Apply.Run.{
  Net, World, M, Event, sent, stepped, windowed, Phase, Left, does, asks, now, sleep, emit, call,
  guarded,
}

-- `log` is `old` with events put before it that are all `P`.
pub data Grew (P : Event → Type 0) (old : List Event) : List Event → Type 0 where
  same : Grew P old old
  more : {e : Event} {log : List Event} → P e → Grew P old log → Grew P old (e ∷ log)

pub Grew-trans : {P : Event → Type 0} {a b c : List Event} → Grew P a b → Grew P b c → Grew P a c
Grew-trans g same = g
Grew-trans g (more p h) = more p (Grew-trans g h)

pub Grew-All : {P : Event → Type 0} {a b : List Event} → Grew P a b → All P a → All P b
Grew-All same h = h
Grew-All (more p g) h = (p, Grew-All g h)

-- Neither a commit nor a disarm.
abbrev pub IsMild : Event → Type 0
IsMild (sent id (Verbs.finalise records) r) = ⊥
IsMild (sent id Verbs.disarm r) = ⊥
IsMild _ = Unit

module _ ⦃net : Net⦄ where
  -- Whatever the surroundings answer, `m` adds only events that are `P`, also where it throws.
  pub record Emits {A : Type 0} (P : Event → Type 0) (m : M A) : Type 0 where
    pub at : (w : World net.State) → Grew P w.log (m w).1.log

  module _ {P : Event → Type 0} where
    pub Emits-pure : {A : Type 0} (a : A) → Emits P (pure a)
    unfolding pure
    Emits-pure a = record { at = λ w. same }

    pub Emits-throw : {A : Type 0} → Emits P (throw {A = A})
    unfolding throw
    Emits-throw = record { at = λ w. same }

    pub Emits-attempt : {A : Type 0} {m : M A} → Emits P m → Emits P (attempt m)
    unfolding attempt
    Emits-attempt h = record { at = λ w. h.at w }

    Emits-continue :
        {A B : Type 0} (o : Outcome A) (f : A → M B) (w : World net.State)
        → ((a : A) → Emits P (f a))
        → Grew P w.log (continue o f w).1.log
    Emits-continue (returned a) f w h = (h a).at w
    Emits-continue thrown f w h = same

    pub Emits-bind :
        {A B : Type 0} {m : M A} {f : A → M B}
        → Emits P m
        → ((a : A) → Emits P (f a))
        → Emits P (m >>= f)
    unfolding ◌>>=◌
    Emits-bind {m} {f} hm hf = record {
      at = λ w. Grew-trans (hm.at w) (Emits-continue (m w).0 f (m w).1 hf);
    }

    pub Emits-does : {A : Type 0} (f : net.State → A × net.State) → Emits P (does f)
    unfolding does
    Emits-does f = record { at = λ w. same }

    pub Emits-asks : {A : Type 0} (f : net.State → Option A × net.State) → Emits P (asks f)
    unfolding asks
    Emits-asks f = record { at = λ w. same }

    pub Emits-now : Emits P now
    unfolding now
    Emits-now = record { at = λ w. same }

    pub Emits-sleep : (ms : ℕ) → Emits P (sleep ms)
    unfolding sleep
    Emits-sleep ms = record { at = λ w. same }

    pub Emits-emit : (e : Event) → P e → Emits P (emit e)
    unfolding emit
    Emits-emit e p = record { at = λ w. more p same }

    pub Emits-call :
        {A : Type 0} (session : net.Session) (v : Verb A)
        → ((r : Option ExecResult) → P (sent v.run_id v.command r))
        → Emits P (call session v)
    unfolding call
    Emits-call session v p = record { at = λ w. more (p _) same }

    pub Emits-guarded :
        {A : Type 0} {body : Phase A} (left : Left) → Emits P body → Emits P (guarded body left)
    unfolding guarded
    Emits-guarded left h = Emits-bind (Emits-attempt h) (λ r. Emits-pure _)

    pub Emits-bool :
        {A : Type 0} {m n : M A} (b : Bool)
        → Emits P m
        → Emits P n
        → Emits P (elim b [ true ↦ m | false ↦ n ])
    Emits-bool true hm hn = hm
    Emits-bool false hm hn = hn

    pub Emits-option :
        {A B : Type 0} {m : M B} {f : A → M B} (o : Option A)
        → Emits P m
        → ((a : A) → Emits P (f a))
        → Emits P (elim o [ none ↦ m | some a ↦ f a ])
    Emits-option none hm hf = hm
    Emits-option (some a) hm hf = hf a
