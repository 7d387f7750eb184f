-- ===== src/Apply/Traces/Succeeds.antt =====
-- What an action of src/apply/ that succeeded did: what each of its parts returned, and in which world.
use openwrt_configurator.Prelude.{
  Option, none, some, List, [], ◌∷◌, Bool, true, false, ◌≡◌, refl, ap, ◌∙◌, arith, if◌then◌else◌,
  is_empty,
}
use openwrt_configurator.Apply.Io.{returned, pure, throw, attempt, ◌>>=◌}
use openwrt_configurator.Apply.Io.Returns.{
  pure-returned, throw-returned, bind-returned, attempt-returned,
}
use openwrt_configurator.Apply.Run.{
  Net, World, Phase, PhaseFailure, Result, ok, err, guarded, or_failure, Left,
}

-- The value of a success.
abbrev pub is_ok : {A : Type 0} → Result A PhaseFailure → Bool
is_ok (ok a) = true
is_ok (err e) = false

abbrev value_or : {A : Type 0} → A → Result A PhaseFailure → A
value_or d (ok a) = a
value_or d (err e) = d

pub ok-if :
    {A : Type 0} (b : Bool) (x a : A) (e : PhaseFailure)
    → (if◌then◌else◌ {A = Result A PhaseFailure} b (ok x) (err e)) ≡ ok a
    → (b ≡ true) × (x ≡ a)
ok-if true x a e h = (refl, ap (value_or x) h)
ok-if false x a e h = ground (arith, ap is_ok h)

pub is_empty-nil : {A : Type 0} (l : List A) → is_empty l ≡ true → l ≡ []
is_empty-nil [] e = refl
is_empty-nil (x ∷ l) e = ground arith

module _ ⦃net : Net⦄ where
  -- An action succeeded, in one world and leaving another.
  abbrev pub Succeeds : {A : Type 0} → Phase A → World net.State → A → World net.State → Type 0
  Succeeds m w a v = m w ≡ (returned (ok a), v)

  pub err-Succeeds :
      {A : Type 0} (e : PhaseFailure) (a : A) (w v : World net.State)
      → ¬ (Succeeds (pure (err e)) w a v)
  err-Succeeds e a w v h = ground (arith, ap is_ok (pure-returned (err e) (ok a) w v h).0)

  -- A success of what goes on from a result is one from its value.
  pub ok-Succeeds :
      {A B : Type 0} (r : Result A PhaseFailure) (f : PhaseFailure → Phase B) (g : A → Phase B)
      (b : B) (w v : World net.State)
      → ((e : PhaseFailure) → ¬ (Succeeds (f e) w b v))
      → Succeeds (elim r [ err e ↦ f e | ok a ↦ g a ]) w b v
      → (a : A) × ((r ≡ ok a) × Succeeds (g a) w b v)
  ok-Succeeds (ok a) f g b w v n h = (a, (refl, h))
  ok-Succeeds (err e) f g b w v n h = elim (n e h) [ ]

  pub some-Succeeds :
      {A B : Type 0} (o : Option B) (f : B → Phase A) (a : A) (w v : World net.State)
      → Succeeds (elim o [ none ↦ throw | some b ↦ f b ]) w a v
      → (b : B) × ((o ≡ some b) × Succeeds (f b) w a v)
  some-Succeeds none f a w v h = elim (throw-returned (ok a) w v h) [ ]
  some-Succeeds (some b) f a w v h = (b, (refl, h))

  pub then-Succeeds :
      {A B : Type 0} (m : Phase A) (g : A → Phase B) (b : B) (w v : World net.State)
      → Succeeds (m >>= λ r. elim r [ err e ↦ pure (err e) | ok a ↦ g a ]) w b v
      → (a : A) × ((u : World net.State) × (Succeeds m w a u × Succeeds (g a) u b v))
  then-Succeeds m g b w v h =
      let (r, (u, (q, k))) = bind-returned m _ w (ok b) v h in
      let (a, (e, l)) = ok-Succeeds r (λ f. pure (err f)) g b u v (λ f. err-Succeeds f b u v) k in
      (a, (u, (q ∙ ap (λ x. (returned x, u)) e, l)))

  unfailed :
      {A : Type 0} (left : Left) (o : Option (Result A PhaseFailure)) (a : A)
      → or_failure left o ≡ ok a
      → o ≡ some (ok a)
  unfolding or_failure
  unfailed left none a e = ground (arith, ap is_ok e)
  unfailed left (some r) a e = ap some e

  pub guarded-Succeeds :
      {A : Type 0} (m : Phase A) (left : Left) (a : A) (w v : World net.State)
      → Succeeds (guarded m left) w a v
      → Succeeds m w a v
  unfolding guarded
  guarded-Succeeds m left a w v h =
      let (r, (u, (q, k))) =
        bind-returned (attempt m) (λ o. pure (or_failure left o)) w (ok a) v h in
      let (e, f) = pure-returned (or_failure left r) (ok a) u v k in
      attempt-returned m w v (ok a) (
        q
        ∙ ap (λ o. (returned o, u)) (unfailed left r a e)
        ∙ ap (λ x. (returned (some (ok a)), x)) f)
