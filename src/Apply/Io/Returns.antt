-- ===== src/Apply/Io/Returns.antt =====
-- What an action returned, taken apart: what each of its parts returned, and in which state.
use openwrt_configurator.Prelude.{Bool, true, false, Option, none, some, ◌≡◌, refl, ap, ◌∙◌, arith}
use openwrt_configurator.Apply.Io.{
  Outcome, returned, thrown, Io, pure, throw, attempt, ◌>>=◌, continue,
}

abbrev is_returned : {A : Type 0} → Outcome A → Bool
is_returned (returned a) = true
is_returned thrown = false

abbrev value_of : {A : Type 0} → A → Outcome (Option A) → A
value_of d (returned (some x)) = x
value_of d _ = d

abbrev is_some_of : {A : Type 0} → Outcome (Option A) → Bool
is_some_of (returned (some x)) = true
is_some_of _ = false

attempted :
    {A : Type 0} (a : A) (o : Outcome A)
    → (elim o as (λ x. Outcome (Option A)) [
      | returned x ↦ returned (some x)
      | thrown ↦ returned none
    ])
      ≡ returned (some a)
    → o ≡ returned a
attempted a (returned x) e = ap (λ y. returned (value_of a y)) e
attempted a thrown e = ground (arith, ap is_some_of e)

module _ {S A : Type 0} where
  pub pure-returned : (a b : A) (s t : S) → pure a s ≡ (returned b, t) → (a ≡ b) × (s ≡ t)
  unfolding pure
  pure-returned a b s t e = (ap (λ p. value a p.0) e, ap (λ p. p.1) e)
    where
      value : A → Outcome A → A
      value d (returned x) = x
      value d thrown = d

  pub throw-returned : (b : A) (s t : S) → ¬ (throw s ≡ (returned b, t))
  unfolding throw
  throw-returned b s t e = ground (arith, ap (λ p. is_returned p.0) e)

  -- What `try` gave was returned.
  pub attempt-returned :
      (m : Io S A) (s t : S) (a : A) → attempt m s ≡ (returned (some a), t) → m s ≡ (returned a, t)
  unfolding attempt
  attempt-returned m s t a e =
      ap (λ o. (o, (m s).1)) (attempted a (m s).0 (ap (λ p. p.0) e))
      ∙ ap (λ u. (returned a, u)) (ap (λ p. p.1) e)

module _ {S A B : Type 0} where
  continue-returned :
      (m : Io S A) (f : A → Io S B) (s : S) (o : Outcome A) (u : S) (b : B) (t : S)
      → m s ≡ (o, u)
      → continue o f u ≡ (returned b, t)
      → (a : A) × ((v : S) × ((m s ≡ (returned a, v)) × (f a v ≡ (returned b, t))))
  continue-returned m f s (returned a) u b t q e = (a, (u, (q, e)))
  continue-returned m f s thrown u b t q e = ground (arith, ap (λ p. is_returned p.0) e)

  pub bind-returned :
      (m : Io S A) (f : A → Io S B) (s : S) (b : B) (t : S)
      → (m >>= f) s ≡ (returned b, t)
      → (a : A) × ((v : S) × ((m s ≡ (returned a, v)) × (f a v ≡ (returned b, t))))
  unfolding ◌>>=◌
  bind-returned m f s b t e = continue-returned m f s (m s).0 (m s).1 b t refl e
