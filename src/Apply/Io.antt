-- ===== src/Apply/Io.antt =====
-- Asynchronous code that may throw, as actions on a state: what runs is written in the order of its
-- awaits. A thrown value carries no more than that it was thrown; messages are not modelled.
pub mod Returns
use openwrt_configurator.Prelude.{Option, none, some}

pub data Outcome {ℓ} (A : Type ℓ) : Type ℓ where
  returned : A → Outcome A
  thrown : Outcome A

abbrev pub Io {ℓ} : Type ℓ → Type ℓ → Type ℓ
Io S A = S → Outcome A × S

module _ {ℓ} {S A : Type ℓ} where
  unfoldable pub pure : A → Io S A
  pure a s = (returned a, s)

  unfoldable pub throw : Io S A
  throw s = (thrown, s)

  -- `try`: `none` where it threw.
  unfoldable pub attempt : Io S A → Io S (Option A)
  attempt m s =
      let (r, s') = m s in (elim r [ returned a ↦ returned (some a) | thrown ↦ returned none ], s')

module _ {ℓ} {S A B : Type ℓ} where
  abbrev pub continue : Outcome A → (A → Io S B) → Io S B
  continue (returned a) f s = f a s
  continue thrown f s = (thrown, s)

  infixl 5 ◌>>=◌ ◌>>◌
  unfoldable pub ◌>>=◌ : Io S A → (A → Io S B) → Io S B
  unfolding pure throw attempt
  ◌>>=◌ m f s = let (r, s') = m s in continue r f s'

  abbrev pub ◌>>◌ : Io S A → Io S B → Io S B
  m >> n = m >>= λ _. n
