-- ===== src/Prelude/Splits.antt =====
-- `split` of a text at one character, with what `join` puts together.
use Prim.Native.Nat.{ℕ}
use mathlib.Core.Path.{◌≡◌, refl, sym, ap, ◌∙◌}
use mathlib.Core.Logic.{inl, inr}
use mathlib.Core.Bool.{Bool, true, not}
use mathlib.Core.List.{List, [], ◌∷◌, ◌++◌}
use native.Mathlib.Omega.{arith}
use openwrt_configurator.Prelude.Tests.{◌==◌, ==_iff, if◌then◌else◌, Bool-cases}
use openwrt_configurator.Prelude.Lists.{all}
use openwrt_configurator.Prelude.Texts.{Text, join}

abbrev pub to_last : ℕ → List Text → List Text
to_last c [] = (c ∷ []) ∷ []
to_last c (t ∷ ts) = (c ∷ t) ∷ ts

-- `text.split(sep)`: at least one part.
unfoldable pub split : ℕ → Text → List Text
split sep [] = [] ∷ []
split sep (c ∷ t) = let rest = split sep t in if c == sep then [] ∷ rest else to_last c rest

-- Without a character.
unfoldable pub lacks : ℕ → Text → Bool
unfolding all
lacks sep t = all (λ c. not (c == sep)) t

pub split-append :
    (sep : ℕ) (t rest : Text)
    → lacks sep t ≡ true
    → split sep (t ++ sep ∷ rest) ≡ t ∷ split sep rest
unfolding split lacks
split-append sep [] rest h = rw ((==_iff sep sep).1 refl) refl
split-append sep (c ∷ t) rest h = elim (Bool-cases (c == sep)) [
  | inl e ↦ ground (arith, rw e at h)
  | inr e ↦ rw e (ap (to_last c) (split-append sep t rest (ground (arith, h))))
]

pub split_one : (sep : ℕ) (t : Text) → lacks sep t ≡ true → split sep t ≡ t ∷ []
unfolding split lacks
split_one sep [] h = refl
split_one sep (c ∷ t) h = elim (Bool-cases (c == sep)) [
  | inl e ↦ ground (arith, rw e at h)
  | inr e ↦ rw e (ap (to_last c) (split_one sep t (ground (arith, h))))
]

to_last-append :
    (c : ℕ) (t : Text) (ts us : List Text) → to_last c ((t ∷ ts) ++ us) ≡ to_last c (t ∷ ts) ++ us
to_last-append c t ts us = refl

-- A text has a first part.
pub split_cons : (sep : ℕ) (t : Text) → (p : Text) × (ps : List Text) × (split sep t ≡ p ∷ ps)
unfolding split
split_cons sep [] = ([], [], refl)
split_cons sep (c ∷ t) = elim (Bool-cases (c == sep)) [
  | inl e ↦ ([], split sep t, rw e refl)
  | inr e ↦ let (p, ps, k) = split_cons sep t in (c ∷ p, ps, rw e (rw k refl))
]

-- A text of two joined by the character: the parts of both.
pub split-both :
    (sep : ℕ) (t rest : Text) → split sep (t ++ sep ∷ rest) ≡ split sep t ++ split sep rest
unfolding split
split-both sep [] rest = rw ((==_iff sep sep).1 refl) refl
split-both sep (c ∷ t) rest = elim (Bool-cases (c == sep)) [
  | inl e ↦ rw e (ap (λ ps. [] ∷ ps) (split-both sep t rest))
  | inr e ↦
      let (p, ps, k) = split_cons sep t in rw e (ap (to_last c) (split-both sep t rest) ∙ rw k refl)
]

join_cons :
    (sep : ℕ) (c : ℕ) (p : Text) (ps : List Text)
    → join (sep ∷ []) ((c ∷ p) ∷ ps) ≡ c ∷ join (sep ∷ []) (p ∷ ps)
unfolding join
join_cons sep c p [] = refl
join_cons sep c p (q ∷ ps) = refl

-- The parts joined again are the text.
pub join-split : (sep : ℕ) (t : Text) → join (sep ∷ []) (split sep t) ≡ t
unfolding split join
join-split sep [] = refl
join-split sep (c ∷ t) =
    let (p, ps, k) = split_cons sep t in
    let ih : join (sep ∷ []) (p ∷ ps) ≡ t = rw k at (join-split sep t) in
    elim (Bool-cases (c == sep)) [
      | inl e ↦ rw e (rw k (ap (λ u. sep ∷ u) ih ∙ ap (λ d. d ∷ t) (sym ((==_iff c sep).0 e))))
      | inr e ↦ rw e (rw k (join_cons sep c p ps ∙ ap (λ u. c ∷ u) ih))
    ]
