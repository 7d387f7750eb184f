-- ===== src/Prelude/Texts.antt =====
-- Texts as lists of code units, with their comparison.
use Prim.Native.Nat.{ℕ}
use Prim.Native.Char.{code}
use Prim.Native.String.{String}
use mathlib.Core.Path.{◌≡◌, refl}
use mathlib.Core.Logic.{◌↔◌}
use mathlib.Core.Bool.{Bool, true, false, ◌&&◌}
use mathlib.Core.List.{List, [], ◌∷◌, ◌++◌}
use native.Mathlib.Omega.{arith}
use openwrt_configurator.Prelude.Tests.{ltb, ◌==◌, if◌then◌else◌}
use openwrt_configurator.Prelude.Lists.{any, sort_by}

abbrev pub Text : Type 0
Text = List ℕ

-- A literal's code units. `String` has its own `[]` and `∷`.
abbrev pub codes : String → Text
codes String.[] = []
codes (String.◌∷◌ c s) = code c ∷ codes s

-- `a === b`.
unfoldable pub text_eq : Text → Text → Bool
text_eq [] [] = true
text_eq (a ∷ as') (b ∷ bs) = a == b && text_eq as' bs
text_eq _ _ = false

pub text_eq_refl : (a : Text) → text_eq a a ≡ true
unfolding text_eq
text_eq_refl [] = refl
text_eq_refl (x ∷ a) = ground (arith, text_eq_refl a)

pub eq_of_text_eq : (a b : Text) → text_eq a b ≡ true → a ≡ b
unfolding text_eq
eq_of_text_eq [] [] h = refl
eq_of_text_eq [] (y ∷ b) h = ground arith
eq_of_text_eq (x ∷ a) [] h = ground arith
eq_of_text_eq (x ∷ a) (y ∷ b) h = ground (arith, eq_of_text_eq a b)

pub text_eq_iff : (a b : Text) → (text_eq a b ≡ true) ↔ (a ≡ b)
text_eq_iff a b = (eq_of_text_eq a b, λ e. ground (arith, text_eq_refl a))

-- `a < b` on strings: by code units.
unfoldable pub text_before : Text → Text → Bool
text_before [] [] = false
text_before [] (y ∷ b) = true
text_before (x ∷ a) [] = false
text_before (x ∷ a) (y ∷ b) =
    let later = text_before a b in if ltb x y then true else if x == y then later else false

-- `xs.includes(a)`.
unfoldable pub includes : List Text → Text → Bool
unfolding any text_eq
includes xs a = any (λ x. text_eq x a) xs

-- `[...new Set(xs)]`: each once, in the order first met.
unfoldable pub unique_from : List Text → List Text → List Text
unfolding includes
unique_from seen [] = []
unique_from seen (x ∷ xs) =
    let rest = unique_from (x ∷ seen) xs in
    let skipped = unique_from seen xs in if includes seen x then skipped else x ∷ rest

unfoldable pub unique : List Text → List Text
unfolding unique_from
unique xs = unique_from [] xs

-- `xs.sort()`.
unfoldable pub sorted : List Text → List Text
unfolding sort_by text_before
sorted xs = sort_by text_before xs

-- `xs.join(sep)`.
unfoldable pub join : Text → List Text → Text
join sep [] = []
join sep (x ∷ []) = x
join sep (x ∷ y ∷ xs) = x ++ sep ++ join sep (y ∷ xs)
