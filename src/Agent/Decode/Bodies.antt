-- ===== src/Agent/Decode/Bodies.antt =====
-- The bodies of src/agent/records.ts: counted as they are written, and taken as they are read.
use mathlib.Core.List.{append_assoc}
use openwrt_configurator.Prelude.{
  Text, ℕ, suc, none, some, List, [], ◌∷◌, ◌++◌, Bool, true, false, ◌||◌, ◌==◌, ==_iff, all, any,
  length, is_empty, split, split_one, split-append, split_cons, join-split, join, take-append,
  drop-append, lacks, ◌≡◌, ◌⊎◌, All, refl, ap, ◌∙◌, inl, inr, Bool-cases, arith,
}
use openwrt_configurator.Agent.Encode.{
  ends_line, as_body, line_count, is_white, field, last_field, last_fields,
}
use openwrt_configurator.Agent.Decode.{take_lines}

pub line_count-split : (b : Text) → line_count (b ++ 10 ∷ []) ≡ length (split 10 b)
unfolding line_count split
line_count-split [] = refl
line_count-split (c ∷ b) =
    let (p, ps, k) = split_cons 10 b in
    elim (Bool-cases (c == 10)) [
      | inl e ↦ rw e (ap (λ n. suc n) (line_count-split b))
      | inr e ↦ rw e (line_count-split b ∙ rw k refl)
    ]

pub take_lines-split :
    (b : Text) (rest : List Text)
    → take_lines (some (line_count (b ++ 10 ∷ []))) (split 10 b ++ rest) ≡ some (b, rest)
unfolding take_lines
take_lines-split b rest = rw (line_count-split b) (
    rw (take-append (split 10 b) rest)
      (rw (drop-append (split 10 b) rest) (rw (join-split 10 b) refl)))

ends_line_lem : (t : Text) → ends_line t ≡ true → (b : Text) × (t ≡ b ++ 10 ∷ [])
unfolding ends_line
ends_line_lem [] h = ground (arith, h)
ends_line_lem (c ∷ []) h = ([], ap (λ d. d ∷ []) ((==_iff c 10).0 h))
ends_line_lem (c ∷ d ∷ t) h = let (b, e) = ends_line_lem (d ∷ t) h in (c ∷ b, ap (λ u. c ∷ u) e)

pub as_body_lem : (t : Text) → (b : Text) × (as_body t ≡ b ++ 10 ∷ [])
unfolding as_body
as_body_lem t = elim (Bool-cases (ends_line t)) [
  | inl e ↦ let (b, k) = ends_line_lem t e in (b, rw e k)
  | inr e ↦ (t, rw e refl)
]

lacks_not_any :
    (p : ℕ → Bool) (sep : ℕ) (t : Text) → p sep ≡ true → any p t ≡ false → lacks sep t ≡ true
unfolding any lacks all
lacks_not_any p sep [] h k = refl
lacks_not_any p sep (c ∷ t) h k = elim (Bool-cases (c == sep)) [
  | inl e ↦ ground (arith, rw ((==_iff c sep).0 e) at k, h)
  | inr e ↦ rw e (lacks_not_any p sep t h (ground (arith, k)))
]

pub field_lem :
    (v : Text) → (field v ≡ none) ⊎ ((field v ≡ some v) × (lacks 10 v ≡ true) × (lacks 32 v ≡ true))
unfolding field
field_lem v = elim (Bool-cases (is_empty v || any is_white v)) [
  | inl h ↦ inl (rw h refl)
  | inr h ↦
      let k : any is_white v ≡ false = ground (arith, h) in
      inr (rw h refl, lacks_not_any is_white 10 v refl k, lacks_not_any is_white 32 v refl k)
]

pub last_field_lem :
    (v : Text) → (last_field v ≡ none) ⊎ ((last_field v ≡ some v) × (lacks 10 v ≡ true))
unfolding last_field
last_field_lem v = elim (Bool-cases (is_empty v || any (λ c. c == 10 || c == 13) v)) [
  | inl h ↦ inl (rw h refl)
  | inr h ↦ inr (rw h refl, lacks_not_any (λ c. c == 10 || c == 13) 10 v refl (ground (arith, h)))
]

-- Lines joined by line breaks are those lines again.
pub last_fields_lem :
    (vs : List Text)
    → (last_fields vs ≡ none) ⊎ ((last_fields vs ≡ some vs) × All (λ v. lacks 10 v ≡ true) vs)
unfolding last_fields
last_fields_lem [] = inr (refl, tt)
last_fields_lem (v ∷ vs) = elim (last_field_lem v) [
  | inl h ↦ inl (rw h refl)
  | inr h ↦ elim (last_fields_lem vs) [
    | inl k ↦ inl (rw h.0 (rw k refl))
    | inr k ↦ inr (rw h.0 (rw k.0 refl), (h.1, k.1))
  ]
]

pub split-join :
    (v : Text) (vs : List Text)
    → All (λ t. lacks 10 t ≡ true) (v ∷ vs)
    → split 10 (join (10 ∷ []) (v ∷ vs)) ≡ v ∷ vs
unfolding join
split-join v [] h = split_one 10 v h.0
split-join v (w ∷ vs) h =
    rw (append_assoc v (10 ∷ []) (join (10 ∷ []) (w ∷ vs)))
      (split-append 10 v (join (10 ∷ []) (w ∷ vs)) h.0 ∙ ap (λ us. v ∷ us) (split-join w vs h.1))
