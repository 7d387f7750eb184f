-- ===== src/Status/Moves/Gone.antt =====
-- A client of src/status/moves.ts is gone once two reads in a row miss it, and not before.
use openwrt_configurator.Prelude.{
  Text, ℕ, ◌+◌, Option, none, some, List, [], ◌∷◌, ◌++◌, Bool, true, false, ◌||◌, leb, any, Object,
  lookup, keys, unique, unique_from, includes, or_else, text_eq, text_eq_refl, text_eq_iff, ◌≡◌,
  ◌⊎◌, refl, sym, ap, ◌∙◌, inl, inr, Bool-cases, arith,
}
use openwrt_configurator.Status.Moves.{
  Place, nowhere, gone_after_misses, Moves, Client, kept_places, step_client, stepped_of, online,
  update_moves,
}

none_included : (k : Text) → includes [] k ≡ false
unfolding includes any
none_included k = refl

includes_cons : (x k : Text) (xs : List Text) → includes (x ∷ xs) k ≡ (text_eq x k || includes xs k)
unfolding includes any
includes_cons x k xs = refl

-- One that is seen already is another text than one that is not.
skipped :
    (seen xs : List Text) (x k : Text)
    → includes seen x ≡ true
    → includes seen k ≡ false
    → includes (x ∷ xs) k ≡ includes xs k
skipped seen xs x k e h = elim (Bool-cases (text_eq x k)) [
  | inl t ↦ ground (arith, e, h, ap (includes seen) ((text_eq_iff x k).0 t))
  | inr t ↦ includes_cons x k xs ∙ rw t refl
]

cons_same :
    (x k : Text) (ys xs : List Text)
    → (text_eq x k ≡ false → includes ys k ≡ includes xs k)
    → includes (x ∷ ys) k ≡ includes (x ∷ xs) k
unfolding includes any
cons_same x k ys xs h = elim (Bool-cases (text_eq x k)) [ inl t ↦ rw t refl | inr t ↦ rw t (h t) ]

unique_from_lem :
    (seen xs : List Text) (k : Text)
    → includes seen k ≡ false
    → includes (unique_from seen xs) k ≡ includes xs k
unfolding unique_from
unique_from_lem seen [] k h = refl
unique_from_lem seen (x ∷ xs) k h = elim (Bool-cases (includes seen x)) [
  | inl e ↦ rw e (unique_from_lem seen xs k h ∙ sym (skipped seen xs x k e h))
  | inr e ↦ rw e (
      cons_same x k (unique_from (x ∷ seen) xs) xs
        (λ t. unique_from_lem (x ∷ seen) xs k (includes_cons x k seen ∙ rw t h)))
]

includes-unique : (xs : List Text) (k : Text) → includes (unique xs) k ≡ includes xs k
unfolding unique includes any
includes-unique xs k = unique_from_lem [] xs k refl

includes-append :
    (xs ys : List Text) (k : Text) → includes xs k ≡ true → includes (xs ++ ys) k ≡ true
includes-append [] ys k h = ground (arith, h, none_included k)
includes-append (x ∷ xs) ys k h = includes_cons x k (xs ++ ys) ∙ (elim (Bool-cases (text_eq x k)) [
  | inl t ↦ rw t refl
  | inr t ↦ rw t (includes-append xs ys k (rw t at (sym (includes_cons x k xs) ∙ h)))
])

-- A key that is looked up is one of the keys.
includes-keys :
    (k : Text) (o : Object Place) (p : Place) → lookup k o ≡ some p → includes (keys o) k ≡ true
unfolding lookup keys
includes-keys k [] p e = ground (arith, e)
includes-keys k ((j, w) ∷ o) p e = elim (Bool-cases (text_eq j k)) [
  | inl t ↦ includes_cons j k (keys o) ∙ rw t refl
  | inr t ↦ includes_cons j k (keys o) ∙ rw t (includes-keys k o p (rw t at e))
]

module _ (places now : Object Place) (at : ℕ) (k : Text) where
  abbrev place_after : Option Place
  place_after = (step_client k (lookup k places) (lookup k now) at).place

  -- A place added for a client, if any.
  abbrev with_place : Text → Option Place → Object Place → Object Place
  with_place mac place rest = elim place [ none ↦ rest | some p ↦ (mac, p) ∷ rest ]

  other_place :
      (mac : Text) (place : Option Place) (rest : Object Place)
      → text_eq mac k ≡ false
      → lookup k (with_place mac place rest) ≡ lookup k rest
  unfolding lookup
  other_place mac none rest e = refl
  other_place mac (some p) rest e = rw e refl

  own_place :
      (place : Option Place) (rest : Object Place)
      → (lookup k rest ≡ place) ⊎ (lookup k rest ≡ none)
      → lookup k (with_place k place rest) ≡ place
  unfolding lookup
  own_place (some p) rest h = rw (text_eq_refl k) refl
  own_place none rest (inl h) = h
  own_place none rest (inr h) = h

  step_client-mac : (mac : Text) (was here : Option Place) → (step_client mac was here at).mac ≡ mac
  unfolding step_client
  step_client-mac mac was (some p) = refl
  step_client-mac mac was none =
      elim (Bool-cases (leb gone_after_misses (or_else (or_else was nowhere).missed 0 + 1))) [
        | inl e ↦ rw e refl
        | inr e ↦ rw e refl
      ]

  kept_cons :
      (mac : Text) (macs : List Text)
      → kept_places (stepped_of places now at (mac ∷ macs))
        ≡ with_place mac
            (step_client mac (lookup mac places) (lookup mac now) at).place
            (kept_places (stepped_of places now at macs))
  unfolding stepped_of kept_places
  kept_cons mac macs =
      ap
        (λ m.
          with_place m (step_client mac (lookup mac places) (lookup mac now) at).place
            (kept_places (stepped_of places now at macs)))
        (step_client-mac mac (lookup mac places) (lookup mac now))

  -- Looked up among the places kept, it has its own, or is not there.
  abbrev OwnOrNone : List Text → Type 0
  OwnOrNone macs =
      ((lookup k (kept_places (stepped_of places now at macs)) ≡ place_after)
        × (includes macs k ≡ true))
      ⊎ ((lookup k (kept_places (stepped_of places now at macs)) ≡ none)
          × (includes macs k ≡ false))

  own_cons : (mac : Text) (macs : List Text) → mac ≡ k → OwnOrNone macs → OwnOrNone (mac ∷ macs)
  own_cons mac macs e h = inl (
    ap (lookup k) (kept_cons mac macs)
        ∙ rw e (
            own_place place_after (kept_places (stepped_of places now at macs))
              (elim h [ inl o ↦ inl o.0 | inr o ↦ inr o.0 ])),
    includes_cons mac k macs ∙ rw ((text_eq_iff mac k).1 e) refl,
  )

  other_cons :
      (mac : Text) (macs : List Text)
      → text_eq mac k ≡ false
      → OwnOrNone macs
      → OwnOrNone (mac ∷ macs)
  other_cons mac macs e h =
      let same =
        ap (lookup k) (kept_cons mac macs)
        ∙ other_place mac (step_client mac (lookup mac places) (lookup mac now) at).place
            (kept_places (stepped_of places now at macs)) e in
      let inc : includes (mac ∷ macs) k ≡ includes macs k = includes_cons mac k macs ∙ rw e refl in
      elim h [ inl o ↦ inl (same ∙ o.0, inc ∙ o.1) | inr o ↦ inr (same ∙ o.0, inc ∙ o.1) ]

  own_or_none : (macs : List Text) → OwnOrNone macs
  unfolding stepped_of kept_places lookup
  own_or_none [] = inr (refl, none_included k)
  own_or_none (mac ∷ macs) = elim (Bool-cases (text_eq mac k)) [
    | inl t ↦ own_cons mac macs ((text_eq_iff mac k).0 t) (own_or_none macs)
    | inr t ↦ other_cons mac macs t (own_or_none macs)
  ]

  lookup-kept_places :
      (macs : List Text)
      → includes macs k ≡ true
      → lookup k (kept_places (stepped_of places now at macs)) ≡ place_after
  lookup-kept_places macs i = elim (own_or_none macs) [
    | inl o ↦ o.0
    | inr o ↦ ground (arith, o.1, i)
  ]

-- Where a client is placed after a read that follows another.
lookup-update_moves :
    (moves : Moves) (clients : List Client) (at : ℕ) (remembered : Text → Bool) (k : Text)
    (p : Place)
    → lookup k moves.places ≡ some p
    → lookup k (update_moves (some moves) clients at remembered).places
      ≡ (step_client k (some p) (lookup k (online clients)) at).place
unfolding update_moves
lookup-update_moves moves clients at remembered k p e =
    lookup-kept_places moves.places (online clients) at k
      (unique (keys moves.places ++ keys (online clients)))
      (includes-unique (keys moves.places ++ keys (online clients)) k
        ∙ includes-append (keys moves.places) (keys (online clients)) k
            (includes-keys k moves.places p e))
    ∙ ap (λ w. (step_client k w (lookup k (online clients)) at).place) e

missed_once :
    (i : Text) (q : Place) (t : ℕ) (o : Option Place)
    → o ≡ none
    → q.missed ≡ none
    → q.missed_since ≡ none
    → (step_client i (some q) o t).place
      ≡ some (record q { missed = some 1; missed_since = some t })
unfolding step_client
missed_once i q t none f m s = rw m (rw s refl)
missed_once i q t (some p) f m s = ground (arith, f)

missed_twice :
    (i : Text) (q : Place) (t u : ℕ) (o : Option Place)
    → o ≡ none
    → (step_client i (some (record q { missed = some 1; missed_since = some t })) o u).place ≡ none
unfolding step_client
missed_twice i q t u none f = refl
missed_twice i q t u (some p) f = ground (arith, f)

-- A client whose place was seen at the last read, and that two reads in a row miss, keeps its place at
-- the first, marked as missed since then, and has none after the second.
pub update_moves-update_moves :
    (moves : Moves) (first second : List Client) (at later : ℕ) (remembered : Text → Bool)
    (k : Text) (p : Place)
    → lookup k moves.places ≡ some p
    → p.missed ≡ none
    → p.missed_since ≡ none
    → lookup k (online first) ≡ none
    → lookup k (online second) ≡ none
    → (lookup k (update_moves (some moves) first at remembered).places
        ≡ some (record p { missed = some 1; missed_since = some at }))
      × (lookup k
            (update_moves
              (some (update_moves (some moves) first at remembered))
              second
              later
              remembered).places
          ≡ none)
update_moves-update_moves moves first second at later remembered k p e m s f g =
    let one =
      lookup-update_moves moves first at remembered k p e
      ∙ missed_once k p at (lookup k (online first)) f m s in
    (
      one,
      lookup-update_moves (update_moves (some moves) first at remembered) second later remembered k
            (record p { missed = some 1; missed_since = some at }) one
          ∙ missed_twice k p at later (lookup k (online second)) g,
    )
