-- ===== src/Uci/Wipe/Leaves.antt =====
-- What the deletes of `wipeOperations` in src/engine/uci.ts leave, for any `uci` that deletes as it
-- documents: a section by its name, or the first one of a type (`@type[0]`).
use mathlib.Core.Bool.{false≢true}
use openwrt_configurator.Prelude.{
  Text, text_eq, eq_of_text_eq, Option, none, some, List, [], ◌∷◌, ◌++◌, Bool, true, false, not,
  ◌&&◌, ◌≡◌, refl, sym, ap, ◌∙◌, select, flat_map, All, All-append, All-map, All-each,
  if◌then◌else◌, is_some, Bool-cases, Option-cases, inl, inr, text_eq_refl,
}
use openwrt_configurator.Uci.{UciSection, KeepEntry, is_kept}
use openwrt_configurator.Uci.Verify.{same_name}
use openwrt_configurator.Uci.Wipe.{
  Delete, named, first_of_type, named_delete, anonymous_delete, is_wiped, wipe_config,
}

unfoldable pub remove_first : (UciSection → Bool) → List UciSection → List UciSection
remove_first p [] = []
remove_first p (s ∷ l) = let rest = remove_first p l in if p s then l else s ∷ rest

-- Two sections of one config do not have the same name.
abbrev pub IsApart : Option Text → Option Text → Type 0
IsApart a none = Unit
IsApart a (some n) = same_name a (some n) ≡ false

abbrev pub HasDistinctNames : List UciSection → Type 0
HasDistinctNames [] = Unit
HasDistinctNames (s ∷ l) = All (λ (u : UciSection). IsApart s.name u.name) l × HasDistinctNames l

-- A delete does not touch a section.
abbrev Misses : UciSection → Delete → Type 0
Misses s (named n) = same_name s.name (some n) ≡ false
Misses s (first_of_type t) = text_eq s.type t ≡ false

select-head :
    (p : UciSection → Bool) (s : UciSection) (l : List UciSection)
    → p s ≡ true
    → select p (s ∷ l) ≡ s ∷ select p l
unfolding select
select-head p s l e = rw e refl

select-tail :
    (p : UciSection → Bool) (s : UciSection) (l : List UciSection)
    → p s ≡ false
    → select p (s ∷ l) ≡ select p l
unfolding select
select-tail p s l e = rw e refl

-- Every delete of the sections selected is one that misses `s`.
selected-Misses :
    (p : UciSection → Bool) (f : UciSection → List Delete) (s : UciSection) (l : List UciSection)
    → All (λ (u : UciSection). p u ≡ true → All (Misses s) (f u)) l
    → All (Misses s) (flat_map f (select p l))
unfolding flat_map select
selected-Misses p f s [] h = tt
selected-Misses p f s (u ∷ l) h = elim (Bool-cases (p u)) [
  | inl e ↦
      rw (select-head p u l e) (
        All-append (Misses s) (f u) (flat_map f (select p l)) (h.0 e) (selected-Misses p f s l h.1))
  | inr e ↦ rw (select-tail p u l e) (selected-Misses p f s l h.1)
]

named-Misses :
    (s : UciSection) (o : Option Text)
    → IsApart s.name o
    → All (Misses s) (elim o [ none ↦ [] | some n ↦ named n ∷ [] ])
named-Misses s none h = tt
named-Misses s (some n) h = (h, tt)

named_delete-Misses : (s u : UciSection) → IsApart s.name u.name → All (Misses s) (named_delete u)
unfolding named_delete
named_delete-Misses s u h = named-Misses s u.name h

type-Misses :
    (s : UciSection) (o : Option Text) (t : Text)
    → text_eq s.type t ≡ false
    → All (Misses s) (elim o [ none ↦ first_of_type t ∷ [] | some n ↦ [] ])
type-Misses s none t h = (h, tt)
type-Misses s (some n) t h = tt

same_name_refl : (a : Option Text) (n : Text) → a ≡ some n → same_name a (some n) ≡ true
unfolding same_name
same_name_refl a n e = rw e (text_eq_refl n)

flat_map-none :
    (f : UciSection → List Delete) (u : UciSection) (l : List UciSection)
    → f u ≡ []
    → flat_map f (u ∷ l) ≡ flat_map f l
unfolding flat_map
flat_map-none f u l e = rw e refl

flat_map-one :
    (f : UciSection → List Delete) (u : UciSection) (l : List UciSection) (d : Delete)
    → f u ≡ d ∷ []
    → flat_map f (u ∷ l) ≡ d ∷ flat_map f l
unfolding flat_map
flat_map-one f u l d e = rw e refl

named_delete-none : (s : UciSection) → s.name ≡ none → named_delete s ≡ []
unfolding named_delete
named_delete-none s e = rw e refl

named_delete-some : (s : UciSection) (n : Text) → s.name ≡ some n → named_delete s ≡ named n ∷ []
unfolding named_delete
named_delete-some s n e = rw e refl

anonymous_delete-none :
    (s : UciSection) → s.name ≡ none → anonymous_delete s ≡ first_of_type s.type ∷ []
unfolding anonymous_delete
anonymous_delete-none s e = rw e refl

anonymous_delete-some : (s : UciSection) (n : Text) → s.name ≡ some n → anonymous_delete s ≡ []
unfolding anonymous_delete
anonymous_delete-some s n e = rw e refl

-- The deletes of the sections selected, with one more section at the head.
deletes-skip :
    (p : UciSection → Bool) (f : UciSection → List Delete) (s : UciSection) (l : List UciSection)
    → p s ≡ false
    → flat_map f (select p (s ∷ l)) ≡ flat_map f (select p l)
deletes-skip p f s l e = ap (flat_map f) (select-tail p s l e)

deletes-none :
    (p : UciSection → Bool) (f : UciSection → List Delete) (s : UciSection) (l : List UciSection)
    → p s ≡ true
    → f s ≡ []
    → flat_map f (select p (s ∷ l)) ≡ flat_map f (select p l)
deletes-none p f s l e g = ap (flat_map f) (select-head p s l e) ∙ flat_map-none f s (select p l) g

deletes-one :
    (p : UciSection → Bool) (f : UciSection → List Delete) (s : UciSection) (l : List UciSection)
    (d : Delete)
    → p s ≡ true
    → f s ≡ d ∷ []
    → flat_map f (select p (s ∷ l)) ≡ d ∷ flat_map f (select p l)
deletes-one p f s l d e g =
    ap (flat_map f) (select-head p s l e) ∙ flat_map-one f s (select p l) d g

module _ (keep : List KeepEntry) (key : Text) where
  -- What is there once the named ones are gone.
  abbrev unnamed : UciSection → Bool
  unnamed s = not (is_wiped keep key s && is_some s.name)

  unnamed-kept : (s : UciSection) → is_wiped keep key s ≡ false → unnamed s ≡ true
  unnamed-kept s e = rw e refl

  unnamed-anonymous : (s : UciSection) → s.name ≡ none → unnamed s ≡ true
  unfolding is_wiped
  unnamed-anonymous s e = rw e (and_false (not (is_kept keep key (some s.type))))
    where
      and_false : (b : Bool) → not (b && false) ≡ true
      and_false true = refl
      and_false false = refl

  unnamed-named :
      (s : UciSection) (n : Text) → is_wiped keep key s ≡ true → s.name ≡ some n → unnamed s ≡ false
  unnamed-named s n e f = rw e (rw f refl)

  abbrev pub unwiped : UciSection → Bool
  unwiped s = not (is_wiped keep key s)

  anonymous_delete-Misses :
      (s u : UciSection)
      → is_wiped keep key s ≡ false
      → is_wiped keep key u ≡ true
      → All (Misses s) (anonymous_delete u)
  unfolding anonymous_delete is_wiped
  anonymous_delete-Misses s u e f =
      type-Misses s u.name u.type (elim (Bool-cases (text_eq s.type u.type)) [
        | inl same ↦
            elim (false≢true (
              sym e
              ∙ (ap (λ t. not (is_kept keep key (some t))) (eq_of_text_eq s.type u.type same)
                  ∙ f))) [ ]
        | inr other ↦ other
      ])

module _ (delete : Delete → List UciSection → List UciSection)
    (delete_named : (n : Text) (l : List UciSection)
      → delete (named n) l ≡ remove_first (λ s. same_name s.name (some n)) l)
    (delete_first : (t : Text) (l : List UciSection)
      → delete (first_of_type t) l ≡ remove_first (λ s. text_eq s.type t) l) where
  abbrev pub delete_all : List Delete → List UciSection → List UciSection
  delete_all [] l = l
  delete_all (d ∷ ds) l = delete_all ds (delete d l)

  delete_all-append :
      (ds es : List Delete) (l : List UciSection)
      → delete_all (ds ++ es) l ≡ delete_all es (delete_all ds l)
  delete_all-append [] es l = refl
  delete_all-append (d ∷ ds) es l = delete_all-append ds es (delete d l)

  remove_first-miss :
      (p : UciSection → Bool) (s : UciSection) (l : List UciSection)
      → p s ≡ false
      → remove_first p (s ∷ l) ≡ s ∷ remove_first p l
  unfolding remove_first
  remove_first-miss p s l e = rw e refl

  remove_first-hit :
      (p : UciSection → Bool) (s : UciSection) (l : List UciSection)
      → p s ≡ true
      → remove_first p (s ∷ l) ≡ l
  unfolding remove_first
  remove_first-hit p s l e = rw e refl

  delete-miss :
      (d : Delete) (s : UciSection) (l : List UciSection)
      → Misses s d
      → delete d (s ∷ l) ≡ s ∷ delete d l
  delete-miss (named n) s l h =
      delete_named n (s ∷ l)
      ∙ remove_first-miss (λ u. same_name u.name (some n)) s l h
      ∙ ap (λ x. s ∷ x) (sym (delete_named n l))
  delete-miss (first_of_type t) s l h =
      delete_first t (s ∷ l)
      ∙ remove_first-miss (λ u. text_eq u.type t) s l h
      ∙ ap (λ x. s ∷ x) (sym (delete_first t l))

  delete_all-miss :
      (ds : List Delete) (s : UciSection) (l : List UciSection)
      → All (Misses s) ds
      → delete_all ds (s ∷ l) ≡ s ∷ delete_all ds l
  delete_all-miss [] s l h = refl
  delete_all-miss (d ∷ ds) s l h =
      ap (delete_all ds) (delete-miss d s l h.0) ∙ delete_all-miss ds s (delete d l) h.1

  delete-named_hit :
      (n : Text) (s : UciSection) (l : List UciSection)
      → s.name ≡ some n
      → delete (named n) (s ∷ l) ≡ l
  delete-named_hit n s l e =
      delete_named n (s ∷ l)
      ∙ remove_first-hit (λ u. same_name u.name (some n)) s l (same_name_refl s.name n e)

  delete-first_hit :
      (s : UciSection) (l : List UciSection) → delete (first_of_type s.type) (s ∷ l) ≡ l
  delete-first_hit s l =
      delete_first s.type (s ∷ l)
      ∙ remove_first-hit (λ u. text_eq u.type s.type) s l (text_eq_refl s.type)

  module _ (keep : List KeepEntry) (key : Text) where
    left_in_place :
        (ds : List Delete) (p : UciSection → Bool) (s : UciSection) (l m : List UciSection)
        → p s ≡ true
        → All (Misses s) ds
        → delete_all ds m ≡ select p l
        → delete_all ds (s ∷ m) ≡ select p (s ∷ l)
    left_in_place ds p s l m e h ih =
        delete_all-miss ds s m h ∙ ap (λ x. s ∷ x) ih ∙ sym (select-head p s l e)

    named_deletes-next :
        (s : UciSection) (l : List UciSection)
        → HasDistinctNames (s ∷ l)
        → delete_all (flat_map named_delete (select (is_wiped keep key) l)) l
          ≡ select (unnamed keep key) l
        → delete_all (flat_map named_delete (select (is_wiped keep key) (s ∷ l))) (s ∷ l)
          ≡ select (unnamed keep key) (s ∷ l)
    named_deletes-next s l h ih = elim (Bool-cases (is_wiped keep key s)) [
      | inl e ↦ elim (Option-cases s.name) [
        | inl f ↦
            ap (λ ds. delete_all ds (s ∷ l))
              (deletes-none (is_wiped keep key) named_delete s l e (named_delete-none s f))
            ∙ left_in_place later (unnamed keep key) s l l (unnamed-anonymous keep key s f) missed
                ih
        | inr (n, f) ↦
            ap (λ ds. delete_all ds (s ∷ l))
              (deletes-one (is_wiped keep key) named_delete s l (named n) e
                (named_delete-some s n f))
            ∙ ap (delete_all later) (delete-named_hit n s l f)
            ∙ ih
            ∙ sym (select-tail (unnamed keep key) s l (unnamed-named keep key s n e f))
      ]
      | inr e ↦
          ap (λ ds. delete_all ds (s ∷ l)) (deletes-skip (is_wiped keep key) named_delete s l e)
          ∙ left_in_place later (unnamed keep key) s l l (unnamed-kept keep key s e) missed ih
    ]
      where
        later : List Delete
        later = flat_map named_delete (select (is_wiped keep key) l)

        missed : All (Misses s) later
        missed =
            selected-Misses (is_wiped keep key) named_delete s l
              (All-map (λ u. IsApart s.name u.name) _ (λ u k e. named_delete-Misses s u k) l h.0)

    anonymous_deletes-next :
        (s : UciSection) (l : List UciSection)
        → delete_all
            (flat_map anonymous_delete (select (is_wiped keep key) l))
            (select (unnamed keep key) l)
          ≡ select (unwiped keep key) l
        → delete_all
            (flat_map anonymous_delete (select (is_wiped keep key) (s ∷ l)))
            (select (unnamed keep key) (s ∷ l))
          ≡ select (unwiped keep key) (s ∷ l)
    anonymous_deletes-next s l ih = elim (Bool-cases (is_wiped keep key s)) [
      | inl e ↦ elim (Option-cases s.name) [
        | inl f ↦
            ap (λ ds. delete_all ds (select (unnamed keep key) (s ∷ l)))
              (deletes-one (is_wiped keep key) anonymous_delete s l (first_of_type s.type) e
                (anonymous_delete-none s f))
            ∙ ap (λ m. delete_all later (delete (first_of_type s.type) m))
                (select-head (unnamed keep key) s l (unnamed-anonymous keep key s f))
            ∙ ap (delete_all later) (delete-first_hit s (select (unnamed keep key) l))
            ∙ ih
            ∙ sym (select-tail (unwiped keep key) s l (ap not e))
        | inr (n, f) ↦
            ap (λ ds. delete_all ds (select (unnamed keep key) (s ∷ l)))
              (deletes-none (is_wiped keep key) anonymous_delete s l e
                (anonymous_delete-some s n f))
            ∙ ap (delete_all later)
                (select-tail (unnamed keep key) s l (unnamed-named keep key s n e f))
            ∙ ih
            ∙ sym (select-tail (unwiped keep key) s l (ap not e))
      ]
      | inr e ↦
          ap (λ ds. delete_all ds (select (unnamed keep key) (s ∷ l)))
            (deletes-skip (is_wiped keep key) anonymous_delete s l e)
          ∙ ap (delete_all later) (select-head (unnamed keep key) s l (unnamed-kept keep key s e))
          ∙ left_in_place later (unwiped keep key) s l (select (unnamed keep key) l) (ap not e)
              (missed e) ih
    ]
      where
        later : List Delete
        later = flat_map anonymous_delete (select (is_wiped keep key) l)

        missed : is_wiped keep key s ≡ false → All (Misses s) later
        missed e =
            selected-Misses (is_wiped keep key) anonymous_delete s l
              (All-each l (λ u f. anonymous_delete-Misses keep key s u e f))

    named_deletes-unnamed :
        (l : List UciSection)
        → HasDistinctNames l
        → delete_all (flat_map named_delete (select (is_wiped keep key) l)) l
          ≡ select (unnamed keep key) l
    unfolding flat_map select
    named_deletes-unnamed [] h = refl
    named_deletes-unnamed (s ∷ l) h = named_deletes-next s l h (named_deletes-unnamed l h.1)

    anonymous_deletes-unwiped :
        (l : List UciSection)
        → delete_all
            (flat_map anonymous_delete (select (is_wiped keep key) l))
            (select (unnamed keep key) l)
          ≡ select (unwiped keep key) l
    unfolding flat_map select
    anonymous_deletes-unwiped [] = refl
    anonymous_deletes-unwiped (s ∷ l) = anonymous_deletes-next s l (anonymous_deletes-unwiped l)

    -- For any `delete` that removes a section by its name, or the first one of a type, and a config
    -- whose sections have distinct names where they have one: carrying out the deletes of its wipe
    -- leaves the sections of the kept types, in their order, and no other.
    pub wipe_config-leaves :
        (l : List UciSection)
        → HasDistinctNames l
        → delete_all (wipe_config keep key l) l ≡ select (unwiped keep key) l
    unfolding wipe_config
    wipe_config-leaves l h =
        delete_all-append (flat_map named_delete (select (is_wiped keep key) l))
          (flat_map anonymous_delete (select (is_wiped keep key) l)) l
        ∙ ap (delete_all (flat_map anonymous_delete (select (is_wiped keep key) l)))
            (named_deletes-unnamed l h)
        ∙ anonymous_deletes-unwiped l
