-- ===== src/Condition/Joined.antt =====
-- What the constructor `all` of src/plan/when.ts means.
use openwrt_configurator.Prelude.{Option, none, some, Bool, true, false, ◌≡◌, refl, sym, ap, ◌∙◌}
use openwrt_configurator.Condition.{
  When, always, is, one_of, order, all, any_of, not_of, Whens, nil, cons, append, parts, flat,
  of_kind, joined, every, Lookup, Releases, then_all, evaluate, all_hold,
}

pub then_all_assoc : (a b c : Option Bool) → then_all (then_all a b) c ≡ then_all a (then_all b c)
then_all_assoc none b c = refl
then_all_assoc (some true) b c = refl
then_all_assoc (some false) b c = refl

pub then_all-true : (a : Option Bool) → then_all a (some true) ≡ a
then_all-true none = refl
then_all-true (some true) = refl
then_all-true (some false) = refl

module _ (releases : Releases) (lookup : Lookup) where
  pub all_hold-append :
      (ns ms : Whens)
      → all_hold releases lookup (append ns ms)
        ≡ then_all (all_hold releases lookup ns) (all_hold releases lookup ms)
  unfolding all_hold append
  all_hold-append nil ms = refl
  all_hold-append (cons n ns) ms =
      ap (then_all (evaluate releases lookup n)) (all_hold-append ns ms)
      ∙ sym (
          then_all_assoc (evaluate releases lookup n) (all_hold releases lookup ns)
            (all_hold releases lookup ms))

  all_hold-parts :
      (n : When) → all_hold releases lookup (parts every n) ≡ evaluate releases lookup n
  unfolding all_hold parts evaluate
  all_hold-parts always = refl
  all_hold-parts (all ns) = refl
  all_hold-parts (any_of ns) = then_all-true (evaluate releases lookup (any_of ns))
  all_hold-parts (not_of n) = then_all-true (evaluate releases lookup (not_of n))
  all_hold-parts (is f v b) = then_all-true (evaluate releases lookup (is f v b))
  all_hold-parts (one_of f vs) = then_all-true (evaluate releases lookup (one_of f vs))
  all_hold-parts (order f o r) = then_all-true (evaluate releases lookup (order f o r))

  all_hold-flat :
      (ns : Whens) → all_hold releases lookup (flat every ns) ≡ all_hold releases lookup ns
  unfolding all_hold flat
  all_hold-flat nil = refl
  all_hold-flat (cons n ns) =
      all_hold-append (parts every n) (flat every ns)
      ∙ ap (λ x. then_all x (all_hold releases lookup (flat every ns))) (all_hold-parts n)
      ∙ ap (then_all (evaluate releases lookup n)) (all_hold-flat ns)

  evaluate-of_kind :
      (ns : Whens) → evaluate releases lookup (of_kind every ns) ≡ all_hold releases lookup ns
  unfolding evaluate all_hold
  evaluate-of_kind nil = refl
  evaluate-of_kind (cons n nil) = sym (then_all-true (evaluate releases lookup n))
  evaluate-of_kind (cons n (cons m ms)) = refl

  -- A condition that joins several by `all` evaluates as they do one after another up to the first
  -- that does not hold or whose lookup throws, for any order of releases and any lookup.
  pub evaluate-joined :
      (ns : Whens) → evaluate releases lookup (joined every ns) ≡ all_hold releases lookup ns
  unfolding joined
  evaluate-joined ns = evaluate-of_kind (flat every ns) ∙ all_hold-flat ns
