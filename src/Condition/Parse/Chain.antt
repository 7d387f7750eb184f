-- ===== src/Condition/Parse/Chain.antt =====
-- What the parser of src/condition.ts makes of AND and OR, as src/plan/when.ts evaluates it.
use openwrt_configurator.Prelude.{Option, none, some, Bool, true, false, ◌≡◌, refl, sym, ap, ◌∙◌}
use openwrt_configurator.Condition.{
  When, all, any_of, Whens, nil, cons, append, Kind, every, some_of, Lookup, Releases, then_all,
  then_any, evaluate, all_hold, any_holds,
}
use openwrt_configurator.Condition.Joined.{then_all-true, all_hold-append}
use openwrt_configurator.Condition.Parse.{own_parts, chain}

then_any_assoc : (a b c : Option Bool) → then_any (then_any a b) c ≡ then_any a (then_any b c)
then_any_assoc none b c = refl
then_any_assoc (some true) b c = refl
then_any_assoc (some false) b c = refl

then_any-false : (a : Option Bool) → then_any a (some false) ≡ a
then_any-false none = refl
then_any-false (some true) = refl
then_any-false (some false) = refl

-- How a kind takes two answers, the second where the first leaves it open.
abbrev pub both : Kind → Option Bool → Option Bool → Option Bool
both every a b = then_all a b
both some_of a b = then_any a b

module _ (releases : Releases) (lookup : Lookup) where
  any_holds-append :
      (ns ms : Whens)
      → any_holds releases lookup (append ns ms)
        ≡ then_any (any_holds releases lookup ns) (any_holds releases lookup ms)
  unfolding any_holds append
  any_holds-append nil ms = refl
  any_holds-append (cons n ns) ms =
      ap (then_any (evaluate releases lookup n)) (any_holds-append ns ms)
      ∙ sym (
          then_any_assoc (evaluate releases lookup n) (any_holds releases lookup ns)
            (any_holds releases lookup ms))

  abbrev value : When → Option Bool
  value n = evaluate releases lookup n

  all_hold-own_parts : (n : When) → all_hold releases lookup (own_parts every n) ≡ value n
  unfolding all_hold evaluate
  all_hold-own_parts (all ns) = refl
  all_hold-own_parts n = then_all-true (value n)

  any_holds-own_parts : (n : When) → any_holds releases lookup (own_parts some_of n) ≡ value n
  unfolding any_holds evaluate
  any_holds-own_parts (any_of ns) = refl
  any_holds-own_parts n = then_any-false (value n)

  -- Two conditions joined by AND or by OR evaluate as the first, and then, where it leaves the answer
  -- open, as the second; parts that are such chains themselves are merged without changing this.
  pub evaluate-chain : (k : Kind) (l r : When) → value (chain k l r) ≡ both k (value l) (value r)
  unfolding chain evaluate
  evaluate-chain every l r =
      all_hold-append releases lookup (own_parts every l) (own_parts every r)
      ∙ ap (then_all (all_hold releases lookup (own_parts every l))) (all_hold-own_parts r)
      ∙ ap (λ x. then_all x (value r)) (all_hold-own_parts l)
  evaluate-chain some_of l r =
      any_holds-append (own_parts some_of l) (own_parts some_of r)
      ∙ ap (then_any (any_holds releases lookup (own_parts some_of l))) (any_holds-own_parts r)
      ∙ ap (λ x. then_any x (value r)) (any_holds-own_parts l)
