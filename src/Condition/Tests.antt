-- ===== src/Condition/Tests.antt =====
-- A condition of a role and a release, with the nesting that `all` flattens.
use openwrt_configurator.Prelude.{codes, some, false, ◌≡◌}
use openwrt_configurator.Condition.{
  text, less, always, is, order, all, Whens, nil, cons, joined, every, word, Lookup, Releases,
  before, evaluate, all_hold,
}
use openwrt_configurator.Condition.Joined.{evaluate-joined}

abbrev an_ap : Lookup
an_ap fact = some (some (word (codes "ap")))

abbrev any_before : Releases
any_before a b = some before

abbrev nested : Whens
nested = cons always (
    cons (all (cons (is (codes "device.tag.role") (text (codes "ap")) false) nil))
      (cons (order (codes "device.version") less (codes "25.12.6")) nil))

evaluate-joined_example :
    evaluate any_before an_ap (joined every nested) ≡ all_hold any_before an_ap nested
evaluate-joined_example = evaluate-joined any_before an_ap nested
