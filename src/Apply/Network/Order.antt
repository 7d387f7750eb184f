-- ===== src/Apply/Network/Order.antt =====
-- `provisioningOrder` of src/apply/provisionNetwork.ts.
pub mod Sorted
use openwrt_configurator.Prelude.Int.{ℤ, pos, lt_int}
use openwrt_configurator.Prelude.{
  Text, ℕ, text_eq, Option, none, some, List, Bool, false, ltb, ◌==◌, ◌||◌, ◌&&◌, if◌then◌else◌,
  includes, sort_by, or_else,
}

-- What the order asks of a device; `local` when it is the one that runs this tool.
pub record Device : Type 0 where
  pub ip_address : Text
  pub hostname : Text
  pub local : Bool
  -- The lower first; a repeater goes before what it hangs off by an order below none's.
  pub order : Option ℤ

abbrev pub is_gateway : Option Text → Text → Bool
is_gateway none ip = false
is_gateway (some gateway) ip = text_eq ip gateway

unfoldable pub rank : Option Text → List Text → Device → ℕ
unfolding text_eq includes
rank gateway reached d =
    if d.local
    then 3
    else if is_gateway gateway d.ip_address
    then 2
    else if includes reached d.hostname
    then 1
    else 0

-- `a` goes before `b`, where that does not depend on their places.
unfoldable pub goes_before : Option Text → List Text → Device → Device → Bool
unfolding rank
goes_before gateway reached a b =
    ltb (rank gateway reached a) (rank gateway reached b)
    || (rank gateway reached a == rank gateway reached b
        && lt_int (or_else a.order (pos 0)) (or_else b.order (pos 0)))

unfoldable pub provisioning_order : List Device → Option Text → List Text → List Device
unfolding sort_by goes_before
provisioning_order devices gateway reached = sort_by (goes_before gateway reached) devices
