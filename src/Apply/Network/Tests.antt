-- ===== src/Apply/Network/Tests.antt =====
-- A gateway, an access point and a repeater that hangs off it, in their provisioning order.
use openwrt_configurator.Prelude.{codes, none, some, List, [], ◌∷◌, false, map, ◌≡◌, refl}
use openwrt_configurator.Prelude.Int.{negsuc}
use openwrt_configurator.Apply.Network.Order.{Device, provisioning_order}

abbrev site_devices : List Device
site_devices =
    record { ip_address = codes "10.0.0.1"; hostname = codes "router"; local = false; order = none }
    ∷ record { ip_address = codes "10.0.0.3"; hostname = codes "near"; local = false; order = none }
    ∷ record {
      ip_address = codes "10.0.0.2";
      hostname = codes "ap";
      local = false;
      order = some (negsuc 0);
    }
    ∷ []

-- The repeater goes before what it hangs off, and the gateway last.
repeater_first :
    map (λ (d : Device). d.hostname) (provisioning_order site_devices (some (codes "10.0.0.1")) [])
    ≡ codes "ap" ∷ codes "near" ∷ codes "router" ∷ []
unfolding provisioning_order
repeater_first = refl
