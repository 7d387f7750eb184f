-- ===== src/Apply/Network/Order/Sorted.antt =====
-- What `provisioningOrder` of src/apply/provisionNetwork.ts promises.
use openwrt_configurator.Prelude.{ℕ, List, Bool, ltb, ◌==◌, ◌||◌, ◌&&◌}
use openwrt_configurator.Prelude.Int.{ℤ, lt_int}

abbrev key_before : ℕ → ℤ → ℕ → ℤ → Bool
key_before r o s p = ltb r s || (r == s && lt_int o p)
