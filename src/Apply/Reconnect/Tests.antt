-- ===== src/Apply/Reconnect/Tests.antt =====
-- Reconnecting, of src/apply/reconnect.ts, to a device that never answers.
use openwrt_configurator.Prelude.{ℕ, ◌+◌, none, [], ◌≡◌, arith}
use openwrt_configurator.Apply.Run.{World, M, asks}
use openwrt_configurator.Apply.Reconnect.{reconnect_loop, reconnect_until}
use openwrt_configurator.Apply.Reconnect.Enough.{reconnect_until-rounds}
use openwrt_configurator.Apply.Kept.Tests.{small_net}

abbrev at_start : World ℕ
at_start = record { state = 0; log = [] }

-- Refused after a second.
abbrev refused : M ⦃net = small_net⦄ (small_net.Session)
unfolding asks
refused = asks ⦃net = small_net⦄ (λ s. (none, s + 1000))

reconnect_until-rounds_example :
    reconnect_loop ⦃net = small_net⦄ 9 refused 10000 at_start
    ≡ reconnect_until ⦃net = small_net⦄ refused 10000 at_start
unfolding asks
reconnect_until-rounds_example =
    reconnect_until-rounds ⦃net = small_net⦄ refused 10000 (λ ms s. omega arith) (λ w. omega arith)
      9 at_start (omega arith)
