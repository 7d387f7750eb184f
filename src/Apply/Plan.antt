-- ===== src/Apply/Plan.antt =====
-- src/apply/plan.ts: verify a device and work out everything the run will do on it, changing
-- nothing; with the names of src/apply/knownConfigs.ts.
use openwrt_configurator.Prelude.{
  Text, ℕ, codes, text_eq, Option, none, some, List, [], ◌∷◌, ◌++◌, map, Bool, true, false, not,
  ◌&&◌, ◌||◌, ltb, or_else, is_empty, select, includes, keys,
}
use openwrt_configurator.Engine.{OpenWrtState, Service}
use openwrt_configurator.Agent.Script.{
  packages_to_add, packages_to_remove, prepare_records, services_records, hook_commands,
  seeded_config_paths,
}
use openwrt_configurator.Apply.Io.{pure, ◌>>=◌, ◌>>◌}
use openwrt_configurator.Apply.Run.{
  Net, M, Phase, ok, err, failure, nothing_left, DeviceRunOptions, DeviceRun, PlanFacts,
  PhaseFailure, does, asks, emit, guarded, stepped, planning, plan_stale,
}

-- The configs that OpenWrt and its common packages ship.
unfoldable pub known_configs : List Text
known_configs =
    codes "system"
    ∷ codes "network"
    ∷ codes "wireless"
    ∷ codes "dhcp"
    ∷ codes "firewall"
    ∷ codes "dropbear"
    ∷ codes "fstab"
    ∷ codes "luci"
    ∷ codes "rpcd"
    ∷ codes "ucitrack"
    ∷ codes "uhttpd"
    ∷ codes "ubihealthd"
    ∷ codes "attendedsysupgrade"
    ∷ codes "mwan3"
    ∷ codes "sqm"
    ∷ codes "upnpd"
    ∷ codes "ddns"
    ∷ codes "openvpn"
    ∷ codes "https-dns-proxy"
    ∷ codes "usteer"
    ∷ codes "nlbwmon"
    ∷ codes "umdns"
    ∷ codes "radius"
    ∷ codes "irqbalance"
    ∷ codes "adblock"
    ∷ codes "banip"
    ∷ codes "pbr"
    ∷ codes "travelmate"
    ∷ codes "acme"
    ∷ codes "snmpd"
    ∷ codes "lldpd"
    ∷ codes "collectd"
    ∷ codes "luci_statistics"
    ∷ codes "vnstat"
    ∷ codes "samba4"
    ∷ codes "ksmbd"
    ∷ codes "minidlna"
    ∷ codes "ttyd"
    ∷ codes "watchcat"
    ∷ codes "zerotier"
    ∷ codes "tailscale"
    ∷ codes "wol"
    ∷ codes "etherwake"
    ∷ codes "nginx"
    ∷ codes "dockerd"
    ∷ codes "openssh"
    ∷ codes "unbound"
    ∷ codes "stubby"
    ∷ codes "dnscrypt-proxy"
    ∷ codes "smartdns"
    ∷ []

-- A declared config that is a typo.
unfoldable pub unknown_configs : OpenWrtState → List Text → List Text
unfolding select includes keys known_configs
unknown_configs state on_device =
    select
      (λ name.
        not (includes on_device name)
        && not (includes known_configs name)
        && not (includes (or_else state.new_configs []) name))
      (keys state.config)

-- A board of another model than the one declared.
unfoldable pub is_other_model : Option Text → Option Text → Bool
unfolding text_eq
is_other_model none found = false
is_other_model (some expected) none = true
is_other_model (some expected) (some found) = not (text_eq expected found)

abbrev pub too_big : Option (ℕ × ℕ) → Bool
too_big none = false
too_big (some (need, free)) = ltb free need

module _ ⦃net : Net⦄ where
  abbrev pub Options : Type 0
  Options = DeviceRunOptions net.Session

  abbrev pub stale_failure : PhaseFailure
  stale_failure = record { kind = plan_stale; left = nothing_left }

  -- Whether the device still is as its reviewed changes were read.
  unfoldable pub check_review : Options → M Bool
  unfolding text_eq
  check_review options = elim options.verify [
    | none ↦ pure true
    | some none ↦ pure false
    | some (some reviewed) ↦ do
      hash ← asks (net.state_hash options.ssh)
      pure (text_eq hash reviewed)
  ]

  -- Whether the packages to install fit.
  unfoldable pub check_space : Options → List Text → List Text → M Bool
  check_space options adding removing = elim adding [
    | [] ↦ pure true
    | p ∷ ps ↦ do
      space ← asks (net.package_space options.ssh (p ∷ ps) removing)
      pure (not (too_big space))
  ]

  unfoldable pub cascade_of : Options → List Text → M (List Text)
  cascade_of options removing = elim removing [
    | [] ↦ pure []
    | p ∷ ps ↦ asks (net.removal_cascade options.ssh (p ∷ ps))
  ]

  unfoldable pub planned_run : Options → PlanFacts → List Text → Text → DeviceRun net.Session
  unfolding packages_to_add packages_to_remove prepare_records services_records hook_commands select
  planned_run options facts cascade id =
      let adding = packages_to_add options.state facts.installed_packages in
      let removing = packages_to_remove options.state facts.installed_packages in
      record {
        options = options;
        run_id = id;
        installed_packages = facts.installed_packages;
        managed_files = facts.managed_files;
        removal_cascade = cascade;
        prepare_records = prepare_records options.state facts.installed_packages;
        finalise_records = none;
        hooks = hook_commands options.state;
        service_records = services_records options.state facts.service_triggers (adding ++ cascade);
        services_to_check =
            map (λ (s : Service). s.name)
              (select (λ (s : Service). s.running) options.state.services);
        has_irreversible_steps =
            not (is_empty removing)
            || not (is_empty adding)
            || not (is_empty options.state.files)
            || not (is_empty facts.managed_files)
            || not (is_empty facts.unseeded);
        deadline = none;
        ran_after = false;
      }

  -- The checks after the review's, then the run.
  unfoldable pub plan_packages : Options → PlanFacts → Phase (DeviceRun net.Session)
  unfolding unknown_configs packages_to_add packages_to_remove check_space cascade_of planned_run
  plan_packages options facts = elim (is_empty (unknown_configs options.state facts.config_names)) [
    | false ↦ pure (err (failure nothing_left))
    | true ↦ do
      cascade ← cascade_of options (packages_to_remove options.state facts.installed_packages)
      fits ←
          check_space options (packages_to_add options.state facts.installed_packages)
            (packages_to_remove options.state facts.installed_packages)
      elim fits [
        | false ↦ pure (err (failure nothing_left))
        | true ↦ do id ← does net.new_run_id; pure (ok (planned_run options facts cascade id))
      ]
  ]

  unfoldable pub plan_device : Options → Phase (DeviceRun net.Session)
  unfolding seeded_config_paths is_other_model check_review plan_packages guarded
  plan_device options =
      guarded
        (do
          emit (stepped options.hostname planning)
          facts ← asks (net.plan_facts options.ssh (seeded_config_paths options.state))
          elim (is_other_model options.device_model_id facts.model_id
              || not (is_empty facts.armed)) [
                | true ↦ pure (err (failure nothing_left))
                | false ↦ do
                  reviewed ← check_review options
                  elim reviewed [
                    | false ↦ pure (err stale_failure)
                    | true ↦ plan_packages options facts
                  ]
              ])
        nothing_left
