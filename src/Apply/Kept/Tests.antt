-- ===== src/Apply/Kept/Tests.antt =====
-- A run of two devices: the first is committed, then the second's link drops as it is configured.
use openwrt_configurator.Prelude.{
  Text, ℕ, zero, suc, ◌≡◌, ◌+◌, codes, Option, none, some, List, [], ◌∷◌, true, false, refl, ◌⊎◌,
  All, text_eq, if◌then◌else◌, arith,
}
use openwrt_configurator.Engine.{OpenWrtState}
use openwrt_configurator.Agent.Verbs.{
  ExecResult, Command, reload, split_lines, trim_start, trim_end, says_line, says, after_prefix,
  matched_lines, last_or, steps_of, digits, natural, integer, first_some, asleep_of, staged_of,
  unarmable,
}
use openwrt_configurator.Agent.Verbs as Verbs
use openwrt_configurator.Apply.Io.{◌>>=◌}
use openwrt_configurator.Apply.Run.{ok, Net, World, DeviceRun, does, asks, now, emit, call}
use openwrt_configurator.Apply.Network.{RunFailure, rolled_back, ended, was_rolled_back}
use openwrt_configurator.Apply.Network.Whole.{run_confirmed}
use openwrt_configurator.Apply.Kept.{NotCommit, NotKept}
use openwrt_configurator.Apply.Configure.{configure_device, verified}
use openwrt_configurator.Apply.Io.{returned}
use openwrt_configurator.Uci.{UciConfigs, one}
use openwrt_configurator.Engine.{single, text}
use openwrt_configurator.Apply.Traces.Verified.{IsVerified, configure_device-IsVerified}
use openwrt_configurator.Apply.Kept.Arming.{run_confirmed-undone}
use openwrt_configurator.Agent.Script.{stage_records}

abbrev pub says_only : Text → Option ExecResult
says_only t = some (record { stdout = t; stderr = []; code = some 0; timed_out = false })

-- The device with the run id 2 gives no answer to its staging.
pub answer_of : Text → Command → Option ExecResult
unfolding text_eq
answer_of id Verbs.install = says_only (codes "ONC_BEGUN")
answer_of id (Verbs.arm plan) = says_only (codes "ONC_ARMED")
answer_of id (Verbs.stage records) =
    if text_eq id (2 ∷ []) then none else says_only (codes "ONC_OK")
answer_of id (Verbs.prepare records) = says_only (codes "ONC_OK")
answer_of id (Verbs.finalise records) = says_only (codes "ONC_OK")
answer_of id Verbs.wake = says_only (codes "ONC_WOKEN")
answer_of id Verbs.recovered = says_only (codes "ONC_RECOVERED")
answer_of id Verbs.disarm = says_only (codes "ONC_DISARMED")
answer_of id Verbs.commit_finished = says_only (codes "ONC_COMMITTED")
answer_of id Verbs.asleep = says_only (codes "ONC_ASLEEP 500")
answer_of id c = says_only []

-- The state is the clock.
abbrev pub small_net : Net
small_net = record {
  State = ℕ;
  Session = Text;
  is_local = λ s. false;
  now = λ s. s;
  sleep = λ ms s. s + ms;
  connect = λ host s. (some host, s);
  exec = λ session id c s. (answer_of id c, s);
  is_alive = λ session s. (true, s);
  new_run_id = λ s. (3 ∷ [], s);
  plan_facts = λ session paths s. (none, s);
  state_hash = λ session s. (none, s);
  removal_cascade = λ session l s. (some l, s);
  package_space = λ session a b s. (some none, s);
  uci_configs = λ session s. (some ([], []), s);
  answers_ssh = λ session ip s. (some true, s);
  services_settled = λ session n s. (some tt, s);
  not_running = λ session l s. (some [], s);
}

abbrev bare_state : OpenWrtState
bare_state = record {
  config = [];
  add = [];
  remove = [];
  keep = [];
  new_configs = none;
  services = [];
  files = [];
}

abbrev bare_run : Text → DeviceRun Text
bare_run id = record {
  options = record {
    device_model_id = none;
    ip_address = id;
    hostname = id;
    ssh = id;
    state = bare_state;
    rollback_mode = reload;
    recover_seconds = 60;
    minimum_confirm_window_ms = 100;
    verify = none;
  };
  run_id = id;
  installed_packages = [];
  managed_files = [];
  removal_cascade = [];
  prepare_records = [];
  finalise_records = none;
  hooks = [];
  service_records = [];
  services_to_check = [];
  has_irreversible_steps = false;
  deadline = none;
  ran_after = false;
}

abbrev two_runs : List (DeviceRun Text)
two_runs = bare_run (1 ∷ []) ∷ bare_run (2 ∷ []) ∷ []

abbrev two_end : World ℕ
two_end = (run_confirmed ⦃net = small_net⦄ two_runs 600 (record { state = 0; log = [] })).1

abbrev two_failure : RunFailure
two_failure = ended rolled_back ((2 ∷ [], was_rolled_back) ∷ (1 ∷ [], was_rolled_back) ∷ [])

run_confirmed-undone_example :
    All (NotCommit (1 ∷ [])) two_end.log ⊎ All (NotKept (1 ∷ [])) two_end.log
unfolding run_confirmed answer_of ◌>>=◌ call says now unarmable emit does steps_of asks
    stage_records
run_confirmed-undone_example =
    run_confirmed-undone ⦃net = small_net⦄ (1 ∷ []) two_runs 600 0 two_failure two_end
      (((λ e. ground arith), tt), (tt, tt)) refl tt

-- Staging moves the clock of this network, and the device has another hostname before it.
abbrev moved : Command → ℕ → ℕ
moved (Verbs.stage records) s = suc s
moved c s = s

abbrev system_of : Text → UciConfigs
system_of name =
    (
      codes "system",
      record {
        type = codes "system";
        name = some (codes "main");
        options = (codes "hostname", one name) ∷ [];
      }
          ∷ [],
    )
    ∷ []

abbrev seen_at : ℕ → UciConfigs
seen_at zero = system_of (codes "old")
seen_at (suc n) = system_of (codes "ap")

abbrev staging_net : Net
staging_net = record small_net {
  exec = λ session id c s. (answer_of id c, moved c s);
  uci_configs = λ session s. (some (seen_at s, []), s);
}

abbrev named_run : DeviceRun Text
named_run = record (bare_run (1 ∷ [])) {
  options = record (bare_run (1 ∷ [])).options {
    state = record bare_state {
      config =
          (
            codes "system",
            (
              codes "system",
              record {
                name = codes "main";
                options = (codes "hostname", single (text (codes "ap"))) ∷ [];
              }
                  ∷ [],
            )
                ∷ [],
          )
          ∷ [];
    };
  };
}

abbrev configured_world : World ℕ
configured_world =
    (configure_device ⦃net = staging_net⦄ named_run (record { state = 0; log = [] })).1

configured_run :
    (r : DeviceRun Text) × (configure_device ⦃net = staging_net⦄ named_run
        (record { state = 0; log = [] })
      ≡ (returned (ok r), configured_world))
unfolding configure_device answer_of ◌>>=◌ call says now emit does steps_of asks stage_records
    verified
configured_run = (_, refl)

configure_device-IsVerified_example :
    IsVerified ⦃net = staging_net⦄ named_run (record { state = 0; log = [] }) configured_world
configure_device-IsVerified_example =
    configure_device-IsVerified ⦃net = staging_net⦄ named_run configured_run.0
      (record { state = 0; log = [] }) configured_world configured_run.1
