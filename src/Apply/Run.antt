-- ===== src/Apply/Run.antt =====
-- src/apply/run.ts: one device's provision as a record that the phases pass along, what a failed
-- phase leaves on the device, and the surroundings that an apply runs in.
use openwrt_configurator.Prelude.{
  Text, ℕ, Option, none, some, List, ◌∷◌, Bool, false, Object, if◌then◌else◌,
}
use openwrt_configurator.Uci.{UciConfigs}
use openwrt_configurator.Engine.{OpenWrtState}
use openwrt_configurator.Agent.{AgentRecord}
use openwrt_configurator.Agent.Verbs.{RollbackMode, Command, ExecResult, Verb}
use openwrt_configurator.Apply.Io.{Io, returned, thrown, pure, attempt, ◌>>=◌}

-- `ArmedRun` of src/apply/plan.ts: another run's watchdog.
pub record ArmedRun : Type 0 where
  pub seconds : ℕ
  pub recover : ℕ

-- What planning asks of a device in one round trip.
pub record PlanFacts : Type 0 where
  pub model_id : Option Text
  pub installed_packages : List Text
  pub managed_files : List Text
  pub unseeded : List Text
  pub config_names : List Text
  pub service_triggers : Object (List Text)
  pub armed : List ArmedRun

-- The devices, the network to them and the clock. Every answer may depend on all that happened
-- before. `none` is a promise that was rejected.
pub record Net : Type 1 where
  pub State : Type 0
  pub Session : Type 0
  pub is_local : Session → Bool
  pub now : State → ℕ
  pub sleep : ℕ → State → State
  -- A new SSH session to a device, by its hostname.
  pub connect : Text → State → Option Session × State
  pub exec : Session → Text → Command → State → Option ExecResult × State
  -- `execCommand("true")` ending with status 0.
  pub is_alive : Session → State → Bool × State
  pub new_run_id : State → Text × State
  -- The probes of src/deviceProbes.ts, with what each parses.
  pub plan_facts : Session → List Text → State → Option PlanFacts × State
  pub state_hash : Session → State → Option Text × State
  pub removal_cascade : Session → List Text → State → Option (List Text) × State
  pub package_space : Session → List Text → List Text → State → Option (Option (ℕ × ℕ)) × State
  pub uci_configs : Session → State → Option (UciConfigs × List Text) × State
  pub answers_ssh : Session → Text → State → Option Bool × State
  pub services_settled : Session → ℕ → State → Option (Unit {0}) × State
  pub not_running : Session → List Text → State → Option (List Text) × State

pub data DeviceStep : Type 0 where
  planning configuring committing confirming confirmed : DeviceStep
  reverted rolling_back rolled_back recovering : DeviceStep

-- What an apply does that others see: a verb sent to the device of a run, with what it answered
-- (`none` where the answer never came), and what is reported.
pub data Event : Type 0 where
  sent : (run_id : Text) → Command → Option ExecResult → Event
  stepped : (hostname : Text) → DeviceStep → Event
  windowed : (confirm_by restored_by : ℕ) → Event

-- The latest event first.
pub record World (S : Type 0) : Type 0 where
  pub state : S
  pub log : List Event

pub data ProblemKind : Type 0 where
  failed unreachable plan_stale : ProblemKind

-- What a phase that went wrong leaves on the device.
pub record Left : Type 0 where
  pub committed : Bool
  pub left_armed : Bool
  pub roll_back_now : Bool
  pub ran_after : Bool

pub record PhaseFailure : Type 0 where
  pub kind : ProblemKind
  pub left : Left

pub data Result (A E : Type 0) : Type 0 where
  ok : A → Result A E
  err : E → Result A E

abbrev pub nothing_left : Left
nothing_left = record {
  committed = false;
  left_armed = false;
  roll_back_now = false;
  ran_after = false;
}

abbrev pub failure : Left → PhaseFailure
failure left = record { kind = failed; left = left }

pub record DeviceRunOptions (Session : Type 0) : Type 0 where
  pub device_model_id : Option Text
  pub ip_address : Text
  pub hostname : Text
  pub ssh : Session
  pub state : OpenWrtState
  pub rollback_mode : RollbackMode
  pub recover_seconds : ℕ
  pub minimum_confirm_window_ms : ℕ
  -- Absent: not asked; else the hash of the review, absent for a device that is not in it.
  pub verify : Option (Option Text)

pub record DeviceRun (Session : Type 0) : Type 0 where
  pub options : DeviceRunOptions Session
  pub open options use *
  pub run_id : Text
  pub installed_packages : List Text
  pub managed_files : List Text
  pub removal_cascade : List Text
  pub prepare_records : List AgentRecord
  pub finalise_records : Option (List AgentRecord)
  pub hooks : List Text
  pub service_records : List AgentRecord
  pub services_to_check : List Text
  pub has_irreversible_steps : Bool
  pub deadline : Option ℕ
  pub ran_after : Bool

-- An answer that counts: not timed out, and with an exit status.
unfoldable pub answer : {A : Type 0} → (ExecResult → A) → Option ExecResult → Option A
answer parse none = none
answer parse (some r) =
    if r.timed_out then none else elim r.code [ none ↦ none | some c ↦ some (parse r) ]

-- The actions, over the surroundings.
module _ ⦃net : Net⦄ where
  abbrev pub M : Type 0 → Type 0
  M A = Io (World net.State) A

  abbrev pub Run : Type 0
  Run = DeviceRun net.Session

  abbrev pub Phase : Type 0 → Type 0
  Phase A = M (Result A PhaseFailure)

  -- An action of the surroundings that cannot fail.
  unfoldable pub does : {A : Type 0} → (net.State → A × net.State) → M A
  does f w = let (a, s) = f w.state in (returned a, record w { state = s })

  unfoldable pub asks : {A : Type 0} → (net.State → Option A × net.State) → M A
  asks f w =
      let (a, s) = f w.state in
      (elim a [ none ↦ thrown | some x ↦ returned x ], record w { state = s })

  unfoldable pub now : M ℕ
  now w = (returned (net.now w.state), w)

  unfoldable pub sleep : ℕ → M Unit
  sleep ms w = (returned tt, record w { state = net.sleep ms w.state })

  unfoldable pub emit : Event → M Unit
  emit e w = (returned tt, record w { log = e ∷ w.log })

  abbrev pub step : Run → DeviceStep → M Unit
  step run s = emit (stepped run.hostname s)

  -- `agent.call`: `none` where there was no answer.
  unfoldable pub call : {A : Type 0} → net.Session → Verb A → M (Option A)
  unfolding answer
  call session v w =
      let (r, s) = net.exec session v.run_id v.command w.state in
      (returned (answer v.parse r), record { state = s; log = sent v.run_id v.command r ∷ w.log })

  -- `guarded`: what a body throws is a failure, with what that may have left.
  unfoldable pub or_failure :
      {A : Type 0} → Left → Option (Result A PhaseFailure) → Result A PhaseFailure
  or_failure left none = err (record { kind = unreachable; left = left })
  or_failure left (some r) = r

  unfoldable pub guarded : {A : Type 0} → Phase A → Left → Phase A
  unfolding or_failure
  guarded body if_thrown = do r ← attempt body; pure (or_failure if_thrown r)
