-- ===== src/Apply/Reconnect.antt =====
-- src/apply/reconnect.ts: reconnecting to a device until a deadline.
pub mod Enough
pub mod Tests
use openwrt_configurator.Prelude.{ℕ, zero, suc, ◌+◌, ◌-◌, ◌/◌, none, some, true, false, leb}
use Prim.Native.Nat.{min}
use openwrt_configurator.Apply.Io.{pure, throw, attempt, ◌>>=◌, ◌>>◌}
use openwrt_configurator.Apply.Run.{Net, M, Run, asks, now, sleep}

abbrev pub reconnect_interval_ms : ℕ
reconnect_interval_ms = 3000

module _ ⦃net : Net⦄ where
  -- `throw new Error("Connected only after the deadline")`.
  unfoldable pub in_time : ℕ → net.Session → M net.Session
  in_time deadline session = do
    t ← now
    elim (leb deadline t) [ true ↦ throw | false ↦ pure session ]

  -- The loop, on fuel.
  unfoldable pub reconnect_loop : ℕ → M net.Session → ℕ → M net.Session
  unfolding in_time
  reconnect_loop zero connect deadline = throw
  reconnect_loop (suc fuel) connect deadline = do
    t ← now
    elim (leb deadline t) [
      | true ↦ throw
      | false ↦ do
        tried ← attempt (connect >>= in_time deadline)
        elim tried [
          | some session ↦ pure session
          | none ↦ do
            u ← now
            elim (leb deadline (u + reconnect_interval_ms)) [
              | true ↦ throw
              | false ↦ sleep reconnect_interval_ms >> reconnect_loop fuel connect deadline
            ]
        ]
    ]

  -- Each round sleeps the interval, so no more rounds than fit before the deadline are made.
  abbrev pub rounds : ℕ → ℕ → ℕ
  rounds deadline t = suc ((deadline - t) / reconnect_interval_ms)

  unfoldable pub reconnect_until : M net.Session → ℕ → M net.Session
  unfolding reconnect_loop
  reconnect_until connect deadline = do t ← now; reconnect_loop (rounds deadline t) connect deadline

  abbrev pub connect_to : Run → M net.Session
  connect_to run = asks (net.connect run.hostname)

  -- A session that a device provisioning itself must also answer from outside.
  unfoldable pub reachable_session : Run → M net.Session
  reachable_session run = do
    session ← connect_to run
    elim (net.is_local session) [
      | false ↦ pure session
      | true ↦ do
        answers ← asks (net.answers_ssh session run.ip_address)
        elim answers [ true ↦ pure session | false ↦ throw ]
    ]

  -- `if (budget >= 3) await runProbe(first, servicesSettled(budget))`, in milliseconds.
  unfoldable pub settle : net.Session → ℕ → M Unit
  settle session deadline = do
    t ← now
    elim (leb 13000 (deadline - t)) [
      | true ↦ asks (net.services_settled session (min 20000 (deadline - t - 10000)))
      | false ↦ pure tt
    ]

  unfoldable pub reconnect_settled : Run → (net.Session → M Unit) → ℕ → M net.Session
  unfolding reconnect_until reachable_session settle
  reconnect_settled run before_settle deadline = do
    first ← reconnect_until (connect_to run) deadline
    attempt (before_settle first >> settle first deadline)
    reconnect_until (reachable_session run) deadline
