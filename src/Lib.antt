-- ===== src/Lib.antt =====
-- openwrt-configurator: a verification library for its core, the applying of a declared config to a
-- network of OpenWrt devices as one change that is kept whole or undone whole.
--
-- The program reads a device's config (`uci export`), works out the records that the agent on the
-- device is told for each step, and runs these steps over every device behind a rollback that a
-- watchdog on the device starts unless it is disarmed. The files and what they model:
--
--   Prelude   arrays, strings, objects and integers as the program uses them. A text is its list of
--             code units, an object the list of its entries in the order their keys were set.
--   Lock      src/lock.ts: `takeLock` and `releaseLock` as one process runs them (Lock), and as the
--             calls on files that several processes interleave (Lock/Machine).
--   Release   src/release.ts: the order of OpenWrt's releases, and which are supported.
--   Intent    src/intent/addresses.ts: addresses, ranges and ports (Intent/Addresses).
--   Status    src/status/moves.ts: where each client went (Status/Moves).
--   Uci       src/engine/uci.ts and src/shell.ts: the tokenizer and `parseUciExport` (Uci/Lexer,
--             Uci/Export), `uciFileText` and `shellQuote` (Uci/Print), `wipeOperations` and
--             `changedConfigs` (Uci/Wipe), `verifyConfigs` (Uci/Verify).
--   Condition src/plan/when.ts: when a declaration applies, evaluated (Condition) and printed
--             (Condition/Print), and the language of src/condition.ts, tokenized (Condition/Tokens)
--             and parsed (Condition/Parse). The order of releases, an argument there, is that of Release.
--   Engine    src/engine/openWrtState.ts, with `declaredConfigs` of src/engine/uci.ts
--             (Engine/Declared) and src/engine/getUciCommands.ts (Engine/Operations).
--   Agent     src/agent/records.ts (written in Agent/Encode, read in Agent/Decode), what is sent with each verb
--             (src/getDeviceScript.ts, Agent/Script) and the verbs with the parses of their
--             answers (src/agent/index.ts, Agent/Verbs).
--   Apply     src/apply/: actions that may throw (Apply/Io), one device's run and the network
--             (run.ts, Apply/Run), reconnect.ts, recover.ts, arm.ts, configure.ts with commit.ts,
--             confirm.ts, after.ts and plan.ts under the same names, and provisionNetwork.ts
--             (Apply/Network: Order, Abort, Phases, Unconfirmed, Whole). job.ts, an apply's files
--             beside the intent, is Apply/Job, with Claim and Ending. Apply/Traces has what each
--             action adds to the log and what it returns, Apply/Kept what an undone run leaves.
--
-- Asynchronous code is explicit state passing: an action takes a world (the state of the network and
-- the log of what was sent and reported, latest first) to an outcome, returned or thrown, and a
-- world. The devices, the links, the clock and the probes are the record `Net` of Apply/Run, a
-- parameter whose every answer may depend on all that happened before; `none` is a promise that was
-- rejected. The order of the `await`s is the order of the actions.
--
-- Bounds: `reconnect_loop` runs on fuel, one round more than intervals fit before the deadline; each
-- round that goes on sleeps an interval. The tokenizer of conditions has a round for each character,
-- the parser six nested calls for each token; both tell running out of these from an error.
-- `decode_lines` has a round for each line, `take_more` one for each character. Times are whole milliseconds.
--
-- In Lock/Machine a step is one call on a file, but that what `stale` reads of its own is one step:
-- any process may take the next one, be killed, or let time pass. Of a run's files an unreadable one is as none.
--
-- Not modelled: messages and console output, the disposal of sessions, time limits of a command,
-- redaction, the shell text of commands and probes, and the concurrency of the discards after a
-- failed arming, which are taken in order. An object's integer-like keys are kept in the order they
-- were set, and a line ends at a line feed only.
pub mod Prelude
pub mod Lock
pub mod Release
pub mod Condition
pub mod Intent
pub mod Status
pub mod Uci
pub mod Engine
pub mod Agent
pub mod Apply
