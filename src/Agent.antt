-- ===== src/Agent.antt =====
-- The device side of an apply as this side calls it. The records that a verb is told are of
-- src/agent/records.ts, what they are worked out from is src/getDeviceScript.ts (Agent/Script), and
-- the verbs with the parses of their answers are src/agent/index.ts (Agent/Verbs).
pub mod Decode
pub mod Encode
pub mod Script
pub mod Tests
pub mod Verbs
use openwrt_configurator.Prelude.{Text, Option, List}

pub data AgentRecord : Type 0 where
  seed : (path content : Text) → AgentRecord
  remove add : (name : Text) → AgentRecord
  batch : (operations : List Text) → AgentRecord
  set add_list : (key value : Text) → AgentRecord
  remove_file : (path : Text) → AgentRecord
  write : (path mode content : Text) (run_after : Option Text) → AgentRecord
  commit : (config : Text) → AgentRecord
  protocol : (name : Text) → AgentRecord
  enable disable : (name : Text) → AgentRecord
  restart : (name : Text) (config : Option Text) → AgentRecord
  run : (command : Text) → AgentRecord
