-- ===== src/Engine.antt =====
-- What the engine leaves for one device: src/engine/openWrtState.ts. How its config reads back from
-- uci is in Engine/Declared, and the operations that declare it in Engine/Operations.
pub mod Declared
pub mod Operations
use openwrt_configurator.Prelude.{Text, Option, List, Bool, Object}
use openwrt_configurator.Uci.{KeepEntry}

-- `string | number | boolean`; a number by its text, as `String` gives it.
pub data Scalar : Type 0 where
  text num : Text → Scalar
  flag : Bool → Scalar

-- `UciScalar | UciScalar[]`.
pub data Value : Type 0 where
  single : Scalar → Value
  several : List Scalar → Value

-- `name` is the field ".name".
pub record OpenWrtSection : Type 0 where
  pub name : Text
  pub options : Object Value

-- config, section type, sections.
abbrev pub OpenWrtConfig : Type 0
OpenWrtConfig = Object (Object (List OpenWrtSection))

pub record Service : Type 0 where
  pub name : Text
  pub running : Bool
  pub enabled : Option Bool
  pub restart_after_rollback : Option Bool
  pub restart_on_packages : Option (List Text)

pub record StateFile : Type 0 where
  pub path : Text
  pub content : Text
  pub mode : Option Text
  pub run_after : Option Text
  pub run_after_reload : Option Text

pub record OpenWrtState : Type 0 where
  pub config : OpenWrtConfig
  pub add : List Text
  pub remove : List Text
  pub keep : List KeepEntry
  pub new_configs : Option (List Text)
  pub services : List Service
  pub files : List StateFile
