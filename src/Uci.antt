-- ===== src/Uci.antt =====
-- The device's UCI config as data: src/engine/uci.ts, and the quoting of src/shell.ts. The text
-- that `uci export` prints is read in Uci/Lexer and Uci/Export and written in Uci/Print; the wipe
-- is in Uci/Wipe and the check of what is staged in Uci/Verify.
pub mod Lexer
pub mod Export
pub mod Print
pub mod Quoting
pub mod Tests
pub mod Wipe
pub mod Verify
use openwrt_configurator.Prelude.{
  Text, text_eq, Option, none, some, List, [], ◌∷◌, Bool, true, false, ◌&&◌, ◌||◌, any, Object,
}

-- `string | string[]`.
pub data OptionValue : Type 0 where
  one : Text → OptionValue
  many : List Text → OptionValue

-- `name` is absent for an anonymous section.
pub record UciSection : Type 0 where
  pub type : Text
  pub name : Option Text
  pub options : Object OptionValue

-- Sections per config, in file order.
abbrev pub UciConfigs : Type 0
UciConfigs = Object (List UciSection)

-- A config the wipe leaves, whole or only its sections of a type.
pub record KeepEntry : Type 0 where
  pub config : Text
  pub type : Option Text
  pub optional : Bool

-- Whether one keep entry covers a config (`type` none: the whole of it) or its sections of a type.
unfoldable pub covers : Option Text → Option Text → Bool
unfolding text_eq
covers none type = true
covers (some t) none = false
covers (some t) (some type) = text_eq t type

unfoldable pub is_kept : List KeepEntry → Text → Option Text → Bool
unfolding any covers
is_kept keep key type = any (λ entry. text_eq entry.config key && covers entry.type type) keep
