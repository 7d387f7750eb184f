-- ===== src/Agent/Verbs.antt =====
-- src/agent/index.ts: the verbs, each a command with the parse of its answer. A command is data here
-- (its words on the command line and the records on its stdin); an answer is what the device printed.
use openwrt_configurator.Prelude.{
  Text, ℕ, ◌+◌, ◌-◌, ◌*◌, codes, text_eq, Option, none, some, List, [], ◌∷◌, ◌++◌, Bool, true,
  false, ◌&&◌, ◌||◌, leb, ◌==◌, if◌then◌else◌, any, find, is_empty, or_else,
}
use openwrt_configurator.Prelude.Int.{ℤ, pos, sub_ℕ}
use openwrt_configurator.Agent.{AgentRecord}

pub data RollbackMode : Type 0 where
  reload reboot reload_then_reboot : RollbackMode

pub record ArmPlan : Type 0 where
  pub timeout_seconds : ℕ
  pub mode : RollbackMode
  pub recover_seconds : ℕ
  pub reload_wireless : Bool
  pub files_to_delete : List Text
  pub files_to_restore : List Text
  pub new_packages : List Text
  pub services : List Text
  pub restart_after_restore : List Text

pub data Command : Type 0 where
  install revert : Command
  prepare stage finalise hooks : List AgentRecord → Command
  services : List AgentRecord → Option ℕ → Command
  stage_packages : List Text → Command
  arm : ArmPlan → Command
  commit_finished asleep disarm finish wake recovered drop : Command

-- `code` is absent where the channel closed with no exit status.
pub record ExecResult : Type 0 where
  pub stdout : Text
  pub stderr : Text
  pub code : Option ℕ
  pub timed_out : Bool

pub record Verb (A : Type 0) : Type 0 where
  pub run_id : Text
  pub command : Command
  pub parse : ExecResult → A

-- `text.split("\n")`.
unfoldable pub split_lines : Text → List Text
split_lines [] = [] ∷ []
split_lines (c ∷ text) =
    let rest = split_lines text in
    if c == 10 then [] ∷ rest else elim rest [ [] ↦ (c ∷ []) ∷ [] | l ∷ ls ↦ (c ∷ l) ∷ ls ]

-- The white space that `trim` takes off, as far as a device prints it.
abbrev pub is_space : ℕ → Bool
is_space c = c == 32 || (leb 9 c && leb c 13)

unfoldable pub trim_start : Text → Text
trim_start [] = []
trim_start (c ∷ t) = if is_space c then trim_start t else c ∷ t

unfoldable pub trim_end : Text → Text
trim_end [] = []
trim_end (c ∷ t) = let rest = trim_end t in if is_space c && is_empty rest then [] else c ∷ rest

unfoldable pub says_line : Text → Text → Bool
unfolding any text_eq split_lines trim_start trim_end
says_line stdout word = any (λ line. text_eq (trim_end (trim_start line)) word) (split_lines stdout)

unfoldable pub says : Text → ExecResult → Bool
unfolding says_line
says word r = says_line r.stdout word

-- What follows `prefix`, or nothing.
unfoldable pub after_prefix : Text → Text → Option Text
after_prefix [] t = some t
after_prefix (c ∷ p) [] = none
after_prefix (c ∷ p) (d ∷ t) = if c == d then after_prefix p t else none

abbrev cons_some : Option Text → List Text → List Text
cons_some none ts = ts
cons_some (some t) ts = t ∷ ts

unfoldable pub matched_lines : Text → List Text → List Text
unfolding after_prefix
matched_lines prefix [] = []
matched_lines prefix (l ∷ ls) = cons_some (after_prefix prefix l) (matched_lines prefix ls)

-- `stopped` is the step it stopped at.
pub record Steps : Type 0 where
  pub done : Bool
  pub stopped : Text
  pub stderr : Text
  pub started : List Text

unfoldable pub last_or : Text → List Text → Text
last_or d [] = d
last_or d (t ∷ []) = t
last_or d (t ∷ u ∷ ts) = last_or d (u ∷ ts)

-- `code === 0`.
abbrev pub is_zero : Option ℕ → Bool
is_zero none = false
is_zero (some n) = n == 0

unfoldable pub steps_of : ExecResult → Steps
unfolding says_line matched_lines split_lines last_or trim_start trim_end
steps_of r =
    let started = matched_lines (codes "ONC_STEP ") (split_lines r.stdout) in
    if is_zero r.code && says_line r.stdout (codes "ONC_OK")
    then record { done = true; stopped = []; stderr = []; started = started }
    else record {
      done = false;
      stopped = last_or (codes "its first step") started;
      stderr = trim_end (trim_start r.stderr);
      started = started;
    }

-- A run of digits as a number.
unfoldable pub digits : ℕ → Text → Option ℕ
digits n [] = some n
digits n (c ∷ t) = if leb b'0' c && leb c b'9' then digits (n * 10 + (c - 48)) t else none

unfoldable pub natural : Text → Option ℕ
unfolding digits
natural [] = none
natural (c ∷ t) = digits 0 (c ∷ t)

abbrev negated : Option ℕ → Option ℤ
negated none = none
negated (some n) = some (sub_ℕ 0 n)

abbrev positive : Option ℕ → Option ℤ
positive none = none
positive (some n) = some (pos n)

-- `-?\d+`.
unfoldable pub integer : Text → Option ℤ
unfolding natural
integer [] = none
integer (c ∷ t) = if c == b'-' then negated (natural t) else positive (natural (c ∷ t))

unfoldable pub first_some {ℓ} : {A : Type ℓ} → (Text → Option A) → List Text → Option A
first_some f [] = none
first_some f (l ∷ ls) = elim (f l) [ none ↦ first_some f ls | some a ↦ some a ]

pub data Asleep : Type 0 where
  asleep_for : (seconds : ℤ) → Asleep
  awake : (kept : Bool) → Asleep

unfoldable pub asleep_of : ExecResult → Asleep
unfolding first_some matched_lines integer split_lines says_line
asleep_of r =
    elim (first_some integer (matched_lines (codes "ONC_ASLEEP ") (split_lines r.stdout))) [
      | some seconds ↦ asleep_for seconds
      | none ↦ awake (says_line r.stdout (codes "ONC_KEPT"))
    ]

unfoldable pub staged_of : ExecResult → ℕ
unfolding first_some matched_lines natural split_lines
staged_of r =
    or_else (first_some natural (matched_lines (codes "ONC_STAGED ") (split_lines r.stdout))) 0

-- Items that the agent cannot be given, as it reads a line each: `/[\n\r]/`.
unfoldable pub unarmable : ArmPlan → Option Text
unfolding find any
unarmable plan =
    find (λ path. any (λ c. c == 10 || c == 13) path)
      (plan.files_to_delete ++ plan.files_to_restore)

abbrev pub verb : {A : Type 0} → Text → Command → (ExecResult → A) → Verb A
verb id c p = record { run_id = id; command = c; parse = p }
