-- ===== src/Agent/Encode.antt =====
-- `encodeRecords` of src/agent/records.ts: what a verb is sent on its stdin. `none` is the error for a
-- field that the agent could not read back.
use openwrt_configurator.Prelude.{
  Text, ℕ, zero, suc, ◌+◌, ◌/◌, ◌%◌, codes, Option, none, some, List, [], ◌∷◌, ◌++◌, Bool, false,
  ◌&&◌, ◌||◌, leb, ltb, ◌==◌, if◌then◌else◌, any, is_empty, join,
}
use openwrt_configurator.Agent.{AgentRecord}
use openwrt_configurator.Agent as Records

infixl 5 ◌>>=◌
abbrev ◌>>=◌ : {A B : Type 0} → Option A → (A → Option B) → Option B
none >>= f = none
some a >>= f = f a

-- A number in decimal; one digit takes one unit of fuel, so `n` is enough for `n`.
unfoldable pub decimal_from : ℕ → ℕ → Text
decimal_from zero n = (48 + n % 10) ∷ []
decimal_from (suc fuel) n =
    let before = decimal_from fuel (n / 10) in
    if ltb n 10 then (48 + n) ∷ [] else before ++ (48 + n % 10) ∷ []

abbrev pub decimal : ℕ → Text
decimal n = decimal_from n n

-- `text.endsWith("\n")`.
unfoldable pub ends_line : Text → Bool
ends_line [] = false
ends_line (c ∷ []) = c == 10
ends_line (c ∷ d ∷ t) = ends_line (d ∷ t)

unfoldable pub as_body : Text → Text
unfolding ends_line
as_body t = if ends_line t then t else t ++ 10 ∷ []

abbrev pub value_body : Text → Text
value_body t = t ++ 10 ∷ []

-- `body.split("\n").length - 1`.
unfoldable pub line_count : Text → ℕ
line_count [] = 0
line_count (c ∷ t) = let rest = line_count t in if c == 10 then suc rest else rest

-- What `\s` matches.
abbrev pub is_white : ℕ → Bool
is_white c =
    c == 32
    || (leb 9 c && leb c 13)
    || c == 160
    || c == 5760
    || (leb 8192 c && leb c 8202)
    || c == 8232
    || c == 8233
    || c == 8239
    || c == 8287
    || c == 12288
    || c == 65279

unfoldable pub field : Text → Option Text
unfolding any
field v = if is_empty v || any is_white v then none else some v

unfoldable pub last_field : Text → Option Text
unfolding any
last_field v = if is_empty v || any (λ c. c == 10 || c == 13) v then none else some v

unfoldable pub last_fields : List Text → Option (List Text)
unfolding last_field
last_fields [] = some []
last_fields (v ∷ vs) = do w ← last_field v; ws ← last_fields vs; some (w ∷ ws)

abbrev pub after_body : Option Text → Text
after_body none = []
after_body (some command) = value_body command

-- `<kind> <field>`.
unfoldable pub one_field : Text → Option Text → Option Text
one_field kind v = do w ← v; some (kind ++ 32 ∷ w ++ 10 ∷ [])

-- `<kind> <lines> <field>` and the body.
unfoldable pub counted : Text → Text → Option Text → Option Text
unfolding line_count
counted kind body v = do w ← v; some (kind ++ 32 ∷ decimal (line_count body) ++ 32 ∷ w ++ 10 ∷ body)

unfoldable pub encode_one : AgentRecord → Option Text
unfolding one_field counted field last_field last_fields as_body line_count join decimal_from
encode_one (Records.seed path content) = counted (codes "seed") (as_body content) (last_field path)
encode_one (Records.remove name) = one_field (codes "remove") (field name)
encode_one (Records.add name) = one_field (codes "add") (field name)
encode_one (Records.commit config) = one_field (codes "commit") (field config)
encode_one (Records.protocol name) = one_field (codes "protocol") (field name)
encode_one (Records.enable name) = one_field (codes "enable") (field name)
encode_one (Records.disable name) = one_field (codes "disable") (field name)
encode_one (Records.restart name none) = one_field (codes "restart") (field name)
encode_one (Records.restart name (some config)) = do
  n ← field name
  c ← field config
  some (codes "restart " ++ n ++ 32 ∷ c ++ 10 ∷ [])
encode_one (Records.batch operations) = do
  ws ← last_fields operations
  let body = join (10 ∷ []) ws ++ 10 ∷ []
  some (codes "batch " ++ decimal (line_count body) ++ 10 ∷ body)
encode_one (Records.set key value) = counted (codes "set") (value_body value) (field key)
encode_one (Records.add_list key value) = counted (codes "add_list") (value_body value) (field key)
encode_one (Records.remove_file path) = one_field (codes "remove-file") (last_field path)
encode_one (Records.write path mode content run_after) = do
  m ← field mode
  p ← last_field path
  some (
      codes "write "
      ++ decimal (line_count (as_body content))
      ++ 32 ∷ decimal (line_count (after_body run_after))
      ++ 32 ∷ m
      ++ 32 ∷ p
      ++ 10 ∷ as_body content
      ++ after_body run_after)
encode_one (Records.run command) =
    some (codes "run " ++ decimal (line_count (value_body command)) ++ 10 ∷ value_body command)

unfoldable pub encode_all : List AgentRecord → Option Text
unfolding encode_one
encode_all [] = some []
encode_all (r ∷ rs) = do t ← encode_one r; ts ← encode_all rs; some (t ++ ts)

unfoldable pub encode_records : List AgentRecord → Option Text
unfolding encode_all
encode_records rs = do t ← encode_all rs; some (t ++ codes "end\n")
