-- ===== src/Agent/Decode.antt =====
-- `decodeRecords` of src/agent/records.ts: the records that a verb's stdin holds. `none` is an error:
-- cut short, an unknown kind, or a count that is not written in digits.
pub mod Numbers
pub mod Bodies
pub mod Each
pub mod Fields
pub mod Every
pub mod RoundTrip
use openwrt_configurator.Prelude.{
  Text, ℕ, zero, suc, codes, text_eq, Option, none, some, List, [], ◌∷◌, ◌++◌, Bool, true, false,
  not, ◌&&◌, ltb, all, is_empty, length, split, join, take, drop, if◌then◌else◌,
}
use openwrt_configurator.Agent.{AgentRecord}
use openwrt_configurator.Agent as Records
use openwrt_configurator.Release.{is_digit, number_from}

-- `Number(text)` of a count.
unfoldable pub count_of : Text → Option ℕ
unfolding all number_from
count_of t = if not (is_empty t) && all is_digit t then some (number_from 0 t) else none

-- `rest.slice(n).join(" ")`.
unfoldable pub after_words : ℕ → List Text → Text
unfolding join drop
after_words n words = join (32 ∷ []) (drop n words)

-- `rest[n]`.
unfoldable pub word_at : ℕ → List Text → Text
word_at n [] = []
word_at zero (w ∷ ws) = w
word_at (suc n) (w ∷ ws) = word_at n ws

-- `take(count)`: the lines of a body joined, and the lines after it.
abbrev pub Body : Type 0
Body = Text × List Text

unfoldable pub take_lines : Option ℕ → List Text → Option Body
unfolding take drop join
take_lines none lines = none
take_lines (some n) lines = some (join (10 ∷ []) (take n lines), drop n lines)

abbrev pub Decoded : Type 0
Decoded = Option (AgentRecord × List Text)

-- A record of one line.
abbrev pub lone : AgentRecord → List Text → Decoded
lone r lines = some (r, lines)

-- A record with a body, from the body without its last line break.
abbrev pub with_body : (Text → AgentRecord) → Option Body → Decoded
with_body make none = none
with_body make (some (body, lines)) = some (make body, lines)

abbrev pub restart_of : List Text → AgentRecord
restart_of words =
    if ltb 1 (length words)
    then Records.restart (word_at 0 words) (some (after_words 1 words))
    else Records.restart (word_at 0 words) none

-- The command after a write, where its count is not zero.
abbrev pub with_command : (Option Text → AgentRecord) → Option ℕ → List Text → Decoded
with_command make none lines = none
with_command make (some n) lines =
    if ltb 0 n
    then with_body (λ body. make (some body)) (take_lines (some n) lines)
    else lone (make none) lines

abbrev pub write_of : List Text → Option Body → Decoded
write_of words none = none
write_of words (some (content, lines)) =
    with_command (Records.write (after_words 3 words) (word_at 2 words) (content ++ 10 ∷ []))
      (count_of (word_at 1 words)) lines

unfoldable pub decode_kind : Text → List Text → List Text → Decoded
unfolding text_eq count_of after_words word_at take_lines split
decode_kind kind words lines =
    let body = take_lines (count_of (word_at 0 words)) lines in
    let name = after_words 0 words in
    if text_eq kind (codes "seed")
    then with_body (λ t. Records.seed (after_words 1 words) (t ++ 10 ∷ [])) body
    else (if text_eq kind (codes "remove")
        then lone (Records.remove name) lines
        else (if text_eq kind (codes "add")
            then lone (Records.add name) lines
            else (if text_eq kind (codes "protocol")
                then lone (Records.protocol name) lines
                else (if text_eq kind (codes "enable")
                    then lone (Records.enable name) lines
                    else (if text_eq kind (codes "disable")
                        then lone (Records.disable name) lines
                        else (if text_eq kind (codes "commit")
                            then lone (Records.commit name) lines
                            else (if text_eq kind (codes "restart")
                                then lone (restart_of words) lines
                                else (if text_eq kind (codes "batch")
                                    then with_body (λ t. Records.batch (split 10 t)) body
                                    else (if text_eq kind (codes "set")
                                        then with_body (Records.set (after_words 1 words)) body
                                        else (if text_eq kind (codes "add_list")
                                            then with_body (Records.add_list (after_words 1 words))
                                                body
                                            else (if text_eq kind (codes "remove-file")
                                                then lone (Records.remove_file name) lines
                                                else (if text_eq kind (codes "write")
                                                    then write_of words body
                                                    else (if text_eq kind (codes "run")
                                                        then with_body Records.run body
                                                        else none)))))))))))))

abbrev pub decode_words : List Text → List Text → Decoded
decode_words [] lines = none
decode_words (kind ∷ words) lines = decode_kind kind words lines

unfoldable pub decode_one : Text → List Text → Decoded
unfolding split decode_kind
decode_one header lines = decode_words (split 32 header) lines

-- The loop, up to the line `end`; each round takes a line at least.
unfoldable pub decode_lines : ℕ → List Text → Option (List AgentRecord)
unfolding decode_one text_eq
decode_lines zero lines = none
decode_lines (suc fuel) [] = none
decode_lines (suc fuel) (header ∷ lines) =
    if text_eq header (codes "end") then some [] else elim (decode_one header lines) [
      | none ↦ none
      | some (r, after) ↦ elim (decode_lines fuel after) [ none ↦ none | some rs ↦ some (r ∷ rs) ]
    ]

-- `all[all.length - 2]`.
unfoldable pub last_but_one : List Text → Option Text
last_but_one [] = none
last_but_one (a ∷ []) = none
last_but_one (a ∷ b ∷ []) = some a
last_but_one (a ∷ b ∷ c ∷ ls) = last_but_one (b ∷ c ∷ ls)

abbrev pub is_end : Option Text → Bool
is_end none = false
is_end (some t) = text_eq t (codes "end")

unfoldable pub decode_records : Text → Option (List AgentRecord)
unfolding decode_lines last_but_one split text_eq
decode_records text =
    let lines = split 10 text in
    if is_end (last_but_one lines) then decode_lines (length lines) lines else none
