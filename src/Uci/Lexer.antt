-- ===== src/Uci/Lexer.antt =====
-- `lines` of src/engine/uci.ts: `uci export` output as lines of words, the way uci's own tokenizer
-- splits it.
use openwrt_configurator.Prelude.{
  Text, ℕ, Option, none, some, List, [], ◌∷◌, ◌++◌, Bool, true, false, not, ◌&&◌, ◌||◌, ◌==◌,
  if◌then◌else◌, is_empty, or_else,
}

-- The loop's variables. `escape` is set between a backslash and the character that it takes.
pub record Lexer : Type 0 where
  pub result : List (List Text)
  pub words : List Text
  pub word : Option Text
  pub quote : Option ℕ
  pub escape : Bool

abbrev pub fresh : List (List Text) → Lexer
fresh done = record { result = done; words = []; word = none; quote = none; escape = false }

unfoldable pub add_char : ℕ → Lexer → Lexer
add_char c s = record s { word = some (or_else s.word [] ++ c ∷ []) }

-- `if (word !== undefined) words.push(word); word = undefined;`
unfoldable pub end_word : Lexer → Lexer
end_word s = elim s.word [ none ↦ s | some w ↦ record s { words = s.words ++ w ∷ []; word = none } ]

-- `if (words.length > 0) result.push(words); words = [];`
unfoldable pub end_line : Lexer → Lexer
end_line s =
    if is_empty s.words then s else record s { result = s.result ++ s.words ∷ []; words = [] }

-- A character outside quotes; `last` when none follows it.
unfoldable pub plain_char : Bool → ℕ → Lexer → Lexer
unfolding add_char end_word end_line
plain_char last c s =
    if c == 39 || c == 34
    then record s { quote = some c; word = some (or_else s.word []) }
    else if c == 92 && not last
    then record s { escape = true }
    else if c == 32 || c == 9
    then end_word s
    else if c == 10
    then end_line (end_word s)
    else add_char c s

unfoldable pub quoted_char : ℕ → ℕ → Lexer → Lexer
unfolding add_char
quoted_char q c s = if c == q then record s { quote = none } else add_char c s

unfoldable pub lex_char : Bool → ℕ → Lexer → Lexer
unfolding plain_char quoted_char
lex_char last c s =
    if s.escape
    then record (add_char c s) { escape = false }
    else elim s.quote [ none ↦ plain_char last c s | some q ↦ quoted_char q c s ]

unfoldable pub lex : Text → Lexer → Lexer
unfolding lex_char
lex [] s = s
lex (c ∷ text) s = lex text (lex_char (is_empty text) c s)

unfoldable pub finish : Lexer → Option (List (List Text))
unfolding end_word end_line
finish s = elim s.quote [ none ↦ some (end_line (end_word s)).result | some q ↦ none ]

-- `none` is the error "uci export output ends inside a quoted value".
unfoldable pub lines : Text → Option (List (List Text))
unfolding lex finish
lines text = finish (lex text (fresh []))
