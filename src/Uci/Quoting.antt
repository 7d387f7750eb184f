-- ===== src/Uci/Quoting.antt =====
-- Quoting and tokenizing: `shellQuote` of src/shell.ts against `lines` of src/engine/uci.ts.
use mathlib.Core.Path.{subst}
use openwrt_configurator.Prelude.{
  Text, ℕ, Option, none, some, List, [], ◌∷◌, ◌++◌, map, false, ◌≡◌, refl, sym, ap, ◌∙◌, ◌==◌,
  ==_iff, Bool-cases, inl, inr, is_empty, join, append_assoc, append-nil,
}
use openwrt_configurator.Uci.Lexer.{Lexer, add_char, quoted_char, lex, finish, lines}
use openwrt_configurator.Uci.Print.{escape_quotes, shell_quote}

abbrev inside : List (List Text) → List Text → Text → Lexer
inside done words w = record {
  result = done;
  words = words;
  word = some w;
  quote = some 39;
  escape = false;
}

abbrev outside : List (List Text) → List Text → Option Text → Lexer
outside done words word = record {
  result = done;
  words = words;
  word = word;
  quote = none;
  escape = false;
}

-- What reading an escaped text inside quotes comes to, whatever was read before.
abbrev ReadsBack : Text → Text → List (List Text) → List Text → Type 0
ReadsBack v rest done words =
    (w : Text)
    → lex (escape_quotes v ++ 39 ∷ rest) (inside done words w)
      ≡ lex rest (outside done words (some (w ++ v)))

quote-ReadsBack :
    (v rest : Text) (done : List (List Text)) (words : List Text)
    → ReadsBack v rest done words
    → ReadsBack (39 ∷ v) rest done words
unfolding lex escape_quotes
quote-ReadsBack v rest done words h w =
    h (w ++ 39 ∷ []) ∙ ap (λ x. lex rest (outside done words (some x))) (append_assoc w (39 ∷ []) v)

escape_quotes-plain :
    (c : ℕ) (v : Text) → (c == 39) ≡ false → escape_quotes (c ∷ v) ≡ c ∷ escape_quotes v
unfolding escape_quotes
escape_quotes-plain c v e = rw e refl

quoted_char-plain : (c : ℕ) (s : Lexer) → (c == 39) ≡ false → quoted_char 39 c s ≡ add_char c s
unfolding quoted_char
quoted_char-plain c s e = rw e refl

plain-ReadsBack :
    (c : ℕ) (v rest : Text) (done : List (List Text)) (words : List Text)
    → (c == 39) ≡ false
    → ReadsBack v rest done words
    → ReadsBack (c ∷ v) rest done words
unfolding lex
plain-ReadsBack c v rest done words e h w =
    ap (λ t. lex (t ++ 39 ∷ rest) (inside done words w)) (escape_quotes-plain c v e)
    ∙ ap (λ s. lex (escape_quotes v ++ 39 ∷ rest) s) (quoted_char-plain c (inside done words w) e)
    ∙ h (w ++ c ∷ [])
    ∙ ap (λ x. lex rest (outside done words (some x))) (append_assoc w (c ∷ []) v)

-- Inside quotes, an escaped text is read as itself.
lex-escape_quotes :
    (v rest : Text) (done : List (List Text)) (words : List Text) → ReadsBack v rest done words
unfolding lex escape_quotes
lex-escape_quotes [] rest done words w = rw (append-nil w) refl
lex-escape_quotes (c ∷ v) rest done words w = elim (Bool-cases (c == 39)) [
  | inl e ↦
      subst (λ x. ReadsBack (x ∷ v) rest done words) (sym ((==_iff c 39).0 e))
        (quote-ReadsBack v rest done words (lex-escape_quotes v rest done words)) w
  | inr e ↦ plain-ReadsBack c v rest done words e (lex-escape_quotes v rest done words) w
]

-- A quoted text is one word.
lex-shell_quote :
    (v rest : Text) (done : List (List Text)) (words : List Text)
    → lex (shell_quote v ++ rest) (outside done words none) ≡ lex rest (outside done words (some v))
unfolding lex shell_quote
lex-shell_quote v rest done words =
    rw (append_assoc (escape_quotes v) (39 ∷ []) rest) (lex-escape_quotes v rest done words [])

is_empty-append : (ws : List Text) (v : Text) → is_empty (ws ++ v ∷ []) ≡ false
is_empty-append [] v = refl
is_empty-append (w ∷ ws) v = refl

lex-quoted_words :
    (v : Text) (vs words : List Text) (done : List (List Text))
    → finish (lex (join (32 ∷ []) (map shell_quote (v ∷ vs))) (outside done words none))
      ≡ some (done ++ (words ++ v ∷ vs) ∷ [])
unfolding lex finish join
lex-quoted_words v [] words done =
    rw (sym (append-nil (shell_quote v)))
      (rw (lex-shell_quote v [] done words) (rw (is_empty-append words v) refl))
lex-quoted_words v (u ∷ us) words done =
    ap (λ t. finish (lex t (outside done words none)))
      (append_assoc (shell_quote v) (32 ∷ []) (join (32 ∷ []) (map shell_quote (u ∷ us))))
    ∙ ap finish (lex-shell_quote v (32 ∷ join (32 ∷ []) (map shell_quote (u ∷ us))) done words)
    ∙ (lex-quoted_words u us (words ++ v ∷ []) done
        ∙ ap (λ x. some (done ++ x ∷ [])) (append_assoc words (v ∷ []) (u ∷ us)))

-- Texts quoted for the shell and joined by spaces are read by the tokenizer of `uci export` as one
-- line of those texts, whatever characters they hold, where there is at least one.
pub lines-shell_quote :
    (v : Text) (vs : List Text)
    → lines (join (32 ∷ []) (map shell_quote (v ∷ vs))) ≡ some ((v ∷ vs) ∷ [])
unfolding lines
lines-shell_quote v vs = lex-quoted_words v vs [] []
