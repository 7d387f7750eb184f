-- ===== src/Agent/Decode/Fields.antt =====
-- The records of src/agent/records.ts with several fields: `restart`, `write` and `batch`.
use mathlib.Core.Option.{some-injective}
use mathlib.Core.List.{append_assoc}
use openwrt_configurator.Prelude.{
  Text, ℕ, codes, text_eq, Option, none, some, List, [], ◌∷◌, ◌++◌, append-nil, true, ltb, ◌≡◌,
  refl, sym, ap, ◌∙◌, inl, inr, lacks, split, split-both, split-append, split_one, split_cons,
  join-split, join, drop, all, arith,
}
use openwrt_configurator.Agent.{AgentRecord}
use openwrt_configurator.Agent as Records
use openwrt_configurator.Agent.Encode.{encode_one, line_count, decimal, one_field}
use openwrt_configurator.Agent.Decode.{
  decode_one, decode_kind, with_body, with_command, write_of, take_lines, count_of, after_words,
  word_at,
}
use openwrt_configurator.Agent.Decode.Numbers.{count_of-decimal, lacks-decimal}
use openwrt_configurator.Agent.Decode.Bodies.{line_count-split, take_lines-split, field_lem}
use openwrt_configurator.Agent.Decode.Each.{Reads, line-Reads, body-Reads, lacks-word}

abbrev restart_kind : Text
restart_kind = codes "restart"

lacks_restart : lacks 10 restart_kind ≡ true
unfolding lacks all
lacks_restart = refl

pub restart-Reads :
    (v t : Text) → encode_one (Records.restart v none) ≡ some t → Reads (Records.restart v none) t
unfolding encode_one one_field decode_one decode_kind text_eq split word_at
restart-Reads v t e = elim (field_lem v) [
  | inl h ↦ ground (arith, rw h at e)
  | inr (h, n, k) ↦
      line-Reads (Records.restart v none) t (restart_kind ++ 32 ∷ v)
        (sym (some-injective _ _ (rw h at e))) (lacks-word restart_kind v lacks_restart n) refl
        (λ rest. rw (split_one 32 v k) refl)
]

pub restart_config-Reads :
    (v c t : Text)
    → encode_one (Records.restart v (some c)) ≡ some t
    → Reads (Records.restart v (some c)) t
unfolding encode_one decode_one decode_kind text_eq split word_at after_words drop join
restart_config-Reads v c t e = elim (field_lem v) [
  | inl h ↦ ground (arith, rw h at e)
  | inr (h, n, k) ↦ elim (field_lem c) [
    | inl h2 ↦ ground (arith, rw h2 at (rw h at e))
    | inr (h2, n2, k2) ↦
        line-Reads (Records.restart v (some c)) t (restart_kind ++ 32 ∷ (v ++ 32 ∷ c))
          (sym (some-injective _ _ (rw h2 at (rw h at e))))
          (lacks-word restart_kind (v ++ 32 ∷ c) lacks_restart (lacks-word v c n n2)) refl
          (λ rest. rw (split-append 32 v c k) (rw (split_one 32 c k2) refl))
  ]
]

four_words :
    (a b c d : Text) → a ++ 32 ∷ b ++ 32 ∷ c ++ 32 ∷ d ≡ a ++ 32 ∷ (b ++ 32 ∷ (c ++ 32 ∷ d))
four_words a b c d =
    append_assoc (a ++ 32 ∷ b) (32 ∷ c) (32 ∷ d) ∙ append_assoc a (32 ∷ b) (32 ∷ (c ++ 32 ∷ d))

abbrev write_words : ℕ → ℕ → Text → Text → Text
write_words n k m p = decimal n ++ 32 ∷ (decimal k ++ 32 ∷ (m ++ 32 ∷ p))

split-write_words :
    (n k : ℕ) (m p : Text)
    → lacks 32 m ≡ true
    → split 32 (write_words n k m p) ≡ decimal n ∷ decimal k ∷ m ∷ split 32 p
split-write_words n k m p l =
    split-append 32 (decimal n) (decimal k ++ 32 ∷ (m ++ 32 ∷ p)) (lacks-decimal 32 n refl)
    ∙ ap (λ ws. decimal n ∷ ws)
        (split-append 32 (decimal k) (m ++ 32 ∷ p) (lacks-decimal 32 k refl))
    ∙ ap (λ ws. decimal n ∷ decimal k ∷ ws) (split-append 32 m p l)

lacks-write_words :
    (n k : ℕ) (m p : Text)
    → lacks 10 m ≡ true
    → lacks 10 p ≡ true
    → lacks 10 (write_words n k m p) ≡ true
lacks-write_words n k m p l j =
    lacks-word (decimal n) (decimal k ++ 32 ∷ (m ++ 32 ∷ p)) (lacks-decimal 10 n refl)
      (lacks-word (decimal k) (m ++ 32 ∷ p) (lacks-decimal 10 k refl) (lacks-word m p l j))

-- The lines of a write, its command with its content, read back.
wrote :
    (p m b : Text) (n k : ℕ) (words lines rest : List Text) (a : Option Text)
    → n ≡ line_count (b ++ 10 ∷ [])
    → words ≡ decimal n ∷ decimal k ∷ m ∷ split 32 p
    → lines ≡ split 10 b ++ rest
    → (last : List Text)
    → with_command (Records.write p m (b ++ 10 ∷ [])) (some k) rest
      ≡ some (Records.write p m (b ++ 10 ∷ []) a, last)
    → write_of words (take_lines (count_of (word_at 0 words)) lines)
      ≡ some (Records.write p m (b ++ 10 ∷ []) a, last)
unfolding word_at after_words drop
wrote p m b n k words lines rest a e w l last c = rw w (
    rw l (
      rw e (
        ap
          (λ o.
            write_of (decimal (line_count (b ++ 10 ∷ [])) ∷ decimal k ∷ m ∷ split 32 p)
              (take_lines o (split 10 b ++ rest)))
          (count_of-decimal (line_count (b ++ 10 ∷ [])))
        ∙ ap (write_of (decimal (line_count (b ++ 10 ∷ [])) ∷ decimal k ∷ m ∷ split 32 p))
            (take_lines-split b rest)
        ∙ ap
            (λ o.
              with_command (Records.write (join (32 ∷ []) (split 32 p)) m (b ++ 10 ∷ [])) o rest)
            (count_of-decimal k)
        ∙ ap (λ q. with_command (Records.write q m (b ++ 10 ∷ [])) (some k) rest) (join-split 32 p)
        ∙ c)))

abbrev write_kind : Text
write_kind = codes "write"

-- What a write is sent as, with its content and the command after it as they are counted.
abbrev pub write_text : Text → Text → Text → Text → Text
write_text m p content after =
    codes "write "
    ++ decimal (line_count content)
    ++ 32 ∷ decimal (line_count after)
    ++ 32 ∷ m
    ++ 32 ∷ p
    ++ 10 ∷ content
    ++ after

write_text_lem :
    (m p content after rest : Text)
    → content ++ after ≡ rest
    → write_text m p content after
      ≡ (write_kind ++ 32 ∷ write_words (line_count content) (line_count after) m p) ++ 10 ∷ rest
write_text_lem m p content after rest e =
    let n = decimal (line_count content) in
    let k = decimal (line_count after) in
    ap (λ u. codes "write " ++ u)
      (append_assoc (n ++ 32 ∷ k ++ 32 ∷ m ++ 32 ∷ p) (10 ∷ content) after
        ∙ ap (λ u. (n ++ 32 ∷ k ++ 32 ∷ m ++ 32 ∷ p) ++ 10 ∷ u) e
        ∙ ap (λ w. w ++ 10 ∷ rest) (four_words n k m p))

some_lines : (c : Text) → ltb 0 (line_count (c ++ 10 ∷ [])) ≡ true
some_lines c = let (l, ls, e) = split_cons 10 c in rw (line_count-split c) (rw e (ground arith))

commanded :
    (make : Option Text → AgentRecord) (c : Text) (rest : List Text)
    → with_command make (some (line_count (c ++ 10 ∷ []))) (split 10 c ++ rest)
      ≡ some (make (some c), rest)
commanded make c rest =
    rw (some_lines c) (ap (with_body (λ body. make (some body))) (take_lines-split c rest))

lacks_write : lacks 10 write_kind ≡ true
unfolding lacks all
lacks_write = refl

module _ (p m t : Text) (one_line : lacks 10 p ≡ true) (mode_line : lacks 10 m ≡ true)
    (one_word : lacks 32 m ≡ true) where
  pub write-Reads :
      (b : Text)
      → write_text m p (b ++ 10 ∷ []) [] ≡ t
      → Reads (Records.write p m (b ++ 10 ∷ []) none) t
  unfolding decode_one decode_kind text_eq split line_count
  write-Reads b e =
      body-Reads _ t (write_kind ++ 32 ∷ write_words (line_count (b ++ 10 ∷ [])) 0 m p) b
        (sym e ∙ write_text_lem m p (b ++ 10 ∷ []) [] (b ++ 10 ∷ []) (append-nil (b ++ 10 ∷ [])))
        (lacks-word write_kind (write_words (line_count (b ++ 10 ∷ [])) 0 m p) lacks_write
          (lacks-write_words (line_count (b ++ 10 ∷ [])) 0 m p mode_line one_line))
        refl
        (λ rest.
          wrote p m b (line_count (b ++ 10 ∷ [])) 0 _ _ rest none refl
            (split-write_words (line_count (b ++ 10 ∷ [])) 0 m p one_word) refl rest refl)

  pub write_command-Reads :
      (b c : Text)
      → write_text m p (b ++ 10 ∷ []) (c ++ 10 ∷ []) ≡ t
      → Reads (Records.write p m (b ++ 10 ∷ []) (some c)) t
  unfolding decode_one decode_kind text_eq split
  write_command-Reads b c e =
      let n = line_count (b ++ 10 ∷ []) in
      let k = line_count (c ++ 10 ∷ []) in
      body-Reads _ t (write_kind ++ 32 ∷ write_words n k m p) (b ++ 10 ∷ c)
        (sym e
          ∙ write_text_lem m p (b ++ 10 ∷ []) (c ++ 10 ∷ []) ((b ++ 10 ∷ c) ++ 10 ∷ [])
              (append_assoc b (10 ∷ []) (c ++ 10 ∷ []) ∙ sym (append_assoc b (10 ∷ c) (10 ∷ []))))
        (lacks-word write_kind (write_words n k m p) lacks_write
          (lacks-write_words n k m p mode_line one_line))
        refl
        (λ rest.
          wrote p m b n k _ _ (split 10 c ++ rest) (some c) refl
            (split-write_words n k m p one_word)
            (ap (λ u. u ++ rest) (split-both 10 b c) ∙ append_assoc (split 10 b) (split 10 c) rest)
            rest (commanded (Records.write p m (b ++ 10 ∷ [])) c rest))
