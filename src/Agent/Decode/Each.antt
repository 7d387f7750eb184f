-- ===== src/Agent/Decode/Each.antt =====
-- A record of src/agent/records.ts is read back from what it is written as.
use mathlib.Core.List.{append_assoc}
use mathlib.Core.Option.{some-injective}
use openwrt_configurator.Prelude.{
  Text, ℕ, codes, text_eq, Option, none, some, List, [], ◌∷◌, ◌++◌, true, false, ◌≡◌, refl, sym, ap,
  ◌∙◌, ◌⊎◌, inl, inr, lacks, split, split-both, split-append, split_one, join-split, drop, all,
  arith,
}
use openwrt_configurator.Agent.{AgentRecord}
use openwrt_configurator.Agent.Encode.{one_field, counted, line_count, decimal}
use openwrt_configurator.Agent.Decode.{
  decode_one, decode_kind, with_body, take_lines, count_of, after_words, word_at,
}
use openwrt_configurator.Agent.Decode.Numbers.{count_of-decimal, lacks-decimal}
use openwrt_configurator.Agent.Decode.Bodies.{take_lines-split}

-- A text written as lines, the first of them not `end`, from which the record is read whatever the
-- lines after it.
abbrev pub Reads : AgentRecord → Text → Type 0
Reads r t =
    (h : Text) × (b : List Text) × ((u : Text) → split 10 (t ++ u) ≡ h ∷ (b ++ split 10 u))
    × (text_eq h (codes "end") ≡ false)
    × ((rest : List Text) → decode_one h (b ++ rest) ≡ some (r, rest))

pub line-Reads :
    (r : AgentRecord) (t h : Text)
    → t ≡ h ++ 10 ∷ []
    → lacks 10 h ≡ true
    → text_eq h (codes "end") ≡ false
    → ((rest : List Text) → decode_one h rest ≡ some (r, rest))
    → Reads r t
line-Reads r t h e n k d =
    (h, [], λ u. rw e (rw (append_assoc h (10 ∷ []) u) (split-append 10 h u n)), k, d)

pub body-Reads :
    (r : AgentRecord) (t h b : Text)
    → t ≡ h ++ 10 ∷ (b ++ 10 ∷ [])
    → lacks 10 h ≡ true
    → text_eq h (codes "end") ≡ false
    → ((rest : List Text) → decode_one h (split 10 b ++ rest) ≡ some (r, rest))
    → Reads r t
body-Reads r t h b e n k d = (
  h,
  split 10 b,
  λ u. rw e (
      rw (append_assoc h (10 ∷ (b ++ 10 ∷ [])) u) (
        rw (append_assoc b (10 ∷ []) u)
          (split-append 10 h (b ++ 10 ∷ u) n ∙ ap (λ ls. h ∷ ls) (split-both 10 b u)))),
  k,
  d,
)

lacks-append :
    (sep : ℕ) (a b : Text) → lacks sep a ≡ true → lacks sep b ≡ true → lacks sep (a ++ b) ≡ true
unfolding lacks all
lacks-append sep [] b h k = k
lacks-append sep (c ∷ a) b h k = ground (arith, h, lacks-append sep a b (ground (arith, h)) k)

pub lacks-word :
    (a b : Text) → lacks 10 a ≡ true → lacks 10 b ≡ true → lacks 10 (a ++ 32 ∷ b) ≡ true
unfolding lacks all
lacks-word a b h k = lacks-append 10 a (32 ∷ b) h k

-- A body is taken as it was counted.
pub took :
    (make : Text → AgentRecord) (b : Text) (rest : List Text)
    → with_body make
        (take_lines (count_of (decimal (line_count (b ++ 10 ∷ [])))) (split 10 b ++ rest))
      ≡ some (make b, rest)
took make b rest =
    ap (λ n. with_body make (take_lines n (split 10 b ++ rest)))
      (count_of-decimal (line_count (b ++ 10 ∷ [])))
    ∙ ap (with_body make) (take_lines-split b rest)

-- What the kind of a record must be for its line to be read.
module _ (kind : Text) (one_line : lacks 10 kind ≡ true) (one_word : lacks 32 kind ≡ true)
    (not_end : (w : Text) → text_eq (kind ++ 32 ∷ w) (codes "end") ≡ false) where
  -- A kind and one field.
  pub name-Reads :
      (make : Text → AgentRecord)
      → ((words lines : List Text)
          → decode_kind kind words lines ≡ some (make (after_words 0 words), lines))
      → (v t : Text) (f : Option Text) → (f ≡ none) ⊎ ((f ≡ some v) × (lacks 10 v ≡ true))
      → one_field kind f ≡ some t
      → Reads (make v) t
  unfolding one_field decode_one after_words drop
  name-Reads make d v t f (inl h) e = ground (arith, rw h at e)
  name-Reads make d v t f (inr (h, n)) e =
      line-Reads (make v) t (kind ++ 32 ∷ v) (sym (some-injective _ _ (rw h at e)))
        (lacks-word kind v one_line n) (not_end v)
        (λ rest.
          rw (split-append 32 kind v one_word)
            (rw (d (split 32 v) rest) (rw (join-split 32 v) refl)))

  lacks-header :
      (n : ℕ) (v : Text) → lacks 10 v ≡ true → lacks 10 (kind ++ 32 ∷ (decimal n ++ 32 ∷ v)) ≡ true
  lacks-header n v h =
      lacks-word kind (decimal n ++ 32 ∷ v) one_line
        (lacks-word (decimal n) v (lacks-decimal 10 n refl) h)

  split-header :
      (n : ℕ) (v : Text)
      → split 32 (kind ++ 32 ∷ (decimal n ++ 32 ∷ v)) ≡ kind ∷ decimal n ∷ split 32 v
  split-header n v =
      split-append 32 kind (decimal n ++ 32 ∷ v) one_word
      ∙ ap (λ ws. kind ∷ ws) (split-append 32 (decimal n) v (lacks-decimal 32 n refl))

  written :
      (n : ℕ) (v body b : Text)
      → body ≡ b ++ 10 ∷ []
      → kind ++ 32 ∷ decimal n ++ 32 ∷ v ++ 10 ∷ body
        ≡ (kind ++ 32 ∷ (decimal n ++ 32 ∷ v)) ++ 10 ∷ (b ++ 10 ∷ [])
  written n v body b s =
      rw s (ap (λ u. u ++ 10 ∷ (b ++ 10 ∷ [])) (append_assoc kind (32 ∷ decimal n) (32 ∷ v)))

  -- A kind, a count and one field, with a body.
  pub counted-Reads :
      (make : Text → Text → AgentRecord)
      → ((words lines : List Text)
          → decode_kind kind words lines
            ≡ with_body
                (make (after_words 1 words))
                (take_lines (count_of (word_at 0 words)) lines))
      → (v t body b : Text) (f : Option Text) → body ≡ b ++ 10 ∷ []
      → (f ≡ none) ⊎ ((f ≡ some v) × (lacks 10 v ≡ true))
      → counted kind body f ≡ some t
      → Reads (make v b) t
  unfolding counted decode_one after_words drop word_at
  counted-Reads make d v t body b f s (inl h) e = ground (arith, rw h at e)
  counted-Reads make d v t body b f s (inr (h, l)) e =
      let n = line_count (b ++ 10 ∷ []) in
      body-Reads (make v b) t (kind ++ 32 ∷ (decimal n ++ 32 ∷ v)) b
        (sym (some-injective _ _ (rw h at e))
          ∙ ap (λ u. kind ++ 32 ∷ decimal (line_count u) ++ 32 ∷ v ++ 10 ∷ body) s
          ∙ written n v body b s)
        (lacks-header n v l) (not_end (decimal n ++ 32 ∷ v))
        (λ rest. rw (split-header n v) (
          d (decimal n ∷ split 32 v) (split 10 b ++ rest)
          ∙ took (make (after_words 1 (decimal n ∷ split 32 v))) b rest
          ∙ ap (λ k. some (make k b, rest)) (join-split 32 v)))

  -- A kind and a count, with a body.
  pub bare-Reads :
      (make : Text → AgentRecord)
      → ((words lines : List Text)
          → decode_kind kind words lines
            ≡ with_body make (take_lines (count_of (word_at 0 words)) lines))
      → (t b : Text)
      → some (kind ++ 32 ∷ decimal (line_count (b ++ 10 ∷ [])) ++ 10 ∷ (b ++ 10 ∷ [])) ≡ some t
      → Reads (make b) t
  unfolding decode_one word_at
  bare-Reads make d t b e =
      let n = line_count (b ++ 10 ∷ []) in
      body-Reads (make b) t (kind ++ 32 ∷ decimal n) b (sym (some-injective _ _ e))
        (lacks-word kind (decimal n) one_line (lacks-decimal 10 n refl)) (not_end (decimal n))
        (λ rest. rw (split-append 32 kind (decimal n) one_word) (
          rw (split_one 32 (decimal n) (lacks-decimal 32 n refl))
            (d (decimal n ∷ []) (split 10 b ++ rest) ∙ took make b rest)))
