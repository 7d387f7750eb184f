-- ===== src/Agent/Decode/Every.antt =====
-- Every record of src/agent/records.ts is read back from what it is written as.
use mathlib.Core.Path.{subst}
use mathlib.Core.Option.{some-injective}
use openwrt_configurator.Prelude.{
  Text, codes, text_eq, Option, none, some, List, [], ◌∷◌, ◌++◌, true, ◌≡◌, refl, sym, ap, ◌∙◌, ◌⊎◌,
  inl, inr, lacks, all, split, join, arith,
}
use openwrt_configurator.Agent.{AgentRecord}
use openwrt_configurator.Agent as Records
use openwrt_configurator.Agent.Encode.{
  encode_one, field, last_field, as_body, value_body, after_body,
}
use openwrt_configurator.Agent.Decode.{decode_kind}
use openwrt_configurator.Agent.Decode.Bodies.{
  as_body_lem, field_lem, last_field_lem, last_fields_lem, split-join,
}
use openwrt_configurator.Agent.Decode.Each.{Reads, name-Reads, counted-Reads, bare-Reads}
use openwrt_configurator.Agent.Decode.Fields.{
  restart-Reads, restart_config-Reads, write-Reads, write_command-Reads, write_text,
}

-- What a record reads back as: a file's content ends its last line, and a batch of nothing is one
-- empty operation.
abbrev pub read_back : AgentRecord → AgentRecord
read_back (Records.seed path content) = Records.seed path (as_body content)
read_back (Records.write path mode content run_after) =
    Records.write path mode (as_body content) run_after
read_back (Records.batch []) = Records.batch ([] ∷ [])
read_back r = r

-- One word, or one line.
word_line : (v : Text) → (field v ≡ none) ⊎ ((field v ≡ some v) × (lacks 10 v ≡ true))
word_line v = elim (field_lem v) [ inl h ↦ inl h | inr h ↦ inr (h.0, h.1) ]

batch-Reads :
    (operations : List Text) (t : Text)
    → encode_one (Records.batch operations) ≡ some t
    → Reads (read_back (Records.batch operations)) t
unfolding encode_one decode_kind text_eq lacks all split join
batch-Reads [] t e =
    bare-Reads (codes "batch") refl refl (λ w. refl) (λ b. Records.batch (split 10 b))
      (λ ws ls. refl) t [] e
batch-Reads (o ∷ os) t e = elim (last_fields_lem (o ∷ os)) [
  | inl h ↦ ground (arith, rw h at e)
  | inr (h, l) ↦
      subst (λ vs. Reads (Records.batch vs) t) (split-join o os l)
        (bare-Reads (codes "batch") refl refl (λ w. refl) (λ b. Records.batch (split 10 b))
          (λ ws ls. refl) t (join (10 ∷ []) (o ∷ os)) (rw h at e))
]

write_as :
    (path mode content t : Text) (run_after : Option Text)
    → lacks 10 path ≡ true
    → (lacks 10 mode ≡ true) × (lacks 32 mode ≡ true)
    → write_text mode path (as_body content) (after_body run_after) ≡ t
    → Reads (Records.write path mode (as_body content) run_after) t
write_as path mode content t none l m e =
    let (b, s) = as_body_lem content in
    subst (λ c. Reads (Records.write path mode c none) t) (sym s)
      (write-Reads path mode t l m.0 m.1 b (ap (λ c. write_text mode path c []) (sym s) ∙ e))
write_as path mode content t (some command) l m e =
    let (b, s) = as_body_lem content in
    subst (λ c. Reads (Records.write path mode c (some command)) t) (sym s)
      (write_command-Reads path mode t l m.0 m.1 b command
        (ap (λ c. write_text mode path c (value_body command)) (sym s) ∙ e))

written-Reads :
    (path mode content t : Text) (run_after : Option Text)
    → encode_one (Records.write path mode content run_after) ≡ some t
    → Reads (Records.write path mode (as_body content) run_after) t
unfolding encode_one
written-Reads path mode content t run_after e = elim (field_lem mode) [
  | inl h ↦ ground (arith, rw h at e)
  | inr h ↦ elim (last_field_lem path) [
    | inl k ↦ ground (arith, rw k at (rw h.0 at e))
    | inr k ↦
        write_as path mode content t run_after k.1 (h.1, h.2)
          (some-injective _ _ (rw k.0 at (rw h.0 at e)))
  ]
]

seed-Reads :
    (path content t : Text)
    → encode_one (Records.seed path content) ≡ some t
    → Reads (Records.seed path (as_body content)) t
unfolding encode_one decode_kind text_eq lacks all
seed-Reads path content t e =
    let (b, s) = as_body_lem content in
    subst (λ c. Reads (Records.seed path c) t) (sym s)
      (counted-Reads (codes "seed") refl refl (λ w. refl) (λ p c. Records.seed p (c ++ 10 ∷ []))
        (λ ws ls. refl) path t (as_body content) b (last_field path) s (last_field_lem path) e)

pub every-Reads : (r : AgentRecord) (t : Text) → encode_one r ≡ some t → Reads (read_back r) t
unfolding encode_one decode_kind text_eq lacks all
every-Reads (Records.remove v) t e =
    name-Reads (codes "remove") refl refl (λ w. refl) Records.remove (λ ws ls. refl) v t (field v)
      (word_line v) e
every-Reads (Records.add v) t e =
    name-Reads (codes "add") refl refl (λ w. refl) Records.add (λ ws ls. refl) v t (field v)
      (word_line v) e
every-Reads (Records.protocol v) t e =
    name-Reads (codes "protocol") refl refl (λ w. refl) Records.protocol (λ ws ls. refl) v t
      (field v) (word_line v) e
every-Reads (Records.enable v) t e =
    name-Reads (codes "enable") refl refl (λ w. refl) Records.enable (λ ws ls. refl) v t (field v)
      (word_line v) e
every-Reads (Records.disable v) t e =
    name-Reads (codes "disable") refl refl (λ w. refl) Records.disable (λ ws ls. refl) v t (field v)
      (word_line v) e
every-Reads (Records.commit v) t e =
    name-Reads (codes "commit") refl refl (λ w. refl) Records.commit (λ ws ls. refl) v t (field v)
      (word_line v) e
every-Reads (Records.remove_file v) t e =
    name-Reads (codes "remove-file") refl refl (λ w. refl) Records.remove_file (λ ws ls. refl) v t
      (last_field v) (last_field_lem v) e
every-Reads (Records.set key value) t e =
    counted-Reads (codes "set") refl refl (λ w. refl) Records.set (λ ws ls. refl) key t
      (value_body value) value (field key) refl (word_line key) e
every-Reads (Records.add_list key value) t e =
    counted-Reads (codes "add_list") refl refl (λ w. refl) Records.add_list (λ ws ls. refl) key t
      (value_body value) value (field key) refl (word_line key) e
every-Reads (Records.run command) t e =
    bare-Reads (codes "run") refl refl (λ w. refl) Records.run (λ ws ls. refl) t command e
every-Reads (Records.seed path content) t e = seed-Reads path content t e
every-Reads (Records.write path mode content run_after) t e =
    written-Reads path mode content t run_after e
every-Reads (Records.batch operations) t e = batch-Reads operations t e
every-Reads (Records.restart v none) t e = restart-Reads v t e
every-Reads (Records.restart v (some c)) t e = restart_config-Reads v c t e
