-- ===== src/Agent/Decode/RoundTrip.antt =====
-- `decodeRecords` after `encodeRecords` of src/agent/records.ts.
use mathlib.Core.Path.{subst}
use mathlib.Core.Option.{some-injective}
use mathlib.Core.List.{append_assoc}
use openwrt_configurator.Prelude.{
  Text, ℕ, zero, suc, ◌<◌, ◌≤◌, codes, text_eq, some, List, [], ◌∷◌, ◌++◌, map, ◌≡◌, refl, sym, ap,
  ◌∙◌, inl, inr, length, length-append, split, arith, Option-cases,
}
use openwrt_configurator.Agent.{AgentRecord}
use openwrt_configurator.Agent.Encode.{encode_one, encode_all, encode_records}
use openwrt_configurator.Agent.Decode.{decode_lines, last_but_one, decode_records}
use openwrt_configurator.Agent.Decode.Each.{Reads}
use openwrt_configurator.Agent.Decode.Every.{read_back, every-Reads}

abbrev end_line : Text
end_line = codes "end"

-- Records written as lines, from which they are read back up to the line `end`.
abbrev AllRead : List AgentRecord → Text → Type 0
AllRead rs ts =
    (ls : List Text) × ((u : Text) → split 10 (ts ++ u) ≡ ls ++ split 10 u)
    × (length rs ≤ length ls)
    × ((fuel : ℕ) (rest : List Text)
        → length rs < fuel
        → decode_lines fuel (ls ++ end_line ∷ rest) ≡ some (map read_back rs))

at_end : (fuel : ℕ) (rest : List Text) → 0 < fuel → decode_lines fuel (end_line ∷ rest) ≡ some []
unfolding decode_lines text_eq
at_end zero rest l = ground (arith, l)
at_end (suc fuel) rest l = refl

nil-AllRead : AllRead [] []
nil-AllRead = ([], λ u. refl, omega arith, λ fuel rest l. at_end fuel rest l)

cons-AllRead :
    (r : AgentRecord) (rs : List AgentRecord) (t ts : Text)
    → Reads (read_back r) t
    → AllRead rs ts
    → AllRead (r ∷ rs) (t ++ ts)
unfolding decode_lines
cons-AllRead r rs t ts (h, b, s, n, d) (ls, k, m, f) = (
  h ∷ (b ++ ls),
  λ u. rw (append_assoc t ts u) (
      s (ts ++ u)
      ∙ ap (λ vs. h ∷ (b ++ vs)) (k u)
      ∙ ap (λ vs. h ∷ vs) (sym (append_assoc b ls (split 10 u)))),
  omega (arith, m, length-append b ls),
  λ fuel rest l. reads fuel rest l,
)
  where
    reads :
        (fuel : ℕ) (rest : List Text)
        → suc (length rs) < fuel
        → decode_lines fuel ((h ∷ (b ++ ls)) ++ end_line ∷ rest)
          ≡ some (read_back r ∷ map read_back rs)
    reads zero rest l = ground (arith, l)
    reads (suc fuel) rest l = rw n (
        rw (append_assoc b ls (end_line ∷ rest))
          (rw (d (ls ++ end_line ∷ rest)) (rw (f fuel rest (omega (arith, l))) refl)))

encode_all-AllRead : (rs : List AgentRecord) (ts : Text) → encode_all rs ≡ some ts → AllRead rs ts
unfolding encode_all
encode_all-AllRead [] ts e = subst (AllRead []) (some-injective [] ts e) nil-AllRead
encode_all-AllRead (r ∷ rs) ts e = elim (Option-cases (encode_one r)) [
  | inl h ↦ ground (arith, rw h at e)
  | inr (t, h) ↦ elim (Option-cases (encode_all rs)) [
    | inl k ↦ ground (arith, rw k at (rw h at e))
    | inr (us, k) ↦
        subst (AllRead (r ∷ rs)) (some-injective (t ++ us) ts (rw k at (rw h at e)))
          (cons-AllRead r rs t us (every-Reads r t h) (encode_all-AllRead rs us k))
  ]
]

last_but_one_lem : (ls : List Text) (a b : Text) → last_but_one (ls ++ a ∷ b ∷ []) ≡ some a
unfolding last_but_one
last_but_one_lem [] a b = refl
last_but_one_lem (l ∷ []) a b = refl
last_but_one_lem (l ∷ m ∷ []) a b = refl
last_but_one_lem (l ∷ m ∷ n ∷ ls) a b = last_but_one_lem (m ∷ n ∷ ls) a b

ended_lines : split 10 (codes "end\n") ≡ end_line ∷ [] ∷ []
unfolding split
ended_lines = refl

all_lines :
    (rs : List AgentRecord) (ts : Text)
    → AllRead rs ts
    → decode_records (ts ++ codes "end\n") ≡ some (map read_back rs)
unfolding decode_records text_eq
all_lines rs ts (ls, s, m, f) = rw (s (codes "end\n") ∙ ap (λ vs. ls ++ vs) ended_lines) (
    rw (last_but_one_lem ls end_line []) (
      f (length (ls ++ end_line ∷ [] ∷ [])) ([] ∷ [])
        (omega (arith, m, length-append ls (end_line ∷ [] ∷ [])))))

-- The records that a verb's stdin is written from are read back from it, a file's content with its
-- last line ended, and a batch of no operation as one empty operation.
pub decode_records-encode_records :
    (rs : List AgentRecord) (text : Text)
    → encode_records rs ≡ some text
    → decode_records text ≡ some (map read_back rs)
unfolding encode_records
decode_records-encode_records rs text e = elim (Option-cases (encode_all rs)) [
  | inl h ↦ ground (arith, rw h at e)
  | inr (ts, h) ↦
      subst (λ t. decode_records t ≡ some (map read_back rs))
        (some-injective (ts ++ codes "end\n") text (rw h at e))
        (all_lines rs ts (encode_all-AllRead rs ts h))
]
