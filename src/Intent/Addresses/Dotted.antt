-- ===== src/Intent/Addresses/Dotted.antt =====
-- Addresses of src/intent/addresses.ts as numbers: their bound, and reading back what is written.
use openwrt_configurator.Prelude.{
  Text, ℕ, zero, suc, ◌+◌, ◌*◌, ◌/◌, ◌%◌, ◌≤◌, ◌<◌, Option, none, some, List, [], ◌∷◌, ◌++◌,
  append_assoc, Bool, true, false, ◌&&◌, ◌==◌, ==_iff, length, all, join, split, lacks,
  split-append, split_one, ◌≡◌, refl, ap, ◌∙◌, inl, inr, Bool-cases, Option-cases, arith,
}
use openwrt_configurator.Agent.Encode.{decimal, decimal_from}
use openwrt_configurator.Release.{number_from}
use openwrt_configurator.Intent.Addresses.{octet, byte, bytes_from, parse_ipv4, dotted}

byte_lem : (o : Option ℕ) (k : ℕ) → byte o ≡ some k → (k ≤ 255)
byte_lem none k e = ground (arith, e)
byte_lem (some n) k e = ground (arith, e)

bytes_step :
    (n m : ℕ) (t : Text) (ts : List Text)
    → bytes_from n (t ∷ ts) ≡ some m
    → (o : ℕ) × (o ≤ 255) × (bytes_from (n * 256 + o) ts ≡ some m)
unfolding bytes_from
bytes_step n m t ts e = elim (Option-cases (byte (octet t))) [
  | inl k ↦ ground (arith, rw (k, bytes_from) at e)
  | inr (o, k) ↦ (o, byte_lem (octet t) o k, rw (k, bytes_from) at e)
]

-- Whether a test holds of every number below a bound.
unfoldable pub all_below : ℕ → (ℕ → Bool) → Bool
all_below zero f = true
all_below (suc n) f = f n && all_below n f

pub all_below_lem : (n : ℕ) (f : ℕ → Bool) → all_below n f ≡ true → (k : ℕ) → k < n → f k ≡ true
unfolding all_below
all_below_lem zero f h k l = ground (arith, l)
all_below_lem (suc n) f h k l = elim (Bool-cases (k == n)) [
  | inl e ↦ rw ((==_iff k n).0 e) (ground (arith, h))
  | inr e ↦ all_below_lem n f (ground (arith, h)) k (ground (arith, e, l))
]

abbrev is_number : ℕ → Option ℕ → Bool
is_number k none = false
is_number k (some n) = n == k

-- A byte written in decimal reads as itself, and has no dot.
abbrev reads : ℕ → Bool
reads k = is_number k (octet (decimal k)) && lacks 46 (decimal k)

all_read : all_below 256 reads ≡ true
unfolding all_below octet decimal_from all number_from lacks
all_read = refl

octet_is : (o : Option ℕ) (k : ℕ) → is_number k o ≡ true → o ≡ some k
octet_is none k h = ground (arith, h)
octet_is (some n) k h = ap some ((==_iff n k).0 h)

octet-decimal : (k : ℕ) → k < 256 → octet (decimal k) ≡ some k
octet-decimal k l =
    let h = all_below_lem 256 reads all_read k l in
    octet_is (octet (decimal k)) k (ground (arith, h))

decimal_no_dot : (k : ℕ) → k < 256 → lacks 46 (decimal k) ≡ true
decimal_no_dot k l = let h = all_below_lem 256 reads all_read k l in ground (arith, h)

byte_below : (k : ℕ) → k < 256 → byte (some k) ≡ some k
byte_below k l = ground (arith, l)

bytes_from-decimal :
    (n k : ℕ) (ts : List Text)
    → k < 256
    → bytes_from n (decimal k ∷ ts) ≡ bytes_from (n * 256 + k) ts
unfolding bytes_from
bytes_from-decimal n k ts l = rw (octet-decimal k l, bytes_from) (rw (byte_below k l) refl)

split_dot :
    (t rest : Text) → lacks 46 t ≡ true → split 46 (t ++ 46 ∷ [] ++ rest) ≡ t ∷ split 46 rest
split_dot t rest h = rw (append_assoc t (46 ∷ []) rest) (split-append 46 t rest h)

four_parts :
    (a b c d : ℕ)
    → a < 256
    → b < 256
    → c < 256
    → d < 256
    → split 46 (join (46 ∷ []) (decimal a ∷ decimal b ∷ decimal c ∷ decimal d ∷ []))
      ≡ decimal a ∷ decimal b ∷ decimal c ∷ decimal d ∷ []
unfolding join
four_parts a b c d la lb lc ld = rw (split_dot (decimal a) _ (decimal_no_dot a la)) (
    rw (split_dot (decimal b) _ (decimal_no_dot b lb)) (
      rw (split_dot (decimal c) _ (decimal_no_dot c lc))
        (rw (split_one 46 (decimal d) (decimal_no_dot d ld)) refl)))

parse_four :
    (a b c d : ℕ)
    → a < 256
    → b < 256
    → c < 256
    → d < 256
    → parse_ipv4 (join (46 ∷ []) (decimal a ∷ decimal b ∷ decimal c ∷ decimal d ∷ []))
      ≡ some (((a * 256 + b) * 256 + c) * 256 + d)
unfolding parse_ipv4 bytes_from
parse_four a b c d la lb lc ld =
    let e : (((0 * 256 + a) * 256 + b) * 256 + c) * 256 + d ≡ ((a * 256 + b) * 256 + c) * 256 + d =
      omega arith in
    rw (four_parts a b c d la lb lc ld) (
      bytes_from-decimal 0 a (decimal b ∷ decimal c ∷ decimal d ∷ []) la
      ∙ bytes_from-decimal (0 * 256 + a) b (decimal c ∷ decimal d ∷ []) lb
      ∙ bytes_from-decimal ((0 * 256 + a) * 256 + b) c (decimal d ∷ []) lc
      ∙ bytes_from-decimal (((0 * 256 + a) * 256 + b) * 256 + c) d [] ld
      ∙ ap some e)

-- An address written with dots reads as the number that it was written from.
pub parse_ipv4-dotted : (n : ℕ) → n < 4294967296 → parse_ipv4 (dotted n) ≡ some n
unfolding dotted
parse_ipv4-dotted n l =
    let e : ((n / 16777216 % 256 * 256 + n / 65536 % 256) * 256 + n / 256 % 256) * 256 + n % 256
        ≡ n =
      omega (arith, l) in
    parse_four (n / 16777216 % 256) (n / 65536 % 256) (n / 256 % 256) (n % 256) (omega arith)
      (omega arith) (omega arith) (omega arith)
    ∙ ap some e

four_bytes : (ts : List Text) (m : ℕ) → length ts ≡ 4 → bytes_from 0 ts ≡ some m → m < 4294967296
unfolding bytes_from
four_bytes (a ∷ b ∷ c ∷ d ∷ []) m h e =
    let (i, p, e1) = bytes_step 0 m a (b ∷ c ∷ d ∷ []) e in
    let (j, q, e2) = bytes_step _ m b (c ∷ d ∷ []) e1 in
    let (k, r, e3) = bytes_step _ m c (d ∷ []) e2 in
    let (o, s, e4) = bytes_step _ m d [] e3 in ground (arith, e4, p, q, r, s)
four_bytes _ m h e = ground (arith, h)

-- A number that an address reads as fits in 32 bits.
pub parse_ipv4-fits : (address : Text) (n : ℕ) → parse_ipv4 address ≡ some n → n < 4294967296
unfolding parse_ipv4
parse_ipv4-fits address n e = elim (Bool-cases (length (split 46 address) == 4)) [
  | inl h ↦ four_bytes (split 46 address) n ((==_iff _ 4).0 h) (rw h at e)
  | inr h ↦ ground (arith, rw h at e)
]
