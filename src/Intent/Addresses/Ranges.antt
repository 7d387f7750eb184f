-- ===== src/Intent/Addresses/Ranges.antt =====
-- The ranges of src/intent/addresses.ts as sets of addresses.
use mathlib.Core.Path.{subst}
use openwrt_configurator.Prelude.{
  Text, ℕ, ◌+◌, ◌-◌, ◌%◌, ◌^◌, ◌≤◌, ◌<◌, codes, Option, none, some, List, [], ◌∷◌, Bool, true,
  false, ◌||◌, leb, ltb, ◌==◌, split, ◌≡◌, ◌↔◌, ◌⊎◌, refl, sym, ap, inl, inr, Bool-cases,
  Option-cases, arith,
}
use openwrt_configurator.Intent.Addresses.{
  Range, aligned, octet, prefix_bits, cidr_of, parse_cidr, parse_ipv4, meet, overlaps, within,
  is_private_range,
}
use openwrt_configurator.Intent.Addresses.Dotted.{all_below, all_below_lem}

-- An address of a range.
abbrev pub Holds : Range → ℕ → Type 0
Holds r n = (r.first ≤ n) × (n < r.first + r.size)

abbrev sized : ℕ → Bool
sized k = ltb 0 (2 ^ (32 - k))

all_sized : all_below 33 sized ≡ true
unfolding all_below
all_sized = refl

prefix_bits_lem : (t : Text) (n : ℕ) → prefix_bits t ≡ some n → n ≤ 32
prefix_bits_lem t n e = elim (Option-cases (octet t)) [
  | inl h ↦ ground (arith, rw (h, prefix_bits) at e)
  | inr (k, h) ↦ ground (arith, rw (h, prefix_bits) at e)
]

abbrev size_or : Option Range → ℕ
size_or none = 0
size_or (some r) = r.size

aligned_lem : (start size : ℕ) (r : Range) → 0 < size → aligned start size ≡ some r → 0 < r.size
aligned_lem start size r h e = elim (Bool-cases (start % size == 0)) [
  | inl k ↦ ground (arith, h, ap size_or (rw (k, aligned) at e))
  | inr k ↦ ground (arith, rw (k, aligned) at e)
]

cidr_of_lem : (ts : List Text) (r : Range) → cidr_of ts ≡ some r → 0 < r.size
cidr_of_lem (address ∷ bits ∷ rest) r e = elim (Option-cases (parse_ipv4 address)) [
  | inl h ↦ ground (arith, rw (h, cidr_of) at e)
  | inr (start, h) ↦ elim (Option-cases (prefix_bits bits)) [
    | inl k ↦ ground (arith, rw k at (rw (h, cidr_of) at e))
    | inr (n, k) ↦
        aligned_lem start (2 ^ (32 - n)) r
          (ground
            (arith, all_below_lem 33 sized all_sized n (ground (arith, prefix_bits_lem bits n k))))
          (rw k at (rw (h, cidr_of) at e))
  ]
]
cidr_of_lem [] r e = ground (arith, e)
cidr_of_lem (address ∷ []) r e = ground (arith, e)

-- A range that is read has an address.
pub parse_cidr-size : (cidr : Text) (r : Range) → parse_cidr cidr ≡ some r → 0 < r.size
unfolding parse_cidr
parse_cidr-size cidr r e = cidr_of_lem (split 47 cidr) r e

meet_shared :
    (x y : Range)
    → 0 < x.size
    → 0 < y.size
    → (meet (some x) (some y) ≡ true) ↔ ((n : ℕ) × Holds x n × Holds y n)
meet_shared x y p q = (
  λ h. elim (Bool-cases (leb x.first y.first)) [
    | inl e ↦ (y.first, (ground (arith, e), ground (arith, h)), (omega arith, omega (arith, q)))
    | inr e ↦ (x.first, (omega arith, omega (arith, p)), (ground (arith, e), ground (arith, h)))
  ],
  λ (n, a, b). ground (arith, a, b),
)

-- Two ranges that read, and an address of both.
abbrev pub Shared : Option Range → Option Range → Type 0
Shared u v =
    (x : Range) × (y : Range) × (u ≡ some x) × (v ≡ some y) × ((n : ℕ) × Holds x n × Holds y n)

meet_if :
    (u v : Option Range)
    → ((x : Range) → u ≡ some x → 0 < x.size)
    → ((y : Range) → v ≡ some y → 0 < y.size)
    → (meet u v ≡ true) ↔ Shared u v
meet_if (some x) (some y) p q = (
  λ h. (x, y, refl, refl, (meet_shared x y (p x refl) (q y refl)).0 h),
  λ (z, w, e, k, s).
      subst (λ u. meet u (some y) ≡ true) (sym e)
        (subst (λ v. meet (some z) v ≡ true) (sym k) ((meet_shared z w (p z e) (q w k)).1 s)),
)
meet_if none v p q = (λ h. ground (arith, h), λ (z, w, e, k, s). ground (arith, e))
meet_if (some x) none p q = (λ h. ground (arith, h), λ (z, w, e, k, s). ground (arith, k))

-- Two ranges overlap just where both read and some address is in both.
pub overlaps-Shared : (a b : Text) → (overlaps a b ≡ true) ↔ Shared (parse_cidr a) (parse_cidr b)
unfolding overlaps
overlaps-Shared a b = meet_if (parse_cidr a) (parse_cidr b) (parse_cidr-size a) (parse_cidr-size b)

-- The addresses of 10.0.0.0/8, 172.16.0.0/12, 192.168.0.0/16 and 100.64.0.0/10, as numbers.
abbrev pub Private : ℕ → Type 0
Private n =
    ((167772160 ≤ n) × (n < 184549376))
    ⊎ (((2886729728 ≤ n) × (n < 2887778304))
        ⊎ (((3232235520 ≤ n) × (n < 3232301056)) ⊎ ((1681915904 ≤ n) × (n < 1686110208))))

private_lem :
    (r : Range) (n : ℕ)
    → Holds r n
    → (within (some r) (parse_cidr (codes "10.0.0.0/8"))
        || (within (some r) (parse_cidr (codes "172.16.0.0/12"))
            || (within (some r) (parse_cidr (codes "192.168.0.0/16"))
                || (within (some r) (parse_cidr (codes "100.64.0.0/10")) || false))))
      ≡ true
    → Private n
unfolding parse_cidr
private_lem r n h e = ground (arith, h, e)

-- Every address of a range that is private lies in one of the four private ranges.
pub is_private_range-Private :
    (cidr : Text) (r : Range) (n : ℕ)
    → is_private_range cidr ≡ true
    → parse_cidr cidr ≡ some r
    → Holds r n
    → Private n
unfolding is_private_range
is_private_range-Private cidr r n p e h = private_lem r n h (rw e at p)
