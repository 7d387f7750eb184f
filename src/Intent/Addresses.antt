-- ===== src/Intent/Addresses.antt =====
-- src/intent/addresses.ts: IPv4 and IPv6 addresses, ranges and ports as text. A range is read as its
-- first address and its size. `rangeOf`, which reads its prefix length by `Number`, is left out.
pub mod Dotted
pub mod Ranges
pub mod Tests
use openwrt_configurator.Prelude.{
  Text, ℕ, zero, suc, ◌+◌, ◌-◌, ◌*◌, ◌/◌, ◌%◌, ◌^◌, codes, Option, none, some, List, [], ◌∷◌, ◌++◌,
  map, Bool, true, false, not, ◌&&◌, ◌||◌, ltb, leb, ◌==◌, length, is_some, is_empty, any, all,
  find, flat_map, join, split, to_last, or_else, if◌then◌else◌,
}
use openwrt_configurator.Agent.Encode.{decimal, decimal_from}
use openwrt_configurator.Release.{is_digit, lower, number_from, number}

-- `(0|[1-9]\d{0,2})`, with its number.
unfoldable pub octet : Text → Option ℕ
unfolding all number_from
octet [] = none
octet (c ∷ t) =
    if is_digit c && all is_digit t && (not (c == 48) || is_empty t) && leb (length t) 2
    then some (number (c ∷ t))
    else none

abbrev pub byte : Option ℕ → Option ℕ
byte none = none
byte (some n) = if leb n 255 then some n else none

-- `octets.reduce((n, o) => n * 256 + o, 0)`, all of them at most 255.
unfoldable pub bytes_from : ℕ → List Text → Option ℕ
unfolding octet
bytes_from n [] = some n
bytes_from n (t ∷ ts) = elim (byte (octet t)) [ none ↦ none | some o ↦ bytes_from (n * 256 + o) ts ]

unfoldable pub parse_ipv4 : Text → Option ℕ
unfolding split bytes_from
parse_ipv4 address =
    if length (split 46 address) == 4 then bytes_from 0 (split 46 address) else none

-- `text.split("::")`.
unfoldable pub split_double : Text → List Text
split_double [] = [] ∷ []
split_double (c ∷ []) = (c ∷ []) ∷ []
split_double (c ∷ d ∷ t) =
    let rest = split_double t in
    let one_on = split_double (d ∷ t) in if c == 58 && d == 58 then [] ∷ rest else to_last c one_on

abbrev pub is_hex : ℕ → Bool
is_hex c = is_digit c || (leb 97 (lower c) && leb (lower c) 102)

-- `^[0-9a-f]{1,4}$` in any case.
unfoldable pub is_group : Text → Bool
unfolding all
is_group t = not (is_empty t) && leb (length t) 4 && all is_hex t

unfoldable pub groups_of : Text → List Text
unfolding split
groups_of half = if is_empty half then [] else split 58 half

unfoldable pub is_ipv6_address : Text → Bool
unfolding split_double groups_of flat_map all is_group
is_ipv6_address address =
    let halves = split_double address in
    let groups = flat_map groups_of halves in
    leb (length halves) 2
    && all is_group groups
    && (if length halves == 2 then leb (length groups) 7 else length groups == 8)

-- `address.includes(":")`.
unfoldable pub is_ipv6 : Text → Bool
unfolding any
is_ipv6 address = any (λ c. c == 58) address

unfoldable pub is_ip_address : Text → Bool
unfolding parse_ipv4 is_ipv6_address
is_ip_address address = is_some (parse_ipv4 address) || is_ipv6_address address

abbrev pub has_prefix : ℕ → Text → Bool
has_prefix bits t = elim (octet t) [ none ↦ false | some n ↦ leb n bits ]

abbrev pub prefix_allowed : ℕ → List Text → Bool
prefix_allowed bits [] = true
prefix_allowed bits (t ∷ []) = has_prefix bits t
prefix_allowed bits (t ∷ u ∷ ts) = false

abbrev pub is_range_of : List Text → Bool
is_range_of [] = false
is_range_of (address ∷ rest) =
    if is_some (parse_ipv4 address)
    then prefix_allowed 32 rest
    else (is_ipv6_address address && prefix_allowed 128 rest)

unfoldable pub is_address_or_range : Text → Bool
unfolding split parse_ipv4 is_ipv6_address octet
is_address_or_range value = is_range_of (split 47 value)

unfoldable pub is_port : Text → Bool
unfolding all number_from
is_port port =
    not (is_empty port)
    && leb (length port) 5
    && all is_digit port
    && leb 1 (number port)
    && leb (number port) 65535

abbrev pub are_ports : List Text → Bool
are_ports (from ∷ []) = is_port from
are_ports (from ∷ to ∷ []) = is_port from && is_port to && leb (number from) (number to)
are_ports _ = false

unfoldable pub is_port_range : Text → Bool
unfolding split is_port
is_port_range value = are_ports (split 45 value)

-- `[24, 16, 8, 0].map((shift) => Math.floor(n / 2 ** shift) % 256).join(".")`.
unfoldable pub dotted : ℕ → Text
unfolding decimal_from join
dotted n = join (46 ∷ []) (
    decimal (n / 16777216 % 256)
    ∷ decimal (n / 65536 % 256)
    ∷ decimal (n / 256 % 256)
    ∷ decimal (n % 256)
    ∷ [])

-- A prefix length of at most 32 as a netmask.
unfoldable pub netmask : ℕ → Text
unfolding dotted
netmask length = dotted (4294967296 - 2 ^ (32 - length))

-- A range: its first address and its size.
pub record Range : Type 0 where
  pub first : ℕ
  pub size : ℕ

abbrev pub aligned : ℕ → ℕ → Option Range
aligned start size =
    if start % size == 0 then some (record { first = start; size = size }) else none

-- `^[1-9]\d?$`, from 8 to 32.
abbrev pub prefix_bits : Text → Option ℕ
prefix_bits t = elim (octet t) [
  | none ↦ none
  | some n ↦ if leb (length t) 2 && leb 8 n && leb n 32 then some n else none
]

abbrev pub cidr_of : List Text → Option Range
cidr_of (address ∷ bits ∷ rest) = elim (parse_ipv4 address) [
  | none ↦ none
  | some start ↦ elim (prefix_bits bits) [ none ↦ none | some n ↦ aligned start (2 ^ (32 - n)) ]
]
cidr_of _ = none

unfoldable pub parse_cidr : Text → Option Range
unfolding split parse_ipv4 octet
parse_cidr cidr = cidr_of (split 47 cidr)

abbrev pub meet : Option Range → Option Range → Bool
meet (some x) (some y) = ltb x.first (y.first + y.size) && ltb y.first (x.first + x.size)
meet _ _ = false

unfoldable pub overlaps : Text → Text → Bool
unfolding parse_cidr
overlaps a b = meet (parse_cidr a) (parse_cidr b)

-- The first three parts of a network's /24.
unfoldable pub prefix_of : Text → Text
unfolding split join
prefix_of subnet = join (46 ∷ []) (first_three (split 46 subnet))
  where
    first_three : List Text → List Text
    first_three (a ∷ b ∷ c ∷ rest) = a ∷ b ∷ c ∷ []
    first_three ts = ts

unfoldable pub host_in : Text → ℕ → Text
unfolding prefix_of decimal_from
host_in subnet host = prefix_of subnet ++ 46 ∷ decimal host

-- The first network whose subnet holds an IPv4 address.
unfoldable pub network_holding : {N : Type 0} → (N → Text) → List N → Text → Option N
unfolding parse_ipv4 overlaps find
network_holding subnet networks address =
    if is_some (parse_ipv4 address)
    then find (λ n. overlaps (subnet n) (address ++ codes "/32")) networks
    else none

unfoldable pub private_ranges : List Text
private_ranges =
    codes "10.0.0.0/8" ∷ codes "172.16.0.0/12" ∷ codes "192.168.0.0/16" ∷ codes "100.64.0.0/10" ∷ []

abbrev pub within : Option Range → Option Range → Bool
within (some r) (some q) = leb q.first r.first && leb (r.first + r.size) (q.first + q.size)
within _ _ = false

-- Whether a range lies wholly in a private one.
unfoldable pub is_private_range : Text → Bool
unfolding parse_cidr any private_ranges
is_private_range cidr = any (λ p. within (parse_cidr cidr) (parse_cidr p)) private_ranges
