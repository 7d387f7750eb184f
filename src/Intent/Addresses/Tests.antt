-- ===== src/Intent/Addresses/Tests.antt =====
-- The addresses of src/intent/addresses.ts at concrete texts.
use openwrt_configurator.Prelude.{◌<◌, codes, none, some, true, false, ◌≡◌, ◌↔◌, refl, arith}
use openwrt_configurator.Intent.Addresses.{
  Range, parse_ipv4, is_ipv6_address, is_address_or_range, is_port_range, dotted, netmask,
  parse_cidr, overlaps, host_in, is_private_range,
}
use openwrt_configurator.Intent.Addresses.Dotted.{parse_ipv4-dotted, parse_ipv4-fits}
use openwrt_configurator.Intent.Addresses.Ranges.{
  Shared, overlaps-Shared, Private, is_private_range-Private,
}

leading_zero : parse_ipv4 (codes "192.168.01.1") ≡ none
unfolding parse_ipv4
leading_zero = refl

too_large : parse_ipv4 (codes "10.0.0.256") ≡ none
unfolding parse_ipv4
too_large = refl

short_ipv6 : is_ipv6_address (codes "fe80::1") ≡ true
unfolding is_ipv6_address
short_ipv6 = refl

two_gaps : is_ipv6_address (codes "1::2::3") ≡ false
unfolding is_ipv6_address
two_gaps = refl

long_prefix : is_address_or_range (codes "10.0.0.0/33") ≡ false
unfolding is_address_or_range
long_prefix = refl

backward_range : is_port_range (codes "8100-8000") ≡ false
unfolding is_port_range
backward_range = refl

netmask_24 : netmask 24 ≡ codes "255.255.255.0"
unfolding netmask
netmask_24 = refl

host_text : host_in (codes "10.0.99.0/24") 1 ≡ codes "10.0.99.1"
unfolding host_in
host_text = refl

unaligned : parse_cidr (codes "10.0.0.1/24") ≡ none
unfolding parse_cidr
unaligned = refl

parse_ipv4-dotted_example : parse_ipv4 (dotted 3232235777) ≡ some 3232235777
parse_ipv4-dotted_example = parse_ipv4-dotted 3232235777 (omega arith)

parse_ipv4-fits_example : 4294967295 < 4294967296
unfolding parse_ipv4
parse_ipv4-fits_example = parse_ipv4-fits (codes "255.255.255.255") 4294967295 refl

overlaps-Shared_example :
    (overlaps (codes "10.0.0.0/8") (codes "10.64.0.0/24") ≡ true)
    ↔ Shared (parse_cidr (codes "10.0.0.0/8")) (parse_cidr (codes "10.64.0.0/24"))
overlaps-Shared_example = overlaps-Shared (codes "10.0.0.0/8") (codes "10.64.0.0/24")

abbrev site : Range
site = record { first = 171966464; size = 256 }

is_private_range-Private_example : Private 171966466
unfolding is_private_range parse_cidr
is_private_range-Private_example =
    is_private_range-Private (codes "10.64.0.0/24") site 171966466 refl refl
      (omega arith, omega arith)
