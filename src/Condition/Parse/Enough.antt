-- ===== src/Condition/Parse/Enough.antt =====
-- The parser of src/condition.ts ends: six calls for a token are enough.
use openwrt_configurator.Prelude.{ℕ, ◌*◌, ◌+◌, ◌≤◌, List, length, ◌≡◌}
use openwrt_configurator.Condition.{When, Kind}
use openwrt_configurator.Condition.Tokens.{Token}
use openwrt_configurator.Condition.Parse.{
  parse_primary, parse_not, parse_chain, parse_part, parse_rest,
}
use openwrt_configurator.Condition.Parse.Shorter.{Shorter}
use openwrt_configurator.Condition.Parse.Progress.{calls_of}

-- With two fuels that are enough the calls answer alike.
record Alike (n m : ℕ) : Type 0 where
  primary :
      (ts : List Token)
      → 6 * length ts + 1 ≤ n
      → 6 * length ts + 1 ≤ m
      → parse_primary n ts ≡ parse_primary m ts
  negated :
      (ts : List Token)
      → 6 * length ts + 2 ≤ n
      → 6 * length ts + 2 ≤ m
      → parse_not n ts ≡ parse_not m ts
  chained :
      (k : Kind) (ts : List Token)
      → 6 * length ts + calls_of k + 1 ≤ n
      → 6 * length ts + calls_of k + 1 ≤ m
      → parse_chain n k ts ≡ parse_chain m k ts
  part :
      (k : Kind) (ts : List Token)
      → 6 * length ts + calls_of k ≤ n
      → 6 * length ts + calls_of k ≤ m
      → parse_part n k ts ≡ parse_part m k ts
  others :
      (k : Kind) (left : When) (ts : List Token)
      → 6 * length ts + 1 ≤ n
      → 6 * length ts + 1 ≤ m
      → parse_rest n k left ts ≡ parse_rest m k left ts
