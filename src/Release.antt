-- ===== src/Release.antt =====
-- src/release.ts: OpenWrt's releases, which of them are supported, and their order. A release is text;
-- its numbers are exact. `^SNAPSHOT` is matched in any case.
pub mod Order
pub mod Tests
use openwrt_configurator.Prelude.{
  Text, ℕ, zero, suc, ◌+◌, ◌-◌, ◌*◌, codes, Option, none, some, List, [], ◌∷◌, ◌++◌, map, Bool,
  true, false, not, ◌&&◌, ◌||◌, ltb, leb, ◌==◌, length, is_some, is_empty, any, or_else, take,
  if◌then◌else◌,
}
use openwrt_configurator.Prelude.Int.{ℤ, pos, negsuc, sub_ℕ, lt_int}
use openwrt_configurator.Agent.Verbs.{after_prefix, trim_start, trim_end}
use openwrt_configurator.Condition.{Comparison, before, same, after}

abbrev pub is_digit : ℕ → Bool
is_digit c = leb 48 c && leb c 57

-- ASCII letters in lower case.
abbrev pub lower : ℕ → ℕ
lower c = if leb 65 c && leb c 90 then c + 32 else c

-- The longest run of digits, and what follows it.
unfoldable pub span_digits : Text → Text × Text
span_digits [] = ([], [])
span_digits (c ∷ t) =
    let rest = span_digits t in if is_digit c then (c ∷ rest.0, rest.1) else ([], c ∷ t)

unfoldable pub number_from : ℕ → Text → ℕ
number_from n [] = n
number_from n (c ∷ t) = number_from (10 * n + (c - 48)) t

-- `Number(digits)`.
abbrev pub number : Text → ℕ
number t = number_from 0 t

-- `\d+` at the front: the number, and what follows it.
unfoldable pub take_number : Text → Option (ℕ × Text)
unfolding span_digits number_from
take_number t = let s = span_digits t in if is_empty s.0 then none else some (number s.0, s.1)

-- `(?:\.\d+)*` on fuel: each number takes two characters at least.
unfoldable pub take_more : ℕ → Text → List ℕ × Text
unfolding take_number
take_more zero t = ([], t)
take_more (suc fuel) [] = ([], [])
take_more (suc fuel) (c ∷ t) =
    if c == 46
    then elim (take_number t) [
      | none ↦ ([], c ∷ t)
      | some (n, rest) ↦ (n ∷ (take_more fuel rest).0, (take_more fuel rest).1)
    ]
    else ([], c ∷ t)

-- `\d+(?:\.\d+)*` at the front.
unfoldable pub take_numbers : Text → Option (List ℕ × Text)
unfolding take_number take_more
take_numbers t = elim (take_number t) [
  | none ↦ none
  | some (n, rest) ↦ let more = take_more (length rest) rest in some (n ∷ more.0, more.1)
]

unfoldable pub is_snapshot : Text → Bool
unfolding after_prefix
is_snapshot version = is_some (after_prefix (codes "snapshot") (map lower version))

unfoldable pub has_snapshot : Text → Bool
unfolding is_snapshot
has_snapshot [] = false
has_snapshot (c ∷ t) = is_snapshot (c ∷ t) || has_snapshot t

-- `^rc(\d+)$` in any case.
unfoldable pub candidate : Text → Option ℕ
unfolding after_prefix take_number
candidate suffix = elim (after_prefix (codes "rc") (map lower suffix)) [
  | none ↦ none
  | some t ↦ elim (take_number t) [
    | none ↦ none
    | some (n, []) ↦ some n
    | some (n, c ∷ rest) ↦ none
  ]
]

-- What `.` does not match.
abbrev pub is_line_end : ℕ → Bool
is_line_end c = c == 10 || c == 13 || c == 8232 || c == 8233

-- `(?:-(.+))?$`: the suffix, empty where there is none.
unfoldable pub suffix_of : Text → Option Text
unfolding any
suffix_of [] = some []
suffix_of (c ∷ t) = if c == 45 && not (is_empty t) && not (any is_line_end t) then some t else none

-- A place of a release in the order.
pub data Part : Type 0 where
  finite : ℤ → Part
  infinity : Part

abbrev pub to_part : ℕ → Part
to_part n = finite (pos n)

unfoldable pub zeros : ℕ → List Part
zeros zero = []
zeros (suc n) = finite (pos 0) ∷ zeros n

-- `-1000 + rc`, and zero for the release itself.
abbrev pub candidate_part : Option ℕ → Part
candidate_part none = finite (pos 0)
candidate_part (some rc) = finite (sub_ℕ rc 1000)

unfoldable pub order_of : List ℕ → Text → Option (List Part)
unfolding has_snapshot candidate zeros
order_of numbers suffix =
    if has_snapshot suffix
    then some (map to_part numbers ++ infinity ∷ [])
    else (if not (is_empty suffix) && not (is_some (candidate suffix))
        then none
        else some (
            map to_part numbers
            ++ zeros (4 - length numbers)
            ++ candidate_part (candidate suffix) ∷ []))

unfoldable pub release_order : Text → Option (List Part)
unfolding is_snapshot take_numbers suffix_of order_of trim_start trim_end
release_order version =
    if is_snapshot version
    then some (infinity ∷ [])
    else elim (take_numbers (trim_start (trim_end version))) [
      | none ↦ none
      | some (numbers, rest) ↦ elim (suffix_of rest) [
        | none ↦ none
        | some suffix ↦ order_of numbers suffix
      ]
    ]

abbrev pub less_part : Part → Part → Bool
less_part (finite a) (finite b) = lt_int a b
less_part (finite a) infinity = true
less_part infinity q = false

abbrev pub head_part : List Part → Part
head_part [] = finite (pos 0)
head_part (p ∷ ps) = p

abbrev pub tail_parts : List Part → List Part
tail_parts [] = []
tail_parts (p ∷ ps) = ps

-- A round of the loop: `p !== q` is that one of them is less.
abbrev pub then_by : Part → Part → Comparison → Comparison
then_by p q later = if less_part p q then before else (if less_part q p then after else later)

-- The places from one on, as many as the number says; one past the end counts as zero.
unfoldable pub compare_parts : ℕ → List Part → List Part → Comparison
compare_parts zero x y = same
compare_parts (suc n) x y =
    then_by (head_part x) (head_part y) (compare_parts n (tail_parts x) (tail_parts y))

abbrev pub larger : ℕ → ℕ → ℕ
larger a b = if leb a b then b else a

unfoldable pub compare_orders : List Part → List Part → Comparison
unfolding compare_parts
compare_orders x y = compare_parts (larger (length x) (length y)) x y

abbrev pub compare_if : Option (List Part) → Option (List Part) → Option Comparison
compare_if (some x) (some y) = some (compare_orders x y)
compare_if _ _ = none

unfoldable pub compare_releases : Text → Text → Option Comparison
unfolding release_order compare_orders
compare_releases a b = compare_if (release_order a) (release_order b)

-- `^(\d+)\.(\d+)`: major, minor and what follows.
unfoldable pub major_minor : Text → Option ((ℕ × ℕ) × Text)
unfolding take_number
major_minor version = elim (take_number version) [
  | none ↦ none
  | some (major, []) ↦ none
  | some (major, c ∷ rest) ↦
      if c == 46
      then elim (take_number rest) [ none ↦ none | some (minor, end) ↦ some ((major, minor), end) ]
      else none
]

abbrev pub is_supported : Option ((ℕ × ℕ) × Text) → Bool
is_supported none = false
is_supported (some ((major, minor), rest)) = ltb 25 major || (major == 25 && leb 12 minor)

unfoldable pub supported_release : Text → Bool
unfolding is_snapshot major_minor
supported_release version = is_snapshot version || is_supported (major_minor version)

-- The series that a release belongs to: the text that `major_minor` reads.
unfoldable pub series_of : Text → Option Text
unfolding major_minor take
series_of version = elim (major_minor version) [
  | none ↦ none
  | some (numbers, rest) ↦ some (take (length version - length rest) version)
]

unfoldable pub is_series : Text → Bool
unfolding major_minor
is_series version = elim (major_minor version) [
  | none ↦ false
  | some (numbers, rest) ↦ is_empty rest
]

abbrev pub is_patch : Text → Bool
is_patch [] = false
is_patch (c ∷ t) =
    c == 46 && (elim (take_number t) [ none ↦ false | some (n, rest) ↦ is_empty rest ])

-- One stable release: not a series, a candidate or a snapshot.
unfoldable pub is_stable_release : Text → Bool
unfolding major_minor take_number
is_stable_release version = elim (major_minor version) [
  | none ↦ false
  | some (numbers, rest) ↦ is_patch rest
]

abbrev pub newest_checked_series : Text
newest_checked_series = codes "25.12"

abbrev pub is_after : Option Comparison → Bool
is_after (some after) = true
is_after _ = false

unfoldable pub unchecked_series : Text → Bool
unfolding compare_releases series_of
unchecked_series version =
    is_after (compare_releases (or_else (series_of version) version) newest_checked_series)
