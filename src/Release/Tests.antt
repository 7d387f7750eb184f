-- ===== src/Release/Tests.antt =====
-- The order of releases of src/release.ts at concrete texts.
use openwrt_configurator.Prelude.{codes, none, some, true, false, ◌≡◌, refl}
use openwrt_configurator.Condition.{before, same, after}
use openwrt_configurator.Release.{
  compare_releases, supported_release, series_of, is_series, is_stable_release, unchecked_series,
}
use openwrt_configurator.Release.Order.{
  reversed_if, is_at_most_if, compare_releases-reversed, compare_releases_trans,
}

candidate_before : compare_releases (codes "25.12.0-rc2") (codes "25.12") ≡ some before
unfolding compare_releases
candidate_before = refl

snapshot_after : compare_releases (codes "25.12-SNAPSHOT") (codes "25.12.9") ≡ some after
unfolding compare_releases
snapshot_after = refl

padded_same : compare_releases (codes "25.12") (codes " 25.12.0 ") ≡ some same
unfolding compare_releases
padded_same = refl

not_release : compare_releases (codes "25.12-beta") (codes "25.12.0") ≡ none
unfolding compare_releases
not_release = refl

old_refused : supported_release (codes "24.10.1") ≡ false
unfolding supported_release
old_refused = refl

new_supported : supported_release (codes "25.12.0") ≡ true
unfolding supported_release
new_supported = refl

series_text : series_of (codes "25.12.5-rc1") ≡ some (codes "25.12")
unfolding series_of
series_text = refl

series_only : (is_series (codes "25.12") ≡ true) × (is_stable_release (codes "25.12") ≡ false)
unfolding is_series is_stable_release
series_only = (refl, refl)

newer_unchecked : unchecked_series (codes "26.6.1") ≡ true
unfolding unchecked_series
newer_unchecked = refl

compare_releases-reversed_example :
    compare_releases (codes "25.12") (codes "25.12.0-rc2")
    ≡ reversed_if (compare_releases (codes "25.12.0-rc2") (codes "25.12"))
compare_releases-reversed_example = compare_releases-reversed (codes "25.12.0-rc2") (codes "25.12")

compare_releases_trans_example :
    is_at_most_if (compare_releases (codes "25.12.0-rc2") (codes "SNAPSHOT")) ≡ true
unfolding compare_releases
compare_releases_trans_example =
    compare_releases_trans (codes "25.12.0-rc2") (codes "25.12") (codes "SNAPSHOT") refl refl
