-- ===== src/Chart/Tests.antt =====
-- The chart at concrete samples.
use netcheck.Common.{
  ℕ, ℤ, pos, negsuc, map, some, text_eq, if◌then◌else◌, ◌*◌, ◌≤◌, Bool, Option, none, List, [], ◌∷◌,
  ◌++◌, ◌≡◌, ◌⊎◌, refl, codes, All, count, filter, length,
}
use netcheck.Json.{Json, null, num, other_num, obj, member, end, get_member}
use netcheck.App.Boot.{optional_member}
use netcheck.Chart.{
  number, time_of, has_time, time, insert, sort, chart_samples, axes_of, has_rtt, rtt, point_at,
  y_at, chart_points, chart_segments, nice_rtt_max, power_below, grow_power, first_candidate,
  target_of,
}
use netcheck.Chart.Samples.{IsSorted, chart_samples-newest}
use netcheck.Chart.Points.{IsPlaced, chart_points-IsPlaced}
use netcheck.Chart.Segments.{concat, HasPoints, chart_segments-points}

abbrev read : Json → Option ℤ
read (other_num text) = if text_eq text (codes "-5") then some (negsuc 499) else none
read v = none

abbrev sample_at : ℕ → Json → Json
sample_at ts rtt_ms = obj (member (codes "ts") (num ts) (member (codes "gw_rtt_ms") rtt_ms end))

abbrev no_gateway : ℕ → Json
no_gateway ts = obj (member (codes "ts") (num ts) end)

-- Out of order, with a sample without a gateway and one whose gateway did not answer.
abbrev some_samples : List Json
some_samples =
    sample_at 300 (num 12)
    ∷ sample_at 100 (num 4)
    ∷ no_gateway 200
    ∷ sample_at 400 null
    ∷ obj end
    ∷ []

taken :
    chart_samples read some_samples
    ≡ sample_at 100 (num 4) ∷ no_gateway 200 ∷ sample_at 300 (num 12) ∷ sample_at 400 null ∷ []
unfolding chart_samples has_time time_of time number insert sort get_member optional_member
taken = refl

-- 12 ms and 8 percent is 12.96 ms, below 20 ms.
top_of_scale : nice_rtt_max 1200 ≡ 200000
unfolding nice_rtt_max target_of first_candidate power_below grow_power
top_of_scale = refl

chart_samples-newest_example :
    (older : List Json) × IsSorted read (older ++ chart_samples read some_samples)
    × ((p : Json → Bool)
        → count p (older ++ chart_samples read some_samples)
          ≡ count p (filter (has_time read) some_samples))
    × (length (chart_samples read some_samples) ≤ 120)
    × ((older ≡ []) ⊎ (length (chart_samples read some_samples) ≡ 120))
chart_samples-newest_example = chart_samples-newest read some_samples

-- One round trip of -5 ms.
abbrev negative_sample : List Json
negative_sample = sample_at 100 (num 4) ∷ sample_at 200 (other_num (codes "-5")) ∷ []

chart_points-IsPlaced_example :
    let taken = chart_samples read negative_sample in
    let drawn = filter (has_rtt read) taken in
    let axes = axes_of read taken in
    (chart_points read negative_sample ≡ map (point_at read axes) drawn)
    × All (λ s. IsPlaced (rtt read s) (point_at read axes s)) drawn
chart_points-IsPlaced_example = chart_points-IsPlaced read negative_sample

-- A round trip of -5 ms under a top of 20 ms: 184.5.
below_the_axis : y_at 200000 (negsuc 499) ≡ record { over = pos (1845 * 20000); under = 10 * 20000 }
unfolding y_at
below_the_axis = refl

chart_segments-points_example :
    (concat (chart_segments read some_samples) ≡ chart_points read some_samples)
    × All HasPoints (chart_segments read some_samples)
chart_segments-points_example = chart_segments-points read some_samples
