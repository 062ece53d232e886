-- ===== src/Chart.antt =====
-- webui/assets/app.js, the chart of the monitor: `niceRttMax`, and of `rttTrendChart` the samples that
-- it takes, the places of its points and its segments. Numbers are exact: times and round trips are
-- integers, in hundredths of a unit, the scale is in ten-thousandths, and a place is a fraction.
pub mod Scale
pub mod Samples
pub mod Points
pub mod Segments
mod Tests
use netcheck.Common.{
  ℕ, zero, suc, ◌+◌, ◌-◌, ◌*◌, ◌/◌, ◌==◌, leb, ◌&&◌, Bool, true, false, Option, none, some, List,
  [], ◌∷◌, ◌++◌, ℤ, pos, pos_part, neg_part, sub_ℕ, leb_ℤ, max_ℤ, map, filter, length, drop, Text,
  codes, if◌then◌else◌,
}
use netcheck.App.Boot.{optional_member}
use netcheck.Json.{Json, null, bool, num, other_num, str, Members, get_member}

-- The power of ten that `Math.pow(10, Math.floor(Math.log10(target)))` is, by growing it.
unfoldable pub grow_power : ℕ → ℕ → ℕ → ℕ
grow_power zero p target = p
grow_power (suc fuel) p target = elim (leb (p * 10) target) [
  | true ↦ grow_power fuel (p * 10) target
  | false ↦ p
]

unfoldable pub power_below : ℕ → ℕ
unfolding grow_power
power_below target = grow_power target 1 target

abbrev max : ℕ → ℕ → ℕ
max m n = if leb m n then n else m

-- `Math.max(10, value) * 1.08`
unfoldable pub target_of : ℕ → ℕ
target_of value = max 1000 value * 108

-- The loop over the multipliers, then `Math.ceil(target)`.
unfoldable pub first_candidate : List ℕ → ℕ → ℕ → ℕ
first_candidate [] power target = ((target + 9999) / 10000) * 10000
first_candidate (multiplier ∷ multipliers) power target =
    let further = first_candidate multipliers power target in
    if leb target (multiplier * power) then multiplier * power else further

-- `niceRttMax`, of hundredths, in ten-thousandths.
unfoldable pub nice_rtt_max : ℕ → ℕ
unfolding first_candidate power_below target_of
nice_rtt_max value =
    let target = target_of value in
    first_candidate (1 ∷ 2 ∷ 5 ∷ 10 ∷ []) (power_below target) target

-- The plot, in the units of the picture, and a place: a fraction.
abbrev pub plot_left : ℕ
plot_left = 50

abbrev pub plot_right : ℕ
plot_right = 620

abbrev pub plot_top : ℕ
plot_top = 12

abbrev pub plot_bottom : ℕ
plot_bottom = 150

pub record Fraction : Type 0 where
  pub over : ℤ
  pub under : ℕ

pub record Point : Type 0 where
  pub x : Fraction
  pub y : Fraction

-- How much later the second of two times is, the later one.
abbrev pub span : ℤ → ℤ → ℕ
span a b = (pos_part b + neg_part a) - (pos_part a + neg_part b)

-- `x`, between the first and the last time.
unfoldable pub x_at : ℤ → ℤ → ℤ → Fraction
x_at min_time max_time ts =
    if (leb_ℤ min_time max_time && leb_ℤ max_time min_time)
    then record { over = pos (plot_left + plot_right); under = 2 }
    else record {
      over =
          sub_ℕ
            (plot_left * span min_time max_time
              + (pos_part ts + neg_part min_time) * (plot_right - plot_left))
            ((neg_part ts + pos_part min_time) * (plot_right - plot_left));
      under = span min_time max_time;
    }

-- `y`, under the top of the scale, which is in ten-thousandths.
unfoldable pub y_at : ℕ → ℤ → Fraction
y_at top rtt = record {
  over =
      sub_ℕ (plot_bottom * top + neg_part rtt * 100 * (plot_bottom - plot_top))
        (pos_part rtt * 100 * (plot_bottom - plot_top));
  under = top;
}

-- The axes of a chart: the first and the last time and the top.
pub record Axes : Type 0 where
  pub from : ℤ
  pub to : ℤ
  pub top : ℕ

flush : List Point → List (List Point) → List (List Point)
flush [] segments = segments
flush (p ∷ ps) segments = (p ∷ ps) ∷ segments

-- `read` is what `Number` makes of a text, an array or a number that is no natural number, in
-- hundredths, with `none` where that is not finite.
module _ (read : Json → Option ℤ) where
  -- `Number(value)`
  unfoldable pub number : Option Json → Option ℤ
  number none = none
  number (some null) = some (pos 0)
  number (some (bool b)) = some (pos (if b then 100 else 0))
  number (some (num n)) = some (pos (n * 100))
  number (some v) = read v

  unfoldable pub time_of : Json → Option ℤ
  unfolding number
  time_of s = number (optional_member (some s) (codes "ts"))

  unfoldable pub rtt_of : Json → Option ℤ
  unfolding number
  rtt_of s = number (optional_member (some s) (codes "gw_rtt_ms"))

  unfoldable pub has_time : Json → Bool
  unfolding time_of
  has_time s = elim (time_of s) [ none ↦ false | some n ↦ true ]

  unfoldable pub has_rtt : Json → Bool
  unfolding rtt_of
  has_rtt s = elim (rtt_of s) [ none ↦ false | some n ↦ true ]

  unfoldable pub time : Json → ℤ
  unfolding time_of
  time s = elim (time_of s) [ none ↦ pos 0 | some n ↦ n ]

  unfoldable pub rtt : Json → ℤ
  unfolding rtt_of
  rtt s = elim (rtt_of s) [ none ↦ pos 0 | some n ↦ n ]

  -- `.sort((a, b) => Number(a.ts) - Number(b.ts))`, which is stable.
  unfoldable pub insert : Json → List Json → List Json
  unfolding time
  insert s [] = s ∷ []
  insert s (s' ∷ ss) =
      let further = s' ∷ insert s ss in if leb_ℤ (time s) (time s') then s ∷ s' ∷ ss else further

  unfoldable pub sort : List Json → List Json
  unfolding insert
  sort [] = []
  sort (s ∷ ss) = insert s (sort ss)

  -- `samples.filter(…).sort(…).slice(-120)`
  unfoldable pub chart_samples : List Json → List Json
  unfolding sort has_time
  chart_samples samples =
      let sorted = sort (filter has_time samples) in drop (length sorted - 120) sorted

  unfoldable pub first_time : List Json → ℤ
  first_time [] = pos 0
  first_time (s ∷ ss) = time s

  unfoldable pub last_time : ℤ → List Json → ℤ
  last_time before [] = before
  last_time before (s ∷ ss) = last_time (time s) ss

  -- `Math.max(...values)`; without a value nothing is drawn.
  unfoldable pub max_rtt : List Json → ℤ
  unfolding rtt
  max_rtt [] = pos 0
  max_rtt (s ∷ []) = rtt s
  max_rtt (s ∷ s' ∷ ss) = max_ℤ (rtt s) (max_rtt (s' ∷ ss))

  unfoldable pub axes_of : List Json → Axes
  unfolding first_time last_time max_rtt nice_rtt_max has_rtt
  axes_of samples = record {
    from = first_time samples;
    to = last_time (first_time samples) samples;
    top = nice_rtt_max (pos_part (max_rtt (filter has_rtt samples)));  -- a negative value is below 10
  }

  unfoldable pub point_at : Axes → Json → Point
  unfolding x_at y_at time rtt
  point_at axes s = record { x = x_at axes.from axes.to (time s); y = y_at axes.top (rtt s) }

  -- The loop that collects `segments`, with its `current`.
  unfoldable pub segments_from : Axes → List Point → List Json → List (List Point)
  unfolding flush point_at has_rtt
  segments_from axes current [] = flush current []
  segments_from axes current (s ∷ ss) =
      let longer = segments_from axes (current ++ (point_at axes s ∷ [])) ss in
      let anew = flush current (segments_from axes [] ss) in if has_rtt s then longer else anew

  -- What `rttTrendChart` draws: its points, and the lines through them.
  unfoldable pub chart_points : List Json → List Point
  unfolding chart_samples axes_of point_at has_rtt
  chart_points samples =
      let taken = chart_samples samples in map (point_at (axes_of taken)) (filter has_rtt taken)

  unfoldable pub chart_segments : List Json → List (List Point)
  unfolding chart_samples axes_of segments_from
  chart_segments samples =
      let taken = chart_samples samples in segments_from (axes_of taken) [] taken
