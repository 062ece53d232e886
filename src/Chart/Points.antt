-- ===== src/Chart/Points.antt =====
-- The points and the segments of the chart.
use netcheck.Common.{
  All-filter, ℤ, pos, negsuc, pos_part, neg_part, sub_ℕ_lem, max_ℤ, max_ℤ-bounds, All-imp, ◌≤ℤ◌,
  leb_ℤ, ◌+◌, ◌-◌, ◌<◌, ◌&&◌, ◌⊎◌, map, All-both, ℕ, ◌*◌, ◌≤◌, Option, List, [], ◌∷◌, ◌++◌, ◌≡◌,
  refl, arith, Bool-cases, inl, inr, All, filter,
}
use netcheck.Json.{Json}
use netcheck.Chart.{
  plot_left, plot_right, plot_top, plot_bottom, Fraction, Point, span, x_at, y_at, has_rtt, time,
  rtt, chart_samples, first_time, last_time, max_rtt, Axes, axes_of, point_at, chart_points,
  nice_rtt_max,
}
use netcheck.Chart.Scale.{nice_rtt_max-bounds}
use netcheck.Chart.Samples.{IsSorted, chart_samples-newest}

-- The fraction is that of a positive number and lies between two numbers.
pub record IsBetween (low high : ℕ) (f : Fraction) : Type 0 where
  pub positive : 1 ≤ f.under
  pub above : low * f.under + neg_part f.over ≤ pos_part f.over
  pub below : pos_part f.over ≤ high * f.under + neg_part f.over

-- Across, the place is in the plot. Along, it is not above the plot; it is in the plot for a round
-- trip that is not negative, and below the axis for a negative one.
pub record IsPlaced (rtt : ℤ) (p : Point) : Type 0 where
  pub across : IsBetween plot_left plot_right p.x
  pub positive : 1 ≤ p.y.under
  pub not_above : plot_top * p.y.under + neg_part p.y.over ≤ pos_part p.y.over
  pub in_plot : pos 0 ≤ℤ rtt → pos_part p.y.over ≤ plot_bottom * p.y.under + neg_part p.y.over
  pub below_axis :
      1 ≤ neg_part rtt → plot_bottom * p.y.under + neg_part p.y.over < pos_part p.y.over

x_at-IsBetween :
    (from to ts : ℤ) → from ≤ℤ ts → ts ≤ℤ to → IsBetween plot_left plot_right (x_at from to ts)
unfolding x_at
x_at-IsBetween from to ts h k = elim (Bool-cases (leb_ℤ from to && leb_ℤ to from)) [
  | inl e ↦
      rw (e, x_at) (record { positive = omega arith; above = omega arith; below = omega arith })
  | inr e ↦
      let width = span from to in
      let over = plot_left * width + (pos_part ts + neg_part from) * (plot_right - plot_left) in
      let less = (neg_part ts + pos_part from) * (plot_right - plot_left) in
      let exact = sub_ℕ_lem over less in
      rw (e, x_at)
        (record {
          positive = ground arith;
          above = omega (arith, exact, h, k);
          below = omega (arith, exact, h, k);
        })
]

-- One of the two parts is 0.
one_part : (z : ℤ) → (pos_part z ≡ 0) ⊎ (neg_part z ≡ 0)
one_part (pos n) = inr refl
one_part (negsuc n) = inl refl

y_at-not_above :
    (top : ℕ) (rtt : ℤ)
    → pos_part rtt * 100 ≤ top
    → let y = y_at top rtt in plot_top * y.under + neg_part y.over ≤ pos_part y.over
unfolding y_at
y_at-not_above top rtt h =
    let exact =
      sub_ℕ_lem (plot_bottom * top + neg_part rtt * 100 * (plot_bottom - plot_top))
        (pos_part rtt * 100 * (plot_bottom - plot_top)) in
    omega (arith, exact, h)

y_at-in_plot :
    (top : ℕ) (rtt : ℤ)
    → pos 0 ≤ℤ rtt
    → let y = y_at top rtt in pos_part y.over ≤ plot_bottom * y.under + neg_part y.over
unfolding y_at
y_at-in_plot top rtt h =
    let exact =
      sub_ℕ_lem (plot_bottom * top + neg_part rtt * 100 * (plot_bottom - plot_top))
        (pos_part rtt * 100 * (plot_bottom - plot_top)) in
    omega (arith, exact, h)

y_at-below_axis :
    (top : ℕ) (rtt : ℤ)
    → 1 ≤ neg_part rtt
    → let y = y_at top rtt in plot_bottom * y.under + neg_part y.over < pos_part y.over
unfolding y_at
y_at-below_axis top rtt h =
    let exact =
      sub_ℕ_lem (plot_bottom * top + neg_part rtt * 100 * (plot_bottom - plot_top))
        (pos_part rtt * 100 * (plot_bottom - plot_top)) in
    elim (one_part rtt) [ inl e ↦ omega (arith, exact, h, e) | inr e ↦ omega (arith, h, e) ]

parts-bound : (a b : ℤ) → a ≤ℤ b → pos_part a ≤ pos_part b
parts-bound (pos m) (pos n) h = omega (arith, h)
parts-bound (pos m) (negsuc n) h = absurd (omega (arith, h))
parts-bound (negsuc m) b h = omega arith

module _ (read : Json → Option ℤ) where
  IsSorted-append : (ss ss' : List Json) → IsSorted read (ss ++ ss') → IsSorted read ss'
  IsSorted-append [] ss' h = h
  IsSorted-append (s ∷ ss) ss' (_, h) = IsSorted-append ss ss' h

  chart_samples-IsSorted : (samples : List Json) → IsSorted read (chart_samples read samples)
  chart_samples-IsSorted samples =
      let (older, sorted, _, _, _) = chart_samples-newest read samples in
      IsSorted-append older (chart_samples read samples) sorted

  first_time-All :
      (ss : List Json) → IsSorted read ss → All (λ s. first_time read ss ≤ℤ time read s) ss
  unfolding first_time
  first_time-All [] h = tt
  first_time-All (s ∷ ss) (least, h) = (omega arith, least)

  last_time-above :
      (before : ℤ) (ss : List Json)
      → All (λ s. before ≤ℤ time read s) ss
      → IsSorted read ss
      → before ≤ℤ last_time read before ss
  unfolding last_time
  last_time-above before [] h k = omega arith
  last_time-above before (s ∷ ss) (h, hs) (least, k) =
      omega (arith, h, last_time-above (time read s) ss least k)

  last_time-All :
      (before : ℤ) (ss : List Json)
      → IsSorted read ss
      → All (λ s. time read s ≤ℤ last_time read before ss) ss
  unfolding last_time
  last_time-All before [] h = tt
  last_time-All before (s ∷ ss) (least, h) =
      (last_time-above (time read s) ss least h, last_time-All (time read s) ss h)

  max_rtt-later :
      (m n : ℤ) (ss : List Json)
      → m ≤ℤ n
      → All (λ s. rtt read s ≤ℤ m) ss
      → All (λ s. rtt read s ≤ℤ n) ss
  max_rtt-later m n [] h k = tt
  max_rtt-later m n (s ∷ ss) h (k, ks) = (omega (arith, h, k), max_rtt-later m n ss h ks)

  max_rtt-All : (ss : List Json) → All (λ s. rtt read s ≤ℤ max_rtt read ss) ss
  unfolding max_rtt
  max_rtt-All [] = tt
  max_rtt-All (s ∷ []) = (omega arith, tt)
  max_rtt-All (s ∷ s' ∷ ss) =
      let largest = max_rtt read (s' ∷ ss) in
      let (first, later) = max_ℤ-bounds (rtt read s) largest in
      (
        first,
        max_rtt-later largest (max_ℤ (rtt read s) largest) (s' ∷ ss) later (max_rtt-All (s' ∷ ss)),
      )

  point_at-IsPlaced :
      (axes : Axes) (m : ℤ) (s : Json)
      → axes.top ≡ nice_rtt_max (pos_part m)
      → ((axes.from ≤ℤ time read s) × (time read s ≤ℤ axes.to)) × (rtt read s ≤ℤ m)
      → IsPlaced (rtt read s) (point_at read axes s)
  unfolding point_at y_at
  point_at-IsPlaced axes m s e ((h, k), l) =
      let (_, _, high, big) = nice_rtt_max-bounds (pos_part m) in
      let within : pos_part (rtt read s) ≤ pos_part m = parts-bound (rtt read s) m l in
      record {
        across = x_at-IsBetween axes.from axes.to (time read s) h k;
        positive = omega (arith, e, big);
        not_above = y_at-not_above axes.top (rtt read s) (omega (arith, e, high, within));
        in_plot = y_at-in_plot axes.top (rtt read s);
        below_axis = y_at-below_axis axes.top (rtt read s);
      }

  -- Whatever the samples are and in whatever order they came, the chart draws a point for each of its
  -- samples with a finite round trip, in their order, and every point lies between the left and the
  -- right end of the plot and not above its top. It is not below the axis if its round trip is not
  -- negative, and below the axis if it is negative.
  pub chart_points-IsPlaced :
      (samples : List Json)
      → let taken = chart_samples read samples in
        let drawn = filter (has_rtt read) taken in
        let axes = axes_of read taken in
        (chart_points read samples ≡ map (point_at read axes) drawn)
        × All (λ s. IsPlaced (rtt read s) (point_at read axes s)) drawn
  unfolding chart_points axes_of
  chart_points-IsPlaced samples =
      let taken = chart_samples read samples in
      let drawn = filter (has_rtt read) taken in
      let axes = axes_of read taken in
      let sorted = chart_samples-IsSorted samples in
      let times =
        All-both (λ s. axes.from ≤ℤ time read s) (λ s. time read s ≤ℤ axes.to) taken
          (first_time-All taken sorted) (last_time-All (first_time read taken) taken sorted) in
      let within = λ (s : Json). (axes.from ≤ℤ time read s) × (time read s ≤ℤ axes.to) in
      (
        refl,
        All-imp (λ s. within s × (rtt read s ≤ℤ max_rtt read drawn))
            (λ s. IsPlaced (rtt read s) (point_at read axes s))
            (λ s h. point_at-IsPlaced axes (max_rtt read drawn) s refl h) drawn
            (All-both within (λ s. rtt read s ≤ℤ max_rtt read drawn) drawn
              (All-filter within (has_rtt read) taken times) (max_rtt-All drawn)),
      )
