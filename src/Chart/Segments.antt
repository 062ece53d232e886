-- ===== src/Chart/Segments.antt =====
-- The lines of the chart.
use netcheck.Common.{
  ℤ, pos, Option, some, List, [], ◌∷◌, ◌++◌, ◌≡◌, refl, Bool-cases, inl, inr, All, filter, map, ap,
  ◌∙◌, codes, append_assoc,
}
use netcheck.Json.{Json, null}
use netcheck.App.Boot.{optional_member}
use netcheck.Chart.{
  Point, x_at, y_at, number, rtt_of, has_rtt, rtt, time, chart_samples, Axes, axes_of, point_at,
  flush, segments_from, chart_points, chart_segments,
}

abbrev pub concat : List (List Point) → List Point
concat [] = []
concat (ps ∷ pss) = ps ++ concat pss

abbrev pub HasPoints : List Point → Type 0
HasPoints ps = (p : Point) × (rest : List Point) × (ps ≡ p ∷ rest)

concat-flush :
    (ps : List Point) (pss : List (List Point)) → concat (flush ps pss) ≡ ps ++ concat pss
unfolding flush
concat-flush [] pss = refl
concat-flush (p ∷ ps) pss = refl

flush-HasPoints :
    (ps : List Point) (pss : List (List Point)) → All HasPoints pss → All HasPoints (flush ps pss)
unfolding flush
flush-HasPoints [] pss h = h
flush-HasPoints (p ∷ ps) pss h = ((p, ps, refl), h)

module _ (read : Json → Option ℤ) where
  segments_from-concat :
      (axes : Axes) (current : List Point) (ss : List Json)
      → concat (segments_from read axes current ss)
        ≡ current ++ map (point_at read axes) (filter (has_rtt read) ss)
  unfolding segments_from
  segments_from-concat axes current [] = concat-flush current []
  segments_from-concat axes current (s ∷ ss) = elim (Bool-cases (has_rtt read s)) [
    | inl e ↦
        rw (e, segments_from, filter)
          (segments_from-concat axes (current ++ (point_at read axes s ∷ [])) ss
            ∙ append_assoc current (point_at read axes s ∷ []) _)
    | inr e ↦
        rw (e, segments_from, filter)
          (concat-flush current (segments_from read axes [] ss)
            ∙ ap (λ ps. current ++ ps) (segments_from-concat axes [] ss))
  ]

  segments_from-HasPoints :
      (axes : Axes) (current : List Point) (ss : List Json)
      → All HasPoints (segments_from read axes current ss)
  unfolding segments_from
  segments_from-HasPoints axes current [] = flush-HasPoints current [] tt
  segments_from-HasPoints axes current (s ∷ ss) = elim (Bool-cases (has_rtt read s)) [
    | inl e ↦
        rw (e, segments_from)
          (segments_from-HasPoints axes (current ++ (point_at read axes s ∷ [])) ss)
    | inr e ↦
        rw (e, segments_from)
          (flush-HasPoints current (segments_from read axes [] ss)
            (segments_from-HasPoints axes [] ss))
  ]

  -- One after another, the lines of the chart go through its points, each once and in their order, and
  -- no line is without a point.
  pub chart_segments-points :
      (samples : List Json)
      → (concat (chart_segments read samples) ≡ chart_points read samples)
        × All HasPoints (chart_segments read samples)
  unfolding chart_segments chart_points
  chart_segments-points samples =
      let taken = chart_samples read samples in
      (
        segments_from-concat (axes_of read taken) [] taken,
        segments_from-HasPoints (axes_of read taken) [] taken,
      )

  -- A sample whose round trip is null, as when the gateway does not answer, does not end the line: it
  -- goes on through the point of a round trip of 0 ms.
  null_rtt_drawn :
      (axes : Axes) (current : List Point) (s : Json) (ss : List Json)
      → optional_member (some s) (codes "gw_rtt_ms") ≡ some null
      → segments_from read axes current (s ∷ ss)
        ≡ segments_from read axes
            (current
              ++ (record { x = x_at axes.from axes.to (time read s); y = y_at axes.top (pos 0) }
                  ∷ []))
            ss
  unfolding segments_from point_at has_rtt rtt rtt_of number
  null_rtt_drawn axes current s ss h = rw (h, segments_from, has_rtt, rtt_of, point_at, rtt) refl
