-- ===== src/Chart/Scale.antt =====
-- The top of the chart's scale.
use netcheck.Common.{ℕ, zero, suc, ◌+◌, ◌*◌, ◌≤◌, ◌<◌, leb, arith, Bool-cases, inl, inr}
use netcheck.Chart.{grow_power, power_below, target_of, first_candidate, nice_rtt_max}

grow_power-bounds :
    (fuel p target : ℕ)
    → 1 ≤ p
    → p ≤ target
    → target < p + fuel
    → (grow_power fuel p target ≤ target) × (target < 10 * grow_power fuel p target)
unfolding grow_power
grow_power-bounds zero p target pos below enough = absurd (omega (arith, below, enough))
grow_power-bounds (suc fuel) p target pos below enough = elim (Bool-cases (leb (p * 10) target)) [
  | inl e ↦
      rw (e, grow_power)
        (grow_power-bounds fuel (p * 10) target (omega (arith, pos)) (ground arith)
          (omega (arith, pos, enough)))
  | inr e ↦ rw (e, grow_power) (below, ground arith)
]

power_below-bounds :
    (target : ℕ) → 1 ≤ target → (power_below target ≤ target) × (target < 10 * power_below target)
unfolding power_below
power_below-bounds target pos = grow_power-bounds target 1 target (omega arith) pos (omega arith)

target_of-bound : (value : ℕ) → (108 * value ≤ target_of value) × (108000 ≤ target_of value)
unfolding target_of
target_of-bound value = ground arith

-- The top of the scale is not below the values with 8 percent above them, nor below 10.8 ms, and it
-- is at most two and a half times as much.
pub nice_rtt_max-bounds :
    (value : ℕ)
    → (target_of value ≤ nice_rtt_max value)
      × (2 * nice_rtt_max value ≤ 5 * target_of value)
      × (108 * value ≤ nice_rtt_max value)
      × (108000 ≤ nice_rtt_max value)
unfolding nice_rtt_max first_candidate
nice_rtt_max-bounds value =
    let (above, big) = target_of-bound value in
    let (low, high) = power_below-bounds (target_of value) (omega (arith, big)) in ground arith
