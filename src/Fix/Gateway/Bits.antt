-- ===== src/Fix/Gateway/Bits.antt =====
-- The bitwise operators on the shapes that addresses have.
use netcheck.Common.{ℕ, zero, suc, ◌+◌, ◌-◌, ◌*◌, ◌/◌, ◌%◌, ◌^◌, ◌≤◌, ◌<◌, ◌≡◌, refl, arith}
use netcheck.Fix.Gateway.{and_bits, or_bits}

or_bits-zero : (w x : ℕ) → x < 2 ^ w → or_bits w x 0 ≡ x
unfolding or_bits
or_bits-zero zero x h = omega arith
or_bits-zero (suc w) x h = grind (arith, or_bits-zero w (x / 2))

or_bits-even : (w u y : ℕ) → or_bits (suc w) (2 * u) y ≡ 2 * or_bits w u (y / 2) + y % 2
unfolding or_bits
or_bits-even w u y =
    let half : 2 * u / 2 ≡ u = omega arith in
    let even : 2 * u % 2 ≡ 0 = omega arith in rw (half, even) (ground arith)

mul_double : (x p : ℕ) → x * (2 * p) ≡ 2 * (x * p)
mul_double x p = grind arith

pub mul_power : (x k : ℕ) → x * 2 ^ suc k ≡ 2 * (x * 2 ^ k)
mul_power x k = let twice : 2 ^ suc k ≡ 2 * 2 ^ k = omega arith in rw (twice, mul_double x (2 ^ k))

-- Where the digits do not overlap, `|` is the sum.
pub or_bits-shifted :
    (w k x y : ℕ) → k ≤ w → y < 2 ^ k → x * 2 ^ k < 2 ^ w → or_bits w (x * 2 ^ k) y ≡ x * 2 ^ k + y
or_bits-shifted w zero x y le h i = grind (arith, or_bits-zero w x)
or_bits-shifted zero (suc k) x y le h i = absurd (omega arith)
or_bits-shifted (suc w) (suc k) x y le h i =
    let small : x * 2 ^ k < 2 ^ w = omega (arith, mul_power x k) in
    rw
      (
        mul_power x k,
        or_bits-even w (x * 2 ^ k) y,
        or_bits-shifted w k x (y / 2) (omega arith) (omega arith) small,
      )
      (omega arith)

and_bits-odd : (w x m : ℕ) → and_bits (suc w) x (2 * m + 1) ≡ 2 * and_bits w (x / 2) m + x % 2
unfolding and_bits
and_bits-odd w x m =
    let half : (2 * m + 1) / 2 ≡ m = omega arith in
    let odd : (2 * m + 1) % 2 ≡ 1 = omega arith in rw (half, odd) (ground arith)

and_bits-even : (w x m : ℕ) → and_bits (suc w) x (2 * m) ≡ 2 * and_bits w (x / 2) m
unfolding and_bits
and_bits-even w x m =
    let half : 2 * m / 2 ≡ m = omega arith in
    let even : 2 * m % 2 ≡ 0 = omega arith in rw (half, even) (ground arith)

pub power-IsPositive : (w : ℕ) → 1 ≤ 2 ^ w
power-IsPositive zero = omega arith
power-IsPositive (suc w) = omega (arith, power-IsPositive w)

and_bits-ones : (w x : ℕ) → x < 2 ^ w → and_bits w x (2 ^ w - 1) ≡ x
unfolding and_bits
and_bits-ones zero x h = omega arith
and_bits-ones (suc w) x h =
    let ones : 2 ^ suc w - 1 ≡ 2 * (2 ^ w - 1) + 1 = omega (arith, power-IsPositive w) in
    rw (ones) (omega (arith, and_bits-odd w x (2 ^ w - 1), and_bits-ones w (x / 2) (omega arith)))

-- A number n is the multiple of 2 ^ h that is next below x.
abbrev pub IsFloor : ℕ → ℕ → ℕ → Type 0
IsFloor h x n = ((k : ℕ) × (n ≡ k * 2 ^ h)) × (n ≤ x) × (x < n + 2 ^ h)

double-IsFloor : (h x n : ℕ) → IsFloor h (x / 2) n → IsFloor (suc h) x (2 * n)
double-IsFloor h x n ((k, same), low, high) =
    ((k, omega (arith, mul_power k h)), omega arith, omega arith)

-- The mask of a subnet clears the digits of the host.
pub and_bits-IsFloor : (w h x : ℕ) → h ≤ w → x < 2 ^ w → IsFloor h x (and_bits w x (2 ^ w - 2 ^ h))
and_bits-IsFloor w zero x le i =
    let same = and_bits-ones w x i in ((x, omega arith), omega arith, omega arith)
and_bits-IsFloor zero (suc h) x le i = absurd (omega arith)
and_bits-IsFloor (suc w) (suc h) x le i =
    let mask : 2 ^ suc w - 2 ^ suc h ≡ 2 * (2 ^ w - 2 ^ h) = omega arith in
    rw (mask, and_bits-even w x (2 ^ w - 2 ^ h))
      (double-IsFloor h x (and_bits w (x / 2) (2 ^ w - 2 ^ h))
        (and_bits-IsFloor w h (x / 2) (omega arith) (omega arith)))

and_bits-zero : (w x : ℕ) → and_bits w x 0 ≡ 0
unfolding and_bits
and_bits-zero zero x = refl
and_bits-zero (suc w) x = ground (arith, and_bits-zero w (x / 2))

-- The lowest byte.
pub and_bits-byte : (x : ℕ) → and_bits 32 x 255 ≡ x % 256
and_bits-byte x = omega (
  arith,
  and_bits-odd 31 x 127,
  and_bits-odd 30 (x / 2) 63,
  and_bits-odd 29 (x / 2 / 2) 31,
  and_bits-odd 28 (x / 2 / 2 / 2) 15,
  and_bits-odd 27 (x / 2 / 2 / 2 / 2) 7,
  and_bits-odd 26 (x / 2 / 2 / 2 / 2 / 2) 3,
  and_bits-odd 25 (x / 2 / 2 / 2 / 2 / 2 / 2) 1,
  and_bits-odd 24 (x / 2 / 2 / 2 / 2 / 2 / 2 / 2) 0,
  and_bits-zero 24 (x / 2 / 2 / 2 / 2 / 2 / 2 / 2 / 2),
)

pub power_mono : (h w : ℕ) → h ≤ w → 2 ^ h ≤ 2 ^ w
power_mono zero w le = power-IsPositive w
power_mono (suc h) zero le = absurd (omega arith)
power_mono (suc h) (suc w) le = omega (arith, power_mono h w (omega arith))
