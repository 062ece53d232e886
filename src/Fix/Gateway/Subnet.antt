-- ===== src/Fix/Gateway/Subnet.antt =====
-- The suggested gateway is an address of the primary interface's subnet.
use netcheck.Common.{
  ℕ, suc, ◌+◌, ◌-◌, ◌*◌, ◌/◌, ◌%◌, ◌^◌, ◌≤◌, ◌<◌, false, ◌≡◌, refl, Option, some, List, [], ◌∷◌,
  arith, text_eq, subst, Text, map, codes, split, trim,
}
use netcheck.Fix.Gateway.{
  and_bits, or_bits, Address, Nic, Quad, primary_address, quad_of, parts, shift_left, ip_of,
  candidate, octets, dotted, suggest_in, suggest, suggested_gateway, number_of,
}
use netcheck.Fix.Gateway.Bits.{
  or_bits-shifted, IsFloor, and_bits-IsFloor, and_bits-byte, power_mono, power-IsPositive,
  mul_power,
}

abbrev pub IsBytes : Quad → Type 0
IsBytes q = (q.a < 256) × (q.b < 256) × (q.c < 256) × (q.d < 256)

-- The number that four bytes stand for.
abbrev pub ip_number : Quad → ℕ
ip_number q = ((q.a * 2 ^ 8 + q.b) * 2 ^ 8 + q.c) * 2 ^ 8 + q.d

quad_of-IsBytes : (l : List (Option ℕ)) (q : Quad) → quad_of l ≡ some q → IsBytes q
unfolding quad_of
quad_of-IsBytes (some a ∷ some b ∷ some c ∷ some d ∷ []) q e = ground arith
quad_of-IsBytes _ q e = cc

ip_of-ip_number : (q : Quad) → IsBytes q → ip_of q ≡ ip_number q
unfolding ip_of
ip_of-ip_number q (ha, hb, hc, hd) =
    let first : shift_left q.a 24 ≡ q.a * 2 ^ 24 = omega arith in
    let second : shift_left q.b 16 ≡ q.b * 2 ^ 16 = omega arith in
    let third : shift_left q.c 8 ≡ q.c * 2 ^ 8 = omega arith in
    let two : or_bits 32 (q.a * 2 ^ 24) (q.b * 2 ^ 16) ≡ (q.a * 2 ^ 8 + q.b) * 2 ^ 16 =
      omega (
        arith,
        or_bits-shifted 32 24 q.a (q.b * 2 ^ 16) (omega arith) (omega arith) (omega arith),
      ) in
    let three : or_bits 32 ((q.a * 2 ^ 8 + q.b) * 2 ^ 16) (q.c * 2 ^ 8)
        ≡ ((q.a * 2 ^ 8 + q.b) * 2 ^ 8 + q.c) * 2 ^ 8 =
      omega (
        arith,
        or_bits-shifted 32 16 (q.a * 2 ^ 8 + q.b) (q.c * 2 ^ 8) (omega arith) (omega arith)
            (omega arith),
      ) in
    rw (first, second, third, two, three)
      (or_bits-shifted 32 8 ((q.a * 2 ^ 8 + q.b) * 2 ^ 8 + q.c) q.d (omega arith) (omega arith)
        (omega arith))

shift_left-mask : (h : ℕ) → h < 32 → shift_left 0xffff_ffff h ≡ 2 ^ 32 - 2 ^ h
shift_left-mask h less =
    let same : h % 32 ≡ h = omega arith in
    rw same (omega (arith, power_mono h 31 (omega arith), power-IsPositive h))

IsFloor-even : (h x n : ℕ) → IsFloor (suc h) x n → n % 2 ≡ 0
IsFloor-even h x n ((k, same), low, high) = omega (arith, mul_power k h)

-- A number is the first address behind that of its subnet.
abbrev pub IsFirstHost : ℕ → ℕ → ℕ → Type 0
IsFirstHost p ip host = (network : ℕ) × IsFloor (32 - p) ip network × (host ≡ network + 1)

candidate-IsFirstHost :
    (ip p : ℕ)
    → 1 ≤ p
    → p ≤ 31
    → ip < 2 ^ 32
    → IsFirstHost p ip (candidate ip p) × (candidate ip p < 2 ^ 32)
unfolding candidate
candidate-IsFirstHost ip p low high small =
    let n = and_bits 32 ip (2 ^ 32 - 2 ^ (32 - p)) in
    let floor : IsFloor (32 - p) ip n = and_bits-IsFloor 32 (32 - p) ip (omega arith) small in
    let host_bits : 32 - p ≡ suc (31 - p) = omega arith in
    let even = IsFloor-even (31 - p) ip n (subst (λ h. IsFloor h ip n) host_bits floor) in
    let at_most : n ≤ ip = floor.1 in
    rw (shift_left-mask (32 - p) (omega arith)) ((n, floor, refl), omega arith)

octets-ip_number : (x : ℕ) → x < 2 ^ 32 → (ip_number (octets x) ≡ x) × IsBytes (octets x)
unfolding octets
octets-ip_number x small =
    let b = and_bits-byte (x / 2 ^ 16) in
    let c = and_bits-byte (x / 2 ^ 8) in
    let d = and_bits-byte x in (omega arith, (omega arith, omega arith, omega arith, omega arith))

parts-IsBytes : (addr : Text) (q : Quad) → parts addr ≡ some q → IsBytes q
unfolding parts
parts-IsBytes addr q e = quad_of-IsBytes (map number_of (split (codes ".") addr)) q e

-- A text that is read is not empty.
parts-some : (addr : Text) (q : Quad) → parts addr ≡ some q → text_eq addr [] ≡ false
unfolding parts split number_of quad_of trim
parts-some [] q e = cc
parts-some (c ∷ addr) q e = refl

suggest-open :
    (address : Address) (p : ℕ) (q : Quad)
    → address.prefix ≡ some p
    → 1 ≤ p
    → p ≤ 31
    → parts address.addr ≡ some q
    → suggest (some address) ≡ dotted (octets (candidate (ip_of q) p))
unfolding suggest suggest_in
suggest-open address p q h low high e =
    let filled = parts-some address.addr q e in rw (h, filled, e) (ground arith)

-- Where the primary interface's first address is readable and its prefix is from 1 to 31, the
-- suggestion is printed from four bytes, and they stand for the address that comes first behind the
-- network's own: the greatest multiple of the subnet's size that is not above the interface's
-- address, and one.
pub suggested_gateway-IsFirstHost :
    (nics : List Nic) (address : Address) (p : ℕ) (q : Quad)
    → primary_address nics ≡ some address
    → address.prefix ≡ some p
    → 1 ≤ p
    → p ≤ 31
    → parts address.addr ≡ some q
    → (o : Quad) × (suggested_gateway nics ≡ dotted o)
      × IsBytes o
      × IsFirstHost p (ip_number q) (ip_number o)
unfolding suggested_gateway
suggested_gateway-IsFirstHost nics address p q primary prefix low high read =
    let bytes = parts-IsBytes address.addr q read in
    let (host, small) = candidate-IsFirstHost (ip_number q) p low high (omega arith) in
    let (same, good) = octets-ip_number (candidate (ip_number q) p) small in
    (
      octets (candidate (ip_number q) p),
      rw (primary, suggest-open address p q prefix low high read, ip_of-ip_number q bytes),
      good,
      rw same host,
    )
