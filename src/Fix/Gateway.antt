-- ===== src/Fix/Gateway.antt =====
-- webui/assets/app.js, `suggestedGateway`: the first host address of the primary interface's subnet.
-- The operators on 32-bit integers give the unsigned pattern, as `>>> 0` does. `Number` is modelled
-- on decimal digits with white space around them; every other text is taken for no number.
pub mod Bits
pub mod Subnet
use netcheck.Common.{
  ℕ, zero, suc, ◌+◌, ◌-◌, ◌*◌, ◌/◌, ◌%◌, ◌^◌, Bool, true, false, not, ◌&&◌, ◌||◌, Option, none,
  some, List, [], ◌∷◌, map, Text, codes, text_eq, trim, split, join, decimal, all, is_digit, ltb,
  leb, ◌==◌, if◌then◌else◌,
}

-- An entry of `ipv4`; a prefix that is no integer is `none`.
pub record Address : Type 0 where
  pub addr : Text
  pub prefix : Option ℕ

pub record Nic : Type 0 where
  pub is_primary : Bool
  pub ipv4 : List Address

first_address : List Address → Option Address
first_address [] = none
first_address (a ∷ more) = some a

-- `interfaces.find(i => i.is_primary)?.ipv4?.[0]`
unfoldable pub primary_address : List Nic → Option Address
unfolding first_address
primary_address [] = none
primary_address (nic ∷ nics) =
    let later = primary_address nics in if nic.is_primary then first_address nic.ipv4 else later

digits_value : ℕ → Text → ℕ
digits_value n [] = n
digits_value n (c ∷ s) = digits_value (n * 10 + (c - b'0')) s

-- `Number(part)`, where it is an integer; the empty text is 0.
number_of : Text → Option ℕ
unfolding digits_value
number_of part = if all is_digit (trim part) then some (digits_value 0 (trim part)) else none

pub record Quad : Type 0 where
  pub a : ℕ
  pub b : ℕ
  pub c : ℕ
  pub d : ℕ

-- The tests of `parts`: four of them, each an integer from 0 to 255.
pub quad_of : List (Option ℕ) → Option Quad
quad_of (some a ∷ some b ∷ some c ∷ some d ∷ []) =
    if (leb a 255 && leb b 255) && (leb c 255 && leb d 255)
    then some (record { a = a; b = b; c = c; d = d })
    else none
quad_of _ = none

unfoldable pub parts : Text → Option Quad
unfolding number_of quad_of
parts addr = quad_of (map number_of (split (codes ".") addr))

-- `<<`, and `&` and `|` on the lowest w digits.
abbrev pub shift_left : ℕ → ℕ → ℕ
shift_left x k = (x * 2 ^ (k % 32)) % 2 ^ 32

unfoldable pub and_bits : ℕ → ℕ → ℕ → ℕ
and_bits zero x y = 0
and_bits (suc w) x y =
    let bit = if x % 2 == 1 && y % 2 == 1 then 1 else 0 in 2 * and_bits w (x / 2) (y / 2) + bit

unfoldable pub or_bits : ℕ → ℕ → ℕ → ℕ
or_bits zero x y = 0
or_bits (suc w) x y =
    let bit = if x % 2 == 1 || y % 2 == 1 then 1 else 0 in 2 * or_bits w (x / 2) (y / 2) + bit

-- `ip`
unfoldable pub ip_of : Quad → ℕ
ip_of q =
    or_bits 32 (or_bits 32 (or_bits 32 (shift_left q.a 24) (shift_left q.b 16)) (shift_left q.c 8))
      q.d

-- `candidate`: the network's address and one.
unfoldable pub candidate : ℕ → ℕ → ℕ
candidate ip prefix = and_bits 32 ip (shift_left 0xffff_ffff (32 - prefix)) + 1

unfoldable pub octets : ℕ → Quad
octets x = record {
  a = x / 2 ^ 24;
  b = and_bits 32 (x / 2 ^ 16) 255;
  c = and_bits 32 (x / 2 ^ 8) 255;
  d = and_bits 32 x 255;
}

unfoldable pub dotted : Quad → Text
dotted q = join (codes ".") (map decimal (q.a ∷ q.b ∷ q.c ∷ q.d ∷ []))

suggest_in : ℕ → Option Quad → Text
suggest_in prefix none = []
suggest_in prefix (some q) = dotted (octets (candidate (ip_of q) prefix))

-- The tests of `addr`, and what follows.
suggest : Option Address → Text
unfolding suggest_in
suggest none = []
suggest (some address) = elim address.prefix [
  | none ↦ []
  | some p ↦
      if text_eq address.addr []
      then []
      else if ltb p 1 || ltb 31 p
      then []
      else suggest_in p (parts address.addr)
]

unfoldable pub suggested_gateway : List Nic → Text
unfolding suggest
suggested_gateway nics = suggest (primary_address nics)
