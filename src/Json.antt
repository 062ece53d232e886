-- ===== src/Json.antt =====
-- JSON values, as `JSON.parse` gives them to webui/assets/api.js and the views.
-- A number that is no natural number is kept as its text. Of members with one name the first counts:
-- a member that is set anew is put in front.
use netcheck.Common.{
  ℕ, Bool, true, false, not, Option, none, some, [], Text, text_eq, ◌==◌, if◌then◌else◌,
}

mutual
  pub data Json : Type 0 where
    null : Json
    bool : Bool → Json
    num : ℕ → Json
    other_num : Text → Json
    str : Text → Json
    arr : Items → Json
    obj : Members → Json

  pub data Items : Type 0 where
    nil : Items
    item : Json → Items → Items

  pub data Members : Type 0 where
    end : Members
    member : Text → Json → Members → Members

-- `object[name]`, where `none` stands for `undefined`.
unfoldable pub get_member : Text → Members → Option Json
get_member name end = none
get_member name (member k v ms) =
    let later = get_member name ms in if text_eq k name then some v else later

-- `object[name] = value`, or a later member of an object literal.
unfoldable pub set_member : Text → Json → Members → Members
set_member name v ms = member name v ms

-- `value === n`, `value === false`, for a value that may be `undefined`.
unfoldable pub is_num : ℕ → Option Json → Bool
is_num n (some (num m)) = m == n
is_num n (some null) = false
is_num n (some _) = false
is_num n none = false

unfoldable pub is_false : Option Json → Bool
is_false (some (bool b)) = not b
is_false (some null) = false
is_false (some _) = false
is_false none = false

-- `value === text`
unfoldable pub is_str : Text → Option Json → Bool
is_str s (some (str s')) = text_eq s' s
is_str s (some null) = false
is_str s (some _) = false
is_str s none = false

-- Whether a value counts as true. A number that is kept as its text is not zero.
unfoldable pub truthy : Option Json → Bool
truthy none = false
truthy (some null) = false
truthy (some (bool b)) = b
truthy (some (num n)) = not (n == 0)
truthy (some (str s)) = not (text_eq s [])
truthy (some _) = true

value_or : Option Json → Json → Json
value_or none d = d
value_or (some v) d = v

-- `value || d`
unfoldable pub or_value : Option Json → Json → Json
unfolding truthy value_or
or_value v d = if truthy v then value_or v d else d
