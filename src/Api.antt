-- ===== src/Api.antt =====
-- webui/assets/api.js: one request, from the answer of `fetch` to the object that callers get.
pub mod Envelope
pub mod Cookies
mod Tests
use netcheck.Common.{
  ℕ, Bool, true, false, not, ◌&&◌, Option, none, some, List, [], ◌∷◌, ◌++◌, String, Text, codes,
  text_eq, trim, drop, before, split, take, starts_with, length, is_space, decimal, if◌then◌else◌,
}
use netcheck.Json.{
  Json, null, bool, num, str, arr, obj, Members, end, member, get_member, is_false, or_value,
}

-- What the network gives. `parsed` is what `JSON.parse` makes of the body's text, `none` where it
-- throws.
pub record Response : Type 0 where
  pub status : ℕ
  pub content_type : Option Text
  pub body : Text
  pub parsed : Option Json

pub data Fetched : Type 0 where
  failed : Text → Fetched  -- fetch rejects; the error's message
  answered : Response → Fetched

-- `.replace(/\s+/g, " ")`: the flag says that the last character was white space.
unfoldable pub squeeze : Bool → Text → Text
squeeze inside [] = []
squeeze inside (c ∷ s) =
    let after = squeeze true s in
    let plain = c ∷ squeeze false s in
    if is_space c then (if inside then after else b' ' ∷ after) else plain

or_unknown : Option Text → Text
or_unknown none = codes "unknown"
or_unknown (some []) = codes "unknown"
or_unknown (some (c ∷ cs)) = c ∷ cs

unfoldable pub proxy_error : ℕ → Option Text → Text → Text
unfolding squeeze or_unknown
proxy_error status content_type body =
    let snippet = take 160 (squeeze false body) in
    let detail =
      if text_eq snippet [] then codes "empty response body" else codes "body=" ++ snippet in
    codes "TOS proxy error: HTTP "
    ++ (decimal status
        ++ (codes ", content-type=" ++ (or_unknown content_type ++ (codes ", " ++ detail))))

-- `{code, message, data: null}`
unfoldable pub envelope : ℕ → Text → Members
envelope code message =
    member (codes "code") (num code)
      (member (codes "message") (str message) (member (codes "data") null end))

unfoldable pub proxy_failure : Response → Members
unfolding envelope
proxy_failure r = envelope 5000 (proxy_error r.status r.content_type r.body)

-- `json.msg || json.message || "TOS session required"`
session_message : Members → Json
session_message ms =
    or_value (get_member (codes "msg") ms)
      (or_value (get_member (codes "message") ms) (str (codes "TOS session required")))

-- `{...json, code: 5001, message: …}`
pub refusal : Members → Members
unfolding session_message
refusal ms = member (codes "code") (num 5001) (member (codes "message") (session_message ms) ms)

-- A JSON object, by its code: the platform's `code: false` becomes 5001.
unfoldable pub by_code : Response → Members → Option Json → Members
by_code r ms none = proxy_failure r
by_code r ms (some code) = if is_false (some code) then refusal ms else ms

-- `!json || typeof json !== "object" || Array.isArray(json) || !("code" in json)`, and what follows.
unfoldable pub from_json : Response → Json → Members
unfolding by_code
from_json r (obj ms) = by_code r ms (get_member (codes "code") ms)
from_json r null = proxy_failure r
from_json r _ = proxy_failure r

-- `json = text ? JSON.parse(text) : null`, inside its `try`.
unfoldable pub reply : Fetched → Members
unfolding from_json
reply (failed message) = envelope 5000 (codes "network error: " ++ message)
reply (answered r) =
    if text_eq r.body []
    then proxy_failure r
    else elim r.parsed [ none ↦ proxy_failure r | some json ↦ from_json r json ]

-- The headers of a request.
unfoldable pub headers : Text → Text → List (String × Text)
headers csrf token =
    let bearer =
      if text_eq token [] then [] else ("Authorization", codes "Bearer " ++ token) ∷ [] in
    let named = if text_eq csrf [] then bearer else ("X-Csrf-Token", csrf) ∷ bearer in
    ("Content-Type", codes "application/json") ∷ named

-- `readCookie`. `decode` is `decodeURIComponent`, `none` where it throws.
-- `try { return decodeURIComponent(value); } catch (_) { return value; }`
abbrev pub decoded_or : Option Text → Text → Text
decoded_or none value = value
decoded_or (some v) value = v

first_cookie : (Text → Option Text) → Text → List Text → Text
first_cookie decode prefix [] = []
first_cookie decode prefix (raw ∷ cookies) =
    let item = trim raw in
    let later = first_cookie decode prefix cookies in
    let value = drop (length prefix) item in
    if starts_with item prefix then decoded_or (decode value) value else later

unfoldable pub read_cookie : (Text → Option Text) → Text → Text → Text
unfolding first_cookie
read_cookie decode document_cookie name =
    let cookies = if text_eq document_cookie [] then [] else split (codes ";") document_cookie in
    first_cookie decode (name ++ codes "=") cookies
