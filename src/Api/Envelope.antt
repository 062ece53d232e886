-- ===== src/Api/Envelope.antt =====
-- What callers of a request get.
use netcheck.Common.{
  true, false, Option, none, some, [], ◌≡◌, ◌≢◌, refl, inl, inr, codes, text_eq, Bool-cases,
}
use netcheck.Json.{Json, null, num, obj, Members, get_member, is_false}
use netcheck.Api.{
  Response, Fetched, failed, answered, envelope, proxy_failure, refusal, by_code, from_json, reply,
}

-- The three kinds of answer: the backend's object as it came, whose code is not `false`; the
-- platform's refusal, with code 5001 in place of `false`; or a failure with code 5000 and no data.
pub data Unified (f : Fetched) : Members → Type 0 where
  passed :
      {r : Response} {ms : Members} {code : Json}
      → f ≡ answered r
      → r.parsed ≡ some (obj ms)
      → get_member (codes "code") ms ≡ some code
      → is_false (some code) ≡ false
      → Unified f ms
  refused :
      {r : Response} {ms out : Members} {code : Json}
      → f ≡ answered r
      → r.parsed ≡ some (obj ms)
      → get_member (codes "code") ms ≡ some code
      → is_false (some code) ≡ true
      → get_member (codes "code") out ≡ some (num 5001)
      → Unified f out
  broken :
      {out : Members}
      → get_member (codes "code") out ≡ some (num 5000)
      → get_member (codes "data") out ≡ some null
      → Unified f out

proxy_failure-Unified : (f : Fetched) (r : Response) → Unified f (proxy_failure r)
unfolding proxy_failure envelope get_member
proxy_failure-Unified f r = broken refl refl

refusal-code : (ms : Members) → get_member (codes "code") (refusal ms) ≡ some (num 5001)
unfolding refusal get_member
refusal-code ms = refl

by_code-Unified :
    (r : Response) (ms : Members) (code : Option Json)
    → r.parsed ≡ some (obj ms)
    → get_member (codes "code") ms ≡ code
    → Unified (answered r) (by_code r ms code)
unfolding by_code
by_code-Unified r ms none h e = proxy_failure-Unified (answered r) r
by_code-Unified r ms (some code) h e = elim (Bool-cases (is_false (some code))) [
  | inl f ↦ rw f (refused refl h e f (refusal-code ms))
  | inr f ↦ rw f (passed refl h e f)
]

from_json-Unified :
    (r : Response) (json : Json) → r.parsed ≡ some json → Unified (answered r) (from_json r json)
unfolding from_json
from_json-Unified r (obj ms) h = by_code-Unified r ms (get_member (codes "code") ms) h refl
from_json-Unified r null h = proxy_failure-Unified (answered r) r
from_json-Unified r _ h = proxy_failure-Unified (answered r) r

parsed-Unified :
    (r : Response) (o : Option Json)
    → r.parsed ≡ o
    → Unified (answered r) (elim o [ none ↦ proxy_failure r | some json ↦ from_json r json ])
parsed-Unified r none h = proxy_failure-Unified (answered r) r
parsed-Unified r (some json) h = from_json-Unified r json h

-- Whatever the network gives, callers get an object of one of the three kinds.
pub reply-Unified : (f : Fetched) → Unified f (reply f)
unfolding reply envelope get_member
reply-Unified (failed message) = broken refl refl
reply-Unified (answered r) = elim (Bool-cases (text_eq r.body [])) [
  | inl e ↦ rw e (proxy_failure-Unified (answered r) r)
  | inr e ↦ rw e (parsed-Unified r r.parsed refl)
]

code_kept :
    {f : Fetched} {out : Members} → Unified f out → is_false (get_member (codes "code") out) ≡ false
unfolding is_false
code_kept (passed a p c f) = rw c f
code_kept (refused a p c f e) = rw e
code_kept (broken e d) = rw e

has_code : {f : Fetched} {out : Members} → Unified f out → get_member (codes "code") out ≢ none
has_code (passed a p c f) = cc
has_code (refused a p c f e) = cc
has_code (broken e d) = cc

-- The object always has a code, and the code is never `false`.
reply-code :
    (f : Fetched)
    → (get_member (codes "code") (reply f) ≢ none)
      × (is_false (get_member (codes "code") (reply f)) ≡ false)
reply-code f = (has_code (reply-Unified f), code_kept (reply-Unified f))
