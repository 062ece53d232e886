-- ===== src/Api/Tests.antt =====
-- The theorems on requests and cookies at concrete answers.
use netcheck.Common.{some, false, List, [], ◌∷◌, ◌≡◌, refl, codes, trim, arith}
use netcheck.Json.{bool, str, obj, end, member}
use netcheck.Api.{Fetched, answered, reply, read_cookie, squeeze}
use netcheck.Api.Envelope.{Unified, reply-Unified}
use netcheck.Api.Cookies.{cookie_value, jar_text, Cookie, read_cookie-jar_text}

squeezed : squeeze false (codes "a  b c") ≡ codes "a b c"
unfolding squeeze
squeezed = refl

abbrev jar : List Cookie
jar = (codes "lang", codes "ar") ∷ (codes "X-Csrf-Token", codes "ab=") ∷ []

-- The platform's answer to a request without a session.
abbrev no_session : Fetched
no_session = answered (record {
  status = 200;
  content_type = some (codes "application/json");
  body = codes "{}";
  parsed = some (
      obj
        (member (codes "code") (bool false) (member (codes "msg") (str (codes "no session")) end)));
})

reply-Unified_example : Unified no_session (reply no_session)
reply-Unified_example = reply-Unified no_session

read_cookie-jar_text_example :
    read_cookie some (jar_text jar) (codes "X-Csrf-Token")
    ≡ cookie_value some (codes "X-Csrf-Token") jar
unfolding trim
read_cookie-jar_text_example =
    read_cookie-jar_text some (codes "X-Csrf-Token") jar (ground arith) (ground arith)
