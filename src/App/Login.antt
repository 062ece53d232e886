-- ===== src/App/Login.antt =====
-- webui/assets/app.js, the sign-in form: `doLogin`, cut at its await, and `tickLockout` with its timer.
pub mod Lockout
pub mod Answers
mod Tests
use netcheck.Common.{
  ℕ, ◌+◌, ◌-◌, ◌*◌, ◌/◌, ◌%◌, ◌==◌, Bool, true, false, Option, none, some, List, [], ◌∷◌, ◌++◌,
  Text, codes, if◌then◌else◌, trim,
}
use netcheck.Json.{Json, num, str, Members, get_member, is_str, truthy, or_value}
use netcheck.App.{State, set_token}
use netcheck.App.Router.{Load, nav}
use netcheck.App.Boot.{member_of, code_is}

-- What the error box shows: `t("auth.rateLimited")`, or a message, with what is put into
-- `auth.attemptsRemaining` where that is appended.
pub data Shown : Type 0 where
  rate_limited : Shown
  refused : Json → Option Json → Shown

-- What `secs * 1000` is for the seconds of an answer: NaN, or that many milliseconds ahead or back.
pub data Milliseconds : Type 0 where
  not_a_number : Milliseconds
  ahead back : ℕ → Milliseconds

-- `remain` of `tickLockout`: seconds, or NaN.
pub data Remain : Type 0 where
  seconds : ℕ → Remain
  not_a_number : Remain

-- The form and the session; times are in milliseconds.
pub record Login : Type 0 where
  pub disabled : Bool  -- loginBtn.disabled
  pub error : Option Shown  -- loginErr, if it is on
  pub locked : Bool  -- loginLock is on
  pub until : Option ℕ  -- loginLock.dataset.until, none for one that is no number
  pub left : Option (Option (ℕ × ℕ))  -- the minutes and seconds that loginLock shows; none: both NaN
  pub timers : ℕ  -- calls of tickLockout that wait
  pub requests : List Text  -- the users whose sign-in waits for its answer
  pub session : State

-- `doLogin` up to its await: nothing asks whether the button is disabled, and Enter in the field of the
-- password calls it.
unfoldable pub do_login : Text → Login → Login
do_login user s = record s { disabled = true; requests = s.requests ++ (trim user ∷ []) }

-- `Math.max(0, Math.round((+until - now) / 1000))`
unfoldable pub remain : Option ℕ → ℕ → Remain
remain none now = not_a_number
remain (some until) now = seconds ((until - now + 500) / 1000)

-- `remain <= 0`, which NaN is not.
abbrev pub is_over : Remain → Bool
is_over (seconds n) = n == 0
is_over not_a_number = false

-- `Math.floor(remain/60)` and `remain%60`; both are NaN for NaN.
abbrev pub minutes_seconds : Remain → Option (ℕ × ℕ)
minutes_seconds (seconds n) = some (n / 60, n % 60)
minutes_seconds not_a_number = none

-- `tickLockout` at some time.
unfoldable pub tick_lockout : ℕ → Login → Login
tick_lockout now s =
    let left = remain s.until now in
    if s.locked
    then if is_over left
      then record s { locked = false; disabled = false }
      else record s { left = some (minutes_seconds left); disabled = true; timers = s.timers + 1 }
    else s

-- The timer calls it, if one waits.
unfoldable pub fire : ℕ → Login → Login
unfolding tick_lockout
fire now s = if s.timers == 0 then s else tick_lockout now (record s { timers = s.timers - 1 })

-- How the handler ends: at once, waiting for `loadDashboard`, or with a TypeError.
pub data Outcome : Type 0 where
  returned threw : Login → Outcome
  entered : Login → List Load → Outcome

join : Option (Option Json) → Option Json
join none = none
join (some v) = v

-- `r.data && r.data.name`
unfoldable pub data_and : Members → Text → Option Json
unfolding join
data_and r name =
    let value = get_member (codes "data") r in
    if truthy value then join (member_of value name) else value

-- `Date.now() + secs * 1000`; a time that is back is over, whichever it is.
abbrev pub later : ℕ → Milliseconds → Option ℕ
later now not_a_number = none
later now (ahead n) = some (now + n)
later now (back n) = some (now - n)

-- `milliseconds` is what a JSON value times 1000 is, and `text_of` the text of a token.
module _ (milliseconds : Json → Milliseconds) (text_of : Json → Text) (failed_text : Text) where
  -- `lockBox.classList.add("on"); …; tickLockout();`
  lock : Members → ℕ → Login → Login
  unfolding tick_lockout data_and
  lock r now s =
      let secs = or_value (data_and r (codes "locked_remaining_sec")) (num 300) in
      tick_lockout now (record s { locked = true; until = later now (milliseconds secs) })

  -- The branches on `r.message`.
  refuse : Members → ℕ → Login → Login
  unfolding lock data_and
  refuse r now s =
      let message = get_member (codes "message") r in
      if is_str (codes "locked") message
      then lock r now s
      else if is_str (codes "rate_limited") message
      then record s { error = some rate_limited }
      else record s {
        error = some (
            refused (or_value message (str failed_text)) (data_and r (codes "attempts_remaining")));
      }

  -- `API.setToken(r.data.token); state.user = u; nav("dashboard");`
  enter : Text → Json → Login → Outcome
  enter user token s =
      let session = set_token (text_of token) s.session in
      let (session', loads) = nav (codes "dashboard") (record session { user = str user }) in
      entered (record s { session = session' }) loads

  -- `doLogin` behind its await.
  unfoldable pub login_answer : Text → Members → ℕ → Login → Outcome
  unfolding refuse enter
  login_answer user r now s =
      let s' = record s { disabled = false; error = none; locked = false } in
      let other = returned (refuse r now s') in
      if code_is 0 r
      then elim (member_of (get_member (codes "data") r) (codes "token")) [
        | none ↦ threw s'
        | some token ↦ if truthy token then enter user (or_value token (str [])) s' else other
      ]
      else other
