-- ===== src/App/Login/Answers.antt =====
-- The sign-in form and its answers: the button during a lockout, and what a failure shows.
use netcheck.Common.{
  text_eq, [], ◌++◌, ◌≢◌, ℕ, true, false, none, some, ◌≡◌, refl, arith, Bool-cases, Option-cases,
  inl, inr, codes, Text,
}
use netcheck.Json.{
  Json, null, bool, num, other_num, str, arr, obj, Members, get_member, is_str, truthy, or_value,
  is_num,
}
use netcheck.Api.{
  Response, Fetched, failed, answered, reply, envelope, proxy_error, proxy_failure, from_json,
  by_code,
}
use netcheck.App.Boot.{member_of, code_is}
use netcheck.App.Login.{
  Login, refused, Milliseconds, later, do_login, fire, Outcome, returned, threw, entered, lock,
  refuse, enter, login_answer, data_and,
}
use netcheck.App.Login.Lockout.{IsGuarded, tick_lockout-IsGuarded, fire-IsGuarded}

-- An answer that is not one of the backend's.
pub data IsForeign (r : Response) : Type 0 where
  empty_body : text_eq r.body [] ≡ true → IsForeign r
  no_json : r.parsed ≡ none → IsForeign r
  no_object : {v : Json} → r.parsed ≡ some v → ((ms : Members) → v ≢ obj ms) → IsForeign r
  no_code :
      {ms : Members} → r.parsed ≡ some (obj ms) → get_member (codes "code") ms ≡ none → IsForeign r

-- A request that fails on its way, and the message on it.
pub data Fails : Fetched → Text → Type 0 where
  network : (m : Text) → Fails (failed m) (codes "network error: " ++ m)
  proxy :
      {r : Response} → IsForeign r → Fails (answered r) (proxy_error r.status r.content_type r.body)

from_json-foreign :
    (r : Response) (v : Json) → ((ms : Members) → v ≢ obj ms) → from_json r v ≡ proxy_failure r
unfolding from_json
from_json-foreign r (obj ms) h = absurd (h ms refl)
from_json-foreign r null h = refl
from_json-foreign r (bool b) h = refl
from_json-foreign r (num n) h = refl
from_json-foreign r (other_num n) h = refl
from_json-foreign r (str s) h = refl
from_json-foreign r (arr vs) h = refl

proxy-reply :
    (r : Response)
    → IsForeign r
    → reply (answered r) ≡ envelope 5000 (proxy_error r.status r.content_type r.body)
unfolding reply proxy_failure from_json by_code
proxy-reply r (empty_body h) = rw h refl
proxy-reply r (no_json h) = rw h (ground arith)
proxy-reply r (no_object {v} h other) = rw (h, from_json-foreign r v other) (ground arith)
proxy-reply r (no_code {ms} h missing) = rw (h, missing) (ground arith)

abbrev pub login_of : Outcome → Login
login_of (returned s) = s
login_of (threw s) = s
login_of (entered s loads) = s

unlocked-IsGuarded : (s : Login) → s.locked ≡ false → IsGuarded s
unlocked-IsGuarded s h = record { disabled = ground arith; timer = ground arith }

-- The form as `refuse` finds it.
abbrev cleared : Login → Login
cleared s = record s { disabled = false; error = none; locked = false }

module _ (milliseconds : Json → Milliseconds) (text_of : Json → Text) (failed_text : Text) where
  lock-IsGuarded :
      (r : Members) (now : ℕ) (s : Login)
      → IsGuarded (lock milliseconds text_of failed_text r now s)
  unfolding lock
  lock-IsGuarded r now s =
      let secs = or_value (data_and r (codes "locked_remaining_sec")) (num 300) in
      tick_lockout-IsGuarded now (record s { locked = true; until = later now (milliseconds secs) })

  refuse-IsGuarded :
      (r : Members) (now : ℕ) (s : Login)
      → s.locked ≡ false
      → IsGuarded (refuse milliseconds text_of failed_text r now s)
  unfolding refuse
  refuse-IsGuarded r now s h =
      let message = get_member (codes "message") r in
      elim (Bool-cases (is_str (codes "locked") message)) [
        | inl e ↦ rw e (lock-IsGuarded r now s)
        | inr e ↦ rw e (elim (Bool-cases (is_str (codes "rate_limited") message)) [
          | inl limited ↦ rw limited (unlocked-IsGuarded _ h)
          | inr other ↦ rw other (unlocked-IsGuarded _ h)
        ])
      ]

  login_answer-IsGuarded :
      (user : Text) (r : Members) (now : ℕ) (s : Login)
      → IsGuarded (login_of (login_answer milliseconds text_of failed_text user r now s))
  unfolding login_answer enter
  login_answer-IsGuarded user r now s = elim (Bool-cases (code_is 0 r)) [
    | inr e ↦ rw (e, login_answer) (refuse-IsGuarded r now (cleared s) refl)
    | inl e ↦ elim (Option-cases (member_of (get_member (codes "data") r) (codes "token"))) [
      | inl nothing ↦ rw (e, nothing, login_answer) (unlocked-IsGuarded (cleared s) refl)
      | inr (token, at) ↦ elim (Bool-cases (truthy token)) [
        | inl given ↦ rw (e, at, given, login_answer) (unlocked-IsGuarded _ refl)
        | inr bad ↦ rw (e, at, bad, login_answer) (refuse-IsGuarded r now (cleared s) refl)
      ]
    ]
  ]

  -- The user signs in, by the button or by Enter, an answer comes, or a timer goes off.
  pub data Step : Login → Login → Type 0 where
    submits : (user : Text) (s : Login) → Step s (do_login user s)
    answers :
        (user : Text) (r : Members) (now : ℕ) (s : Login)
        → Step s (login_of (login_answer milliseconds text_of failed_text user r now s))
    fires : (now : ℕ) (s : Login) → Step s (fire now s)

  pub data Reach (s : Login) : Login → Type 0 where
    here : Reach s s
    next : {t u : Login} → Reach s t → Step t u → Reach s u

  Step-IsGuarded : {s s' : Login} → Step s s' → IsGuarded s → IsGuarded s'
  unfolding do_login
  Step-IsGuarded (submits user s) g = record { disabled = λ _. refl; timer = g.timer }
  Step-IsGuarded (answers user r now s) g = login_answer-IsGuarded user r now s
  Step-IsGuarded (fires now s) g = fire-IsGuarded now s g

  -- However often the user signs in, whatever the answers are and whenever the timers go off: while
  -- the lockout shows, the button is disabled and a timer waits that will look at it again.
  pub Reach-IsGuarded : {s s' : Login} → IsGuarded s → Reach s s' → IsGuarded s'
  Reach-IsGuarded g here = g
  Reach-IsGuarded g (next r step) = Step-IsGuarded step (Reach-IsGuarded g r)

  envelope-shown :
      (user message : Text) (now : ℕ) (s : Login)
      → text_eq message (codes "locked") ≡ false
      → text_eq message (codes "rate_limited") ≡ false
      → text_eq message [] ≡ false
      → let r = envelope 5000 message in
        let s' = login_of (login_answer milliseconds text_of failed_text user r now s) in
        (s'.error ≡ some (refused (str message) (some null)))
        × (s'.locked ≡ false)
        × (s'.disabled ≡ false)
  unfolding login_answer refuse envelope data_and get_member is_num is_str truthy or_value
  envelope-shown user message now s known limited filled =
      rw (known, limited, filled) (refl, refl, refl)

  -- A sign-in whose request fails on its way, in the network or with an answer that is not one of
  -- the backend's: the error box shows what failed, and behind it `auth.attemptsRemaining` with null
  -- in place of the number of attempts. A lockout that showed is gone, and the button is enabled.
  pub login_answer-null :
      (f : Fetched) (user message : Text) (now : ℕ) (s : Login)
      → Fails f message
      → let s' = login_of (login_answer milliseconds text_of failed_text user (reply f) now s) in
        (s'.error ≡ some (refused (str message) (some null)))
        × (s'.locked ≡ false)
        × (s'.disabled ≡ false)
  unfolding proxy_error reply
  login_answer-null _ user _ now s (network m) =
      envelope-shown user (codes "network error: " ++ m) now s refl refl refl
  login_answer-null _ user _ now s (proxy {r} h) =
      rw (proxy-reply r h)
        (envelope-shown user (proxy_error r.status r.content_type r.body) now s refl refl refl)
