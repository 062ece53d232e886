-- ===== src/App/Login/Tests.antt =====
-- The sign-in form at concrete answers and times.
use netcheck.Common.{ℕ, ◌*◌, true, false, none, some, [], ◌∷◌, ◌≡◌, refl, Text, codes, arith}
use netcheck.Json.{
  Json, null, num, str, obj, Members, member, end, get_member, is_num, is_str, truthy, or_value,
}
use netcheck.Api.{failed, reply}
use netcheck.App.Boot.{member_of}
use netcheck.App.Login.{
  Login, Milliseconds, ahead, not_a_number, refused, do_login, login_answer, tick_lockout, remain,
  fire, data_and,
}
use netcheck.App.Login.Lockout.{IsGuarded, run_timers, lockout_ends}
use netcheck.App.Login.Answers.{
  login_of, Reach, here, next, submits, answers, fires, Reach-IsGuarded, network, login_answer-null,
}

abbrev fresh_form : Login
fresh_form = record {
  disabled = false;
  error = none;
  locked = false;
  until = none;
  left = none;
  timers = 0;
  requests = [];
  session = record {
    page = codes "login";
    user = null;
    version = null;
    nics = none;
    settings = null;
    boot_error = str [];
    token = [];
    stored_token = none;
    hash = codes "#/login";
    hash_changes = 0;
    screen = none;
  };
}

abbrev milliseconds : Json → Milliseconds
milliseconds (num n) = ahead (n * 1000)
milliseconds null = ahead 0
milliseconds _ = not_a_number

abbrev text_of : Json → Text
text_of (str s) = s
text_of null = codes "null"
text_of _ = []

abbrev failed_text : Text
failed_text = codes "Login failed"

abbrev locked_for : ℕ → Members
locked_for secs = member (codes "code") (num 1) (
    member (codes "message") (str (codes "locked"))
      (member (codes "data") (obj (member (codes "locked_remaining_sec") (num secs) end)) end))

-- The answer comes at 10 seconds and locks for 90.
abbrev locked_out : Login
locked_out =
    login_of
      (login_answer milliseconds text_of failed_text (codes "a") (locked_for 90) 10000 fresh_form)

lockout_shown : locked_out.left ≡ some (some (1, 30))
unfolding login_answer tick_lockout remain data_and get_member member_of is_num is_str truthy
    or_value
lockout_shown = refl

-- The same with seconds that are no number: the lockout does not end.
abbrev locked_for_ever : Login
locked_for_ever = record fresh_form { disabled = true; locked = true; timers = 1 }

no_end :
    fire 900000000 locked_for_ever
    ≡ record fresh_form { disabled = true; locked = true; left = some none; timers = 1 }
unfolding fire tick_lockout remain
no_end = refl

fresh_form-IsGuarded : IsGuarded fresh_form
fresh_form-IsGuarded = record { disabled = λ h. ground arith; timer = λ h. ground arith }

fresh_form-Reach : Reach milliseconds text_of failed_text fresh_form locked_out
fresh_form-Reach = next here (answers (codes "a") (locked_for 90) 10000 fresh_form)

Reach-IsGuarded_example : IsGuarded (do_login (codes "b") (fire 11000 locked_out))
Reach-IsGuarded_example = Reach-IsGuarded milliseconds text_of failed_text fresh_form-IsGuarded (
    next (next fresh_form-Reach (fires 11000 locked_out))
      (submits (codes "b") (fire 11000 locked_out)))

abbrev locked_briefly : Login
locked_briefly = record fresh_form {
  disabled = true;
  locked = true;
  until = some 12000;
  timers = 1;
}

lockout_ends_example :
    ((run_timers (11000 ∷ 12005 ∷ []) locked_briefly).locked ≡ false)
    × ((run_timers (11000 ∷ 12005 ∷ []) locked_briefly).disabled ≡ false)
lockout_ends_example =
    lockout_ends 10000 12000 (11000 ∷ 12005 ∷ []) locked_briefly
      (record { disabled = λ _. refl; timer = λ _. omega arith }) refl refl
      (omega arith, (omega arith, tt)) (omega arith) (omega arith)

login_answer-null_example :
    let s' = login_of (
      login_answer milliseconds text_of failed_text
        (codes "a")
        (reply (failed (codes "offline")))
        20000
        locked_briefly) in
    (s'.error ≡ some (refused (str (codes "network error: offline")) (some null)))
    × (s'.locked ≡ false)
    × (s'.disabled ≡ false)
login_answer-null_example =
    login_answer-null milliseconds text_of failed_text (failed (codes "offline")) (codes "a")
      (codes "network error: offline") 20000 locked_briefly (network (codes "offline"))
