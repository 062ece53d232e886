-- ===== src/App/Tests.antt =====
-- The theorems on the router and the session at concrete states.
use netcheck.Common.{
  true, false, not, Option, none, some, [], ◌≡◌, refl, ◌⊎◌, Text, codes, text_eq, arith, before,
}
use netcheck.Json.{
  Json, null, bool, num, str, obj, Members, member, end, get_member, is_false, is_num,
}
use netcheck.App.{login, init, State, is_auth}
use netcheck.App.Router.{view_of, route, nav, deliver, page_of_hash}
use netcheck.App.Router.Guard.{is_auth_view, route-guard, nav-shows}
use netcheck.App.Boot.{returned, state_of, code_is, boot_status, member_of, do_logout}
use netcheck.App.Boot.Status.{status_member, AsksForAccount, boot_status-init, boot_status-token}
use netcheck.App.Boot.Logout.{do_logout-ends}

-- A page that was reached through a link to the history, with this token.
abbrev state_with : Text → State
state_with token = record {
  page = codes "dashboard";
  user = null;
  version = null;
  nics = none;
  settings = null;
  boot_error = str [];
  token = token;
  stored_token = some token;
  hash = codes "#/history?id=3";
  hash_changes = 0;
  screen = none;
}

page_of_link : page_of_hash (codes "#/history?id=3") ≡ codes "history"
unfolding page_of_hash before
page_of_link = refl

route-guard_example :
    let s' = (route (state_with [])).0 in
    (is_auth s'.page ≡ text_eq (state_with []).token [])
    × (s'.screen
        ≡ some
            (record { view = view_of s'.page; in_shell = not (text_eq (state_with []).token []) }))
    × (is_auth_view (view_of s'.page) ≡ text_eq (state_with []).token [])
route-guard_example = route-guard (state_with [])

nav-shows_example :
    let s' = (deliver (nav (codes "monitor") (state_with (codes "x"))).0).0 in
    (s'.page ≡ codes "monitor")
    × (s'.screen ≡ some (record { view = view_of (codes "monitor"); in_shell = true }))
    × (s'.hash_changes ≡ 0)
unfolding is_auth
nav-shows_example =
    nav-shows (state_with (codes "x")) (codes "monitor") refl refl (ground arith) refl

abbrev status_of : Json → Json → Members
status_of initialized authenticated = member (codes "code") (num 0) (
    member (codes "data")
      (obj (
        member (codes "initialized") initialized
          (member (codes "authenticated") authenticated end)))
      end)

abbrev first_use : Members
first_use = status_of (bool false) (bool false)

abbrev ended : Members
ended = member (codes "code") (num 5001) end

boot_status-init_example :
    let outcome = boot_status (codes "session") (codes "unreachable") first_use (state_with []) in
    ((s' : State)
      → outcome ≡ returned s'
      → s'.page ≡ codes "init"
      → AsksForAccount first_use (state_with []))
    × (AsksForAccount first_use (state_with [])
        → outcome
          ≡ returned (record (state_with []) {
            page = codes "init";
            boot_error = str [];
            screen = some (record { view = init; in_shell = false });
          }))
boot_status-init_example =
    boot_status-init (codes "session") (codes "unreachable") first_use (state_with [])

-- The hypotheses of its two parts hold.
first_use-AsksForAccount : AsksForAccount first_use (state_with [])
unfolding is_num is_false get_member member_of
first_use-AsksForAccount = (refl, refl, (some (bool false), refl, refl))

boot_status-token_example :
    let s' =
      state_of
        (boot_status (codes "session") (codes "unreachable") first_use (state_with (codes "x"))) in
    (((s'.token ≡ codes "x") × (s'.stored_token ≡ some (codes "x")))
      ⊎ ((code_is 0 first_use ≡ true)
          × (s'.token ≡ [])
          × (s'.stored_token ≡ none)
          × ((v : Option Json) × (status_member first_use (codes "authenticated") ≡ some v)
              × (is_false v ≡ true))))
    × ((v : Option Json)
        → code_is 0 first_use ≡ true
        → text_eq (state_with (codes "x")).token [] ≡ false
        → status_member first_use (codes "authenticated") ≡ some v
        → is_false v ≡ true
        → (s'.token ≡ []) × (s'.stored_token ≡ none))
boot_status-token_example =
    boot_status-token (codes "session") (codes "unreachable") first_use (state_with (codes "x"))

-- A session that has ended loses both tokens.
ended_session :
    let s' =
      state_of
        (boot_status (codes "session") (codes "unreachable") first_use (state_with (codes "x"))) in
    (s'.token ≡ []) × (s'.stored_token ≡ none)
unfolding is_num is_false get_member member_of
ended_session = boot_status-token_example.1 (some (bool false)) refl refl refl refl

do_logout-ends_example :
    let s' = (deliver (do_logout (state_with (codes "x"))).0).0 in
    (s'.token ≡ [])
    × (s'.stored_token ≡ none)
    × (s'.page ≡ codes "login")
    × (s'.screen ≡ some (record { view = login; in_shell = false }))
    × (s'.hash_changes ≡ 0)
do_logout-ends_example = do_logout-ends (state_with (codes "x")) refl
