-- ===== src/App/Boot/Logout.antt =====
-- What signing out leaves behind.
use netcheck.Common.{
  true, false, not, none, some, [], ◌≡◌, refl, sym, ap, ◌∙◌, inl, inr, Text, codes, text_eq,
  eq_of_text_eq, before, Bool-cases, subst,
}
use netcheck.App.{State, Screen, login, is_auth, clear_token}
use netcheck.App.Router.{render, view_of, page_of_hash, allowed, route, nav, deliver}
use netcheck.App.Router.Guard.{deliver-idle}
use netcheck.App.Boot.{do_logout}

-- The state has no token, in the page or stored, and shows the sign-in page; no event waits.
Ended : State → Type 0
Ended s =
    (s.token ≡ [])
    × (s.stored_token ≡ none)
    × (s.page ≡ codes "login")
    × (s.screen ≡ some (record { view = login; in_shell = false }))
    × (s.hash_changes ≡ 0)

login_is_allowed : allowed [] (page_of_hash (codes "#/login")) ≡ codes "login"
unfolding allowed page_of_hash is_auth before
login_is_allowed = refl

abbrev screen_of : Text → Screen
screen_of page = record { view = view_of page; in_shell = not (is_auth page) }

screen_of-login : screen_of (codes "login") ≡ record { view = login; in_shell = false }
unfolding view_of is_auth
screen_of-login = refl

route-Ended :
    (s : State)
    → s.token ≡ []
    → s.stored_token ≡ none
    → s.hash ≡ codes "#/login"
    → s.hash_changes ≡ 0
    → Ended (route s).0
unfolding Ended route render
route-Ended s token stored at quiet =
    let page : allowed s.token (page_of_hash s.hash) ≡ codes "login" =
      rw (token, at) login_is_allowed in
    (token, stored, page, ap (λ p. some (screen_of p)) page ∙ ap some screen_of-login, quiet)

do_logout-here :
    (s : State)
    → text_eq s.hash (codes "#/login") ≡ true
    → (do_logout s).0 ≡ (route (clear_token s)).0
unfolding do_logout nav clear_token is_auth
do_logout-here s here = rw here

do_logout-there :
    (s : State)
    → text_eq s.hash (codes "#/login") ≡ false
    → s.hash_changes ≡ 0
    → (deliver (do_logout s).0).0
      ≡ (route (record (clear_token s) { hash = codes "#/login"; hash_changes = 0 })).0
unfolding do_logout nav clear_token is_auth deliver
do_logout-there s there quiet = rw (there, quiet)

-- Signing out with no hashchange event waiting leaves no token, neither in the page nor stored, and,
-- once the event that it may queue is delivered, the sign-in page outside the navigation.
pub do_logout-ends :
    (s : State)
    → s.hash_changes ≡ 0
    → let s' = (deliver (do_logout s).0).0 in
      (s'.token ≡ [])
      × (s'.stored_token ≡ none)
      × (s'.page ≡ codes "login")
      × (s'.screen ≡ some (record { view = login; in_shell = false }))
      × (s'.hash_changes ≡ 0)
unfolding Ended clear_token
do_logout-ends s quiet = elim (Bool-cases (text_eq s.hash (codes "#/login"))) [
  | inl here ↦
      let at = eq_of_text_eq s.hash (codes "#/login") here in
      let ended = route-Ended (clear_token s) refl refl at quiet in
      let path =
        ap (λ x. (deliver x).0) (do_logout-here s here)
        ∙ deliver-idle (route (clear_token s)).0 ended.4 in
      subst Ended (sym path) ended
  | inr there ↦ subst Ended (sym (do_logout-there s there quiet)) (
      route-Ended (record (clear_token s) { hash = codes "#/login"; hash_changes = 0 }) refl refl
        refl refl)
]
