-- ===== src/App/Router/Guard.antt =====
-- Which pages are shown with and without a token.
use netcheck.Common.{
  ℕ, Bool, true, false, not, some, List, [], ◌∷◌, ◌++◌, ◌≡◌, ◌≢◌, refl, sym, ap, ◌∙◌, inl, inr,
  String, Text, codes, text_eq, eq_of_text_eq, before, all, and-true, All, arith, Bool-cases, ◌+◌,
}
use mathlib.Core.Path.{subst}
use netcheck.App.{View, login, init, forgot, State, is_auth}
use netcheck.App.Router.{
  find_view, view_of, render, allowed, page_of_hash, route, nav, deliver, app_views,
}

-- The views that ask for no token.
abbrev pub is_auth_view : View → Bool
is_auth_view login = true
is_auth_view init = true
is_auth_view forgot = true
is_auth_view _ = false

find_view-guarded :
    (views : List (String × View)) (page : Text)
    → all (λ e. not (is_auth_view e.1)) views ≡ true
    → is_auth_view (find_view views page) ≡ false
unfolding find_view
find_view-guarded [] page h = refl
find_view-guarded ((name, v) ∷ views) page h =
    let (one, more) = and-true (not (is_auth_view v)) (all (λ e. not (is_auth_view e.1)) views) h in
    elim (Bool-cases (text_eq (codes name) page)) [
      | inl e ↦ rw e (ground arith)
      | inr e ↦ rw e (find_view-guarded views page more)
    ]

-- A page has one of the sign-in views exactly if it is a sign-in page.
is_auth_view-view_of : (page : Text) → is_auth_view (view_of page) ≡ is_auth page
unfolding view_of is_auth
is_auth_view-view_of page = elim (Bool-cases (text_eq (codes "login") page)) [
  | inl a ↦ rw a
  | inr a ↦ rw a (elim (Bool-cases (text_eq (codes "init") page)) [
    | inl b ↦ rw b
    | inr b ↦ rw b (elim (Bool-cases (text_eq (codes "forgot") page)) [
      | inl c ↦ rw c
      | inr c ↦ rw c (find_view-guarded app_views page refl)
    ])
  ])
]

login_is_auth : is_auth (codes "login") ≡ true
unfolding is_auth
login_is_auth = refl

dashboard_is_guarded : is_auth (codes "dashboard") ≡ false
unfolding is_auth
dashboard_is_guarded = refl

allowed-is_auth : (token page : Text) → is_auth (allowed token page) ≡ text_eq token []
unfolding allowed
allowed-is_auth token page = elim (Bool-cases (text_eq token [])) [
  | inl e ↦ elim (Bool-cases (is_auth page)) [
    | inl f ↦ rw (e, f, f)
    | inr f ↦ rw (e, f, login_is_auth)
  ]
  | inr e ↦ elim (Bool-cases (is_auth page)) [
    | inl f ↦ rw (e, f, dashboard_is_guarded)
    | inr f ↦ rw (e, f, f)
  ]
]

-- After `route` the page is a sign-in page exactly if there is no token; the view on the screen is
-- then a sign-in view, and otherwise not; and the navigation stands round it exactly if there is a
-- token. So no view of the application is shown without a token, whatever the address says.
pub route-guard :
    (s : State)
    → let s' = (route s).0 in
      (is_auth s'.page ≡ text_eq s.token [])
      × (s'.screen ≡ some (record { view = view_of s'.page; in_shell = not (text_eq s.token []) }))
      × (is_auth_view (view_of s'.page) ≡ text_eq s.token [])
unfolding route render
route-guard s =
    let page = allowed s.token (page_of_hash s.hash) in
    let guard = allowed-is_auth s.token (page_of_hash s.hash) in
    (
      guard,
      ap (λ b. some (record { view = view_of page; in_shell = not b })) guard,
      is_auth_view-view_of page ∙ guard,
    )

before-absent : (b : ℕ) (s : Text) → All (λ c. c ≢ b) s → before b s ≡ s
unfolding before
before-absent b [] h = refl
before-absent b (c ∷ s) (h, hs) = ground (arith, before-absent b s hs)

page_of_hash-page :
    (page : Text) → All (λ c. c ≢ b'?') page → page_of_hash (codes "#/" ++ page) ≡ page
unfolding page_of_hash
page_of_hash-page page h = before-absent b'?' page h

allowed-page :
    (token page : Text)
    → text_eq token [] ≡ false
    → is_auth page ≡ false
    → allowed token page ≡ page
unfolding allowed
allowed-page token page signed_in guarded = rw (signed_in, guarded)

-- The state shows the page, and this many events wait.
Shows : Text → ℕ → State → Type 0
Shows page n s =
    (s.page ≡ page)
    × (s.screen ≡ some (record { view = view_of page; in_shell = true }))
    × (s.hash_changes ≡ n)

route-Shows :
    (s : State) (page : Text) (n : ℕ)
    → text_eq s.token [] ≡ false
    → is_auth page ≡ false
    → page_of_hash s.hash ≡ page
    → s.hash_changes ≡ n
    → Shows page n (route s).0
unfolding Shows route render
route-Shows s page n signed_in guarded at count =
    let same = ap (allowed s.token) at ∙ allowed-page s.token page signed_in guarded in
    (
      same,
      ap (λ p. some (record { view = view_of p; in_shell = not (is_auth p) })) same
          ∙ ap (λ b. some (record { view = view_of page; in_shell = not b })) guarded,
      count,
    )

pub deliver-idle : (s : State) → s.hash_changes ≡ 0 → (deliver s).0 ≡ s
unfolding deliver
deliver-idle s h = rw h

deliver-one : (s : State) → s.hash_changes ≡ 1 → deliver s ≡ route (record s { hash_changes = 0 })
unfolding deliver
deliver-one s h = rw h

nav-there :
    (s : State) (page : Text)
    → text_eq s.token [] ≡ false
    → text_eq s.hash (codes "#/" ++ page) ≡ false
    → (nav page s).0 ≡ record s { hash = codes "#/" ++ page; hash_changes = s.hash_changes + 1 }
unfolding nav
nav-there s page signed_in other = rw (signed_in, other)

nav-here :
    (s : State) (page : Text)
    → text_eq s.token [] ≡ false
    → text_eq s.hash (codes "#/" ++ page) ≡ true
    → nav page s ≡ route s
unfolding nav
nav-here s page signed_in same = rw (signed_in, same)

-- With a token, and with no hashchange event waiting, going to a page of the application shows it:
-- once the event that `nav` may queue is delivered, the page of the state is the one that was asked
-- for, its view is on the screen, and no event waits any more. The page's name holds no "?".
pub nav-shows :
    (s : State) (page : Text)
    → text_eq s.token [] ≡ false
    → is_auth page ≡ false
    → All (λ c. c ≢ b'?') page
    → s.hash_changes ≡ 0
    → let s' = (deliver (nav page s).0).0 in
      (s'.page ≡ page)
      × (s'.screen ≡ some (record { view = view_of page; in_shell = true }))
      × (s'.hash_changes ≡ 0)
unfolding Shows
nav-shows s page signed_in guarded plain quiet =
    elim (Bool-cases (text_eq s.hash (codes "#/" ++ page))) [
      | inl same ↦
          let at =
            ap page_of_hash (eq_of_text_eq s.hash (codes "#/" ++ page) same)
            ∙ page_of_hash-page page plain in
          let shown = route-Shows s page 0 signed_in guarded at quiet in
          let path =
            ap (λ x. (deliver x.0).0) (nav-here s page signed_in same)
            ∙ deliver-idle (route s).0 shown.2 in
          subst (Shows page 0) (sym path) shown
      | inr other ↦
          let s1 = record s { hash = codes "#/" ++ page; hash_changes = s.hash_changes + 1 } in
          let path =
            ap (λ x. (deliver x).0) (nav-there s page signed_in other)
            ∙ ap (λ x. x.0) (deliver-one s1 (omega arith)) in
          subst (Shows page 0) (sym path) (
            route-Shows (record s1 { hash_changes = 0 }) page 0 signed_in guarded
              (page_of_hash-page page plain) refl)
    ]
