-- ===== src/App/Boot/Status.antt =====
-- What the answer of the account status leads to.
use netcheck.Common.{
  true, false, ◌&&◌, Option, none, some, [], ◌≡◌, ◌≢◌, refl, sym, ap, ◌∙◌, ◌⊎◌, inl, inr, Text,
  codes, text_eq, eq_of_text_eq, arith, Bool-cases, Option-cases, and-true,
}
use netcheck.Json.{Json, null, obj, str, Members, get_member, is_num, is_false, or_value}
use netcheck.App.{State, login, init, clear_token, is_auth}
use netcheck.App.Router.{render, view_of}
use netcheck.App.Boot.{
  member_of, code_is, returned, state_of, enter, keep_or_clear, initialize_or, boot_status,
}

-- The member of the status data, where reading it does not throw.
abbrev pub status_member : Members → Text → Option (Option Json)
status_member st name = member_of (get_member (codes "data") st) name

code_is-zero : (st : Members) → code_is 0 st ≡ true → code_is 5001 st ≡ false
unfolding is_num
code_is-zero st h = ground arith

-- The status is a success and says that no account is set up, and there is no token.
abbrev pub AsksForAccount : Members → State → Type 0
AsksForAccount st s =
    (code_is 0 st ≡ true)
    × (s.token ≡ [])
    × ((v : Option Json) × (status_member st (codes "initialized") ≡ some v) × (is_false v ≡ true))

module _ (session_text unreachable_text : Text) where
  -- A status query that fails, for the platform's session or for any other reason, ends at the
  -- sign-in page outside the navigation, with a message, and leaves both tokens, the user and the
  -- loaded data as they were.
  boot_status-failed :
      (st : Members) (s : State)
      → code_is 0 st ≡ false
      → (message : Json) × (boot_status session_text unreachable_text st s
          ≡ returned (record s {
            page = codes "login";
            boot_error = message;
            screen = some (record { view = login; in_shell = false });
          }))
  unfolding boot_status render view_of is_auth
  boot_status-failed st s h = elim (Bool-cases (code_is 5001 st)) [
    | inl e ↦ (str session_text, rw e)
    | inr e ↦ (or_value (get_member (codes "message") st) (str unreachable_text), rw (e, h))
  ]

  enter-login :
      (st : Members) (s s' : State)
      → enter session_text unreachable_text st s ≡ returned s'
      → s'.page ≡ codes "login"
  unfolding enter render
  enter-login st s s' e = ground arith

  keep_or_clear-login :
      (st : Members) (s s' : State)
      → keep_or_clear session_text unreachable_text st s ≡ returned s'
      → s'.page ≡ codes "login"
  unfolding keep_or_clear
  keep_or_clear-login st s s' e =
      ground (arith, enter-login st s s', enter-login st (clear_token s) s')

  login_is_not_init : codes "login" ≢ codes "init"
  login_is_not_init e = cc

  -- The branch of the first-use form.
  initialize_or-init :
      (st : Members) (s s' : State)
      → initialize_or session_text unreachable_text st s ≡ returned s'
      → s'.page ≡ codes "init"
      → (s.token ≡ [])
        × ((v : Option Json) × (status_member st (codes "initialized") ≡ some v)
            × (is_false v ≡ true))
  unfolding initialize_or
  initialize_or-init st s s' e h = elim (Option-cases (status_member st (codes "initialized"))) [
    | inl a ↦ cc (a)
    | inr (v, a) ↦ elim (Bool-cases (is_false v && text_eq s.token [])) [
      | inl b ↦
          let (first, second) = and-true (is_false v) (text_eq s.token []) b in
          (eq_of_text_eq s.token [] second, (v, a, first))
      | inr b ↦ absurd (login_is_not_init (sym (keep_or_clear-login st s s' (ground arith)) ∙ h))
    ]
  ]

  boot_status-asks :
      (st : Members) (s s' : State)
      → boot_status session_text unreachable_text st s ≡ returned s'
      → s'.page ≡ codes "init"
      → AsksForAccount st s
  unfolding boot_status state_of
  boot_status-asks st s s' e h = elim (Bool-cases (code_is 0 st)) [
    | inl a ↦
        let b = code_is-zero st a in
        let (signed_out, first_use) =
          initialize_or-init st (record s { boot_error = str [] }) s' (ground arith) h in
        (a, signed_out, first_use)
    | inr a ↦
        let (message, failed) = boot_status-failed st s a in
        let page : s'.page ≡ codes "login" = sym (ap (λ o. (state_of o).page) (sym failed ∙ e)) in
        absurd (login_is_not_init (sym page ∙ h))
  ]

  boot_status-shows :
      (st : Members) (s : State)
      → AsksForAccount st s
      → boot_status session_text unreachable_text st s
        ≡ returned (record s {
          page = codes "init";
          boot_error = str [];
          screen = some (record { view = init; in_shell = false });
        })
  unfolding boot_status initialize_or render view_of is_auth
  boot_status-shows st s (ok, signed_out, (v, said, first_use)) =
      let b = code_is-zero st ok in rw (b, ok, said, first_use, signed_out, initialize_or) refl

  -- Of its own accord the start of a session goes to the first-use form exactly when the status is a
  -- success that says that no account is set up and there is no token: when it returns with that
  -- page, this is so, and when this is so, it returns with that page, its view on the screen outside
  -- the navigation, and no message.
  pub boot_status-init :
      (st : Members) (s : State)
      → ((s' : State)
          → boot_status session_text unreachable_text st s ≡ returned s'
          → s'.page ≡ codes "init"
          → AsksForAccount st s)
        × (AsksForAccount st s
            → boot_status session_text unreachable_text st s
              ≡ returned (record s {
                page = codes "init";
                boot_error = str [];
                screen = some (record { view = init; in_shell = false });
              }))
  boot_status-init st s = (λ s'. boot_status-asks st s s', boot_status-shows st s)

  boot_status-keeps :
      (st : Members) (s : State)
      → let s' = state_of (boot_status session_text unreachable_text st s) in
        ((s'.token ≡ s.token) × (s'.stored_token ≡ s.stored_token))
        ⊎ ((code_is 0 st ≡ true)
            × (s'.token ≡ [])
            × (s'.stored_token ≡ none)
            × ((v : Option Json) × (status_member st (codes "authenticated") ≡ some v)
                × (is_false v ≡ true)))
  unfolding boot_status initialize_or keep_or_clear enter render state_of clear_token
  boot_status-keeps st s = elim (Option-cases (status_member st (codes "authenticated"))) [
    | inl a ↦ inl (ground arith)
    | inr (v, a) ↦ elim (Bool-cases (is_false v)) [
      | inl b ↦ ground arith
      | inr b ↦ inl (ground arith)
    ]
  ]

  -- Reading one member of the data throws exactly when reading another does.
  member_of-some :
      (d : Option Json) (a b : Text) {v : Option Json}
      → member_of d a ≡ some v
      → (u : Option Json) × (member_of d b ≡ some u)
  unfolding member_of
  member_of-some none a b h = cc
  member_of-some (some null) a b h = cc
  member_of-some (some (obj ms)) a b h = (get_member b ms, refl)
  member_of-some (some _) a b h = (none, refl)

  boot_status-clears :
      (st : Members) (s : State) (v : Option Json)
      → code_is 0 st ≡ true
      → text_eq s.token [] ≡ false
      → status_member st (codes "authenticated") ≡ some v
      → is_false v ≡ true
      → let s' = state_of (boot_status session_text unreachable_text st s) in
        (s'.token ≡ []) × (s'.stored_token ≡ none)
  unfolding boot_status initialize_or keep_or_clear enter render state_of clear_token
  boot_status-clears st s v ok signed_in said gone =
      let b = code_is-zero st ok in
      let (u, initialized) =
        member_of-some (get_member (codes "data") st) (codes "authenticated") (codes "initialized")
          said in
      elim (Bool-cases (is_false u)) [
        | inl x ↦
            rw (b, ok, initialized, x, signed_in, said, gone, initialize_or, keep_or_clear)
              (refl, refl)
        | inr x ↦
            rw (b, ok, initialized, x, signed_in, said, gone, initialize_or, keep_or_clear)
              (refl, refl)
      ]

  -- The tokens are kept as they are, unless the status is a success and says that the session is
  -- not authenticated. And with a token and such a status both are gone.
  pub boot_status-token :
      (st : Members) (s : State)
      → let s' = state_of (boot_status session_text unreachable_text st s) in
        (((s'.token ≡ s.token) × (s'.stored_token ≡ s.stored_token))
          ⊎ ((code_is 0 st ≡ true)
              × (s'.token ≡ [])
              × (s'.stored_token ≡ none)
              × ((v : Option Json) × (status_member st (codes "authenticated") ≡ some v)
                  × (is_false v ≡ true))))
        × ((v : Option Json)
            → code_is 0 st ≡ true
            → text_eq s.token [] ≡ false
            → status_member st (codes "authenticated") ≡ some v
            → is_false v ≡ true
            → (s'.token ≡ []) × (s'.stored_token ≡ none))
  boot_status-token st s = (
    boot_status-keeps st s,
    λ v ok signed_in said gone. boot_status-clears st s v ok signed_in said gone,
  )
