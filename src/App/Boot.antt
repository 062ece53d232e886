-- ===== src/App/Boot.antt =====
-- webui/assets/app.js, `boot`, `retryBoot`, `doLogout`, and the loaders that `boot`
-- waits for. A function that waits for the backend is cut at its waits: each part takes the answer.
-- An answer is the object that a request of webui/assets/api.js gives.
pub mod Status
pub mod Logout
use netcheck.Common.{
  ℕ, Bool, true, false, not, ◌&&◌, ◌||◌, Option, none, some, List, [], ◌∷◌, Text, codes, text_eq,
  if◌then◌else◌,
}
use netcheck.Json.{
  Json, null, bool, num, other_num, str, arr, obj, Members, get_member, is_num, is_false, truthy,
  or_value,
}
use netcheck.App.{State, set_token, clear_token}
use netcheck.App.Router.{render, nav, Load}

-- `value.name`: `none` is the TypeError at null; a value that is no object has no members.
unfoldable pub member_of : Option Json → Text → Option (Option Json)
member_of none name = none
member_of (some null) name = none
member_of (some (obj ms)) name = some (get_member name ms)
member_of (some _) name = some none

-- `value?.name`
unfoldable pub optional_member : Option Json → Text → Option Json
optional_member (some (obj ms)) name = get_member name ms
optional_member (some null) name = none
optional_member (some _) name = none
optional_member none name = none

abbrev pub code_is : ℕ → Members → Bool
code_is n r = is_num n (get_member (codes "code") r)

value_of : Option Json → Json
value_of (some v) = v
value_of none = null

-- How a part of `boot` ends: it returned, it waits for the loaders of the dashboard, or it threw.
pub data Outcome : Type 0 where
  returned waiting threw : State → Outcome

pub state_of : Outcome → State
state_of (returned s) = s
state_of (waiting s) = s
state_of (threw s) = s

-- `state.page = "login"; state.bootError = …; render(); return;`
show_boot_error : Json → State → State
show_boot_error message s = render (record s { page = codes "login"; boot_error = message })

module _ (session_text unreachable_text : Text) where
  -- The rest of `boot` once the tokens agree: `if (API.token) { … } else { … }`.
  enter : Members → State → Outcome
  enter st s =
      if text_eq s.token []
      then returned (render (record s { page = codes "login" }))
      else waiting (record s {
        user =
            or_value (optional_member (get_member (codes "data") st) (codes "username"))
              (str (codes "user"));
      })

  -- `if (API.token && st.data.authenticated === false) API.clearToken();`
  keep_or_clear : Members → State → Outcome
  keep_or_clear st s =
      if text_eq s.token []
      then enter st s
      else elim (member_of (get_member (codes "data") st) (codes "authenticated")) [
        | none ↦ threw s
        | some authenticated ↦ enter st (if is_false authenticated then clear_token s else s)
      ]

  -- `if (st.code===0 && st.data.initialized===false && !API.token) …`, the code being 0.
  initialize_or : Members → State → Outcome
  initialize_or st s = elim (member_of (get_member (codes "data") st) (codes "initialized")) [
    | none ↦ threw s
    | some initialized ↦
        if is_false initialized && text_eq s.token []
        then returned (render (record s { page = codes "init" }))
        else keep_or_clear st s
  ]

  -- `boot` from the answer of `authStatus` on.
  unfoldable pub boot_status : Members → State → Outcome
  unfolding show_boot_error initialize_or keep_or_clear enter
  boot_status st s =
      if code_is 5001 st
      then returned (show_boot_error (str session_text) s)
      else if not (code_is 0 st)
      then returned
          (show_boot_error (or_value (get_member (codes "message") st) (str unreachable_text)) s)
      else initialize_or st (record s { boot_error = str [] })

-- `loadInterfaces`
unfoldable pub load_interfaces : Members → State → State
unfolding value_of
load_interfaces r s =
    let s' = record s { nics = get_member (codes "data") r } in
    let shown = text_eq s.page (codes "dashboard") || text_eq s.page (codes "interfaces") in
    if code_is 0 r then (if shown then render s' else s') else s

-- `loadSettings`: the settings, then the version.
unfoldable pub load_settings : Members → Members → State → State
unfolding value_of
load_settings r v s =
    let s' =
      if code_is 0 r then record s { settings = value_of (get_member (codes "data") r) } else s in
    if code_is 0 v then record s' { version = value_of (get_member (codes "data") v) } else s'

-- `loadDashboard`, where the interfaces are answered first.
unfoldable pub load_dashboard : Members → Members → Members → State → State
unfolding load_interfaces load_settings
load_dashboard interfaces settings version s =
    render (load_settings settings version (load_interfaces interfaces s))

-- The end of `boot` behind `loadDashboard`.
unfoldable pub boot_loaded : Members → Members → Members → State → State
unfolding load_dashboard
boot_loaded interfaces settings version s = render (load_dashboard interfaces settings version s)

-- `retryBoot` up to its `boot()`.
unfoldable pub retry_boot : State → State
retry_boot s = render (record s { boot_error = str [] })

-- `await API.logout(); API.clearToken(); nav("login");`, from the answer on; the modal that is closed
-- behind it is not part of the state.
unfoldable pub do_logout : State → State × List Load
do_logout s = nav (codes "login") (clear_token s)
