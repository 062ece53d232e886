-- ===== src/App/Router.antt =====
-- webui/assets/app.js, `nav`, `route` and `render`.
pub mod Guard
use netcheck.Common.{
  ℕ, suc, ◌==◌, ◌+◌, ◌-◌, Bool, true, false, not, ◌&&◌, ◌||◌, Option, none, some, List, [], ◌∷◌,
  ◌++◌, String, Text, codes, text_eq, starts_with, includes, before, drop, if◌then◌else◌,
}
use netcheck.App.{
  View, login, init, forgot, dashboard, interfaces, diagnose, settings, about, history, tools,
  monitor, snapshots, security, Screen, State, is_auth,
}

-- The table `views`: the sign-in pages first.
app_views : List (String × View)
app_views =
    ("dashboard", dashboard)
    ∷ ("interfaces", interfaces)
    ∷ ("diagnose", diagnose)
    ∷ ("settings", settings)
    ∷ ("about", about)
    ∷ ("history", history)
    ∷ ("tools", tools)
    ∷ ("monitor", monitor)
    ∷ ("snapshots", snapshots)
    ∷ ("security", security)
    ∷ []

view_table : List (String × View)
unfolding app_views
view_table = ("login", login) ∷ ("init", init) ∷ ("forgot", forgot) ∷ app_views

find_view : List (String × View) → Text → View
find_view [] page = dashboard
find_view ((name, v) ∷ views) page =
    let later = find_view views page in if text_eq (codes name) page then v else later

-- `views[state.page] || viewDashboard`
unfoldable pub view_of : Text → View
unfolding view_table find_view
view_of page = find_view view_table page

unfoldable pub render : State → State
render s = record s {
  screen = some (record { view = view_of s.page; in_shell = not (is_auth s.page) });
}

-- The lists that `route` asks the backend for.
pub data Load : Type 0 where
  load_history load_monitor load_snapshots : Load

load_if : Bool → Load → List Load → List Load
load_if true l ls = l ∷ ls
load_if false l ls = ls

-- The three `if (API.token && location.hash.includes(…))`.
unfoldable pub loads : State → List Load
unfolding load_if
loads s =
    let signed_in = not (text_eq s.token []) in
    load_if (signed_in && includes s.hash (codes "history")) load_history (
      load_if (signed_in && includes s.hash (codes "monitor")) load_monitor
        (load_if (signed_in && includes s.hash (codes "snapshots")) load_snapshots []))

-- `(location.hash || "#/dashboard").slice(2).split("?")[0]`
unfoldable pub page_of_hash : Text → Text
page_of_hash hash =
    let h = if text_eq hash [] then codes "#/dashboard" else hash in before b'?' (drop 2 h)

-- The two guards: without a token only the sign-in pages, with one none of them.
unfoldable pub allowed : Text → Text → Text
allowed token page =
    let first = if text_eq token [] && not (is_auth page) then codes "login" else page in
    if not (text_eq token []) && is_auth first then codes "dashboard" else first

unfoldable pub route : State → State × List Load
unfolding loads
route s = (render (record s { page = allowed s.token (page_of_hash s.hash) }), loads s)

-- Setting `location.hash` to another value queues a hashchange event, which calls `route`.
unfoldable pub nav : Text → State → State × List Load
unfolding route
nav page s =
    let wanted = if text_eq s.token [] && not (is_auth page) then codes "login" else page in
    let target = codes "#/" ++ wanted in
    if text_eq s.hash target
    then route s
    else (record s { hash = target; hash_changes = s.hash_changes + 1 }, [])

-- The delivery of a hashchange event, if one waits.
unfoldable pub deliver : State → State × List Load
unfolding route
deliver s =
    if s.hash_changes == 0 then (s, []) else route (record s { hash_changes = s.hash_changes - 1 })
