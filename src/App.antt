-- ===== src/App.antt =====
-- webui/assets/app.js: the state of the page, its router, and the start of a session.
pub mod Router
pub mod Boot
pub mod Login
mod Tests
use netcheck.Common.{
  ℕ, Bool, true, false, not, ◌&&◌, ◌||◌, Option, none, some, List, [], ◌∷◌, Text, codes, text_eq,
  any,
}
use netcheck.Json.{Json}

pub data View : Type 0 where
  login init forgot dashboard interfaces diagnose settings about history tools monitor snapshots :
      View
  security : View

-- What `render` last put into the page: the view, and whether the navigation stands round it.
pub record Screen : Type 0 where
  pub view : View
  pub in_shell : Bool

-- The parts of `state`, of `API` and of the browser that the router and the session read or write.
pub record State : Type 0 where
  pub page : Text
  pub user : Json
  pub version : Json
  pub nics : Option Json
  pub settings : Json
  pub boot_error : Json
  pub token : Text  -- API.token
  pub stored_token : Option Text  -- sessionStorage "nc-token"
  pub hash : Text  -- location.hash
  pub hash_changes : ℕ  -- hashchange events that wait to be delivered
  pub screen : Option Screen

-- `["login","init","forgot"].includes(page)`
unfoldable pub is_auth : Text → Bool
is_auth page = any (λ p. text_eq p page) (codes "login" ∷ codes "init" ∷ codes "forgot" ∷ [])

-- `API.setToken`, `API.clearToken`
unfoldable pub set_token : Text → State → State
set_token tk s = record s { token = tk; stored_token = some tk }

unfoldable pub clear_token : State → State
clear_token s = record s { token = []; stored_token = none }
