-- ===== src/Fix/Wizard.antt =====
-- webui/assets/app.js, `fixCtx`, `openFix`, `closeFix` and `doFix`. `doFix` waits for the backend's
-- answer; its two parts are two steps, and what the user does in between comes between them. What
-- `renderModal` shows is a function of the context and is left out.
pub mod Servers
pub mod Submission
pub mod Interleavings
pub mod Patience
use netcheck.Common.{
  ℕ, Bool, true, false, not, ◌&&◌, ◌||◌, Option, none, some, List, [], ◌∷◌, ◌++◌, Text, codes,
  text_eq, trim, is_space, ◌==◌, if◌then◌else◌, suc, remove_at,
}
use netcheck.Json.{Members, get_member, is_num}

pub data Phase : Type 0 where
  confirm running done : Phase

pub record FixCtx : Type 0 where
  pub check_id : Text
  pub fixable : Text
  pub phase : Phase
  pub result : Option Members

-- The form as it stands when the button is pressed; a field that is not shown is `none`.
pub record Form : Type 0 where
  pub confirmed : Bool
  pub dns : Option Text
  pub gateway : Option Text

pub record Params : Type 0 where
  pub dns : Option (List Text)
  pub gateway : Option Text

-- A request of `API.fix` that is sent and not yet answered.
pub record Request : Type 0 where
  pub check_id : Text
  pub params : Params

pub data Toast : Type 0 where
  confirm_first dns_required gateway_required : Toast

pub record Wizard : Type 0 where
  pub ctx : Option FixCtx
  pub pending : List Request
  pub toasts : List Toast
  pub reloads : ℕ  -- calls of `loadInterfaces`
  pub errors : ℕ  -- TypeErrors that `doFix` ended with

unfoldable pub open_fix : Text → Text → Wizard → Wizard
open_fix check_id fixable w = record w {
  ctx = some (record { check_id = check_id; fixable = fixable; phase = confirm; result = none });
}

unfoldable pub close_fix : Wizard → Wizard
close_fix w = record w { ctx = none }

-- A character of `/[\s,;]+/`.
abbrev pub is_separator : ℕ → Bool
is_separator c = is_space c || (c == b',' || c == b';')

-- The current word joins the words when it is not empty.
abbrev pub push_word : Text → List Text → List Text
push_word [] ws = ws
push_word (c ∷ cs) ws = (c ∷ cs) ∷ ws

-- `.split(/[\s,;]+/).filter(Boolean)`: the word that is being read, and the words behind it.
unfoldable pub words : Text → Text × List Text
words [] = ([], [])
words (c ∷ s) =
    let (w, ws) = words s in if is_separator c then ([], push_word w ws) else (c ∷ w, ws)

unfoldable pub servers_of : Text → List Text
unfolding words
servers_of s = push_word (words s).0 (words s).1

-- `$("#fixDns")?.value.split(…).filter(Boolean) || []`
unfoldable pub dns_param : Form → List Text
dns_param form = elim form.dns [ some s ↦ servers_of s | none ↦ [] ]

-- `$("#fixGateway")?.value.trim() || ""`
unfoldable pub gateway_param : Form → Text
gateway_param form = elim form.gateway [ some s ↦ trim s | none ↦ [] ]

-- The parameters, or the toast of the test that fails.
pub data Checked : Type 0 where
  accepted : Params → Checked
  rejected : Toast → Checked

with_dns : List Text → Params → Checked
with_dns [] params = rejected dns_required
with_dns (d ∷ ds) params = accepted (record params { dns = some (d ∷ ds) })

with_gateway : Text → Params → Checked
with_gateway [] params = rejected gateway_required
with_gateway (g ∷ gs) params = accepted (record params { gateway = some (g ∷ gs) })

and_then : Checked → (Params → Checked) → Checked
and_then (rejected toast) k = rejected toast
and_then (accepted params) k = k params

abbrev pub no_params : Params
no_params = record { dns = none; gateway = none }

-- The tests of `doFix`, in their order.
unfoldable pub check_form : Text → Form → Checked
unfolding with_dns with_gateway and_then
check_form fixable form =
    let first =
      if text_eq fixable (codes "fix-dns")
      then with_dns (dns_param form) no_params
      else accepted no_params in
    let second = λ (params : Params).
      if text_eq fixable (codes "fix-gateway")
      then with_gateway (gateway_param form) params
      else accepted params in
    if not form.confirmed then rejected confirm_first else and_then first second

-- `doFix` up to its wait, behind its tests.
pub send : FixCtx → Checked → Wizard → Wizard
send ctx (rejected toast) w = record w { toasts = toast ∷ w.toasts }
send ctx (accepted params) w = record w {
  ctx = some (record ctx { phase = running });
  pending = w.pending ++ (record { check_id = ctx.check_id; params = params } ∷ []);
}

unfoldable pub submit : Form → Wizard → Wizard
unfolding send
submit form w = elim w.ctx [
  | none ↦ record w { errors = suc w.errors }
  | some ctx ↦ send ctx (check_form ctx.fixable form) w
]

-- `doFix` from the answer to the request at place `n` on: `fixCtx.phase = "done"` throws when the
-- wizard was closed, and writes to whatever context is there otherwise.
unfoldable pub answer : ℕ → Members → Wizard → Wizard
answer n r w =
    let w' = record w { pending = remove_at n w.pending } in
    elim w.ctx [
      | none ↦ record w' { errors = suc w.errors }
      | some ctx ↦
          let s = record w' { ctx = some (record ctx { phase = done; result = some r }) } in
          if is_num 0 (get_member (codes "code") r) then record s { reloads = suc w.reloads } else s
    ]
