-- ===== src/History.antt =====
-- webui/assets/app.js, the history: `loadHistory`, `requestHistoryDelete`, `doHistoryDelete`,
-- `requestHistoryClear` and `doHistoryClear`, cut at their awaits. What was sent and is not yet answered
-- is a list, and the answers come in any order.
pub mod Confirmed
mod Tests
use netcheck.Common.{
  ℕ, ◌+◌, Bool, true, false, Option, none, some, List, [], ◌∷◌, ◌++◌, Text, codes, text_eq,
  if◌then◌else◌, get_elem?, remove_at,
}
use netcheck.Json.{Json, Members, get_member, arr, nil, or_value}
use netcheck.App.Boot.{member_of, code_is}

-- `{type, id}`
pub record Entry : Type 0 where
  pub kind : Text
  pub id : Text

-- The modal that asks, in `modalRoot`.
pub data Asking : Type 0 where
  to_delete : Entry → Asking
  to_clear : Asking

-- What waits for an answer.
pub data Task : Type 0 where
  deleting : Entry → Task
  clearing loading : Task

pub data Toast : Type 0 where
  deleted cleared failed : Toast

-- `historyDeleteCtx`, the parts of `state` that the history uses, and the modal with its button.
pub record History : Type 0 where
  pub ctx : Option Entry
  pub asking : Option Asking
  pub disabled : Bool
  pub diags : Option Json
  pub fixes : Json
  pub tasks : List Task
  pub toasts : List Toast
  pub errors : ℕ  -- TypeErrors that a handler ended with

unfoldable pub request_history_delete : Entry → History → History
request_history_delete e s =
    if text_eq e.id []
    then s
    else record s { ctx = some e; asking = some (to_delete e); disabled = false }

unfoldable pub request_history_clear : History → History
request_history_clear s = record s { asking = some to_clear; disabled = false }

-- The overlay is removed, by its button.
unfoldable pub cancel : History → History
cancel s = record s { asking = none }

-- `doHistoryDelete` up to its wait.
unfoldable pub do_history_delete : History → History
do_history_delete s = elim s.ctx [
  | none ↦ s
  | some e ↦ record s { disabled = true; tasks = s.tasks ++ (deleting e ∷ []) }
]

-- `doHistoryClear` up to its wait.
unfoldable pub do_history_clear : History → History
do_history_clear s = record s { disabled = true; tasks = s.tasks ++ (clearing ∷ []) }

-- `loadHistory` up to its wait.
unfoldable pub load_history : History → History
load_history s = record s { tasks = s.tasks ++ (loading ∷ []) }

-- The toast and the load behind the wait of `doHistoryDelete` and `doHistoryClear`.
tell : Toast → Members → History → History
unfolding load_history
tell told r s =
    if code_is 0 r
    then load_history (record s { toasts = told ∷ s.toasts })
    else record s { toasts = failed ∷ s.toasts }

delete_answer : Members → History → History
unfolding tell
delete_answer r s = tell deleted r (record s { ctx = none; asking = none })

clear_answer : Members → History → History
unfolding tell
clear_answer r s = tell cleared r (record s { asking = none })

load_fixes : Members → History → History
load_fixes fx s =
    if code_is 0 fx
    then elim (member_of (get_member (codes "data") fx) (codes "items")) [
      | none ↦ record s { errors = s.errors + 1 }
      | some items ↦ record s { fixes = or_value items (arr nil) }
    ]
    else s

load_answer : Members → Members → History → History
unfolding load_fixes
load_answer d fx s =
    load_fixes fx (if code_is 0 d then record s { diags = get_member (codes "data") d } else s)

-- What an answer does, by what waited for it; only a load has two answers.
on_answer : Task → Members → Members → History → History
unfolding delete_answer clear_answer load_answer
on_answer (deleting e) r fx s = delete_answer r s
on_answer clearing r fx s = clear_answer r s
on_answer loading r fx s = load_answer r fx s

-- The answer to the task at place `n`.
unfoldable pub answer : ℕ → Members → Members → History → History
unfolding on_answer
answer n r fx s = elim (get_elem? s.tasks n) [
  | none ↦ s
  | some task ↦ on_answer task r fx (record s { tasks = remove_at n s.tasks })
]
