-- ===== src/Monitor.antt =====
-- webui/assets/app.js, the monitor: `setMonitorRange`, `toggleMonitor`, `doMonitorSample` and
-- `loadMonitor`. Each is cut at its awaits: what was sent and is not yet answered is a list, and the
-- answers come in any order. Drawing the page is a function of the state and is left out.
pub mod Steps
pub mod Enabled
pub mod Stale
mod Tests
use netcheck.Common.{
  ℕ, Bool, true, false, not, ◌&&◌, Option, none, some, List, [], ◌∷◌, ◌++◌, ◌+◌, Text, codes,
  if◌then◌else◌, remove_at, get_elem?, ◌==◌,
}
use netcheck.Json.{Json, null, num, str, arr, nil, Members, get_member, is_false, or_value, Items}
use netcheck.App.Boot.{member_of, code_is}

-- What waits for an answer: `API.monitorEnabled`, `API.monitorSample`, and the two requests of
-- `loadMonitor`, called by `doMonitorSample` or by anyone else.
pub data Task : Type 0 where
  toggle : Bool → Task
  sample : Task
  sample_load : ℕ → Task
  load : ℕ → Task

pub data Toast : Type 0 where
  resumed paused sampled : Toast
  refused : Option Json → Toast  -- r.message

-- The parts of `state` that the monitor uses; `range` is the number of days, and 0 also stands for
-- `undefined` and NaN.
pub record Monitor : Type 0 where
  pub enabled : Option Json
  pub interval : Option Json
  pub toggling : Bool
  pub sampling : Bool
  pub range : ℕ
  pub samples : Json
  pub alerts : Json
  pub tasks : List Task
  pub toasts : List Toast
  pub errors : ℕ  -- TypeErrors that a handler ended with

abbrev wait_for : Task → Monitor → Monitor
wait_for task s = record s { tasks = s.tasks ++ (task ∷ []) }

abbrev toast : Toast → Monitor → Monitor
toast x s = record s { toasts = x ∷ s.toasts }

abbrev fail : Monitor → Monitor
fail s = record s { errors = s.errors + 1 }

abbrev answered : ℕ → Monitor → Monitor
answered n s = record s { tasks = remove_at n s.tasks }

-- `toggleMonitor` up to its wait.
unfoldable pub toggle_monitor : Monitor → Monitor
toggle_monitor s =
    if s.toggling then s else wait_for (toggle (is_false s.enabled)) (record s { toggling = true })

-- `state.monitorEnabled = r.data.enabled; state.monitorIntervalMin = r.data.interval_min;`, where
-- `none` is the TypeError.
unfoldable pub take_settings : Members → Monitor → Option Monitor
take_settings r s = elim (member_of (get_member (codes "data") r) (codes "enabled")) [
  | none ↦ none
  | some enabled ↦ elim (member_of (get_member (codes "data") r) (codes "interval_min")) [
    | none ↦ none
    | some interval ↦ some (record s { enabled = enabled; interval = interval })
  ]
]

-- The `try` of `toggleMonitor` behind its wait.
toggle_body : Bool → Members → Monitor → Monitor
unfolding take_settings
toggle_body asked r s =
    if code_is 0 r
    then elim (take_settings r s) [
      | none ↦ fail s
      | some s' ↦ toast (if asked then resumed else paused) s'
    ]
    else toast (refused (get_member (codes "message") r)) s

-- `toggleMonitor` behind its wait, with its `finally`.
pub toggle_answer : Bool → Members → Monitor → Monitor
unfolding toggle_body
toggle_answer asked r s = record (toggle_body asked r s) { toggling = false }

-- How a function ends: it returns, or throws a TypeError, with what was written before.
pub data Ended : Type 0 where
  returned threw : Monitor → Ended

load_alerts : Members → Monitor → Ended
load_alerts a s =
    if code_is 0 a
    then elim (member_of (get_member (codes "data") a) (codes "items")) [
      | none ↦ threw s
      | some items ↦ returned (record s { alerts = or_value items (arr nil) })
    ]
    else returned s

-- `loadMonitor` behind its wait: the link quality, then the alerts.
load_answer : Members → Members → Monitor → Ended
unfolding load_alerts take_settings
load_answer q a s =
    if code_is 0 q
    then elim (member_of (get_member (codes "data") q) (codes "samples")) [
      | none ↦ threw s
      | some samples ↦
          let s' = record s { samples = or_value samples (arr nil) } in
          elim (take_settings q s') [ none ↦ threw s' | some s'' ↦ load_alerts a s'' ]
    ]
    else load_alerts a s

-- The end of an event handler.
settle : Ended → Monitor
settle (returned s) = s
settle (threw s) = fail s

-- `state.monitorRange || 7`
unfoldable pub days_of : Monitor → ℕ
days_of s = if s.range == 0 then 7 else s.range

-- `doMonitorSample` up to its wait.
unfoldable pub do_monitor_sample : Monitor → Monitor
do_monitor_sample s = if s.sampling then s else wait_for sample (record s { sampling = true })

stop_sampling : Monitor → Monitor
stop_sampling s = record s { sampling = false }

-- `doMonitorSample` behind its wait: it goes on to wait for `loadMonitor`, or ends with its `finally`.
sample_answer : Members → Monitor → Monitor
unfolding stop_sampling days_of
sample_answer r s =
    if code_is 0 r
    then wait_for (sample_load (days_of s)) s
    else stop_sampling (toast (refused (get_member (codes "message") r)) s)

toast_sampled : Ended → Ended
toast_sampled (returned s) = returned (toast sampled s)
toast_sampled (threw s) = threw s

sample_load_answer : Members → Members → Monitor → Monitor
unfolding load_answer settle stop_sampling toast_sampled
sample_load_answer q a s = stop_sampling (settle (toast_sampled (load_answer q a s)))

-- `loadMonitor` up to its wait, and `setMonitorRange`.
unfoldable pub load_monitor : Monitor → Monitor
unfolding days_of
load_monitor s = wait_for (load (days_of s)) s

unfoldable pub set_monitor_range : ℕ → Monitor → Monitor
unfolding load_monitor
set_monitor_range days s = load_monitor (record s { range = days })

-- What an answer does, by what waited for it. Of the second answer only the two requests of
-- `loadMonitor` make use.
on_answer : Task → Members → Members → Monitor → Monitor
unfolding toggle_answer sample_answer sample_load_answer load_answer settle
on_answer (toggle asked) r a s = toggle_answer asked r s
on_answer sample r a s = sample_answer r s
on_answer (sample_load days) r a s = sample_load_answer r a s
on_answer (load days) r a s = settle (load_answer r a s)

-- The answer to the task at place `n`.
unfoldable pub answer : ℕ → Members → Members → Monitor → Monitor
unfolding on_answer
answer n r a s = elim (get_elem? s.tasks n) [
  | none ↦ s
  | some task ↦ on_answer task r a (answered n s)
]
