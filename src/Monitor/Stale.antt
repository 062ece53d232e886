-- ===== src/Monitor/Stale.antt =====
-- Two loads of the monitor's samples, for two ranges, and their answers in either order.
use netcheck.Common.{
  ap, remove_at, get_elem?, ◌++◌, ◌∷◌, refl, ◌∙◌, ℕ, true, Option, some, [], ◌≡◌, codes, arith,
}
use netcheck.Json.{Json, Members, get_member, arr, nil, or_value}
use netcheck.App.Boot.{member_of, code_is}
use netcheck.Monitor.{
  Monitor, answered, load, load_answer, load_alerts, take_settings, settle, on_answer, answer,
  set_monitor_range, load_monitor, days_of,
}

-- An answer with `code` 0 and an object as its `data`, whose `samples` are these.
pub record HasSamples (q : Members) (samples : Option Json) : Type 0 where
  pub code : code_is 0 q ≡ true
  pub at : member_of (get_member (codes "data") q) (codes "samples") ≡ some samples

load_answer-samples :
    (q a : Members) (s : Monitor) {x : Option Json}
    → HasSamples q x
    → ((settle (load_answer q a s)).samples ≡ or_value x (arr nil))
      × ((settle (load_answer q a s)).range ≡ s.range)
unfolding load_answer load_alerts take_settings settle
load_answer-samples q a s h = let code = h.code in let at = h.at in rw (code, at) (ground arith)

load_answer_keeps :
    (q a : Members) (s : Monitor)
    → ((settle (load_answer q a s)).tasks ≡ s.tasks)
      × ((settle (load_answer q a s)).range ≡ s.range)
unfolding load_answer load_alerts take_settings settle
load_answer_keeps q a s = ground arith

answer-load :
    (n : ℕ) (q a : Members) (s : Monitor) {days : ℕ}
    → get_elem? s.tasks n ≡ some (load days)
    → answer n q a s ≡ settle (load_answer q a (answered n s))
unfolding answer on_answer
answer-load n q a s h = rw (h, answer) refl

last_answer :
    (q a q' a' : Members) (s : Monitor) {x : Option Json} {days days' : ℕ}
    → s.tasks ≡ load days ∷ load days' ∷ []
    → HasSamples q x
    → ((answer 0 q a (answer 1 q' a' s)).range ≡ s.range)
      × ((answer 0 q a (answer 1 q' a' s)).samples ≡ or_value x (arr nil))
last_answer q a q' a' s {x} e h =
    let (tasks, range) = load_answer_keeps q' a' (answered 1 s) in
    let s' = settle (load_answer q' a' (answered 1 s)) in
    let (samples, range') = load_answer-samples q a (answered 0 s') h in
    rw
      (
        answer-load 1 q' a' s (ap (λ l. get_elem? l 1) e),
        answer-load 0 q a s' (ap (λ l. get_elem? l 0) (tasks ∙ ap (remove_at 1) e)),
      )
      (range' ∙ range, samples)

-- `setMonitorRange` for one range and then for another, with nothing waiting before.
abbrev pub two_ranges : ℕ → ℕ → Monitor → Monitor
two_ranges days days' s = set_monitor_range days' (set_monitor_range days s)

-- A range is picked, and then another before the first is answered. Both loads succeed, and the second
-- is answered before the first: then the range is the second, and the samples are those that were asked
-- for with the first range. The answer that comes last wins, although it belongs to the older choice.
pub set_monitor_range_stale :
    (days days' : ℕ) (q a q' a' : Members) (s : Monitor) {x : Option Json}
    → s.tasks ≡ []
    → HasSamples q x
    → ((answer 0 q a (answer 1 q' a' (two_ranges days days' s))).range ≡ days')
      × ((answer 0 q a (answer 1 q' a' (two_ranges days days' s))).samples ≡ or_value x (arr nil))
unfolding set_monitor_range load_monitor
set_monitor_range_stale days days' q a q' a' s e h =
    last_answer q a q' a' (two_ranges days days' s)
      (ap
        (λ l.
          (l ++ (load (days_of (record s { range = days })) ∷ []))
          ++ (load (days_of (record s { range = days' })) ∷ []))
        e)
      h
