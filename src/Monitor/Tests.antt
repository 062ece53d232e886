-- ===== src/Monitor/Tests.antt =====
-- The monitor at concrete answers.
use netcheck.Common.{ℕ, true, false, some, [], ◌≡◌, refl, codes}
use netcheck.Json.{
  Json, null, num, bool, arr, obj, nil, item, Members, end, member, or_value, is_num, get_member,
}
use netcheck.App.Boot.{member_of}
use netcheck.Monitor.{Monitor, toggle_monitor, answer, do_monitor_sample}
use netcheck.Monitor.Steps.{
  IsBalanced, Reach, here, next, toggles, answers, samples, Reach-IsBalanced,
}
use netcheck.Monitor.Enabled.{toggle_enabled}
use netcheck.Monitor.Stale.{HasSamples, set_monitor_range_stale, two_ranges}

abbrev idle : Monitor
idle = record {
  enabled = some (bool true);
  interval = some (num 5);
  toggling = false;
  sampling = false;
  range = 0;
  samples = arr nil;
  alerts = arr nil;
  tasks = [];
  toasts = [];
  errors = 0;
}

idle-IsBalanced : IsBalanced idle
idle-IsBalanced = record { toggles = refl; samples = refl }

abbrev quality : Json → Members
quality sample_of =
    member (codes "code") (num 0)
      (member (codes "data") (obj (member (codes "samples") (arr (item sample_of nil)) end)) end)

abbrev bad_answer : Members
bad_answer = member (codes "code") (num 0) (member (codes "data") null end)

quality-HasSamples : HasSamples (quality (num 30)) (some (arr (item (num 30) nil)))
unfolding is_num get_member member_of
quality-HasSamples = record { code = refl; at = refl }

abbrev pressed : Monitor
pressed = do_monitor_sample (toggle_monitor idle)

pressed-Reach : Reach idle pressed
pressed-Reach = next (next here (toggles idle)) (samples (toggle_monitor idle))

Reach-IsBalanced_example : IsBalanced (answer 0 bad_answer bad_answer pressed)
Reach-IsBalanced_example =
    Reach-IsBalanced idle-IsBalanced (next pressed-Reach (answers pressed 0 bad_answer bad_answer))

toggle_enabled_example : (n : ℕ) × ((r a : Members) → (answer n r a pressed).toggling ≡ false)
unfolding do_monitor_sample toggle_monitor
toggle_enabled_example = toggle_enabled idle-IsBalanced pressed-Reach refl

set_monitor_range_stale_example :
    ((answer 0 (quality (num 30)) end (answer 1 (quality (num 1)) end (two_ranges 30 1 idle))).range
      ≡ 1)
    × ((answer 0
          (quality (num 30))
          end
          (answer 1 (quality (num 1)) end (two_ranges 30 1 idle))).samples
        ≡ or_value (some (arr (item (num 30) nil))) (arr nil))
set_monitor_range_stale_example =
    set_monitor_range_stale 30 1 (quality (num 30)) end (quality (num 1)) end idle refl
      quality-HasSamples

-- A null `data` with code 0 leaves the handler with a TypeError, and the button is enabled.
bad_toggle : (answer 0 bad_answer bad_answer pressed).errors ≡ 1
unfolding answer do_monitor_sample toggle_monitor is_num get_member member_of
bad_toggle = refl
