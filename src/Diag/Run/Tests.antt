-- ===== src/Diag/Run/Tests.antt =====
-- Runs of the diagnosis with concrete answers.
use netcheck.Common.{zero, suc, ℕ, false, some, [], ◌∷◌, ◌≡◌, refl, codes, length}
use netcheck.Json.{num, str, obj, Members, end, member, get_member, is_num, is_str}
use netcheck.App.Boot.{member_of, optional_member}
use netcheck.Diag.Run.{Diagnosis, run_diag, poll_answer, score_of, complete}
use netcheck.Diag.Run.Polls.{End, Asks, concluded, IsStarted, run_diag-Asks}
use netcheck.Diag.Run.Bounds.{state_of, run_diag_timeout}

abbrev with_data : Members → Members
with_data d = member (codes "code") (num 0) (member (codes "data") (obj d) end)

abbrev job_started : Members
job_started = with_data (member (codes "job_id") (num 7) end)

abbrev still_running : Members
still_running = with_data (member (codes "state") (str (codes "running")) end)

abbrev finished : Members
finished = with_data (
    member (codes "state") (str (codes "done"))
      (member (codes "report") (obj (member (codes "score") (num 91) end)) end))

abbrev earlier : Diagnosis
earlier = record {
  running = false;
  report = some (obj (member (codes "score") (num 64) end));
  page = codes "dashboard";
  asked = [];
  toasts = [];
}

-- The third answer brings the report.
abbrev third : ℕ → Members
third zero = still_running
third (suc zero) = still_running
third _ = finished

job_started-IsStarted : IsStarted job_started (some (num 7))
unfolding is_num get_member member_of
job_started-IsStarted = record { code = refl; at = refl }

third_run : length (state_of (run_diag job_started third earlier)).asked ≡ 4
unfolding run_diag poll_answer is_num get_member member_of is_str
third_run = refl

third_score : (state_of (run_diag job_started third earlier)).toasts ≡ complete (num 91) ∷ []
unfolding run_diag poll_answer score_of is_num get_member member_of is_str optional_member
third_score = refl

run_diag-Asks_example :
    (n : ℕ) × (end : End) × Asks third 120 n end
    × (run_diag job_started third earlier ≡ concluded (some (num 7)) n end earlier)
run_diag-Asks_example = run_diag-Asks job_started third earlier job_started-IsStarted

run_diag_timeout_example :
    ((state_of (run_diag job_started (λ _. still_running) earlier)).report ≡ earlier.report)
    × ((state_of (run_diag job_started (λ _. still_running) earlier)).running ≡ false)
    × ((state_of (run_diag job_started (λ _. still_running) earlier)).toasts
        ≡ complete (score_of earlier.report) ∷ [])
unfolding poll_answer is_num get_member member_of is_str
run_diag_timeout_example =
    run_diag_timeout job_started (λ _. still_running) earlier job_started-IsStarted
      (λ i below. refl)
