-- ===== src/Diag/Run.antt =====
-- webui/assets/app.js, `runDiag`: it starts a diagnosis and asks for its report every 700 ms, at most
-- 120 times. The answers to the questions are a sequence; the waits between them are left out.
pub mod Polls
pub mod Bounds
mod Tests
use netcheck.Common.{
  ℕ, zero, suc, ◌+◌, Bool, true, false, Option, none, some, List, [], ◌∷◌, Text, codes, text_eq,
  if◌then◌else◌,
}
use netcheck.Json.{Json, null, str, Members, get_member, is_str}
use netcheck.App.Boot.{member_of, optional_member, code_is}

pub data Request : Type 0 where
  diag_run : Request
  diag_report : Option Json → Request

pub data Toast : Type 0 where
  complete : Json → Toast  -- the score
  refused : Option Json → Toast  -- r.message

-- The parts of `state` that the run uses, the requests that were sent, and the toasts, the last first.
pub record Diagnosis : Type 0 where
  pub running : Bool
  pub report : Option Json
  pub page : Text
  pub asked : List Request
  pub toasts : List Toast

-- `value ?? "?"`
score_or : Option Json → Json
score_or none = str (codes "?")
score_or (some null) = str (codes "?")
score_or (some score) = score

-- `state.diagReport?.score ?? "?"`
unfoldable pub score_of : Option Json → Json
unfolding score_or
score_of report = score_or (optional_member report (codes "score"))

-- What an answer to `API.diagReport` makes of the loop: another round, its end with the report, or a
-- TypeError where `rr.data` is null or missing.
pub data Poll : Type 0 where
  wait broken : Poll
  done : Option Json → Poll

unfoldable pub poll_answer : Members → Poll
poll_answer rr =
    if code_is 0 rr
    then elim (member_of (get_member (codes "data") rr) (codes "state")) [
      | none ↦ broken
      | some job_state ↦
          if is_str (codes "running") job_state
          then wait
          else elim (member_of (get_member (codes "data") rr) (codes "report")) [
            | none ↦ broken
            | some report ↦ done report
          ]
    ]
    else wait

pub data Ended : Type 0 where
  returned threw : Diagnosis → Ended

-- `for (let i=0;i<120;i++) { … }`, with the rounds that are left and the answers to come.
poll : Option Json → ℕ → (ℕ → Members) → Diagnosis → Ended
unfolding poll_answer
poll job zero answers s = returned s
poll job (suc left) answers s =
    let s' = record s { asked = diag_report job ∷ s.asked } in
    let later = poll job left (λ n. answers (suc n)) s' in
    elim (poll_answer (answers 0)) [
      | wait ↦ later
      | broken ↦ threw s'
      | done report ↦ returned (record s' { report = report })
    ]

-- `state.diagRunning = false; state.page = "diagnose"; toast(…)`
finish : Ended → Ended
unfolding score_of
finish (threw s) = threw s
finish (returned s) = returned (record s {
  running = false;
  page = codes "diagnose";
  toasts = complete (score_of s.report) ∷ s.toasts;
})

-- `runDiag`, given the answer to `API.diagRun` and those to `API.diagReport`.
unfoldable pub run_diag : Members → (ℕ → Members) → Diagnosis → Ended
unfolding poll finish
run_diag r answers s =
    let started = record s { running = true; asked = diag_run ∷ s.asked } in
    if code_is 0 r
    then elim (member_of (get_member (codes "data") r) (codes "job_id")) [
      | none ↦ threw started
      | some job ↦ finish (poll job 120 answers started)
    ]
    else returned (record started {
      running = false;
      toasts = refused (get_member (codes "message") r) ∷ s.toasts;
    })
