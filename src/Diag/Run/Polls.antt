-- ===== src/Diag/Run/Polls.antt =====
-- How the loop of `runDiag` ends, by the first answer that does not ask for another round.
use netcheck.Common.{
  ℕ, zero, suc, ◌<◌, true, false, Option, some, List, ◌∷◌, ◌≡◌, refl, codes, arith, ◌∙◌, ap,
}
use netcheck.Json.{Json, Members, get_member}
use netcheck.App.Boot.{member_of, code_is}
use netcheck.Diag.Run.{
  Request, diag_run, diag_report, complete, Diagnosis, score_of, Poll, wait, broken, done,
  poll_answer, Ended, returned, threw, poll, finish, run_diag,
}

-- The first answers of so many all ask for another round.
abbrev pub AllWait : ℕ → (ℕ → Members) → Type 0
AllWait n answers = (i : ℕ) → i < n → poll_answer (answers i) ≡ wait

-- The end of at most `rounds` questions: the first answer that does not ask for another round brings a
-- report or a TypeError, or there is none.
pub data End : Type 0 where
  reported : Option Json → End
  failed gave_up : End

pub data Asks (answers : ℕ → Members) (rounds : ℕ) : ℕ → End → Type 0 where
  reports :
      (n : ℕ) {report : Option Json}
      → n < rounds
      → AllWait n answers
      → poll_answer (answers n) ≡ done report
      → Asks answers rounds (suc n) (reported report)
  breaks :
      (n : ℕ)
      → n < rounds
      → AllWait n answers
      → poll_answer (answers n) ≡ broken
      → Asks answers rounds (suc n) failed
  gives_up : AllWait rounds answers → Asks answers rounds rounds gave_up

-- The same question, so many times, on top of the requests before.
abbrev pub asked_times : ℕ → Request → List Request → List Request
asked_times zero q before = before
asked_times (suc n) q before = asked_times n q (q ∷ before)

abbrev after_polls : Option Json → ℕ → Diagnosis → Diagnosis
after_polls job n s = record s { asked = asked_times n (diag_report job) s.asked }

abbrev polled : Option Json → ℕ → End → Diagnosis → Ended
polled job n (reported report) s = returned (record (after_polls job n s) { report = report })
polled job n failed s = threw (after_polls job n s)
polled job n gave_up s = returned (after_polls job n s)

wait_first :
    (answers : ℕ → Members) (n : ℕ)
    → poll_answer (answers 0) ≡ wait
    → AllWait n (λ i. answers (suc i))
    → AllWait (suc n) answers
wait_first answers n h all zero below = h
wait_first answers n h all (suc i) below = all i (omega (arith, below))

Asks-later :
    (answers : ℕ → Members) (rounds n : ℕ) (end : End)
    → poll_answer (answers 0) ≡ wait
    → Asks (λ i. answers (suc i)) rounds n end
    → Asks answers (suc rounds) (suc n) end
Asks-later answers rounds _ _ h (reports n below all at) =
    reports (suc n) (omega (arith, below)) (wait_first answers n h all) at
Asks-later answers rounds _ _ h (breaks n below all at) =
    breaks (suc n) (omega (arith, below)) (wait_first answers n h all) at
Asks-later answers rounds _ _ h (gives_up all) = gives_up (wait_first answers rounds h all)

-- The loop asks so many times, for this job, and ends so.
abbrev HasEnd : Option Json → ℕ → (ℕ → Members) → Diagnosis → Type 0
HasEnd job rounds answers s =
    (n : ℕ) × (end : End) × Asks answers rounds n end
    × (poll job rounds answers s ≡ polled job n end s)

abbrev ask_once : Option Json → Diagnosis → Diagnosis
ask_once job s = record s { asked = diag_report job ∷ s.asked }

polled-later :
    (job : Option Json) (n : ℕ) (end : End) (s : Diagnosis)
    → polled job n end (ask_once job s) ≡ polled job (suc n) end s
polled-later job n (reported report) s = refl
polled-later job n failed s = refl
polled-later job n gave_up s = refl

poll-step :
    (job : Option Json) (left : ℕ) (answers : ℕ → Members) (s : Diagnosis) (p : Poll)
    → poll_answer (answers 0) ≡ p
    → HasEnd job left (λ i. answers (suc i)) (ask_once job s)
    → HasEnd job (suc left) answers s
unfolding poll
poll-step job left answers s wait h (n, end, asks, e) =
    (suc n, end, Asks-later answers left n end h asks, rw (h, poll) (e ∙ polled-later job n end s))
poll-step job left answers s broken h later = (
  1,
  failed,
  breaks 0 (omega arith) (λ i below. absurd (omega (arith, below))) h,
  rw (h, poll) refl,
)
poll-step job left answers s (done report) h later = (
  1,
  reported report,
  reports 0 (omega arith) (λ i below. absurd (omega (arith, below))) h,
  rw (h, poll) refl,
)

poll-asks :
    (job : Option Json) (rounds : ℕ) (answers : ℕ → Members) (s : Diagnosis)
    → HasEnd job rounds answers s
unfolding poll
poll-asks job zero answers s =
    (0, gave_up, gives_up (λ i below. absurd (omega (arith, below))), refl)
poll-asks job (suc left) answers s =
    poll-step job left answers s (poll_answer (answers 0)) refl
      (poll-asks job left (λ i. answers (suc i)) (ask_once job s))

abbrev started : Diagnosis → Diagnosis
started s = record s { running = true; asked = diag_run ∷ s.asked }

-- What a run that was started comes to, by the end of its loop.
abbrev pub concluded : Option Json → ℕ → End → Diagnosis → Ended
concluded job n failed s = threw (after_polls job n (started s))
concluded job n (reported report) s = returned (record (after_polls job n (started s)) {
  running = false;
  report = report;
  page = codes "diagnose";
  toasts = complete (score_of report) ∷ s.toasts;
})
concluded job n gave_up s = returned (record (after_polls job n (started s)) {
  running = false;
  page = codes "diagnose";
  toasts = complete (score_of s.report) ∷ s.toasts;
})

finish-polled :
    (job : Option Json) (n : ℕ) (end : End) (s : Diagnosis)
    → finish (polled job n end (started s)) ≡ concluded job n end s
unfolding finish
finish-polled job n (reported report) s = refl
finish-polled job n failed s = refl
finish-polled job n gave_up s = refl

-- The backend started the job: what an answer with code 0 and an object as its `data` says.
pub record IsStarted (r : Members) (job : Option Json) : Type 0 where
  pub code : code_is 0 r ≡ true
  pub at : member_of (get_member (codes "data") r) (codes "job_id") ≡ some job

run_diag-poll :
    (r : Members) (answers : ℕ → Members) (s : Diagnosis) {job : Option Json}
    → IsStarted r job
    → run_diag r answers s ≡ finish (poll job 120 answers (started s))
unfolding run_diag
run_diag-poll r answers s h = rw (h.code, h.at, run_diag) refl

-- A run that the backend started ends after at most 120 questions, all for its job, whatever the
-- answers are: the first answer that is neither an error nor of a running job decides. With its report,
-- the button is enabled and the report is shown with its score. Where its `data` is null or missing
-- the run ends with a TypeError. When no answer decides, the run ends after 120 questions with the
-- report as it was before and the toast that the diagnosis is complete, with that report's score.
pub run_diag-Asks :
    (r : Members) (answers : ℕ → Members) (s : Diagnosis) {job : Option Json}
    → IsStarted r job
    → (n : ℕ) × (end : End) × Asks answers 120 n end
      × (run_diag r answers s ≡ concluded job n end s)
run_diag-Asks r answers s {job} h =
    let (n, end, asks, e) = poll-asks job 120 answers (started s) in
    (n, end, asks, run_diag-poll r answers s h ∙ ap finish e ∙ finish-polled job n end s)
