-- ===== src/Diag/Run/Bounds.antt =====
-- How many requests a run of the diagnosis sends, and what it shows when no report comes.
use netcheck.Common.{
  ℕ, zero, suc, ◌+◌, ◌≤◌, false, Option, List, ◌∷◌, ◌≡◌, refl, codes, arith, Option-cases,
  Bool-cases, inl, inr, ap, length, ◌∙◌,
}
use netcheck.Json.{Members, get_member, Json}
use netcheck.App.Boot.{member_of, code_is}
use netcheck.Diag.Run.{
  Request, diag_run, diag_report, complete, Diagnosis, score_of, Ended, returned, threw, run_diag,
}
use netcheck.Diag.Run.Polls.{
  AllWait, End, reported, failed, gave_up, Asks, reports, breaks, gives_up, asked_times, concluded,
  IsStarted, run_diag-Asks,
}

abbrev pub state_of : Ended → Diagnosis
state_of (returned s) = s
state_of (threw s) = s

length-asked_times :
    (n : ℕ) (q : Request) (before : List Request)
    → length (asked_times n q before) ≡ n + length before
length-asked_times zero q before = omega arith
length-asked_times (suc n) q before = omega (arith, length-asked_times n q (q ∷ before))

Asks-bound :
    {answers : ℕ → Members} {rounds n : ℕ} {end : End} → Asks answers rounds n end → n ≤ rounds
Asks-bound (reports n below all at) = omega (arith, below)
Asks-bound (breaks n below all at) = omega (arith, below)
Asks-bound (gives_up all) = omega arith

concluded-asked :
    (job : Option Json) (n : ℕ) (end : End) (s : Diagnosis)
    → length (state_of (concluded job n end s)).asked ≡ n + length (diag_run ∷ s.asked)
concluded-asked job n (reported report) s =
    length-asked_times n (diag_report job) (diag_run ∷ s.asked)
concluded-asked job n failed s = length-asked_times n (diag_report job) (diag_run ∷ s.asked)
concluded-asked job n gave_up s = length-asked_times n (diag_report job) (diag_run ∷ s.asked)

started-bound :
    (r : Members) (answers : ℕ → Members) (s : Diagnosis) {job : Option Json}
    → IsStarted r job
    → length (state_of (run_diag r answers s)).asked ≤ length s.asked + 121
started-bound r answers s {job} h =
    let (n, end, asks, e) = run_diag-Asks r answers s h in
    let asked = ap (λ ended. length (state_of ended).asked) e in
    omega (arith, asked, concluded-asked job n end s, Asks-bound asks)

-- Whatever the backend answers, an error, an endless run or a wrong object too: a run sends at most
-- 121 requests.
run_diag-bound :
    (r : Members) (answers : ℕ → Members) (s : Diagnosis)
    → length (state_of (run_diag r answers s)).asked ≤ length s.asked + 121
unfolding run_diag
run_diag-bound r answers s = elim (Bool-cases (code_is 0 r)) [
  | inr e ↦ rw (e, run_diag) (omega arith)
  | inl e ↦ elim (Option-cases (member_of (get_member (codes "data") r) (codes "job_id"))) [
    | inl nothing ↦ rw (e, nothing, run_diag) (omega arith)
    | inr (job, at) ↦ started-bound r answers s {job = job} (record { code = e; at = at })
  ]
]

Asks-all :
    {answers : ℕ → Members} {n : ℕ} {end : End}
    → AllWait 120 answers
    → Asks answers 120 n end
    → (n ≡ 120) × (end ≡ gave_up)
Asks-all all (reports n below before at) = absurd (ground (arith, all n below, at))
Asks-all all (breaks n below before at) = absurd (ground (arith, all n below, at))
Asks-all all (gives_up before) = (refl, refl)

-- When the backend starts the job and all the 120 answers are errors or of a running job: the report
-- stays what it was before the run, the button is enabled, and the toast says that the diagnosis is
-- complete, with the score of that earlier report.
pub run_diag_timeout :
    (r : Members) (answers : ℕ → Members) (s : Diagnosis) {job : Option Json}
    → IsStarted r job
    → AllWait 120 answers
    → ((state_of (run_diag r answers s)).report ≡ s.report)
      × ((state_of (run_diag r answers s)).running ≡ false)
      × ((state_of (run_diag r answers s)).toasts ≡ complete (score_of s.report) ∷ s.toasts)
run_diag_timeout r answers s {job} h all =
    let (n, end, asks, e) = run_diag-Asks r answers s h in
    let (_, gave) = Asks-all all asks in
    let stale = e ∙ ap (λ x. concluded job n x s) gave in
    (
      ap (λ x. (state_of x).report) stale,
      ap (λ x. (state_of x).running) stale,
      ap (λ x. (state_of x).toasts) stale,
    )
