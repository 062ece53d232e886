-- ===== src/Fix/Wizard/Patience.antt =====
-- A repair that the user waits for.
use netcheck.Common.{
  some, List, [], ◌∷◌, ◌++◌, ◌≡◌, refl, sym, ap, ◌∙◌, inl, inr, Text, arith, subst,
}
use netcheck.Json.{Members}
use netcheck.Fix.Wizard.{
  FixCtx, Form, Request, Wizard, confirm, done, open_fix, close_fix, submit, answer,
}
use netcheck.Fix.Wizard.Interleavings.{PatientStep, IsInStep, idle, busy}
use netcheck.Fix.Wizard.Submission.{submit-Judged}

open_fix-IsInStep :
    (w : Wizard) (check_id fixable : Text) → w.pending ≡ [] → IsInStep (open_fix check_id fixable w)
unfolding open_fix
open_fix-IsInStep w check_id fixable h = idle h (λ c e f. cc)

close_fix-IsInStep : (w : Wizard) → w.pending ≡ [] → IsInStep (close_fix w)
unfolding close_fix
close_fix-IsInStep w h = idle h (λ c e f. cc)

-- What a step must keep.
Keeps : Wizard → Wizard → Type 0
Keeps w w' = IsInStep w' × (w'.errors ≡ w.errors)

append_to_none : (m : List Request) {n : List Request} → m ≡ [] → m ++ n ≡ n
append_to_none m h = rw h refl

submit-Keeps :
    (w : Wizard) (form : Form) (ctx : FixCtx)
    → IsInStep w
    → w.ctx ≡ some ctx
    → ctx.phase ≡ confirm
    → Keeps w (submit form w)
unfolding Keeps
submit-Keeps w form ctx (idle none_waits still) h at_start = elim (submit-Judged ctx form w h) [
  | inl (toast, _, e) ↦ subst (Keeps w) (sym e) (idle none_waits still, refl)
  | inr (params, good, e) ↦
      subst (Keeps w) (sym e) (busy refl refl (append_to_none w.pending none_waits) refl, refl)
]
submit-Keeps w form ctx (busy open_at runs waits same) h at_start = cc

answer-ctx :
    (w : Wizard) (r : Members) (ctx : FixCtx)
    → w.ctx ≡ some ctx
    → (answer 0 r w).ctx ≡ some (record ctx { phase = done; result = some r })
unfolding answer
answer-ctx w r ctx h = rw (h) (ground arith)

answer-rest :
    (w : Wizard) (r : Members) (q : Request) (ctx : FixCtx)
    → w.ctx ≡ some ctx
    → w.pending ≡ q ∷ []
    → ((answer 0 r w).pending ≡ []) × ((answer 0 r w).errors ≡ w.errors)
unfolding answer
answer-rest w r q ctx h k = rw (h, k) (ground arith, ground arith)

answer-Keeps :
    (w : Wizard) (r : Members) (q : Request)
    → IsInStep w
    → w.pending ≡ q ∷ []
    → Keeps w (answer 0 r w)
unfolding Keeps
answer-Keeps w r q (idle none_waits still) h = cc
answer-Keeps w r q (busy {c = ctx} open_at runs waits same) h =
    let (none_waits, same_errors) = answer-rest w r q ctx open_at h in
    (idle none_waits (λ c e f. let shown = answer-ctx w r ctx open_at in cc), same_errors)

-- While the user waits for each repair, the wizard and what waits for an answer stay in step (a
-- running wizard waits for one request, that of its own check; any other waits for none), and no
-- step ends with a TypeError.
pub patient-IsInStep :
    {w w' : Wizard} → PatientStep w w' → IsInStep w → IsInStep w' × (w'.errors ≡ w.errors)
unfolding Keeps open_fix close_fix
patient-IsInStep (PatientStep.opens w check_id fixable h) good =
    (open_fix-IsInStep w check_id fixable h, refl)
patient-IsInStep (PatientStep.closes w h) good = (close_fix-IsInStep w h, refl)
patient-IsInStep (PatientStep.submits w form {ctx = ctx} h k) good =
    submit-Keeps w form ctx good h k
patient-IsInStep (PatientStep.answers w r q h) good = answer-Keeps w r q good h

-- The answer of a wizard in step is shown with the check that was repaired.
answer-own :
    (w : Wizard) (r : Members) (q : Request)
    → IsInStep w
    → w.pending ≡ q ∷ []
    → (fixable : Text) × ((answer 0 r w).ctx
        ≡ some (record { check_id = q.check_id; fixable = fixable; phase = done; result = some r }))
answer-own w r q (idle none_waits still) h = cc
answer-own w r q (busy {c = ctx} open_at runs waits same) h =
    let shown = answer-ctx w r ctx open_at in
    (
      ctx.fixable,
      shown
          ∙ ap (λ (i : Text). some (record ctx { check_id = i; phase = done; result = some r }))
              (sym same ∙ cc),
    )
