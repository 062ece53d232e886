-- ===== src/Fix/Wizard/Interleavings.antt =====
-- What the user can do between a repair request and its answer.
use netcheck.Common.{ℕ, some, List, [], ◌∷◌, ◌≡◌, ◌≢◌, Text, get_elem?}
use netcheck.Json.{Members}
use netcheck.Fix.Wizard.{
  FixCtx, Form, Request, Wizard, confirm, running, open_fix, close_fix, submit, answer,
}

-- What the user does while a request waits; the repair button is there only in the first phase.
pub data UserStep : Wizard → Wizard → Type 0 where
  opens : (w : Wizard) (check_id fixable : Text) → UserStep w (open_fix check_id fixable w)
  closes : (w : Wizard) → UserStep w (close_fix w)
  submits :
      (w : Wizard) (form : Form) {ctx : FixCtx}
      → w.ctx ≡ some ctx
      → ctx.phase ≡ confirm
      → UserStep w (submit form w)

pub data UserReach : Wizard → Wizard → Type 0 where
  start : {w : Wizard} → UserReach w w
  step : {w w' w'' : Wizard} → UserReach w w' → UserStep w' w'' → UserReach w w''

-- An open wizard is not sent yet, or it runs and a request of its check waits.
pub data Stands (pending : List Request) (c : FixCtx) : Type 0 where
  unsent : c.phase ≡ confirm → Stands pending c
  sent :
      (m : ℕ) (q : Request)
      → c.phase ≡ running
      → get_elem? pending m ≡ some q
      → q.check_id ≡ c.check_id
      → Stands pending c

abbrev pub OpenStands : Wizard → Type 0
OpenStands w = (c : FixCtx) → w.ctx ≡ some c → Stands w.pending c

-- What the user and the backend do when the wizard is left alone while a request waits; the button
-- is there only in the first phase.
pub data PatientStep : Wizard → Wizard → Type 0 where
  opens :
      (w : Wizard) (check_id fixable : Text)
      → w.pending ≡ []
      → PatientStep w (open_fix check_id fixable w)
  closes : (w : Wizard) → w.pending ≡ [] → PatientStep w (close_fix w)
  submits :
      (w : Wizard) (form : Form) {ctx : FixCtx}
      → w.ctx ≡ some ctx
      → ctx.phase ≡ confirm
      → PatientStep w (submit form w)
  answers :
      (w : Wizard) (r : Members) (q : Request) → w.pending ≡ q ∷ [] → PatientStep w (answer 0 r w)

-- A running wizard waits for one request, the one of its check; any other waits for none.
pub data IsInStep : Wizard → Type 0 where
  idle :
      {w : Wizard}
      → w.pending ≡ []
      → ((c : FixCtx) → w.ctx ≡ some c → c.phase ≢ running)
      → IsInStep w
  busy :
      {w : Wizard} {c : FixCtx} {q : Request}
      → w.ctx ≡ some c
      → c.phase ≡ running
      → w.pending ≡ q ∷ []
      → q.check_id ≡ c.check_id
      → IsInStep w
