-- ===== src/Monitor/Enabled.antt =====
-- A disabled button of the monitor becomes enabled again.
use netcheck.Common.{
  ℕ, Bool, true, false, some, List, [], ◌∷◌, ◌≡◌, refl, ◌∙◌, inl, inr, get_elem?, count, arith,
  Bool-cases, ap, ◌≤◌, suc,
}
use netcheck.Json.{Members}
use netcheck.Monitor.{Task, toggle, sample, sample_load, load, Monitor, on_answer, answer, answered}
use netcheck.Monitor.Steps.{is_toggle, toggle_answer_lem, IsBalanced, Reach, Reach-IsBalanced}

-- A member that the test picks stands at some place.
module _ {ℓ} {A : Type ℓ} (p : A → Bool) where
  count-get_elem? :
      (xs : List A) → 1 ≤ count p xs → (n : ℕ) × (x : A) × (get_elem? xs n ≡ some x) × (p x ≡ true)
  count-get_elem? [] h = absurd (omega (arith, h))
  count-get_elem? (x ∷ xs) h = elim (Bool-cases (p x)) [
    | inl e ↦ (0, x, refl, e)
    | inr e ↦
        let (n, y, there, picked) = count-get_elem? xs (ground arith) in (suc n, y, there, picked)
  ]

answer-at :
    (n : ℕ) (r a : Members) (s : Monitor) {task : Task}
    → get_elem? s.tasks n ≡ some task
    → answer n r a s ≡ on_answer task r a (answered n s)
unfolding answer
answer-at n r a s h = rw (h, answer) refl

toggle_answered :
    (task : Task) (r a : Members) (s : Monitor)
    → is_toggle task ≡ true
    → (on_answer task r a s).toggling ≡ false
unfolding on_answer
toggle_answered (toggle asked) r a s h = (toggle_answer_lem asked r s).1
toggle_answered sample r a s h = ground arith
toggle_answered (sample_load days) r a s h = ground arith
toggle_answered (load days) r a s h = ground arith

-- In every state that is reached so, when the button that pauses monitoring is disabled, a request of
-- its own waits, and any answer to it, an error or an object of the wrong form too, enables the button.
pub toggle_enabled :
    {s s' : Monitor}
    → IsBalanced s
    → Reach s s'
    → s'.toggling ≡ true
    → (n : ℕ) × ((r a : Members) → (answer n r a s').toggling ≡ false)
toggle_enabled {s' = s'} b reach on =
    let toggles = (Reach-IsBalanced b reach).toggles in
    let (n, task, there, picked) = count-get_elem? is_toggle s'.tasks (ground arith) in
    (
      n,
      λ r a.
          ap (λ x. x.toggling) (answer-at n r a s' there)
          ∙ toggle_answered task r a (answered n s') picked,
    )
