-- ===== src/App/Login/Lockout.antt =====
-- The countdown of a lockout.
use netcheck.Common.{
  ℕ, ◌+◌, ◌-◌, ◌*◌, ◌≤◌, ◌==◌, true, false, List, [], ◌∷◌, length, ◌≡◌, ◌⊎◌, refl, arith,
  Bool-cases, inl, inr, sym, subst, some, ◌∙◌, ◌/◌,
}
use netcheck.App.Login.{Login, remain, is_over, tick_lockout, fire}

-- While the lockout shows, the button is disabled and a timer waits.
pub record IsGuarded (s : Login) : Type 0 where
  pub disabled : s.locked ≡ true → s.disabled ≡ true
  pub timer : s.locked ≡ true → 1 ≤ s.timers

pub tick_lockout-IsGuarded : (now : ℕ) (s : Login) → IsGuarded (tick_lockout now s)
unfolding tick_lockout
tick_lockout-IsGuarded now s = record { disabled = ground arith; timer = ground arith }

pub fire-IsGuarded : (now : ℕ) (s : Login) → IsGuarded s → IsGuarded (fire now s)
unfolding fire
fire-IsGuarded now s g = elim (Bool-cases (s.timers == 0)) [
  | inl e ↦ simp e g
  | inr e ↦ simp e (tick_lockout-IsGuarded now (record s { timers = s.timers - 1 }))
]

-- The timers go off at these times, one after another.
abbrev pub run_timers : List ℕ → Login → Login
run_timers [] s = s
run_timers (now ∷ times) s = run_timers times (fire now s)

-- At least a second lies between two of them, and before the first.
abbrev pub AreSpaced : ℕ → List ℕ → Type 0
AreSpaced before [] = Unit
AreSpaced before (now ∷ times) = (before + 1000 ≤ now) × AreSpaced now times

abbrev IsOpen : Login → Type 0
IsOpen s = (s.locked ≡ false) × (s.disabled ≡ false)

fire-IsOpen : (now : ℕ) (s : Login) → IsOpen s → IsOpen (fire now s)
unfolding fire tick_lockout
fire-IsOpen now s (unlocked, enabled) = ground arith

run_timers-IsOpen : (times : List ℕ) (s : Login) → IsOpen s → IsOpen (run_timers times s)
run_timers-IsOpen [] s ended = ended
run_timers-IsOpen (now ∷ times) s ended =
    run_timers-IsOpen times (fire now s) (fire-IsOpen now s ended)

-- A tick before the end goes on with a timer and the same end; one after the end is the last.
tick-ends :
    (now until : ℕ) (s : Login)
    → s.locked ≡ true
    → s.until ≡ some until
    → until ≤ now
    → IsOpen (tick_lockout now s)
unfolding tick_lockout remain
tick-ends now until s locked at over =
    let none_left : (until - now + 500) / 1000 ≡ 0 = omega arith in
    rw (locked, at, none_left, tick_lockout) (refl, refl)

tick-cases :
    (now : ℕ) (s : Login)
    → s.locked ≡ true
    → IsOpen (tick_lockout now s)
      ⊎ (((tick_lockout now s).locked ≡ true)
          × (1 ≤ (tick_lockout now s).timers)
          × ((tick_lockout now s).until ≡ s.until))
unfolding tick_lockout
tick-cases now s locked = elim (Bool-cases (is_over (remain s.until now))) [
  | inl e ↦ inl (ground arith)
  | inr e ↦ inr (ground arith)
]

fire-waiting :
    (now : ℕ) (s : Login)
    → 1 ≤ s.timers
    → fire now s ≡ tick_lockout now (record s { timers = s.timers - 1 })
unfolding fire
fire-waiting now s waits = ground arith

run-ends :
    (before now until : ℕ) (times : List ℕ) (s : Login)
    → s.locked ≡ true
    → s.until ≡ some until
    → 1 ≤ s.timers
    → AreSpaced before (now ∷ times)
    → until ≤ before + 1000 * (1 + length times)
    → IsOpen (run_timers (now ∷ times) s)
run-ends before now until [] s locked at waits (later, _) over = rw (fire-waiting now s waits) (
    tick-ends now until (record s { timers = s.timers - 1 }) locked at (omega (arith, later, over)))
run-ends before now until (next ∷ times) s locked at waits (later, spaced) over =
    let s' = record s { timers = s.timers - 1 } in
    subst (λ x. IsOpen (run_timers (next ∷ times) x)) (sym (fire-waiting now s waits))
      (elim (tick-cases now s' locked) [
        | inl ended ↦ run_timers-IsOpen (next ∷ times) (tick_lockout now s') ended
        | inr (still, waits', same) ↦
            run-ends now next until times (tick_lockout now s') still (same ∙ at) waits' spaced
              (omega (arith, later, over))
      ])

-- From any state in which the lockout shows with a timer and with a time of its end that is a
-- number, whatever is left of it: when the timers go
-- off at least a second apart, at least one and no fewer than there are seconds left, the lockout is
-- over behind the last of them and the button is enabled.
pub lockout_ends :
    (before until : ℕ) (times : List ℕ) (s : Login)
    → IsGuarded s
    → s.locked ≡ true
    → s.until ≡ some until
    → AreSpaced before times
    → 1 ≤ length times
    → until ≤ before + 1000 * length times
    → ((run_timers times s).locked ≡ false) × ((run_timers times s).disabled ≡ false)
lockout_ends before until [] s guarded locked at spaced some_time over =
    absurd (omega (arith, some_time))
lockout_ends before until (now ∷ times) s guarded locked at spaced some_time over =
    run-ends before now until times s locked at (guarded.timer locked) spaced (omega (arith, over))
