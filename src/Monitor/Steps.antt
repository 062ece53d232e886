-- ===== src/Monitor/Steps.antt =====
-- The flags of the monitor's buttons and what waits for an answer.
use netcheck.Common.{
  ℕ, Bool, true, false, some, List, [], ◌∷◌, ◌++◌, ◌+◌, ◌≡◌, refl, sym, ◌∙◌, inl, inr,
  if◌then◌else◌, get_elem?, count, count-append, count-remove_at, arith, Bool-cases, Option-cases,
  ap,
}
use netcheck.Json.{Members, is_false}
use netcheck.App.Boot.{code_is}
use netcheck.Monitor.{
  Task, toggle, sample, sample_load, load, Monitor, toggle_monitor, do_monitor_sample, load_monitor,
  set_monitor_range, take_settings, load_alerts, load_answer, settle, on_answer, answer, answered,
  toggle_body, toggle_answer, sample_answer, sample_load_answer, stop_sampling, toast_sampled,
  days_of, Members,
}

abbrev pub is_toggle : Task → Bool
is_toggle (toggle asked) = true
is_toggle _ = false

abbrev pub is_sampling : Task → Bool
is_sampling sample = true
is_sampling (sample_load days) = true
is_sampling _ = false

-- A button is disabled exactly while one request of its own waits, and never more than one does.
pub record IsBalanced (s : Monitor) : Type 0 where
  pub toggles : count is_toggle s.tasks ≡ (if s.toggling then 1 else 0)
  pub samples : count is_sampling s.tasks ≡ (if s.sampling then 1 else 0)

-- The parts that an answer to `loadMonitor` leaves alone.
record Frame (s s' : Monitor) : Type 0 where
  tasks : s'.tasks ≡ s.tasks
  toggling : s'.toggling ≡ s.toggling
  sampling : s'.sampling ≡ s.sampling

take_settings-Frame :
    (r : Members) (s : Monitor) {s' : Monitor} → take_settings r s ≡ some s' → Frame s s'
unfolding take_settings
take_settings-Frame r s h = ground arith

load_alerts-Frame : (a : Members) (s : Monitor) → Frame s (settle (load_alerts a s))
unfolding load_alerts settle
load_alerts-Frame a s = ground arith

load_answer-Frame : (q a : Members) (s : Monitor) → Frame s (settle (load_answer q a s))
unfolding load_answer load_alerts take_settings settle
load_answer-Frame q a s = ground arith

pub toggle_answer_lem :
    (asked : Bool) (r : Members) (s : Monitor)
    → ((toggle_answer asked r s).tasks ≡ s.tasks)
      × ((toggle_answer asked r s).toggling ≡ false)
      × ((toggle_answer asked r s).sampling ≡ s.sampling)
unfolding toggle_answer toggle_body take_settings
toggle_answer_lem asked r s = ground arith

sample_load_answer_lem :
    (q a : Members) (s : Monitor)
    → ((sample_load_answer q a s).tasks ≡ s.tasks)
      × ((sample_load_answer q a s).toggling ≡ s.toggling)
      × ((sample_load_answer q a s).sampling ≡ false)
unfolding sample_load_answer load_answer load_alerts take_settings settle stop_sampling
    toast_sampled
sample_load_answer_lem q a s = ground arith

balance :
    (s : Monitor) (l : List Task) (b c : Bool)
    → (s.tasks ≡ l) × (s.toggling ≡ b) × (s.sampling ≡ c)
    → count is_toggle l ≡ (if b then 1 else 0)
    → count is_sampling l ≡ (if c then 1 else 0)
    → IsBalanced s
balance s l b c (e, f, g) h k = record {
  toggles = ap (count is_toggle) e ∙ h ∙ sym (ap (λ (x : Bool). if x then 1 else 0) f);
  samples = ap (count is_sampling) e ∙ k ∙ sym (ap (λ (x : Bool). if x then 1 else 0) g);
}

sample_answer-IsBalanced :
    (r : Members) (s : Monitor)
    → count is_toggle s.tasks ≡ (if s.toggling then 1 else 0)
    → 1 + count is_sampling s.tasks ≡ (if s.sampling then 1 else 0)
    → IsBalanced (sample_answer r s)
unfolding sample_answer stop_sampling
sample_answer-IsBalanced r s h k = elim (Bool-cases (code_is 0 r)) [
  | inl e ↦ rw e (record {
    toggles = omega (arith, count-append is_toggle s.tasks (sample_load (days_of s) ∷ []));
    samples = omega (arith, count-append is_sampling s.tasks (sample_load (days_of s) ∷ []));
  })
  | inr e ↦ rw e (record { toggles = h; samples = ground arith })
]

-- With the task taken out, its answer restores the balance.
on_answer-IsBalanced :
    (task : Task) (r a : Members) (s : Monitor)
    → (if is_toggle task then 1 else 0) + count is_toggle s.tasks ≡ (if s.toggling then 1 else 0)
    → (if is_sampling task then 1 else 0) + count is_sampling s.tasks
      ≡ (if s.sampling then 1 else 0)
    → IsBalanced (on_answer task r a s)
unfolding on_answer
on_answer-IsBalanced (toggle asked) r a s h k =
    let (tasks, off, same) = toggle_answer_lem asked r s in
    balance (toggle_answer asked r s) s.tasks false s.sampling (tasks, off, same) (ground arith)
      (ground arith)
on_answer-IsBalanced sample r a s h k = sample_answer-IsBalanced r s (ground arith) k
on_answer-IsBalanced (sample_load days) r a s h k =
    let (tasks, same, off) = sample_load_answer_lem r a s in
    balance (sample_load_answer r a s) s.tasks s.toggling false (tasks, same, off) (ground arith)
      (ground arith)
on_answer-IsBalanced (load days) r a s h k =
    let frame = load_answer-Frame r a s in
    balance (settle (load_answer r a s)) s.tasks s.toggling s.sampling
      (frame.tasks, frame.toggling, frame.sampling) (ground arith) (ground arith)

answer-IsBalanced :
    (n : ℕ) (r a : Members) (s : Monitor) → IsBalanced s → IsBalanced (answer n r a s)
unfolding answer
answer-IsBalanced n r a s b = elim (Option-cases (get_elem? s.tasks n)) [
  | inl none_there ↦ rw (none_there, answer) b
  | inr (task, there) ↦
      let toggles = count-remove_at is_toggle n s.tasks there in
      let samples = count-remove_at is_sampling n s.tasks there in
      rw (there, answer)
        (on_answer-IsBalanced task r a (answered n s) (sym toggles ∙ b.toggles)
          (sym samples ∙ b.samples))
]

one_waits : {n : ℕ} {flag : Bool} → n ≡ (if flag then 1 else 0) → flag ≡ false → n + 1 ≡ 1
one_waits h e = ground arith

toggle_monitor-IsBalanced : (s : Monitor) → IsBalanced s → IsBalanced (toggle_monitor s)
unfolding toggle_monitor
toggle_monitor-IsBalanced s b = elim (Bool-cases s.toggling) [
  | inl e ↦ simp e b
  | inr e ↦
      let waits = toggle (is_false s.enabled) in
      balance (toggle_monitor s) (s.tasks ++ (waits ∷ [])) true s.sampling (ground arith)
        (count-append is_toggle s.tasks (waits ∷ []) ∙ one_waits b.toggles e)
        (count-append is_sampling s.tasks (waits ∷ []) ∙ omega (arith, b.samples))
]

do_monitor_sample-IsBalanced : (s : Monitor) → IsBalanced s → IsBalanced (do_monitor_sample s)
unfolding do_monitor_sample
do_monitor_sample-IsBalanced s b = elim (Bool-cases s.sampling) [
  | inl e ↦ simp e b
  | inr e ↦
      balance (do_monitor_sample s) (s.tasks ++ (sample ∷ [])) s.toggling true (ground arith)
        (count-append is_toggle s.tasks (sample ∷ []) ∙ omega (arith, b.toggles))
        (count-append is_sampling s.tasks (sample ∷ []) ∙ one_waits b.samples e)
]

load-IsBalanced :
    (days : ℕ) (s s' : Monitor)
    → (s'.tasks ≡ s.tasks ++ (load days ∷ []))
      × (s'.toggling ≡ s.toggling)
      × (s'.sampling ≡ s.sampling)
    → IsBalanced s
    → IsBalanced s'
load-IsBalanced days s s' same b =
    balance s' (s.tasks ++ (load days ∷ [])) s.toggling s.sampling same
      (omega (arith, count-append is_toggle s.tasks (load days ∷ []), b.toggles))
      (omega (arith, count-append is_sampling s.tasks (load days ∷ []), b.samples))

-- What the user does, and the answers, in any order.
pub data Step : Monitor → Monitor → Type 0 where
  toggles : (s : Monitor) → Step s (toggle_monitor s)
  samples : (s : Monitor) → Step s (do_monitor_sample s)
  loads : (s : Monitor) → Step s (load_monitor s)
  ranges : (s : Monitor) (days : ℕ) → Step s (set_monitor_range days s)
  answers : (s : Monitor) (n : ℕ) (r a : Members) → Step s (answer n r a s)

pub data Reach (s : Monitor) : Monitor → Type 0 where
  here : Reach s s
  next : {t u : Monitor} → Reach s t → Step t u → Reach s u

Step-IsBalanced : {s s' : Monitor} → Step s s' → IsBalanced s → IsBalanced s'
unfolding load_monitor set_monitor_range
Step-IsBalanced (toggles s) b = toggle_monitor-IsBalanced s b
Step-IsBalanced (samples s) b = do_monitor_sample-IsBalanced s b
Step-IsBalanced (loads s) b = load-IsBalanced _ s (load_monitor s) (refl, refl, refl) b
Step-IsBalanced (ranges s days) b =
    load-IsBalanced _ s (set_monitor_range days s) (refl, refl, refl) b
Step-IsBalanced (answers s n r a) b = answer-IsBalanced n r a s b

-- Whatever the user presses and in whatever order the answers come, of any kind: from a state where
-- the two buttons agree with what waits, such as one where nothing waits and both are enabled, each
-- button stays disabled exactly while one request of its own waits, and never two do.
pub Reach-IsBalanced : {s s' : Monitor} → IsBalanced s → Reach s s' → IsBalanced s'
Reach-IsBalanced b here = b
Reach-IsBalanced b (next r step) = Step-IsBalanced step (Reach-IsBalanced b r)
