-- ===== src/History/Confirmed.antt =====
-- What is deleted is what the user was asked about.
use netcheck.Common.{
  ℕ, true, false, none, some, [], ◌∷◌, ◌++◌, ◌≡◌, refl, inl, inr, arith, text_eq, get_elem?,
  remove_at, Bool-cases, Option-cases, sym, ◌∙◌,
}
use netcheck.Json.{Members}
use netcheck.History.{
  Entry, to_delete, to_clear, Task, deleting, clearing, loading, History, request_history_delete,
  request_history_clear, cancel, do_history_delete, do_history_clear, load_history, tell,
  delete_answer, clear_answer, load_fixes, load_answer, on_answer, answer,
}

-- While the modal asks about an entry, that entry is the one that would be deleted.
pub record IsTrue (s : History) : Type 0 where
  pub asked : (e : Entry) → s.asking ≡ some (to_delete e) → s.ctx ≡ some e

-- What the user does, where the modal allows it, and the answers, in any order.
pub data Step : History → History → Type 0 where
  asks : (e : Entry) (s : History) → Step s (request_history_delete e s)
  asks_all : (s : History) → Step s (request_history_clear s)
  cancels : (s : History) → Step s (cancel s)
  confirms :
      (e : Entry) (s : History)
      → s.asking ≡ some (to_delete e)
      → s.disabled ≡ false
      → Step s (do_history_delete s)
  confirms_all :
      (s : History) → s.asking ≡ some to_clear → s.disabled ≡ false → Step s (do_history_clear s)
  loads : (s : History) → Step s (load_history s)
  answers : (n : ℕ) (r fx : Members) (s : History) → Step s (answer n r fx s)

pub data Reach (s : History) : History → Type 0 where
  here : Reach s s
  next : {t u : History} → Reach s t → Step t u → Reach s u

closed-IsTrue : (s : History) → s.asking ≡ none → IsTrue s
closed-IsTrue s h = record { asked = λ e k. absurd (ground (arith, h, k)) }

same-IsTrue : (s s' : History) → s'.asking ≡ s.asking → s'.ctx ≡ s.ctx → IsTrue s → IsTrue s'
same-IsTrue s s' h k t = record { asked = λ e at. k ∙ t.asked e (sym h ∙ at) }

delete_answer-asking : (r : Members) (s : History) → (delete_answer r s).asking ≡ none
unfolding delete_answer tell load_history
delete_answer-asking r s = ground arith

clear_answer-asking : (r : Members) (s : History) → (clear_answer r s).asking ≡ none
unfolding clear_answer tell load_history
clear_answer-asking r s = ground arith

load_answer_keeps :
    (d fx : Members) (s : History)
    → ((load_answer d fx s).asking ≡ s.asking) × ((load_answer d fx s).ctx ≡ s.ctx)
unfolding load_answer load_fixes
load_answer_keeps d fx s = ground arith

on_answer-IsTrue :
    (task : Task) (r fx : Members) (s : History) → IsTrue s → IsTrue (on_answer task r fx s)
unfolding on_answer
on_answer-IsTrue (deleting e) r fx s t =
    closed-IsTrue (delete_answer r s) (delete_answer-asking r s)
on_answer-IsTrue clearing r fx s t = closed-IsTrue (clear_answer r s) (clear_answer-asking r s)
on_answer-IsTrue loading r fx s t =
    let (asking, ctx) = load_answer_keeps r fx s in same-IsTrue s (load_answer r fx s) asking ctx t

answer-IsTrue : (n : ℕ) (r fx : Members) (s : History) → IsTrue s → IsTrue (answer n r fx s)
unfolding answer
answer-IsTrue n r fx s t = elim (Option-cases (get_elem? s.tasks n)) [
  | inl none_there ↦ rw (none_there, answer) t
  | inr (task, there) ↦
      let s' = record s { tasks = remove_at n s.tasks } in
      rw (there, answer) (on_answer-IsTrue task r fx s' (same-IsTrue s s' refl refl t))
]

request-IsTrue : (e : Entry) (s : History) → IsTrue s → IsTrue (request_history_delete e s)
unfolding request_history_delete
request-IsTrue e s t = elim (Bool-cases (text_eq e.id [])) [
  | inl nameless ↦ rw (nameless, request_history_delete) t
  | inr named ↦
      rw (named, request_history_delete)
        (record { asked = λ e' at. let both : some (to_delete e) ≡ some (to_delete e') = at in cc })
]

do_history_delete_keeps :
    (s : History) → ((do_history_delete s).asking ≡ s.asking) × ((do_history_delete s).ctx ≡ s.ctx)
unfolding do_history_delete
do_history_delete_keeps s = ground arith

Step-IsTrue : {s s' : History} → Step s s' → IsTrue s → IsTrue s'
unfolding request_history_clear cancel do_history_clear load_history
Step-IsTrue (asks e s) t = request-IsTrue e s t
Step-IsTrue (asks_all s) t = record { asked = λ e at. absurd (ground (arith, at)) }
Step-IsTrue (cancels s) t = closed-IsTrue (cancel s) refl
Step-IsTrue (confirms e s at on) t =
    let (asking, ctx) = do_history_delete_keeps s in
    same-IsTrue s (do_history_delete s) asking ctx t
Step-IsTrue (confirms_all s at on) t = same-IsTrue s (do_history_clear s) refl refl t
Step-IsTrue (loads s) t = same-IsTrue s (load_history s) refl refl t
Step-IsTrue (answers n r fx s) t = answer-IsTrue n r fx s t

Reach-IsTrue : {s s' : History} → IsTrue s → Reach s s' → IsTrue s'
Reach-IsTrue t here = t
Reach-IsTrue t (next reach step) = Step-IsTrue step (Reach-IsTrue t reach)

-- From a state without a modal, whatever the user asks for, cancels and confirms, and in whatever order
-- the answers come: when the modal asks about an entry, confirming sends one request, to delete that
-- entry, and disables the button.
pub confirmed_deletes :
    {s s' : History} (e : Entry)
    → s.asking ≡ none
    → Reach s s'
    → s'.asking ≡ some (to_delete e)
    → ((do_history_delete s').tasks ≡ s'.tasks ++ (deleting e ∷ []))
      × ((do_history_delete s').disabled ≡ true)
unfolding do_history_delete
confirmed_deletes {s} {s'} e closed reach at =
    let ctx = (Reach-IsTrue (closed-IsTrue s closed) reach).asked e at in
    rw (ctx, do_history_delete) (refl, refl)
