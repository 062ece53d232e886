-- ===== src/History/Tests.antt =====
-- Deleting an entry of the history while another deletion waits.
use netcheck.Common.{false, true, none, [], ◌∷◌, ◌++◌, ◌≡◌, refl, codes}
use netcheck.Json.{arr, nil, num, Members, member, end, is_num, get_member}
use netcheck.History.{
  Entry, deleting, History, request_history_delete, cancel, do_history_delete, answer,
}
use netcheck.History.Confirmed.{Reach, here, next, asks, confirms, cancels, confirmed_deletes}

abbrev no_history : History
no_history = record {
  ctx = none;
  asking = none;
  disabled = false;
  diags = none;
  fixes = arr nil;
  tasks = [];
  toasts = [];
  errors = 0;
}

abbrev first_entry : Entry
first_entry = record { kind = codes "diag"; id = codes "a" }

abbrev second_entry : Entry
second_entry = record { kind = codes "fix"; id = codes "b" }

abbrev first_asked : History
first_asked = request_history_delete first_entry no_history

-- The first deletion waits, and the second entry is asked about.
abbrev second_asked : History
second_asked = request_history_delete second_entry (cancel (do_history_delete first_asked))

second_asked-Reach : Reach no_history second_asked
unfolding request_history_delete
second_asked-Reach =
    next
      (next
        (next (next here (asks first_entry no_history))
          (confirms first_entry first_asked refl refl))
        (cancels (do_history_delete first_asked)))
      (asks second_entry (cancel (do_history_delete first_asked)))

confirmed_deletes_example :
    ((do_history_delete second_asked).tasks ≡ second_asked.tasks ++ (deleting second_entry ∷ []))
    × ((do_history_delete second_asked).disabled ≡ true)
unfolding request_history_delete
confirmed_deletes_example = confirmed_deletes second_entry refl second_asked-Reach refl

abbrev success : Members
success = member (codes "code") (num 0) end

-- The answer to the first closes the modal that asks about the second.
second_closed : (answer 0 success end second_asked).asking ≡ none
unfolding answer request_history_delete do_history_delete cancel is_num get_member
second_closed = refl
