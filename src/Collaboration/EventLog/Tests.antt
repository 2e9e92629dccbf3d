-- ===== src/Collaboration/EventLog/Tests.antt =====
-- A log of capacity 10 with two events.
use unifold.Prelude.{suc, ◌≡◌, refl, none, some, [], ◌∷◌, ltb, if◌then◌else◌, text}
use unifold.Contracts.Json.{end}
use unifold.Collaboration.Types.{EventType, Status}
use unifold.Collaboration.EventLog.{EventInput, new, append, resume, gap}
use unifold.Collaboration.EventLog.Laws.{IsValid, append-IsValid, new-IsValid, dropped}
use unifold.Collaboration.EventLog.Resume.{resume-history, append_all, after, history}
use unifold.Collaboration.Fixtures.{author, empty_log}

abbrev note : EventInput
note = record {
  actor = author;
  branch_id = none;
  correlation_id = text "c";
  occurred_at = 5;
  payload = end;
  type = EventType.comment_added;
}

new_lem : new 10 ≡ some empty_log
unfolding new
new_lem = refl

append-IsValid_example : IsValid (append note empty_log)
append-IsValid_example = append-IsValid note empty_log (new-IsValid 10 empty_log new_lem)

resume-history_example :
    let held = append_all (note ∷ note ∷ []) empty_log in
    resume (text "tenant") 1 held ≡ (
      if ltb 1 (dropped held) then gap (suc (dropped held)) 2 else record {
        conflicts = [];
        diagnostics = [];
        status = Status.accepted;
        value = some (record {
          latest_sequence = 2;
          messages = after (text "tenant") 1 (history 0 (note ∷ note ∷ []));
          oldest_available_sequence = suc (dropped held);
        });
      })
resume-history_example = resume-history 10 empty_log (note ∷ note ∷ []) (text "tenant") 1 new_lem
