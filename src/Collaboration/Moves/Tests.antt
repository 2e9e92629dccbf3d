-- ===== src/Collaboration/Moves/Tests.antt =====
-- The theorems on the service's ledger at a new service.
use unifold.Prelude.{◌≡◌, refl, none, some, List, [], ◌∷◌, text, text_eq, get, get-first, unique}
use unifold.Collaboration.Types.{Revision}
use unifold.Collaboration.Requests.{propose, undo}
use unifold.Collaboration.EventLog.{new, capacity_or_default}
use unifold.Collaboration.Support.{default_branch_policy, normalize_branch_policy}
use unifold.Collaboration.State.{
  State, initial_state, initial_revision, new_state, with_log, with_diagnostics, with_policy,
  revision_name, stamp, intervening,
}
use unifold.Collaboration.State.Walk.{EndsRight, intervening-EndsRight}
use unifold.Collaboration.State.Ledger.{ledger, Moves, IsValid}
use unifold.Collaboration.Service.{Incoming, well_formed, malformed, execute}
use unifold.Collaboration.Moves.Service.{
  ServiceCall, executing, branching, serve, serve-IsValid, serve-keeps-revision, execute-Moves,
  new_state-IsValid,
}
use unifold.Collaboration.Fixtures.{
  host, setup, page, author, reviewer, submission, undo_request, empty_log,
}

abbrev opened : State
opened = initial_state host setup empty_log default_branch_policy

opened_lem : new_state host setup ≡ some opened
unfolding new_state with_log with_diagnostics with_policy normalize_branch_policy new
    capacity_or_default unique
opened_lem = refl

opened-IsValid : IsValid (ledger opened)
opened-IsValid = new_state-IsValid host setup opened opened_lem

abbrev calls : List ServiceCall
calls =
    branching (text "draft") (revision_name 1) none
    ∷ executing
        (well_formed
          (propose (record (submission (text "main")) { base_revision = revision_name 1 })))
        author
    ∷ executing (malformed (text "request" ∷ [])) author
    ∷ executing (well_formed (undo (record undo_request { branch_id = text "draft" }))) reviewer
    ∷ branching (text "main") (revision_name 1) none
    ∷ []

serve-IsValid_example : IsValid (ledger (serve host calls opened))
serve-IsValid_example = serve-IsValid host setup opened calls opened_lem

abbrev first_revision : Revision
first_revision =
    initial_revision host (text "tenant") (stamp (revision_name 1) page)
      (record { revision = revision_name 1; sequence = 1 }) 0

first_revision-stored : get (revision_name 1) opened.revisions ≡ some first_revision
unfolding initial_state
first_revision-stored = get-first (revision_name 1) first_revision []

serve-keeps-revision_example :
    get (revision_name 1) (serve host calls opened).revisions ≡ some first_revision
serve-keeps-revision_example =
    serve-keeps-revision host calls opened (revision_name 1) first_revision opened-IsValid
      first_revision-stored

abbrev retitle : Incoming
retitle =
    well_formed (propose (record (submission (text "main")) { base_revision = revision_name 1 }))

execute-Moves_example : Moves (ledger opened) (ledger (execute host retitle author opened).1)
execute-Moves_example = execute-Moves host retitle author opened opened-IsValid

intervening-EndsRight_example :
    let served = serve host calls opened in
    EndsRight served.revisions
      (revision_name 1)
      (revision_name 1)
      (intervening (revision_name 1) (revision_name 1) served)
intervening-EndsRight_example =
    intervening-EndsRight (serve host calls opened) (revision_name 1) (revision_name 1)
      first_revision serve-IsValid_example serve-keeps-revision_example
