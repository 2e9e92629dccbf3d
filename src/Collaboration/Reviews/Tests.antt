-- ===== src/Collaboration/Reviews/Tests.antt =====
-- An approval of the waiting proposal, at the state of the fixtures.
use unifold.Prelude.{◌≡◌, ◌⊎◌, some, [], text, text_eq, get, get-first}
use unifold.Collaboration.Types.{Proposal}
use unifold.Collaboration.Reviews.{approve_proposal}
use unifold.Collaboration.Reviews.Laws.{approve_proposal-IsApproved, IsApproved}
use unifold.Collaboration.Fixtures.{host, reviewer, approval_request, live_branch, working}

approve_proposal-IsApproved_example :
    (get (text "live") (approve_proposal host approval_request reviewer working).1.branches
      ≡ some live_branch)
    ⊎ ((p : Proposal) × (get (text "p1") working.proposals ≡ some p)
        × IsApproved host approval_request reviewer (text "live") live_branch working p)
approve_proposal-IsApproved_example =
    approve_proposal-IsApproved host approval_request reviewer (text "live") live_branch working
      (get-first (text "live") live_branch [])
