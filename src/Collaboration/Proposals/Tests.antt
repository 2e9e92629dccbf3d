-- ===== src/Collaboration/Proposals/Tests.antt =====
-- A submission to the protected branch, at the state of the fixtures.
use unifold.Prelude.{◌≡◌, refl, some, [], text, text_eq, get, get-first}
use unifold.Collaboration.Proposals.{submit_proposal}
use unifold.Collaboration.Proposals.Laws.{submit_proposal-Unmoved}
use unifold.Collaboration.Fixtures.{host, author, submission, live_branch, working}

submit_proposal-Unmoved_example :
    get (text "live") (submit_proposal host (submission (text "live")) author working).1.branches
    ≡ some live_branch
submit_proposal-Unmoved_example =
    submit_proposal-Unmoved host (submission (text "live")) author (text "live") live_branch refl
      working (get-first (text "live") live_branch [])
