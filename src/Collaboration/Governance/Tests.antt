-- ===== src/Collaboration/Governance/Tests.antt =====
-- The approval and the publication of the waiting proposal.
use unifold.Prelude.{◌≡◌, ◌↔◌, true, none, some, text}
use unifold.Collaboration.Governance.{approval_diagnostic, revision_may_publish}
use unifold.Collaboration.Governance.Laws.{
  MayApprove, MayPublish, approval_diagnostic-MayApprove, revision_may_publish-MayPublish,
}
use unifold.Collaboration.Fixtures.{live_branch, waiting, reviewer}

approval_diagnostic-MayApprove_example :
    (approval_diagnostic live_branch waiting reviewer (text "r2") 50 ≡ none)
    ↔ MayApprove live_branch waiting (text "bob") (text "r2") 50
approval_diagnostic-MayApprove_example =
    approval_diagnostic-MayApprove live_branch waiting reviewer (text "r2") 50

revision_may_publish-MayPublish_example :
    (revision_may_publish live_branch (some waiting) (text "r1") ≡ true)
    ↔ MayPublish live_branch (some waiting) (text "r1")
revision_may_publish-MayPublish_example =
    revision_may_publish-MayPublish live_branch (some waiting) (text "r1")
