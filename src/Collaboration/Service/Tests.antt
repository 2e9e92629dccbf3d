-- ===== src/Collaboration/Service/Tests.antt =====
-- A submission that is sent twice.
use unifold.Prelude.{◌≡◌, refl, none, some, text, text_eq, text_same, get}
use unifold.Collaboration.Requests.{Env, Request, propose}
use unifold.Collaboration.Support.{replayed}
use unifold.Collaboration.State.{idempotency_conflict}
use unifold.Collaboration.Proposals.{Outcome, submit_proposal}
use unifold.Collaboration.Service.{idempotent}
use unifold.Collaboration.Service.Replay.{idempotent-idempotent, idempotent-conflict}
use unifold.Collaboration.Fixtures.{host, author, submission, working}

abbrev once : Request
once = propose (submission (text "live"))

-- A host that tells the intents of requests apart.
abbrev telling : Env
telling = record host { canonicalize = λ r. elim r [ propose p ↦ some p.intent | _ ↦ none ] }

abbrev rephrased : Request
rephrased = propose (record (submission (text "live")) { intent = text "other" })

abbrev sent : Outcome
sent =
    idempotent telling once author (text "k")
      (submit_proposal telling (submission (text "live")) author) working

idempotent-idempotent_example :
    idempotent telling once author
      (text "k")
      (submit_proposal telling (submission (text "live")) author)
      sent.1
    ≡ (replayed sent.0, sent.1)
unfolding get text_same
idempotent-idempotent_example =
    idempotent-idempotent telling once author (text "k") (text "retitle")
      (submit_proposal telling (submission (text "live")) author) working refl refl

idempotent-conflict_example :
    idempotent telling rephrased author
      (text "k")
      (submit_proposal telling (submission (text "live")) author)
      sent.1
    ≡ (idempotency_conflict, sent.1)
unfolding get text_same
idempotent-conflict_example =
    idempotent-conflict telling once rephrased author (text "k") (text "retitle") (text "other")
      (submit_proposal telling (submission (text "live")) author)
      (submit_proposal telling (submission (text "live")) author) working refl refl refl refl
      (λ h. cc)
