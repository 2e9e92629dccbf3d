-- ===== src/Collaboration/Presence/Tests.antt =====
-- One actor on the branch `live`.
use unifold.Prelude.{
  ◌≡◌, refl, some, [], ◌∷◌, All, arith, Text, text, text_eq, text_same, Map, get, text_same,
}
use unifold.Collaboration.Types.{Presence}
use unifold.Collaboration.Presence.{presence_key, update, snapshot}
use unifold.Collaboration.Presence.Laws.{
  AllLive, Holds, IsVisible, update-AllLive, snapshot-IsVisible, snapshot-Holds,
}
use unifold.Collaboration.Fixtures.{presence_request, author}

abbrev seen : Presence
seen = record {
  actor_id = text "bob";
  actor_type = author.actor_type;
  branch_id = text "live";
  cursor = presence_request.cursor;
  draft = presence_request.draft;
  expires_at = 40;
  selected_id = presence_request.selected_id;
  tenant_id = text "tenant";
}

abbrev entries : Map Text Presence
entries = (text "old", record seen { expires_at = 5 }) ∷ (text "key", seen) ∷ []

update-AllLive_example :
    AllLive 30 (update presence_request author 30 entries).1
    × (get
          (presence_key (text "tenant") (text "live") (text "ann"))
          (update presence_request author 30 entries).1
        ≡ some (update presence_request author 30 entries).0)
update-AllLive_example = update-AllLive presence_request author 30 entries (omega arith)

snapshot-IsVisible_example :
    All
      (IsVisible (text "tenant") (text "live") 30)
      (snapshot (text "tenant") (text "live") 30 entries).0
snapshot-IsVisible_example = snapshot-IsVisible (text "tenant") (text "live") 30 entries

seen-IsVisible : IsVisible (text "tenant") (text "live") 30 seen
seen-IsVisible = record { live = omega arith; of_tenant = refl; on_branch = refl }

snapshot-Holds_example : Holds seen (snapshot (text "tenant") (text "live") 30 entries).0
unfolding get text_same
snapshot-Holds_example =
    snapshot-Holds (text "tenant") (text "live") 30 entries (text "key") seen refl seen-IsVisible
