-- ===== src/Outbox/Tests.antt =====
-- The theorem on a round of the publisher at a concrete table.
use aureum.Prelude.{◌≡◌, refl, true, none, some, [], ◌∷◌, ◌++◌, map, str_eq, if◌then◌else◌}
use aureum.Outbox.Publisher.{Event, Outbox, Calls, pending, publish_event, publish_pending}
use aureum.Outbox.Publisher.Rounds.{messages, settled, publish_pending_round}

abbrev event : Event
event = record {
  id = "e1";
  aggregate_type = "debt";
  aggregate_id = "d1";
  event_type = "debt.created";
  payload = 1 ∷ [];
  created_at = 1;
  published_at = none;
}

-- The first event is sent and stored, the second is refused by the broker, and the third was
-- published before.
abbrev table : Outbox
table = record {
  rows =
      event ∷ record event { id = "e2" } ∷ record event { id = "e3"; published_at = some 2 } ∷ [];
  sent = [];
}

abbrev calls : Calls
calls = record {
  fetches = true;
  marshal = λ e. some e.payload;
  accepts = λ e. str_eq e.id "e1";
  stores = λ e. true;
}

publish_pending-table : publish_pending calls 9 table ≡ record {
  rows =
      record event { published_at = some 9 }
      ∷ record event { id = "e2" }
      ∷ record event { id = "e3"; published_at = some 2 }
      ∷ [];
  sent = ("d1", 1 ∷ []) ∷ [];
}
unfolding publish_pending publish_event
publish_pending-table = refl

publish_pending_round_example : publish_pending calls 9 table ≡ (
    if true
    then record {
      rows = map (settled calls 9 (pending table.rows)) table.rows;
      sent = [] ++ messages calls (pending table.rows);
    }
    else table)
publish_pending_round_example = publish_pending_round calls 9 table
