-- ===== src/Outbox/Publisher.antt =====
-- pkg/outbox/outbox.go and publisher.go: the pending events and one round of the publisher.
-- The rows of the table `outbox_events` are kept in the order of the query, by `created_at`.
pub mod Rounds
use aureum.Prelude.{
  ℕ, String, Bool, true, false, Option, none, some, List, [], ◌∷◌, ◌++◌, map, str_eq, if◌then◌else◌,
  is_empty, Bytes,
}

pub record Event : Type 0 where
  pub id : String
  pub aggregate_type : String
  pub aggregate_id : String
  pub event_type : String
  pub payload : Bytes
  pub created_at : ℕ
  pub published_at : Option ℕ

-- The table, and what the broker has taken: a key and a value for each message.
pub record Outbox : Type 0 where
  pub rows : List Event
  pub sent : List (String × Bytes)

-- `Store.Pending`: the rows with `published_at IS NULL`.
unfoldable pub pending : List Event → List Event
pending [] = []
pending (e ∷ es) = let rest = pending es in elim e.published_at [ none ↦ e ∷ rest | some t ↦ rest ]

-- The update of one row by `Store.MarkPublished`, whose statement is
-- `SET published_at = $1 WHERE id = $2`.
mark_row : ℕ → String → Event → Event
mark_row now id e = if str_eq e.id id then record e { published_at = some now } else e

unfoldable pub mark_published : ℕ → String → List Event → List Event
unfolding mark_row
mark_published now id = map (mark_row now id)

-- What the code calls: the database, which answers the query of `Pending` or fails, `json.Marshal`,
-- the broker, which takes a message or fails, and the database again, which makes the update of
-- `MarkPublished` or fails. The last three answer by the event at hand.
pub record Calls : Type 0 where
  pub fetches : Bool
  pub marshal : Event → Option Bytes
  pub accepts : Event → Bool
  pub stores : Event → Bool

module _ (calls : Calls) (now : ℕ) where
  -- A message that the broker has taken is kept, and then the row is marked.
  deliver : Event → Bytes → Outbox → Outbox
  unfolding mark_published
  deliver e value s =
      let sent = s.sent ++ (e.aggregate_id, value) ∷ [] in
      if calls.stores e
      then record { rows = mark_published now e.id s.rows; sent = sent }
      else record { rows = s.rows; sent = sent }

  -- The body of the loop; an error is logged and the loop goes on.
  unfoldable pub publish_event : Event → Outbox → Outbox
  unfolding deliver
  publish_event e s = if is_empty e.event_type then s else elim (calls.marshal e) [
    | none ↦ s
    | some value ↦ if calls.accepts e then deliver e value s else s
  ]

  unfoldable pub publish_events : List Event → Outbox → Outbox
  publish_events [] s = s
  publish_events (e ∷ es) s = publish_events es (publish_event e s)

  -- `Publisher.publishPending`
  unfoldable pub publish_pending : Outbox → Outbox
  unfolding pending publish_events
  publish_pending s = if calls.fetches then publish_events (pending s.rows) s else s
