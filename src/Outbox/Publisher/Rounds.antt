-- ===== src/Outbox/Publisher/Rounds.antt =====
-- What a round of the publisher sends and marks.
use mathlib.Core.List.{append_assoc, append-nil}
use aureum.Prelude.{
  ℕ, String, ◌≡◌, refl, ap, sym, ◌∙◌, Bool, false, ◌&&◌, ◌||◌, Option, none, some, List, [], ◌∷◌,
  ◌++◌, map, arith, str_eq, if◌then◌else◌, is_empty, Bytes,
}
use aureum.Outbox.Publisher.{
  Event, Outbox, Calls, pending, publish_event, publish_events, publish_pending,
}

module _ (calls : Calls) where
  -- The message of an event that reaches the broker.
  abbrev pub message : Event → Option (String × Bytes)
  message e = if is_empty e.event_type then none else elim (calls.marshal e) [
    | none ↦ none
    | some value ↦ if calls.accepts e then some (e.aggregate_id, value) else none
  ]

  -- The messages of a list of events, in its order.
  pub messages : List Event → List (String × Bytes)
  messages [] = []
  messages (e ∷ es) = let rest = messages es in elim (message e) [ none ↦ rest | some m ↦ m ∷ rest ]

  -- The broker has taken an event of this id, and its row was updated.
  pub marked : List Event → String → Bool
  marked [] id = false
  marked (e ∷ es) id =
      let rest = marked es id in
      elim (message e) [ none ↦ rest | some m ↦ (calls.stores e && str_eq id e.id) || rest ]

  -- A row after the round.
  pub settled : ℕ → List Event → Event → Event
  settled now es r = if marked es r.id then record r { published_at = some now } else r

module _ (calls : Calls) (now : ℕ) where
  publish_event-sent :
      (e : Event) (s : Outbox)
      → (publish_event calls now e s).sent ≡ s.sent ++ messages calls (e ∷ [])
  unfolding publish_event messages
  publish_event-sent e s = ground (arith, append-nil s.sent)

  publish_event-row :
      (e : Event) (rows : List Event) (sent : List (String × Bytes))
      → (publish_event calls now e (record { rows = rows; sent = sent })).rows
        ≡ map (settled calls now (e ∷ [])) rows
  unfolding publish_event settled marked
  publish_event-row e [] sent = ground arith
  publish_event-row e (r ∷ rows) sent = ground (arith, publish_event-row e rows sent)

  messages-cons :
      (e : Event) (es : List Event)
      → messages calls (e ∷ []) ++ messages calls es ≡ messages calls (e ∷ es)
  unfolding messages
  messages-cons e es = ground arith

  publish_events-sent :
      (es : List Event) (s : Outbox)
      → (publish_events calls now es s).sent ≡ s.sent ++ messages calls es
  unfolding publish_events messages
  publish_events-sent [] s = sym (append-nil s.sent)
  publish_events-sent (e ∷ es) s =
      publish_events-sent es (publish_event calls now e s)
      ∙ ap (λ l. l ++ messages calls es) (publish_event-sent e s)
      ∙ append_assoc s.sent (messages calls (e ∷ [])) (messages calls es)
      ∙ ap (λ l. s.sent ++ l) (messages-cons e es)

  settled-settled :
      (e : Event) (es : List Event) (r : Event)
      → settled calls now es (settled calls now (e ∷ []) r) ≡ settled calls now (e ∷ es) r
  unfolding settled marked
  settled-settled e es r = ground arith

  map-settled :
      (e : Event) (es rows : List Event)
      → map (settled calls now es) (map (settled calls now (e ∷ [])) rows)
        ≡ map (settled calls now (e ∷ es)) rows
  map-settled e es [] = refl
  map-settled e es (r ∷ rows) = cc (settled-settled e es r, map-settled e es rows)

  settled-nil : (rows : List Event) → map (settled calls now []) rows ≡ rows
  unfolding settled marked
  settled-nil [] = refl
  settled-nil (r ∷ rows) = ap (λ rs. r ∷ rs) (settled-nil rows)

  publish_events-rows :
      (es : List Event) (s : Outbox)
      → (publish_events calls now es s).rows ≡ map (settled calls now es) s.rows
  unfolding publish_events
  publish_events-rows [] s = sym (settled-nil s.rows)
  publish_events-rows (e ∷ es) s =
      publish_events-rows es (publish_event calls now e s)
      ∙ ap (map (settled calls now es)) (publish_event-row e s.rows s.sent)
      ∙ map-settled e es s.rows

  -- A round sends the messages of the pending events that reach the broker, in the order of the
  -- table, and publishes exactly the rows whose event was taken and whose update was stored. With no
  -- answer to its query it does nothing.
  pub publish_pending_round :
      (s : Outbox)
      → publish_pending calls now s ≡ (
          if calls.fetches
          then record {
            rows = map (settled calls now (pending s.rows)) s.rows;
            sent = s.sent ++ messages calls (pending s.rows);
          }
          else s)
  unfolding publish_pending
  publish_pending_round s =
      ground (arith, publish_events-rows (pending s.rows) s, publish_events-sent (pending s.rows) s)
