-- ===== src/Endpoint/Outbox.antt =====
-- The outbox of one kind of transaction: which ids its events leave alive.
use aureum.Prelude.{
  ℕ, String, ◌≡◌, inl, inr, refl, Bool, true, false, ◌&&◌, Option, none, some, List, [], ◌∷◌, ◌++◌,
  str_eq, if◌then◌else◌, arith, eq_iff, Bool-cases,
}
use aureum.Endpoint.Stores.{Event}
use aureum.Endpoint.{
  Kind, State, find_row, update_row, delete_row, created_event, updated_event, deleted_event,
}
use aureum.Endpoint.Rows.{IsTable, find_row-delete_row_ne}
use aureum.Endpoint.Steps.{Step, stays, fills, adds, writes, drops, deletes}

-- The events of the kind are told apart by their types.
pub record IsNamed (k : Kind) : Type 0 where
  pub created_created : k.same_event k.created k.created ≡ true
  pub created_updated : k.same_event k.created k.updated ≡ false
  pub created_deleted : k.same_event k.created k.deleted ≡ false
  pub deleted_deleted : k.same_event k.deleted k.deleted ≡ true
  pub deleted_updated : k.same_event k.deleted k.updated ≡ false

abbrev pub is_some {ℓ} : {A : Type ℓ} → Option A → Bool
is_some none = false
is_some (some a) = true

module _ (k : Kind) where
  open k use {Row, row_id, owner, is_live, created, deleted}

  -- What an event makes of the transaction with the id and the user: a creation and a deletion of it
  -- count, and the other events do not.
  pub after : String → String → Bool → Event k.EventType → Bool
  after id u alive e =
      if str_eq e.entity_id id && str_eq e.user_id u
      then (if k.same_event created e.event_type
          then true
          else if k.same_event deleted e.event_type
          then false
          else alive)
      else alive

  -- A reader of the outbox, which knows the events and not the rows.
  unfoldable pub alive_after : String → String → Bool → List (Event k.EventType) → Bool
  alive_after id u alive [] = alive
  alive_after id u alive (e ∷ es) = alive_after id u (after id u alive e) es

  alive_after-append :
      (id u : String) (b : Bool) (es : List (Event k.EventType)) (e : Event k.EventType)
      → alive_after id u b (es ++ e ∷ []) ≡ after id u (alive_after id u b es) e
  unfolding alive_after
  alive_after-append id u b [] e = refl
  alive_after-append id u b (x ∷ es) e = alive_after-append id u (after id u b x) es e

  -- The events of other kinds.
  abbrev pub AreForeign : List (Event k.EventType) → Type 0
  AreForeign [] = Unit
  AreForeign (e ∷ es) =
      (k.same_event created e.event_type ≡ false)
      × (k.same_event deleted e.event_type ≡ false)
      × AreForeign es

  pub alive_after-AreForeign :
      (id u : String) (b : Bool) (es fs : List (Event k.EventType))
      → AreForeign fs
      → alive_after id u b (es ++ fs) ≡ alive_after id u b es
  unfolding alive_after after
  alive_after-AreForeign id u b [] [] f = refl
  alive_after-AreForeign id u b [] (e ∷ fs) (c, d, f) =
      ground (arith, c, d, alive_after-AreForeign id u b [] fs f)
  alive_after-AreForeign id u b (e ∷ es) fs f = alive_after-AreForeign id u (after id u b e) es fs f

  -- The reader has just the live rows.
  abbrev pub Recorded : State k → Type 0
  Recorded s = (id u : String) → is_some (find_row k id u s.rows) ≡ alive_after id u false s.events

  find_row-append :
      (id u : String) (rs : List Row) (d : Row)
      → is_live d ≡ true
      → is_some (find_row k id u (rs ++ d ∷ [])) ≡ (
          if str_eq (row_id d) id && str_eq (owner d) u then true else is_some (find_row k id u rs))
  unfolding find_row
  find_row-append id u [] d l = ground arith
  find_row-append id u (r ∷ rs) d l = ground (arith, find_row-append id u rs d l)

  module _ (t : IsTable k) where
    open t use {id_set, owner_set, live_set, id_mark, owner_mark, dead_mark}

    find_row-update_row :
        (id u : String) (d : Row) (rs : List Row)
        → is_some (find_row k id u (update_row k d rs)) ≡ is_some (find_row k id u rs)
    unfolding find_row update_row
    find_row-update_row id u d [] = refl
    find_row-update_row id u d (r ∷ rs) =
        ground (arith, id_set d r, owner_set d r, live_set d r, find_row-update_row id u d rs)

    find_row-delete_row_same :
        (now : ℕ) (id u : String) (rs : List Row)
        → find_row k id u (delete_row k now id u rs) ≡ none
    unfolding find_row delete_row
    find_row-delete_row_same now id u [] = refl
    find_row-delete_row_same now id u (r ∷ rs) = ground (
      arith,
      id_mark now r,
      owner_mark now r,
      dead_mark now r,
      find_row-delete_row_same now id u rs,
    )

    find_row-delete_row :
        (now : ℕ) (i v id u : String) (rs : List Row)
        → is_some (find_row k id u (delete_row k now i v rs))
          ≡ (if str_eq i id && str_eq v u then false else is_some (find_row k id u rs))
    find_row-delete_row now i v id u rs = elim (Bool-cases (str_eq i id)) [
      | inr b ↦
          rw
            (find_row-delete_row_ne k t now i v id u rs
              (inl λ e. ground (arith, eq_iff i id, e, b)))
            (ground arith)
      | inl b ↦ elim (Bool-cases (str_eq v u)) [
        | inr c ↦
            rw
              (find_row-delete_row_ne k t now i v id u rs
                (inr λ e. ground (arith, eq_iff v u, e, c)))
              (ground arith)
        | inl c ↦ ground (arith, eq_iff i id, eq_iff v u, find_row-delete_row_same now id u rs)
      ]
    ]

    module _ (names : IsNamed k) where
      open names use {
        created_created, created_updated, created_deleted, deleted_deleted, deleted_updated,
      }

      pub Step-Recorded :
          (P : Row → Type 0) (s s' : State k) → Step k P s s' → Recorded s → Recorded s'
      unfolding after created_event updated_event deleted_event
      Step-Recorded P s s' (stays rs cs es) h id u = rw (rs, es) (h id u)
      Step-Recorded P s s' (fills i v d e rs cs es) h id u = rw (rs, es) (h id u)
      Step-Recorded P s s' (drops i v rs cs es) h id u = rw (rs, es) (h id u)
      Step-Recorded P s s' (adds now d p new live rs cs es) h id u =
          rw (rs, es)
            (ground (
              arith,
              h id u,
              alive_after-append id u false s.events (created_event k now d),
              find_row-append id u s.rows d live,
              created_created,
            ))
      Step-Recorded P s s' (writes now i v x d e same p rs cs es) h id u =
          rw (rs, es)
            (ground (
              arith,
              h id u,
              alive_after-append id u false s.events (updated_event k now d),
              find_row-update_row id u d s.rows,
              created_updated,
              deleted_updated,
            ))
      Step-Recorded P s s' (deletes now i v rs cs es) h id u =
          rw (rs, es)
            (ground (
              arith,
              h id u,
              alive_after-append id u false s.events (deleted_event k now i v),
              find_row-delete_row now i v id u s.rows,
              created_deleted,
              deleted_deleted,
            ))
