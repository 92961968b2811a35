-- ===== src/Outbox/Sent.antt =====
-- An event that the outbox holds, whatever is appended after it.
use guide_os.Prelude.{
  String, eq_iff, ◌==◌, text_eq, ◌≡◌, inl, inr, none, some, List, ◌∷◌, arith, Bool-cases,
}
use guide_os.Database.{Outbox, find, find-cons}
use guide_os.Outbox.{outbox_event_key}

-- The event of that id is in the outbox, of that type and about that aggregate.
abbrev pub Sent : (event_id event_type aggregate_id : String) → List Outbox → Type 0
Sent event_id event_type aggregate_id outbox =
    (o : Outbox) × (find outbox_event_key event_id outbox ≡ some o)
    × (o.aggregate_id ≡ aggregate_id)
    × (o.event_type ≡ event_type)

-- A new event hides none.
pub Sent-cons :
    (o : Outbox) (event_id event_type aggregate_id : String) (outbox : List Outbox)
    → find outbox_event_key o.event_id outbox ≡ none
    → Sent event_id event_type aggregate_id outbox
    → Sent event_id event_type aggregate_id (o ∷ outbox)
Sent-cons o event_id event_type aggregate_id outbox free (p, found, addressed, typed) =
    elim (Bool-cases (o.event_id == event_id)) [
      | inl hit ↦ absurd (ground (arith, eq_iff o.event_id event_id))
      | inr miss ↦ (p, rw (find-cons, miss) found, addressed, typed)
    ]
