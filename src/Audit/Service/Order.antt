-- ===== src/Audit/Service/Order.antt =====
-- The chain is linked in the order of recording and checked in the order of timestamps: an event
-- that is recorded last and sorts first breaks it.
use tool_permission_enforcer.Base.{
  ℕ, Bool, false, String, none, some, List, [], ◌∷◌, ◌++◌, ◌≡◌, ◌≢◌, refl, sym, ◌∙◌, inl, inr,
  arith, All, insert_by, order_by, Bool-cases,
}
use tool_permission_enforcer.Base.Json.{Json}
use tool_permission_enforcer.Base.Outcome.{ok}
use tool_permission_enforcer.Domain.Models.{ToolCallAuditEvent}
use tool_permission_enforcer.Store.{Db}
use tool_permission_enforcer.Store.Events
use tool_permission_enforcer.Audit.Event.{AuditEventInput}
use tool_permission_enforcer.Audit.Service.{Stamp, new_event, record_event, verify_integrity}
use tool_permission_enforcer.Audit.Service.Chain.{IsChain, tip, verify_integrity-IsChain}
use tool_permission_enforcer.Audit.Service.Append.{new_event-IsLinked}

module _ {A : Type 0} (le : A → A → Bool) (e : A) where
  insert_by-cons :
      (x : A) (ys : List A) → le x e ≡ false → insert_by le x (e ∷ ys) ≡ e ∷ insert_by le x ys
  insert_by-cons x ys h = ground arith

  -- The smallest row is sorted to the front, wherever it stands.
  order_by-front :
      (xs : List A)
      → All (λ x. le x e ≡ false) xs
      → order_by le (xs ++ (e ∷ [])) ≡ e ∷ order_by le xs
  order_by-front [] h = refl
  order_by-front (x ∷ xs) (first, rest) =
      rw (order_by-front xs rest) (insert_by-cons x (order_by le xs) first)

  order_by-ne-nil : (xs : List A) → xs ≢ [] → order_by le xs ≢ []
  order_by-ne-nil [] h = h
  order_by-ne-nil (x ∷ xs) h = insert_ne x (order_by le xs)
    where
      insert_ne : (x : A) (ys : List A) → insert_by le x ys ≢ []
      insert_ne x [] = ground arith
      insert_ne x (y ∷ ys) = ground arith

module _ (isoformat : ℕ → String) (digest : Json → String) where
  tip-ne-none :
      (es : List ToolCallAuditEvent) (h : String) → tip isoformat digest (some h) es ≢ none
  tip-ne-none [] h = ground arith
  tip-ne-none (e ∷ es) h = tip-ne-none es e.record_hash

  tip_of_events : (es : List ToolCallAuditEvent) → es ≢ [] → tip isoformat digest none es ≢ none
  tip_of_events [] h = absurd (h refl)
  tip_of_events (e ∷ es) h = tip-ne-none es e.record_hash

  abbrev after : AuditEventInput → Stamp → Db → Db
  after d stamp db = record db {
    events = db.events ++ (new_event isoformat digest d stamp db ∷ []);
  }

  record_event-added :
      (d : AuditEventInput) (stamp : Stamp) (db : Db)
      → (record_event isoformat digest d stamp db).0 ≡ ok (new_event isoformat digest d stamp db)
      → (record_event isoformat digest d stamp db).1 ≡ after d stamp db
  unfolding record_event Events.add
  record_event-added d stamp db h = ground arith

  events_after :
      (d : AuditEventInput) (stamp : Stamp) (db : Db)
      → All (λ x. Events.not_after x (new_event isoformat digest d stamp db) ≡ false) db.events
      → Events.all_chain_events (after d stamp db)
        ≡ new_event isoformat digest d stamp db ∷ Events.all_chain_events db
  unfolding Events.all_chain_events
  events_after d stamp db first =
      order_by-front Events.not_after (new_event isoformat digest d stamp db) db.events first

  -- An event that is recorded after others, but is before all of them in the order of timestamps and
  -- identifiers, makes the check fail.
  pub record_event-misordered :
      (d : AuditEventInput) (stamp : Stamp) (db : Db)
      → db.events ≢ []
      → All (λ x. Events.not_after x (new_event isoformat digest d stamp db) ≡ false) db.events
      → (record_event isoformat digest d stamp db).0 ≡ ok (new_event isoformat digest d stamp db)
      → (verify_integrity isoformat digest (record_event isoformat digest d stamp db).1).valid
        ≡ false
  record_event-misordered d stamp db some_event first recorded =
      elim (Bool-cases
        (verify_integrity isoformat digest (record_event isoformat digest d stamp db).1).valid) [
          | inr broken ↦ broken
          | inl sound ↦
              let e = new_event isoformat digest d stamp db in
              let chain : IsChain isoformat digest none
                  (Events.all_chain_events (after d stamp db)) =
                (verify_integrity-IsChain isoformat digest (after d stamp db)).0
                  (rw (record_event-added d stamp db recorded) at sound) in
              let sorted : IsChain isoformat digest none (e ∷ Events.all_chain_events db) =
                rw (events_after d stamp db first) at chain in
              absurd (
                tip_of_events (Events.all_chain_events db)
                  (unfold Events.all_chain_events in
                    order_by-ne-nil Events.not_after e db.events some_event)
                  (sym (new_event-IsLinked isoformat digest d stamp db).0 ∙ sorted.0.0))
        ]
