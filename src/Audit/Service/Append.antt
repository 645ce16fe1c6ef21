-- ===== src/Audit/Service/Append.antt =====
-- Recording keeps the chain, if the new event comes after all others in the order of the check.
use mathlib.Core.List.{reverse-cons}
use tool_permission_enforcer.Base.{
  ℕ, String, Bool, true, Option, none, some, List, [], ◌∷◌, ◌++◌, ◌≡◌, refl, sym, ◌∙◌, ◌⊎◌, inl,
  inr, arith, All, insert_by, order_by, head_of, reverse,
}
use tool_permission_enforcer.Base.Json.{Json}
use tool_permission_enforcer.Base.Outcome.{ok, err}
use tool_permission_enforcer.Domain.Errors.{integrity_error}
use tool_permission_enforcer.Domain.Models.{ToolCallAuditEvent}
use tool_permission_enforcer.Store.{Db}
use tool_permission_enforcer.Store.Events
use tool_permission_enforcer.Audit.Event.{AuditEventInput, pending_event, payload, event_hash}
use tool_permission_enforcer.Audit.Service.{
  Stamp, sealed, new_event, record_event, verify_integrity,
}
use tool_permission_enforcer.Audit.Service.Chain.{IsLinked, IsChain, tip, verify_integrity-IsChain}

module _ {A : Type 0} (le : A → A → Bool) (e : A) where
  insert_by-append :
      (x : A) (ys : List A)
      → le x e ≡ true
      → insert_by le x (ys ++ (e ∷ [])) ≡ insert_by le x ys ++ (e ∷ [])
  insert_by-append x [] h = ground arith
  insert_by-append x (y ∷ ys) h = ground (arith, insert_by-append x ys h)

  -- The greatest row is sorted to the end.
  order_by-append :
      (xs : List A)
      → All (λ x. le x e ≡ true) xs
      → order_by le (xs ++ (e ∷ [])) ≡ order_by le xs ++ (e ∷ [])
  order_by-append [] h = refl
  order_by-append (x ∷ xs) (first, rest) =
      rw (order_by-append xs rest) (insert_by-append x (order_by le xs) first)

head_of-append {ℓ} :
    {A : Type ℓ} (xs : List A) (x : A) (ys : List A)
    → head_of ((xs ++ (x ∷ [])) ++ ys) ≡ head_of (xs ++ (x ∷ []))
head_of-append [] x ys = refl
head_of-append (z ∷ xs) x ys = refl

module _ (isoformat : ℕ → String) (digest : Json → String) where
  abbrev hash_of : Option ToolCallAuditEvent → Option String
  hash_of none = none
  hash_of (some e) = some e.record_hash

  IsChain-append :
      (previous : Option String) (es : List ToolCallAuditEvent) (e : ToolCallAuditEvent)
      → IsChain isoformat digest previous es
      → IsLinked isoformat digest (tip isoformat digest previous es) e
      → IsChain isoformat digest previous (es ++ (e ∷ []))
  IsChain-append previous [] e c l = (l, tt)
  IsChain-append previous (x ∷ es) e c l = (c.0, IsChain-append (some x.record_hash) es e c.1 l)

  abbrev pub hash_or : Option String → Option ToolCallAuditEvent → Option String
  hash_or previous none = previous
  hash_or previous (some e) = some e.record_hash

  hash_or-append :
      (previous : Option String) (es : List ToolCallAuditEvent) (e : ToolCallAuditEvent)
      → hash_or previous (head_of (es ++ (e ∷ []))) ≡ hash_or (some e.record_hash) (head_of es)
  hash_or-append previous [] e = refl
  hash_or-append previous (x ∷ es) e = refl

  pub tip-eq-hash_or :
      (previous : Option String) (es : List ToolCallAuditEvent)
      → tip isoformat digest previous es ≡ hash_or previous (head_of (reverse es))
  tip-eq-hash_or previous [] = refl
  tip-eq-hash_or previous (e ∷ es) =
      rw (reverse-cons e es)
        (tip-eq-hash_or (some e.record_hash) es ∙ sym (hash_or-append previous (reverse es) e))

  -- The hash does not cover the field that holds it.
  event_hash-sealed :
      (e : ToolCallAuditEvent)
      → event_hash isoformat digest (sealed isoformat digest e) ≡ event_hash isoformat digest e
  unfolding event_hash payload
  event_hash-sealed e = refl

  pub new_event-IsLinked :
      (d : AuditEventInput) (stamp : Stamp) (db : Db)
      → IsLinked isoformat digest
          (tip isoformat digest none (Events.all_chain_events db))
          (new_event isoformat digest d stamp db)
  unfolding new_event pending_event Events.last_chain_event event_hash
  new_event-IsLinked d stamp db =
      (ground (arith, tip-eq-hash_or none (Events.all_chain_events db)), sym (event_hash-sealed _))

  -- The event is stored at the end of the table, or nothing is.
  pub record_event-atomic :
      (d : AuditEventInput) (stamp : Stamp) (db : Db)
      → (record_event isoformat digest d stamp db ≡ (
        ok (new_event isoformat digest d stamp db),
        record db { events = db.events ++ (new_event isoformat digest d stamp db ∷ []) },
      ))
        ⊎ (record_event isoformat digest d stamp db ≡ (err integrity_error, db))
  unfolding record_event Events.add
  record_event-atomic d stamp db = ground arith

  -- If the stored events verify and the new event comes after each of them in the order of the
  -- check, they verify after `record` too, also when the database refuses the event.
  pub record_event-verifies :
      (d : AuditEventInput) (stamp : Stamp) (db : Db)
      → (verify_integrity isoformat digest db).valid ≡ true
      → All (λ x. Events.not_after x (new_event isoformat digest d stamp db) ≡ true) db.events
      → (verify_integrity isoformat digest (record_event isoformat digest d stamp db).1).valid
        ≡ true
  unfolding Events.all_chain_events
  record_event-verifies d stamp db sound later = elim (record_event-atomic d stamp db) [
    | inr same ↦ rw same sound
    | inl added ↦ rw added (
        (verify_integrity-IsChain isoformat digest _).1 (
          rw
            (order_by-append Events.not_after (new_event isoformat digest d stamp db) db.events
              later)
            (IsChain-append none (Events.all_chain_events db)
              (new_event isoformat digest d stamp db)
              ((verify_integrity-IsChain isoformat digest db).0 sound)
              (new_event-IsLinked d stamp db))))
  ]
