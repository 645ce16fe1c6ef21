-- ===== src/Audit/Service/Chain.antt =====
-- What `verify_integrity` checks: the stored events form a hash chain.
use tool_permission_enforcer.Base.{
  ℕ, String, true, false, Option, none, some, List, [], ◌∷◌, ◌++◌, ◌≡◌, ◌↔◌, refl, arith, string_eq,
  option_eq, length, inl, inr, Bool-cases,
}
use tool_permission_enforcer.Base.Json.{Json}
use tool_permission_enforcer.Domain.Models.{ToolCallAuditEvent}
use tool_permission_enforcer.Store.{Db}
use tool_permission_enforcer.Store.Events
use tool_permission_enforcer.Audit.Event.{event_hash}
use tool_permission_enforcer.Audit.Service.{link_is_broken, verify_from, verify_integrity}

module _ (isoformat : ℕ → String) (digest : Json → String) where
  -- The event names the hash of the one before it, and its own hash is right.
  abbrev pub IsLinked : Option String → ToolCallAuditEvent → Type 0
  IsLinked previous e =
      (e.previous_record_hash ≡ previous) × (e.record_hash ≡ event_hash isoformat digest e)

  abbrev pub IsChain : Option String → List ToolCallAuditEvent → Type 0
  IsChain previous [] = Unit
  IsChain previous (e ∷ es) = IsLinked previous e × IsChain (some e.record_hash) es

  -- The hash that the next event has to name.
  abbrev pub tip : Option String → List ToolCallAuditEvent → Option String
  tip previous [] = previous
  tip previous (e ∷ es) = tip (some e.record_hash) es

  link-IsLinked :
      (previous : Option String) (e : ToolCallAuditEvent)
      → (link_is_broken isoformat digest previous e ≡ false) ↔ IsLinked previous e
  link-IsLinked previous e = ground arith

  verify_from-IsChain :
      (n : ℕ) (previous : Option String) (es : List ToolCallAuditEvent)
      → ((verify_from isoformat digest n previous es).valid ≡ true) ↔ IsChain previous es
  unfolding verify_from
  verify_from-IsChain n previous [] = (λ h. tt, λ h. refl)
  verify_from-IsChain n previous (e ∷ es) =
      ground (arith, link-IsLinked previous e, verify_from-IsChain n (some e.record_hash) es)

  -- The check passes exactly if the events, in the order of their timestamps and identifiers, form
  -- a hash chain that begins with no previous hash.
  pub verify_integrity-IsChain :
      (db : Db)
      → ((verify_integrity isoformat digest db).valid ≡ true)
        ↔ IsChain none (Events.all_chain_events db)
  unfolding verify_integrity
  verify_integrity-IsChain db =
      verify_from-IsChain (length (Events.all_chain_events db)) none (Events.all_chain_events db)

  -- A split of the events at the first one whose link is broken.
  pub record FirstBreak (previous : Option String) (es : List ToolCallAuditEvent)
      (id : Option String) : Type 0 where
    pub before : List ToolCallAuditEvent
    pub bad : ToolCallAuditEvent
    pub after : List ToolCallAuditEvent
    pub split : es ≡ before ++ bad ∷ after
    pub sound : IsChain previous before
    pub broken : ¬ IsLinked (tip previous before) bad
    pub named : id ≡ some bad.event_id

  verify_from-FirstBreak :
      (n : ℕ) (previous : Option String) (es : List ToolCallAuditEvent)
      → (verify_from isoformat digest n previous es).valid ≡ false
      → FirstBreak previous es (verify_from isoformat digest n previous es).first_invalid_event_id
  unfolding verify_from
  verify_from-FirstBreak n previous [] h = absurd (ground arith)
  verify_from-FirstBreak n previous (e ∷ es) h =
      elim (Bool-cases (link_is_broken isoformat digest previous e)) [
        | inl broken ↦ record {
          before = [];
          bad = e;
          after = es;
          split = refl;
          sound = tt;
          broken = λ l. ground (arith, link-IsLinked previous e);
          named = ground arith;
        }
        | inr good ↦
            let r = verify_from-FirstBreak n (some e.record_hash) es (ground arith) in
            record {
              before = e ∷ r.before;
              bad = r.bad;
              after = r.after;
              split = ground (arith, r.split);
              sound = ((link-IsLinked previous e).0 good, r.sound);
              broken = r.broken;
              named = ground (arith, r.named);
            }
      ]

  -- When the check fails it names the first event whose link is broken: all events before that one
  -- form a chain.
  pub verify_integrity-FirstBreak :
      (db : Db)
      → (verify_integrity isoformat digest db).valid ≡ false
      → FirstBreak none
          (Events.all_chain_events db)
          (verify_integrity isoformat digest db).first_invalid_event_id
  unfolding verify_integrity
  verify_integrity-FirstBreak db h =
      verify_from-FirstBreak (length (Events.all_chain_events db)) none (Events.all_chain_events db)
        h
