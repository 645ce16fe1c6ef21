-- ===== src/Audit/Service/Tamper.antt =====
-- The hash of the last event fixes the content of all events, unless two of the stored events have
-- different texts with one hash.
use mathlib.Core.List.{reverse-cons, append-nil, append_assoc}
use tool_permission_enforcer.Base.{
  ℕ, true, String, Option, none, some, List, [], ◌∷◌, ◌++◌, ◌≡◌, ◌≢◌, refl, ◌∙◌, sym, ap, ◌⊎◌, inl,
  inr, arith, head_of, reverse,
}
use tool_permission_enforcer.Base.Json.{Json}
use tool_permission_enforcer.Domain.Models.{ToolCallAuditEvent}
use tool_permission_enforcer.Store.{Db}
use tool_permission_enforcer.Store.Events
use tool_permission_enforcer.Audit.Event.{payload, event_hash}
use tool_permission_enforcer.Audit.Content.{IsCanonical, SameContent, payload-SameContent}
use tool_permission_enforcer.Audit.Service.{verify_integrity}
use tool_permission_enforcer.Audit.Service.Chain.{IsLinked, IsChain, verify_integrity-IsChain}
use tool_permission_enforcer.Audit.Service.Append.{hash_or}

-- All events, the latest first.
abbrev pub latest_first : Db → List ToolCallAuditEvent
latest_first db = reverse (Events.all_chain_events db)

module _ {Text : Type 0} (canonical : Json → Text) (isoformat : ℕ → String)
    (sha : Text → String) where
  -- The text that is hashed of an event.
  abbrev hashed : ToolCallAuditEvent → Text
  hashed e = canonical (payload isoformat e)

  abbrev pub digest_of : Json → String
  digest_of j = sha (canonical j)

  -- Event by event the same content.
  pub data SameContents : List ToolCallAuditEvent → List ToolCallAuditEvent → Type 0 where
    no_events : SameContents [] []
    same :
        {a b : ToolCallAuditEvent} {xs ys : List ToolCallAuditEvent}
        → SameContent canonical isoformat a b
        → SameContents xs ys
        → SameContents (a ∷ xs) (b ∷ ys)

  -- An event of one list and an event of the other with different texts and one hash.
  pub record Collision (xs ys : List ToolCallAuditEvent) : Type 0 where
    pub a : ToolCallAuditEvent
    pub b : ToolCallAuditEvent
    pub later_a : List ToolCallAuditEvent
    pub earlier_a : List ToolCallAuditEvent
    pub later_b : List ToolCallAuditEvent
    pub earlier_b : List ToolCallAuditEvent
    pub of_xs : xs ≡ later_a ++ a ∷ earlier_a
    pub of_ys : ys ≡ later_b ++ b ∷ earlier_b
    pub differ : hashed a ≢ hashed b
    pub one_hash : sha (hashed a) ≡ sha (hashed b)

  Collision-cons :
      (x y : ToolCallAuditEvent) (xs ys : List ToolCallAuditEvent)
      → Collision xs ys
      → Collision (x ∷ xs) (y ∷ ys)
  Collision-cons x y xs ys c = record {
    a = c.a;
    b = c.b;
    later_a = x ∷ c.later_a;
    earlier_a = c.earlier_a;
    later_b = y ∷ c.later_b;
    earlier_b = c.earlier_b;
    of_xs = ap (λ es. x ∷ es) c.of_xs;
    of_ys = ap (λ es. y ∷ es) c.of_ys;
    differ = c.differ;
    one_hash = c.one_hash;
  }

  -- A chain read from its last event.
  abbrev IsChainDown : List ToolCallAuditEvent → Type 0
  IsChainDown [] = Unit
  IsChainDown (e ∷ older) =
      IsLinked isoformat digest_of (hash_or isoformat digest_of none (head_of older)) e
      × IsChainDown older

  IsChain-down :
      (previous : Option String) (es older : List ToolCallAuditEvent)
      → IsChain isoformat digest_of previous es
      → IsChainDown older
      → hash_or isoformat digest_of none (head_of older) ≡ previous
      → IsChainDown (reverse es ++ older)
  IsChain-down previous [] older c down h = down
  IsChain-down previous (e ∷ es) older c down h =
      rw (reverse-cons e es, append_assoc)
        (IsChain-down (some e.record_hash) es (e ∷ older) c.1 ((c.0.0 ∙ sym h, c.0.1), down) refl)

  chain_down :
      (db : Db)
      → (verify_integrity isoformat digest_of db).valid ≡ true
      → IsChainDown (latest_first db)
  chain_down db h = rw (append-nil (latest_first db)) at (
      IsChain-down none (Events.all_chain_events db) []
        ((verify_integrity-IsChain isoformat digest_of db).0 h) tt refl)

  same_hash :
      (a b : ToolCallAuditEvent)
      → a.record_hash ≡ event_hash isoformat digest_of a
      → b.record_hash ≡ event_hash isoformat digest_of b
      → some a.record_hash ≡ some b.record_hash
      → sha (hashed a) ≡ sha (hashed b)
  unfolding event_hash
  same_hash a b sealed_a sealed_b h = cc

  module _ (same_text : Discrete Text) (known : IsCanonical canonical) where
    -- Two chains whose last hashes agree have the same contents, or give a collision.
    same_contents :
        (xs ys : List ToolCallAuditEvent)
        → IsChainDown xs
        → IsChainDown ys
        → hash_or isoformat digest_of none (head_of xs)
          ≡ hash_or isoformat digest_of none (head_of ys)
        → SameContents xs ys ⊎ Collision xs ys
    same_contents [] [] c d h = inl no_events
    same_contents [] (b ∷ ys) c d h = absurd (ground arith)
    same_contents (a ∷ xs) [] c d h = absurd (ground arith)
    same_contents (a ∷ xs) (b ∷ ys) c d h = elim (same_text (hashed a) (hashed b)) [
      | no differ ↦ inr (record {
        a = a;
        b = b;
        later_a = [];
        earlier_a = xs;
        later_b = [];
        earlier_b = ys;
        of_xs = refl;
        of_ys = refl;
        differ = differ;
        one_hash = same_hash a b c.0.1 d.0.1 h;
      })
      | yes equal ↦
          let content = payload-SameContent canonical isoformat known a b equal in
          elim (same_contents xs ys c.1 d.1 (sym c.0.0 ∙ content.previous_record_hash ∙ d.0.0)) [
            | inl rest ↦ inl (same content rest)
            | inr collision ↦ inr (Collision-cons a b xs ys collision)
          ]
    ]

    -- An event is sealed by a hash `sha` of its canonical text, which fixes the texts, the numbers and
    -- the members of an object. If two stores of events pass the check and the hashes of their last
    -- events agree, then the stores have the same content, event by event and in every hashed field
    -- (instants and parameters by their texts); or an event of one and an event of the other have
    -- different texts with one hash.
    pub verify_integrity-commits :
        (db db' : Db)
        → (verify_integrity isoformat digest_of db).valid ≡ true
        → (verify_integrity isoformat digest_of db').valid ≡ true
        → hash_or isoformat digest_of none (Events.last_chain_event db)
          ≡ hash_or isoformat digest_of none (Events.last_chain_event db')
        → SameContents (latest_first db) (latest_first db')
          ⊎ Collision (latest_first db) (latest_first db')
    unfolding Events.last_chain_event
    verify_integrity-commits db db' v v' h =
        same_contents (latest_first db) (latest_first db') (chain_down db v) (chain_down db' v') h
