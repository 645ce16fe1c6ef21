-- ===== src/Store/Events/Pages.antt =====
-- The pages of `list_events`.
use tool_permission_enforcer.Base.{
  ℕ, ◌+◌, ◌≤◌, Bool, true, ◌&&◌, List, ◌++◌, ◌≡◌, ◌∙◌, ◌⊎◌, inl, inr, sym, ap, arith, string_eq,
  all, all_where, take, drop, length, order_by, reverse,
}
use tool_permission_enforcer.Base.Lists.{
  length-take, take-add, drop-add, take-length, all-take, all-drop, all-all_where, all-order_by,
  all-reverse, number, number-order_by, number-reverse, number-all_where, length-order_by,
  length-reverse, length-all_where,
}
use tool_permission_enforcer.Base.Order.{
  is_ordered, order_by-ordered, reverse-ordered, drop-ordered, take-ordered,
}
use tool_permission_enforcer.Base.Text.{leb_text-total}
use tool_permission_enforcer.Domain.Models.{ToolCallAuditEvent}
use tool_permission_enforcer.Store.{Db}
use tool_permission_enforcer.Store.Events.{Filters, passes, not_after, list_events}

-- All events that pass, the latest first.
abbrev found : Filters → Db → List ToolCallAuditEvent
found f db = reverse (order_by not_after (all_where (passes f) db.events))

found-passes : (f : Filters) (db : Db) → all (passes f) (found f db) ≡ true
found-passes f db =
    all-reverse (passes f) (order_by not_after (all_where (passes f) db.events))
    ∙ all-order_by (passes f) not_after (all_where (passes f) db.events)
    ∙ all-all_where (passes f) db.events

not_after-total : (a b : ToolCallAuditEvent) → (not_after a b ≡ true) ⊎ (not_after b a ≡ true)
unfolding not_after
not_after-total a b = elim (leb_text-total a.event_id b.event_id) [
  | inl le ↦ ground arith
  | inr ge ↦ ground arith
]

abbrev pub not_before : ToolCallAuditEvent → ToolCallAuditEvent → Bool
not_before a b = not_after b a

found-ordered : (f : Filters) (db : Db) → is_ordered not_before (found f db) ≡ true
found-ordered f db =
    reverse-ordered not_after (order_by not_after (all_where (passes f) db.events))
      (order_by-ordered not_after not_after-total (all_where (passes f) db.events))

length-found : (f : Filters) (db : Db) → length (found f db) ≤ length db.events
length-found f db =
    rw
      (
        length-reverse (order_by not_after (all_where (passes f) db.events)),
        length-order_by not_after (all_where (passes f) db.events),
      )
      (length-all_where (passes f) db.events)

number-found :
    (q : ToolCallAuditEvent → Bool) (f : Filters) (db : Db)
    → number q (found f db) ≡ number (λ e. passes f e && q e) db.events
number-found q f db =
    number-reverse q (order_by not_after (all_where (passes f) db.events))
    ∙ number-order_by q not_after (all_where (passes f) db.events)
    ∙ number-all_where q (passes f) db.events

-- The first page, if it has room for all events, shows exactly the events that pass the filters: of
-- whatever test, as many events satisfy it there as pass the filters and satisfy it in the table. Any
-- page has no more than `limit` events, each of them passes the filters, and none is earlier than the
-- next. A page together with the next one, which begins `limit` events later, is one longer page, so
-- that pages leave out no event and show none twice.
pub list_events-pages :
    (f : Filters) (q : ToolCallAuditEvent → Bool) (limit more offset : ℕ) (db : Db)
    → (number q (list_events f (length db.events) 0 db) ≡ number (λ e. passes f e && q e) db.events)
      × (length (list_events f limit offset db) ≤ limit)
      × (all (passes f) (list_events f limit offset db) ≡ true)
      × (is_ordered not_before (list_events f limit offset db) ≡ true)
      × (list_events f (limit + more) offset db
          ≡ list_events f limit offset db ++ list_events f more (offset + limit) db)
unfolding list_events
list_events-pages f q limit more offset db = (
  ap (number q) (take-length (length db.events) (found f db) (length-found f db))
      ∙ number-found q f db,
  length-take limit (drop offset (found f db)),
  all-take (passes f) limit _ (all-drop (passes f) offset _ (found-passes f db)),
  take-ordered not_before limit _ (drop-ordered not_before offset _ (found-ordered f db)),
  take-add limit more (drop offset (found f db))
      ∙ ap (λ rest. take limit (drop offset (found f db)) ++ take more rest)
          (sym (drop-add offset limit (found f db))),
)
