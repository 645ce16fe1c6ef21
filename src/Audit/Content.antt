-- ===== src/Audit/Content.antt =====
-- What the canonical text of a payload fixes: the content of an event.
use mathlib.Core.Option as Option
use tool_permission_enforcer.Base.{
  ℕ, String, true, Option, none, some, ◌≡◌, ◌≢◌, refl, sym, ap, ◌∙◌, ◌==◌, string_eq, if◌then◌else◌,
}
use tool_permission_enforcer.Base.Dict.{lookup, keys_differ}
use tool_permission_enforcer.Base.Json.{Json, null, int, str, obj, pos, Fields, end, entries}
use tool_permission_enforcer.Domain.Enums.{
  AuditDecision, AuditExecutionStatus, not_forwarded, authorized, executed, tool_failed, timed_out,
  decision_value, execution_status_value,
}
use tool_permission_enforcer.Domain.Models.{ToolCallAuditEvent, as_utc}
use tool_permission_enforcer.Audit.Event.{opt_str, opt_int, payload}

-- What is known of `json.dumps(value, ensure_ascii=True, separators=(",", ":"), sort_keys=True)`:
-- texts and natural numbers are written differently from each other and from null, and two objects
-- are written alike only if the values under each key are.
pub record IsCanonical {Text : Type 0} (canonical : Json → Text) : Type 0 where
  pub texts : (s t : String) → canonical (str s) ≡ canonical (str t) → s ≡ t
  pub numbers : (m n : ℕ) → canonical (int (pos m)) ≡ canonical (int (pos n)) → m ≡ n
  pub text_not_null : (s : String) → canonical (str s) ≢ canonical null
  pub number_not_null : (n : ℕ) → canonical (int (pos n)) ≢ canonical null
  pub members :
      (fs gs : Fields)
      → keys_differ (entries fs) ≡ true
      → keys_differ (entries gs) ≡ true
      → canonical (obj fs) ≡ canonical (obj gs)
      → (k : String)
      → Option.map canonical (lookup k (entries fs)) ≡ Option.map canonical (lookup k (entries gs))

abbrev members_of : Json → Fields
members_of (obj fs) = fs
members_of _ = end

some-injective : {A : Type 0} (x y : A) → some x ≡ some y → x ≡ y
some-injective x y h = cc

-- The decision and the status that a value stands for.
abbrev decision_of : String → AuditDecision
decision_of s =
    if s == "allow"
    then AuditDecision.allow
    else if s == "block"
    then AuditDecision.block
    else AuditDecision.error

abbrev status_of : String → AuditExecutionStatus
status_of s =
    if s == "not_forwarded"
    then not_forwarded
    else if s == "authorized"
    then authorized
    else if s == "executed"
    then executed
    else if s == "tool_failed"
    then tool_failed
    else timed_out

decision_of-value : (d : AuditDecision) → decision_of (decision_value d) ≡ d
unfolding string_eq
decision_of-value AuditDecision.allow = refl
decision_of-value AuditDecision.block = refl
decision_of-value AuditDecision.error = refl

status_of-value : (s : AuditExecutionStatus) → status_of (execution_status_value s) ≡ s
unfolding string_eq
status_of-value not_forwarded = refl
status_of-value authorized = refl
status_of-value executed = refl
status_of-value tool_failed = refl
status_of-value timed_out = refl

decision_value-injective : (a b : AuditDecision) → decision_value a ≡ decision_value b → a ≡ b
decision_value-injective a b h = sym (decision_of-value a) ∙ ap decision_of h ∙ decision_of-value b

execution_status_value-injective :
    (a b : AuditExecutionStatus) → execution_status_value a ≡ execution_status_value b → a ≡ b
execution_status_value-injective a b h =
    sym (status_of-value a) ∙ ap status_of h ∙ status_of-value b

module _ {Text : Type 0} (canonical : Json → Text) (isoformat : ℕ → String) where
  -- The same values in every field that is hashed. The parameters have the same canonical text, and
  -- the instants are written alike.
  pub record SameContent (a b : ToolCallAuditEvent) : Type 0 where
    pub event_id : a.event_id ≡ b.event_id
    pub request_id : a.request_id ≡ b.request_id
    pub idempotency_key : a.idempotency_key ≡ b.idempotency_key
    pub sequence : a.sequence ≡ b.sequence
    pub timestamp : isoformat (as_utc a.timestamp) ≡ isoformat (as_utc b.timestamp)
    pub agent_id : a.agent_id ≡ b.agent_id
    pub session_id : a.session_id ≡ b.session_id
    pub user_id : a.user_id ≡ b.user_id
    pub tool : a.tool ≡ b.tool
    pub operation : a.operation ≡ b.operation
    pub sanitized_parameters :
        canonical (obj a.sanitized_parameters) ≡ canonical (obj b.sanitized_parameters)
    pub decision : a.decision ≡ b.decision
    pub reason_code : a.reason_code ≡ b.reason_code
    pub matched_manifest_id : a.matched_manifest_id ≡ b.matched_manifest_id
    pub policy_checksum : a.policy_checksum ≡ b.policy_checksum
    pub execution_status : a.execution_status ≡ b.execution_status
    pub upstream_status_code : a.upstream_status_code ≡ b.upstream_status_code
    pub decision_latency_ms : a.decision_latency_ms ≡ b.decision_latency_ms
    pub total_latency_ms : a.total_latency_ms ≡ b.total_latency_ms
    pub trace_id : a.trace_id ≡ b.trace_id
    pub previous_record_hash : a.previous_record_hash ≡ b.previous_record_hash

  module _ (known : IsCanonical canonical) where
    text_of : (s t : String) → some (canonical (str s)) ≡ some (canonical (str t)) → s ≡ t
    text_of s t h = known.texts s t (some-injective _ _ h)

    number_of : (m n : ℕ) → some (canonical (int (pos m))) ≡ some (canonical (int (pos n))) → m ≡ n
    number_of m n h = known.numbers m n (some-injective _ _ h)

    opt_text_of :
        (s t : Option String) → some (canonical (opt_str s)) ≡ some (canonical (opt_str t)) → s ≡ t
    opt_text_of none none h = refl
    opt_text_of none (some t) h = absurd (known.text_not_null t (some-injective _ _ (sym h)))
    opt_text_of (some s) none h = absurd (known.text_not_null s (some-injective _ _ h))
    opt_text_of (some s) (some t) h = ap some (text_of s t h)

    opt_number_of :
        (m n : Option ℕ) → some (canonical (opt_int m)) ≡ some (canonical (opt_int n)) → m ≡ n
    opt_number_of none none h = refl
    opt_number_of none (some n) h = absurd (known.number_not_null n (some-injective _ _ (sym h)))
    opt_number_of (some m) none h = absurd (known.number_not_null m (some-injective _ _ h))
    opt_number_of (some m) (some n) h = ap some (number_of m n h)

    pub payload-SameContent :
        (a b : ToolCallAuditEvent)
        → canonical (payload isoformat a) ≡ canonical (payload isoformat b)
        → SameContent a b
    unfolding payload string_eq
    payload-SameContent a b h =
        let value =
          known.members (members_of (payload isoformat a)) (members_of (payload isoformat b)) refl
            refl h in
        record {
          event_id = text_of a.event_id b.event_id (value "event_id");
          request_id = text_of a.request_id b.request_id (value "request_id");
          idempotency_key = text_of a.idempotency_key b.idempotency_key (value "idempotency_key");
          sequence = number_of a.sequence b.sequence (value "sequence");
          timestamp = text_of _ _ (value "timestamp");
          agent_id = text_of a.agent_id b.agent_id (value "agent_id");
          session_id = opt_text_of a.session_id b.session_id (value "session_id");
          user_id = opt_text_of a.user_id b.user_id (value "user_id");
          tool = text_of a.tool b.tool (value "tool");
          operation = text_of a.operation b.operation (value "operation");
          sanitized_parameters = some-injective _ _ (value "sanitized_parameters");
          decision =
              decision_value-injective a.decision b.decision (text_of _ _ (value "decision"));
          reason_code = text_of a.reason_code b.reason_code (value "reason_code");
          matched_manifest_id =
              opt_text_of a.matched_manifest_id b.matched_manifest_id (value "matched_manifest_id");
          policy_checksum =
              opt_text_of a.policy_checksum b.policy_checksum (value "policy_checksum");
          execution_status =
              execution_status_value-injective a.execution_status b.execution_status
                (text_of _ _ (value "execution_status"));
          upstream_status_code =
              opt_number_of a.upstream_status_code b.upstream_status_code
                (value "upstream_status_code");
          decision_latency_ms =
              opt_number_of a.decision_latency_ms b.decision_latency_ms
                (value "decision_latency_ms");
          total_latency_ms =
              opt_number_of a.total_latency_ms b.total_latency_ms (value "total_latency_ms");
          trace_id = opt_text_of a.trace_id b.trace_id (value "trace_id");
          previous_record_hash =
              opt_text_of a.previous_record_hash b.previous_record_hash
                (value "previous_record_hash");
        }
