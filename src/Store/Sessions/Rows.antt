-- ===== src/Store/Sessions/Rows.antt =====
-- Looking up the rows of sessions after an insert and after a flush.
use tool_permission_enforcer.Base.{
  String, false, Option, some, List, [], ◌∷◌, ◌++◌, ◌≡◌, ◌≢◌, refl, arith, ◌==◌, string_eq, any,
  first_where,
}
use tool_permission_enforcer.Domain.Models.{AgentSession}
use tool_permission_enforcer.Store.Sessions.{clashes, write}

abbrev pub find : String → List AgentSession → Option AgentSession
find session_id = first_where (λ s. s.session_id == session_id)

pub find-append :
    (s : AgentSession) (rows : List AgentSession)
    → any (clashes s) rows ≡ false
    → find s.session_id (rows ++ (s ∷ [])) ≡ some s
find-append s [] fresh = ground arith
find-append s (r ∷ rows) fresh = ground (arith, find-append s rows (ground arith))

-- A row that is found is still found after an insert.
pub find-append-found :
    (id : String) (s found : AgentSession) (rows : List AgentSession)
    → find id rows ≡ some found
    → find id (rows ++ (s ∷ [])) ≡ some found
find-append-found id s found [] h = absurd (ground arith)
find-append-found id s found (r ∷ rows) h = ground (arith, find-append-found id s found rows)

-- The changed row replaces the row that was found.
pub find-write :
    (s found : AgentSession) (rows : List AgentSession)
    → find s.session_id rows ≡ some found
    → find s.session_id (write s.session_id s rows) ≡ some s
find-write s found [] h = absurd (ground arith)
find-write s found (r ∷ rows) h = ground (arith, find-write s found rows)

-- The other rows stay.
pub find-write-other :
    (id : String) (s : AgentSession) (rows : List AgentSession)
    → id ≢ s.session_id
    → find id (write s.session_id s rows) ≡ find id rows
find-write-other id s [] other = refl
find-write-other id s (r ∷ rows) other = ground (arith, find-write-other id s rows other)

pub find-id :
    (id : String) (found : AgentSession) (rows : List AgentSession)
    → find id rows ≡ some found
    → found.session_id ≡ id
find-id id found [] h = absurd (ground arith)
find-id id found (r ∷ rows) h = ground (arith, find-id id found rows)
