-- ===== src/Security/TrustedSessions/Revoked.antt =====
-- A revoked session stays revoked.
use tool_permission_enforcer.Base.{
  ℕ, String, none, some, List, [], ◌∷◌, ◌++◌, ◌≡◌, ◌≢◌, ◌⊎◌, inl, inr, refl, arith, string_eq,
  Option-cases,
}
use tool_permission_enforcer.Base.Outcome.{ok}
use tool_permission_enforcer.Domain.Enums.{SessionStatus}
use tool_permission_enforcer.Domain.Models.{AgentSession, aware}
use tool_permission_enforcer.Store.{Db}
use tool_permission_enforcer.Store.Sessions
use tool_permission_enforcer.Store.Sessions.{write}
use tool_permission_enforcer.Store.Sessions.Rows.{
  find, find-append-found, find-id, find-write, find-write-other,
}
use tool_permission_enforcer.Settings.{PermissionProxySettings}
use tool_permission_enforcer.Security.Claims.{TrustedSessionClaims}
use tool_permission_enforcer.Security.Jwt.{Jwt}
use tool_permission_enforcer.Security.TrustedSessions.{
  validate, create, new_session, NewSession, revoke, revoke_found,
}
use tool_permission_enforcer.Security.TrustedSessions.Live.{validate-reads, validate-IsLive}

-- The session is stored, and is revoked.
abbrev pub IsRevoked : String → Db → Type 0
IsRevoked id db =
    (s : AgentSession) × (find id db.sessions ≡ some s) × (s.status ≡ SessionStatus.revoked)

abbrev revoked_row : AgentSession → ℕ → AgentSession
revoked_row s now = record s { status = SessionStatus.revoked; revoked_at = some (aware now) }

-- `revoke` leaves the rows, where the session is missing or revoked, or writes the revoked row.
revoke-missing :
    (session_id : String) (now : ℕ) (db : Db)
    → find session_id db.sessions ≡ none
    → (revoke session_id now db).1.sessions ≡ db.sessions
unfolding revoke Sessions.get revoke_found
revoke-missing session_id now db missing = ground arith

revoke-rows :
    (session_id : String) (now : ℕ) (db : Db) (s : AgentSession)
    → find session_id db.sessions ≡ some s
    → (((revoke session_id now db).1.sessions ≡ db.sessions) × (s.status ≡ SessionStatus.revoked))
      ⊎ ((revoke session_id now db).1.sessions ≡ write s.session_id (revoked_row s now) db.sessions)
unfolding revoke Sessions.get revoke_found
revoke-rows session_id now db s found = ground arith

write-IsRevoked :
    (id session_id : String) (now : ℕ) (old s : AgentSession) (db : Db)
    → find session_id db.sessions ≡ some old
    → find id db.sessions ≡ some s
    → s.status ≡ SessionStatus.revoked
    → (s' : AgentSession) × (find id (write old.session_id (revoked_row old now) db.sessions)
        ≡ some s')
      × (s'.status ≡ SessionStatus.revoked)
write-IsRevoked id session_id now old s db found_old found is_revoked =
    let same = find-id session_id old db.sessions found_old in
    elim (string_eq.dec id session_id) [
      | yes e ↦ (
        revoked_row old now,
        ground (arith, find-write (revoked_row old now) old db.sessions (ground arith)),
        refl,
      )
      | no n ↦ (
        s,
        ground (arith, find-write-other id (revoked_row old now) db.sessions (ground arith)),
        is_revoked,
      )
    ]

pub revoke-IsRevoked :
    (id session_id : String) (now : ℕ) (db : Db)
    → IsRevoked id db
    → IsRevoked id ((revoke session_id now db).1)
revoke-IsRevoked id session_id now db (s, found, is_revoked) =
    elim (Option-cases (find session_id db.sessions)) [
      | inl missing ↦ (s, (rw (revoke-missing session_id now db missing) found), is_revoked)
      | inr (old, found_old) ↦ elim (revoke-rows session_id now db old found_old) [
        | inl (same, _) ↦ (s, (rw same found), is_revoked)
        | inr written ↦
            rw written (write-IsRevoked id session_id now old s db found_old found is_revoked)
      ]
    ]

revoke-found :
    (id : String) (now : ℕ) (db : Db) (s : AgentSession)
    → (revoke id now db).0 ≡ ok s
    → find id db.sessions ≢ none
unfolding revoke Sessions.get revoke_found
revoke-found id now db s done = ground arith

-- A `revoke` that succeeded.
revoke-makes-IsRevoked :
    (id : String) (now : ℕ) (db : Db) (s : AgentSession)
    → (revoke id now db).0 ≡ ok s
    → IsRevoked id ((revoke id now db).1)
revoke-makes-IsRevoked id now db s done = elim (Option-cases (find id db.sessions)) [
  | inl missing ↦ absurd (revoke-found id now db s done missing)
  | inr (old, found) ↦ elim (revoke-rows id now db old found) [
    | inl (same, is_revoked) ↦ (old, (rw same found), is_revoked)
    | inr written ↦ (
      revoked_row old now,
      ground (
        arith,
        find-id id old db.sessions found,
        find-write (revoked_row old now) old db.sessions,
      ),
      refl,
    )
  ]
]

module _ (jwt : Jwt) (settings : PermissionProxySettings) where
  pub data Operation : Type 0 where
    create_one : NewSession → String → String → ℕ → Operation
    validate_one : jwt.Token → String → ℕ → Operation
    revoke_one : String → ℕ → Operation

  -- The database after an operation, whether it raised or not.
  abbrev pub after : Operation → Db → Db
  after (create_one new session_hex jti_hex now) db =
      (create jwt settings new session_hex jti_hex now db).1
  after (validate_one token expected now) db = (validate jwt settings token expected now db).1
  after (revoke_one session_id now) db = (revoke session_id now db).1

  abbrev pub after_all : List Operation → Db → Db
  after_all [] db = db
  after_all (o ∷ os) db = after_all os (after o db)

  create-rows :
      (new : NewSession) (session_hex jti_hex : String) (now : ℕ) (db : Db)
      → let rows = (create jwt settings new session_hex jti_hex now db).1.sessions in
        (rows ≡ db.sessions)
        ⊎ (rows ≡ db.sessions ++ (new_session settings new session_hex jti_hex now ∷ []))
  unfolding create Sessions.add
  create-rows new session_hex jti_hex now db = ground arith

  create-IsRevoked :
      (id : String) (new : NewSession) (session_hex jti_hex : String) (now : ℕ) (db : Db)
      → IsRevoked id db
      → IsRevoked id ((create jwt settings new session_hex jti_hex now db).1)
  create-IsRevoked id new session_hex jti_hex now db (s, found, is_revoked) =
      elim (create-rows new session_hex jti_hex now db) [
        | inl same ↦ (s, (rw same found), is_revoked)
        | inr added ↦ (
          s,
          (rw added (
              find-append-found id (new_session settings new session_hex jti_hex now) s db.sessions
                found)),
          is_revoked,
        )
      ]

  validate-IsRevoked :
      (id : String) (token : jwt.Token) (expected : String) (now : ℕ) (db : Db)
      → IsRevoked id db
      → IsRevoked id ((validate jwt settings token expected now db).1)
  validate-IsRevoked id token expected now db h =
      rw (validate-reads jwt settings token expected now db) h

  after_all-IsRevoked :
      (id : String) (os : List Operation) (db : Db)
      → IsRevoked id db
      → IsRevoked id (after_all os db)
  after_all-IsRevoked id [] db h = h
  after_all-IsRevoked id (create_one new session_hex jti_hex now ∷ os) db h =
      after_all-IsRevoked id os _ (create-IsRevoked id new session_hex jti_hex now db h)
  after_all-IsRevoked id (validate_one token expected now ∷ os) db h =
      after_all-IsRevoked id os _ (validate-IsRevoked id token expected now db h)
  after_all-IsRevoked id (revoke_one session_id now ∷ os) db h =
      after_all-IsRevoked id os _ (revoke-IsRevoked id session_id now db h)

  IsRevoked-not-validate :
      (id : String) (db : Db) (token : jwt.Token) (expected : String) (later : ℕ)
      (claims : TrustedSessionClaims)
      → IsRevoked id db
      → claims.session_id ≡ id
      → (validate jwt settings token expected later db).0 ≢ ok claims
  unfolding Sessions.get
  IsRevoked-not-validate id db token expected later claims (s, found, is_revoked) same accepted =
      let live = validate-IsLive jwt settings token expected later db claims accepted in
      absurd (ground (arith, live.stored, live.is_active))

  -- After a successful `revoke`, whatever calls of `create`, `validate` and `revoke` follow, no token
  -- of that session validates.
  pub revoke-not-validate :
      (id : String) (now : ℕ) (db : Db) (revoked_session : AgentSession) (os : List Operation)
      (token : jwt.Token) (expected : String) (later : ℕ) (claims : TrustedSessionClaims)
      → (revoke id now db).0 ≡ ok revoked_session
      → claims.session_id ≡ id
      → (validate jwt settings token expected later (after_all os ((revoke id now db).1))).0
        ≢ ok claims
  revoke-not-validate id now db revoked_session os token expected later claims done =
      let db' = (revoke id now db).1 in
      IsRevoked-not-validate id (after_all os db') token expected later claims
        (after_all-IsRevoked id os db' (revoke-makes-IsRevoked id now db revoked_session done))
