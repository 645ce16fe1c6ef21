-- ===== src/Migrations/Revisions/RoundTrip.antt =====
-- Each downgrade takes its upgrade back.
use tool_permission_enforcer.Base.{true, some, ◌≡◌, refl, all}
use tool_permission_enforcer.Migrations.{Alembic, is_addition, DropsAdditions, run}
use tool_permission_enforcer.Migrations.Undo.{undo_all, run-undo_all}
use tool_permission_enforcer.Migrations.Revisions.{
  Revision, initial_schema, session_creator, audit_idempotency, upgrade, downgrade,
}

upgrade_only_adds : (r : Revision) → all is_addition (upgrade r) ≡ true
unfolding upgrade
upgrade_only_adds initial_schema = refl
upgrade_only_adds session_creator = refl
upgrade_only_adds audit_idempotency = refl

downgrade_is_inverse : (r : Revision) → downgrade r ≡ undo_all (upgrade r)
unfolding upgrade downgrade
downgrade_is_inverse initial_schema = refl
downgrade_is_inverse session_creator = refl
downgrade_is_inverse audit_idempotency = refl

-- If what was added can be dropped, then the downgrade of a revision runs on the schema that the
-- upgrade made of any schema, and gives that one back.
pub downgrade-upgrade :
    (alembic : Alembic) (drops : DropsAdditions alembic) (r : Revision) (s s' : alembic.Schema)
    → run alembic (upgrade r) s ≡ some s'
    → run alembic (downgrade r) s' ≡ some s
downgrade-upgrade alembic drops r s s' h =
    rw (downgrade_is_inverse r)
      (run-undo_all alembic drops (upgrade r) s s' (upgrade_only_adds r) h)
