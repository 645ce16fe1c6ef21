-- ===== src/Migrations/Undo.antt =====
-- A downgrade takes back what its upgrade did.
use tool_permission_enforcer.Base.{
  true, some, List, [], ◌∷◌, ◌++◌, ◌≡◌, arith, all, Option-cases, inl, inr,
}
use tool_permission_enforcer.Migrations.{Operation, Alembic, is_addition, undo, DropsAdditions, run}

abbrev pub undo_all : List Operation → List Operation
undo_all [] = []
undo_all (o ∷ os) = undo_all os ++ (undo o ∷ [])

module _ (alembic : Alembic) where
  run-snoc :
      (os : List Operation) (o : Operation) (s t u : alembic.Schema)
      → run alembic os s ≡ some t
      → alembic.apply o t ≡ some u
      → run alembic (os ++ (o ∷ [])) s ≡ some u
  unfolding run
  run-snoc [] o s t u h k = ground (arith, k)
  run-snoc (x ∷ xs) o s t u h k = elim (Option-cases (alembic.apply x s)) [
    | inl refused ↦ absurd (ground arith)
    | inr (m, applied) ↦ ground (arith, applied, run-snoc xs o m t u)
  ]

  -- Additions that ran are taken back by their inverses in the reverse order.
  pub run-undo_all :
      (drops : DropsAdditions alembic) (os : List Operation) (s s' : alembic.Schema)
      → all is_addition os ≡ true
      → run alembic os s ≡ some s'
      → run alembic (undo_all os) s' ≡ some s
  unfolding run
  run-undo_all drops [] s s' a h = ground arith
  run-undo_all drops (o ∷ os) s s' a h = elim (Option-cases (alembic.apply o s)) [
    | inl refused ↦ absurd (ground arith)
    | inr (m, applied) ↦
        run-snoc (undo_all os) (undo o) s' m s
          (run-undo_all drops os m s' (ground arith) (ground (arith, applied)))
          (drops o s m (ground arith) applied)
  ]
