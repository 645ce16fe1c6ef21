-- ===== src/Migrations/Tables.antt =====
-- A database that is a list of tables with their columns, constraints and indexes: an operation that
-- names what is there already, or what is not there, gives none.
use tool_permission_enforcer.Base.{
  String, Bool, true, false, Option, none, some, List, [], ◌∷◌, ◌++◌, ◌==◌, ◌≡◌, refl, arith,
  string_eq, any, Option-cases, Bool-cases, inl, inr, if◌then◌else◌,
}
use tool_permission_enforcer.Migrations.{
  Column, Constraint, Index, Operation, create_table, drop_table, create_index, drop_index,
  add_column, drop_column, Alembic, DropsAdditions,
}

pub record Table : Type 0 where
  pub name : String
  pub columns : List Column
  pub constraints : List Constraint
  pub indexes : List Index

abbrev pub Schema : Type 0
Schema = List Table

module _ {A : Type 0} where
  -- Two things of one name are refused, and so is dropping what is not there.
  abbrev pub add_named : (A → Bool) → A → List A → Option (List A)
  add_named named x xs = if any named xs then none else some (xs ++ (x ∷ []))

  abbrev pub cons_some : A → Option (List A) → Option (List A)
  cons_some x none = none
  cons_some x (some xs) = some (x ∷ xs)

  abbrev pub remove_named : (A → Bool) → List A → Option (List A)
  remove_named named [] = none
  remove_named named (x ∷ xs) =
      let rest = remove_named named xs in if named x then some xs else cons_some x rest

abbrev replaced : Option Table → Schema → Option Schema
replaced none ts = none
replaced (some t) ts = some (t ∷ ts)

-- A change of the table of a name.
abbrev pub change_table : String → (Table → Option Table) → Schema → Option Schema
change_table name f [] = none
change_table name f (t ∷ ts) =
    let rest = change_table name f ts in
    if t.name == name then replaced (f t) ts else cons_some t rest

abbrev with_indexes : Table → Option (List Index) → Option Table
with_indexes t none = none
with_indexes t (some indexes) = some (record t { indexes = indexes })

abbrev with_columns : Table → Option (List Column) → Option Table
with_columns t none = none
with_columns t (some columns) = some (record t { columns = columns })

abbrev pub index_named : String → Index → Bool
index_named name i = i.name == name

abbrev pub column_named : String → Column → Bool
column_named name c = c.name == name

abbrev pub table_named : String → Table → Bool
table_named name t = t.name == name

abbrev pub put_index : Index → Table → Option Table
put_index i t = with_indexes t (add_named (index_named i.name) i t.indexes)

abbrev pub take_index : String → Table → Option Table
take_index name t = with_indexes t (remove_named (index_named name) t.indexes)

abbrev pub put_column : Column → Table → Option Table
put_column c t = with_columns t (add_named (column_named c.name) c t.columns)

abbrev pub take_column : String → Table → Option Table
take_column name t = with_columns t (remove_named (column_named name) t.columns)

-- The names of indexes are those of the whole schema.
unfoldable pub apply : Operation → Schema → Option Schema
apply (create_table name columns constraints) s =
    add_named (table_named name)
      (record { name = name; columns = columns; constraints = constraints; indexes = [] }) s
apply (drop_table name) s = remove_named (table_named name) s
apply (create_index table i) s =
    if any (λ t. any (index_named i.name) t.indexes) s
    then none
    else change_table table (put_index i) s
apply (drop_index table name) s = change_table table (take_index name) s
apply (add_column table c) s = change_table table (put_column c) s
apply (drop_column table name) s = change_table table (take_column name) s

abbrev pub tables : Alembic
tables = record { Schema = Schema; apply = apply }

remove_named-snoc :
    {A : Type 0} (named : A → Bool) (x : A) (xs : List A)
    → any named xs ≡ false
    → named x ≡ true
    → remove_named named (xs ++ (x ∷ [])) ≡ some xs
remove_named-snoc named x [] h e = rw e refl
remove_named-snoc named x (y ∷ ys) h e = ground (arith, remove_named-snoc named x ys)

-- What is added last is what is removed.
remove_named-add_named :
    {A : Type 0} (named : A → Bool) (x : A) (xs ys : List A)
    → named x ≡ true
    → add_named named x xs ≡ some ys
    → remove_named named ys ≡ some xs
remove_named-add_named named x xs ys e h = ground (arith, remove_named-snoc named x xs)

put_index-undone :
    (i : Index) (t t' : Table)
    → put_index i t ≡ some t'
    → (take_index i.name t' ≡ some t) × (t'.name ≡ t.name)
put_index-undone i t t' h = elim (Option-cases (add_named (index_named i.name) i t.indexes)) [
  | inl refused ↦ absurd (ground arith)
  | inr (indexes, added) ↦
      let taken =
        remove_named-add_named (index_named i.name) i t.indexes indexes (ground arith) added in
      let it : t' ≡ record t { indexes = indexes } = ground arith in rw it (rw taken refl, refl)
]

put_column-undone :
    (c : Column) (t t' : Table)
    → put_column c t ≡ some t'
    → (take_column c.name t' ≡ some t) × (t'.name ≡ t.name)
put_column-undone c t t' h = elim (Option-cases (add_named (column_named c.name) c t.columns)) [
  | inl refused ↦ absurd (ground arith)
  | inr (columns, added) ↦
      let taken =
        remove_named-add_named (column_named c.name) c t.columns columns (ground arith) added in
      let it : t' ≡ record t { columns = columns } = ground arith in rw it (rw taken refl, refl)
]

change_table-undone :
    (name : String) (f g : Table → Option Table)
    → ((t t' : Table) → f t ≡ some t' → (g t' ≡ some t) × (t'.name ≡ t.name))
    → (s s' : Schema) → change_table name f s ≡ some s'
    → change_table name g s' ≡ some s
change_table-undone name f g undone [] s' h = absurd (ground arith)
change_table-undone name f g undone (t ∷ ts) s' h = elim (Bool-cases (t.name == name)) [
  | inl here ↦ elim (Option-cases (f t)) [
    | inl refused ↦ absurd (ground arith)
    | inr (t', changed) ↦
        let (back, same) = undone t t' changed in
        let it : s' ≡ t' ∷ ts = ground arith in rw it (ground (arith, back, same))
  ]
  | inr other ↦ elim (Option-cases (change_table name f ts)) [
    | inl refused ↦ absurd (ground arith)
    | inr (ts', changed) ↦
        let back = change_table-undone name f g undone ts ts' changed in
        let it : s' ≡ t ∷ ts' = ground arith in rw it (ground (arith, back))
  ]
]

pub tables-DropsAdditions : DropsAdditions tables
unfolding apply
tables-DropsAdditions (create_table name columns constraints) s s' a h =
    remove_named-add_named (table_named name) _ s s' (ground arith) h
tables-DropsAdditions (create_index table i) s s' a h =
    change_table-undone table (put_index i) (take_index i.name) (put_index-undone i) s s'
      (ground arith)
tables-DropsAdditions (add_column table c) s s' a h =
    change_table-undone table (put_column c) (take_column c.name) (put_column-undone c) s s' h
tables-DropsAdditions (drop_table name) s s' a h = absurd (ground arith)
tables-DropsAdditions (drop_index table name) s s' a h = absurd (ground arith)
tables-DropsAdditions (drop_column table name) s s' a h = absurd (ground arith)
