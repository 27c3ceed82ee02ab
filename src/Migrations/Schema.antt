-- ===== src/Migrations/Schema.antt =====
-- A schema of PostgreSQL as far as alembic/versions works on it, and the changes that alembic's `op` asks for.
use aucnotif.Prelude.{
  Bool, false, not, ◌&&◌, ◌||◌, Option, none, some, List, [], ◌∷◌, ◌++◌, if◌then◌else◌,
}
use aucnotif.Prelude.Lists.{exists_where}
use aucnotif.Prelude.Tables.{map_option}
use aucnotif.Prelude.Text.{Text, text_eq}
use aucnotif.Prelude.{ℕ}

pub data ColumnType : Type 0 where
  big_integer integer text boolean timestamp jsonb : ColumnType
  varchar : ℕ → ColumnType

-- A foreign key goes to the primary key of the table that it names, and deletes on cascade.
pub record Column : Type 0 where
  pub name : Text
  pub type : ColumnType
  pub primary_key : Bool
  pub nullable : Bool
  pub server_default : Option Text
  pub references : Option Text

-- An index, or a constraint on a tuple of columns.
pub record Index : Type 0 where
  pub name : Text
  pub columns : List Text
  pub unique : Bool

pub record Table : Type 0 where
  pub name : Text
  pub columns : List Column
  pub constraints : List Index
  pub indexes : List Index

-- The newest table comes first.
abbrev pub Schema : Type 0
Schema = List Table

pub data Change : Type 0 where
  create_table : Table → Change
  create_index : Index → Text → Change
  drop_table : Text → Change
  add_column : Text → Column → Change
  drop_column : Text → Text → Change
  set_server_default : Text → Text → Option Text → Change
  update_rows : Text → Change

abbrev pub has_table : Text → Schema → Bool
has_table name s = exists_where (λ t. text_eq t.name name) s

abbrev pub has_column : Text → List Column → Bool
has_column name columns = exists_where (λ c. text_eq c.name name) columns

abbrev pub has_index : Text → Schema → Bool
has_index name s = exists_where (λ t. exists_where (λ i. text_eq i.name name) t.indexes) s

abbrev points_to : Text → Column → Bool
points_to name c = elim c.references [ none ↦ false | some target ↦ text_eq target name ]

-- Another table has a foreign key to this one.
abbrev pub is_referenced : Text → Schema → Bool
is_referenced name s =
    exists_where (λ t. not (text_eq t.name name) && exists_where (points_to name) t.columns) s

abbrev dangles : Schema → Column → Bool
dangles s c = elim c.references [ none ↦ false | some target ↦ not (has_table target s) ]

-- A change of one table: an error if there is none of the name, or if the change is one.
abbrev alter : Text → (Table → Option Table) → Schema → Option Schema
alter name f [] = none
alter name f (t ∷ s) =
    let rest = map_option (λ r. t ∷ r) (alter name f s) in
    if text_eq t.name name then map_option (λ u. u ∷ s) (f t) else rest

abbrev remove_table : Text → Schema → Schema
remove_table name [] = []
remove_table name (t ∷ s) =
    let rest = t ∷ remove_table name s in if text_eq t.name name then s else rest

abbrev all_in : List Text → List Column → Bool
all_in names columns = not (exists_where (λ n. not (has_column n columns)) names)

abbrev with_index : Index → Table → Option Table
with_index i t =
    if all_in i.columns t.columns then some (record t { indexes = t.indexes ++ i ∷ [] }) else none

abbrev with_column : Column → Schema → Table → Option Table
with_column c s t =
    if has_column c.name t.columns || dangles s c
    then none
    else some (record t { columns = t.columns ++ c ∷ [] })

abbrev remove_column : Text → List Column → List Column
remove_column name [] = []
remove_column name (c ∷ columns) =
    let rest = c ∷ remove_column name columns in if text_eq c.name name then columns else rest

-- The indexes and constraints that do not involve the column.
abbrev spared : Text → List Index → List Index
spared name [] = []
spared name (i ∷ indexes) =
    let rest = spared name indexes in
    if exists_where (λ c. text_eq c name) i.columns then rest else i ∷ rest

abbrev is_key : Text → List Column → Bool
is_key name columns = exists_where (λ c. text_eq c.name name && c.primary_key) columns

-- A column goes with its indexes and constraints, unless it is a key that a foreign key points to.
abbrev without_column : Text → Schema → Table → Option Table
without_column name s t =
    if not (has_column name t.columns) || (is_key name t.columns && is_referenced t.name s)
    then none
    else some (record t {
      columns = remove_column name t.columns;
      constraints = spared name t.constraints;
      indexes = spared name t.indexes;
    })

abbrev set_default : Text → Option Text → List Column → List Column
set_default name default [] = []
set_default name default (c ∷ columns) =
    (if text_eq c.name name then record c { server_default = default } else c)
    ∷ set_default name default columns

abbrev with_default : Text → Option Text → Table → Option Table
with_default name default t =
    if has_column name t.columns
    then some (record t { columns = set_default name default t.columns })
    else none

-- What PostgreSQL does: `none` where it refuses the change.
unfoldable pub apply : Change → Schema → Option Schema
apply (create_table t) s =
    if has_table t.name s || exists_where (dangles s) t.columns then none else some (t ∷ s)
apply (create_index i table) s = if has_index i.name s then none else alter table (with_index i) s
apply (drop_table name) s =
    if has_table name s && not (is_referenced name s) then some (remove_table name s) else none
apply (add_column table c) s = alter table (with_column c s) s
apply (drop_column table name) s = alter table (without_column name s) s
apply (set_server_default table name default) s = alter table (with_default name default) s
apply (update_rows sql) s = some s

abbrev pub then_run : Option Schema → (Schema → Option Schema) → Option Schema
then_run none f = none
then_run (some s) f = f s

unfoldable pub run : List Change → Schema → Option Schema
unfolding apply
run [] s = some s
run (c ∷ changes) s = then_run (apply c s) (run changes)
