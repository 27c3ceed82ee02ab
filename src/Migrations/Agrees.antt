-- ===== src/Migrations/Agrees.antt =====
-- The schema after all migrations against the tables that app/models declares.
use aucnotif.Prelude.{
  ◌==◌, ◌≡◌, refl, Bool, true, false, not, ◌&&◌, Option, none, some, List, [], ◌∷◌, ◌++◌, opt_eq,
}
use aucnotif.Prelude.Lists.{exists_where}
use aucnotif.Prelude.Text.{Text, text_eq}
use aucnotif.Migrations.Schema.{
  ColumnType, big_integer, integer, text, boolean, timestamp, jsonb, varchar, Column, Index, Table,
  Schema, run, apply,
}
use aucnotif.Migrations.Initial.{initial_upgrade}
use aucnotif.Migrations.Versions.{upgrade, moscow_upgrade, timezone_upgrade, label_upgrade}
use aucnotif.Migrations.Declared.{declared}
use aucnotif.Migrations.RoundTrip.{IsForeign}

abbrev type_eq : ColumnType → ColumnType → Bool
type_eq big_integer big_integer = true
type_eq integer integer = true
type_eq text text = true
type_eq boolean boolean = true
type_eq timestamp timestamp = true
type_eq jsonb jsonb = true
type_eq (varchar m) (varchar n) = m == n
type_eq _ _ = false

abbrev bool_eq : Bool → Bool → Bool
bool_eq true b = b
bool_eq false b = not b

-- Two columns, up to what the server puts in by default.
abbrev column_eq : Column → Column → Bool
column_eq c d =
    text_eq c.name d.name
    && type_eq c.type d.type
    && bool_eq c.primary_key d.primary_key
    && bool_eq c.nullable d.nullable
    && opt_eq text_eq c.references d.references

abbrev texts_eq : List Text → List Text → Bool
texts_eq [] [] = true
texts_eq (x ∷ xs) (y ∷ ys) = text_eq x y && texts_eq xs ys
texts_eq _ _ = false

abbrev index_eq : Index → Index → Bool
index_eq i j = text_eq i.name j.name && texts_eq i.columns j.columns && bool_eq i.unique j.unique

-- The same elements, in whatever order.
abbrev covers {ℓ} : {A : Type ℓ} → (A → A → Bool) → List A → List A → Bool
covers eq xs [] = true
covers eq xs (y ∷ ys) = exists_where (λ x. eq x y) xs && covers eq xs ys

abbrev same_elements {ℓ} : {A : Type ℓ} → (A → A → Bool) → List A → List A → Bool
same_elements eq xs ys = covers eq xs ys && covers eq ys xs

abbrev table_eq : Table → Table → Bool
table_eq t u =
    text_eq t.name u.name
    && same_elements column_eq t.columns u.columns
    && same_elements index_eq t.constraints u.constraints
    && same_elements index_eq t.indexes u.indexes

unfoldable pub agrees : Schema → Schema → Bool
agrees s t = same_elements table_eq s t

abbrev or_empty : Option Schema → Schema
or_empty none = []
or_empty (some s) = s

-- Up: beside tables of other programs, which use none of this program's names, the migrations add tables before
-- those that are there, and the added ones are the tables that the classes declare, with the same columns, keys,
-- constraints and indexes up to their order and the server's defaults.
pub upgrade-agrees :
    (s : Schema)
    → IsForeign s
    → (t : Schema) × ((run upgrade s ≡ some (t ++ s)) × (agrees t declared ≡ true))
unfolding upgrade run apply initial_upgrade moscow_upgrade timezone_upgrade label_upgrade agrees
upgrade-agrees s h =
    let (t₁, (t₂, (t₃, (t₄, (t₅, _))))) = h.no_table in
    let (i₁, (i₂, (i₃, (i₄, (i₅, (i₆, (i₇, (i₈, _)))))))) = h.no_index in
    (
      or_empty (run upgrade []),
      (rw (t₁, i₁, t₂, i₂, i₃, i₄, t₃, i₅, i₆, t₄, i₇, t₅, i₈) refl, refl),
    )
