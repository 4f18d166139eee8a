-- ===== src/Migration/Conditions.antt =====
-- Conditions on the definitions of a database under which a statement on them is accepted.
use package.text.Mathlib.Text.{◌==◌ as str_eq}
use job_queue_service.Prelude.{
  String, Bool, true, false, ◌&&◌, ◌||◌, not, Option, none, some, List, [], ◌∷◌,
}
use job_queue_service.Migration.Tables.{
  Check, at_least, within_column, between, Condition, is_not_null, is_text, find_column, Column,
  Index, ForeignKey, TableDefinition, Catalog, find, any, is_free, is_missing,
}

-- The name is that of the table, of its primary key or of an index of it.
abbrev pub takes_name : String → String × TableDefinition → Bool
takes_name name t =
    str_eq t.0 name
    || (str_eq t.1.primary_key.0 name || any (λ (i : Index). str_eq i.name name) t.1.indexes)

abbrev pub is_unused : String → Catalog → Bool
is_unused name c = not (any (takes_name name) c.tables) && is_free (find name c.types)

abbrev pub has_column : List Column → String → Bool
has_column cols name = not (is_free (find_column name cols))

abbrev pub all : {A : Type 0} → (A → Bool) → List A → Bool
all p [] = true
all p (x ∷ xs) = p x && all p xs

abbrev pub are_distinct : List Column → Bool
are_distinct [] = true
are_distinct (c ∷ cs) = not (has_column cs c.name) && are_distinct cs

-- The columns of the constraint are there.
abbrev pub is_on : List Column → String × Check → Bool
is_on cols (_, at_least name low) = has_column cols name
is_on cols (_, within_column name other) = has_column cols name && has_column cols other
is_on cols (_, between name low high) = has_column cols name

abbrev pub is_condition_on : List Column → Option Condition → Bool
is_condition_on cols none = true
is_condition_on cols (some (is_not_null name)) = has_column cols name
is_condition_on cols (some (is_text name value)) = has_column cols name

-- The columns are distinct, and all that the constraints name is among them.
abbrev pub is_coherent : TableDefinition → Bool
is_coherent t =
    are_distinct t.columns
    && (has_column t.columns t.primary_key.1
        && (all (is_on t.columns) t.checks
            && all (λ (k : ForeignKey). has_column t.columns k.column) t.foreign_keys))

-- The foreign key refers to the primary key of a table.
abbrev pub is_referable : String → Option TableDefinition → Bool
is_referable column none = false
is_referable column (some t) = str_eq t.primary_key.1 column

-- The tables and enumerations that a new table refers to are there, and its indexes come later.
abbrev pub is_supplied : TableDefinition → Catalog → Bool
is_supplied t c =
    all (λ (k : ForeignKey). is_referable k.referred_column (find k.referred_table c.tables))
      t.foreign_keys
    && (not (any (λ (col : Column). is_missing col.type c.types) t.columns)
        && not (any (λ (i : Index). true) t.indexes))

-- The index is on columns of the table.
abbrev pub is_indexable : Index → TableDefinition → Bool
is_indexable i t = all (has_column t.columns) i.columns && is_condition_on t.columns i.condition

abbrev pub mentions : String → String × Check → Bool
mentions column (_, at_least name low) = str_eq name column
mentions column (_, within_column name other) = str_eq name column || str_eq other column
mentions column (_, between name low high) = str_eq name column

abbrev pub is_condition_of : String → Option Condition → Bool
is_condition_of column none = false
is_condition_of column (some (is_not_null name)) = str_eq name column
is_condition_of column (some (is_text name value)) = str_eq name column

abbrev pub depends_on : String → Index → Bool
depends_on column i =
    any (λ name. str_eq name column) i.columns || is_condition_of column i.condition

-- The table has the column, and nothing of the table depends on it.
abbrev pub is_droppable : String → TableDefinition → Bool
is_droppable column t =
    has_column t.columns column
    && (not (str_eq t.primary_key.1 column)
        && (not (any (mentions column) t.checks)
            && (not (any (λ (k : ForeignKey). str_eq k.column column) t.foreign_keys)
                && not (any (depends_on column) t.indexes))))
