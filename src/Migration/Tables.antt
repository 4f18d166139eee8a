-- ===== src/Migration/Tables.antt =====
-- The definitions of tables, and the operations of alembic on them that the migrations use. An
-- operation is a value, and what PostgreSQL does with it is an interface.
use package.text.Mathlib.Text.{◌==◌ as str_eq}
use job_queue_service.Prelude.{
  ℕ, String, Bool, true, false, ◌||◌, Option, none, some, List, [], ◌∷◌, if◌then◌else◌,
}

pub data ColumnType : Type 0 where
  uuid unbounded integer jsonb timestamp_with_zone : ColumnType
  varchar : ℕ → ColumnType
  enumeration : String → ColumnType

pub data ServerDefault : Type 0 where
  gen_random_uuid now : ServerDefault
  literal : ℕ → ServerDefault

pub record Column : Type 0 where
  pub name : String
  pub type : ColumnType
  pub nullable : Bool
  pub server_default : Option ServerDefault

-- `column >= n`, `column <= other` and `column BETWEEN low AND high`.
pub data Check : Type 0 where
  at_least : String → ℕ → Check
  within_column : String → String → Check
  between : String → ℕ → ℕ → Check

-- The WHERE of a partial index.
pub data Condition : Type 0 where
  is_not_null : String → Condition
  is_text : String → String → Condition

pub record Index : Type 0 where
  pub name : String
  pub columns : List String
  pub unique : Bool
  pub condition : Option Condition

pub record ForeignKey : Type 0 where
  pub name : String
  pub column : String
  pub referred_table : String
  pub referred_column : String
  pub cascades : Bool

pub record TableDefinition : Type 0 where
  pub columns : List Column
  pub checks : List (String × Check)
  pub foreign_keys : List ForeignKey
  pub primary_key : String × String
  pub indexes : List Index

-- The tables and the enumerations, the last one first, and the names of tables that were created
-- here and have no rows yet.
pub record Catalog : Type 0 where
  pub tables : List (String × TableDefinition)
  pub types : List (String × List String)
  pub rowless : List String

pub data Operation : Type 0 where
  create_type : String → List String → Operation
  drop_type : String → Operation
  create_table : String → TableDefinition → Operation
  drop_table : String → Operation
  create_index : String → Index → Operation
  drop_index : String → String → Operation
  add_column : String → Column → Operation
  drop_column : String → String → Operation

module _ {A : Type 0} where
  abbrev pub find : String → List (String × A) → Option A
  find name [] = none
  find name (x ∷ xs) = let rest = find name xs in if str_eq x.0 name then some x.1 else rest

  abbrev pub remove : String → List (String × A) → List (String × A)
  remove name [] = []
  remove name (x ∷ xs) = let rest = remove name xs in if str_eq x.0 name then xs else x ∷ rest

  abbrev pub change : String → (A → A) → List (String × A) → List (String × A)
  change name f [] = []
  change name f (x ∷ xs) =
      let rest = change name f xs in if str_eq x.0 name then (x.0, f x.1) ∷ xs else x ∷ rest

  abbrev pub any : (A → Bool) → List A → Bool
  any p [] = false
  any p (x ∷ xs) = p x || any p xs

  abbrev pub is_free : Option A → Bool
  is_free none = true
  is_free (some a) = false

abbrev pub find_column : String → List Column → Option Column
find_column name [] = none
find_column name (c ∷ cs) =
    let rest = find_column name cs in if str_eq c.name name then some c else rest

abbrev pub without_column : String → List Column → List Column
without_column name [] = []
without_column name (c ∷ cs) =
    let rest = without_column name cs in if str_eq c.name name then cs else c ∷ rest

abbrev pub without_index : String → List Index → List Index
without_index name [] = []
without_index name (i ∷ is) =
    let rest = without_index name is in if str_eq i.name name then is else i ∷ rest

abbrev pub is_enumeration : String → ColumnType → Bool
is_enumeration name (enumeration other) = str_eq other name
is_enumeration name _ = false

abbrev pub is_missing : ColumnType → List (String × List String) → Bool
is_missing (enumeration name) types = is_free (find name types)
is_missing _ types = false

abbrev pub uses_type : String → String × TableDefinition → Bool
uses_type name t = any (λ (c : Column). is_enumeration name c.type) t.1.columns

abbrev pub refers_to : String → String × TableDefinition → Bool
refers_to name t = any (λ (k : ForeignKey). str_eq k.referred_table name) t.1.foreign_keys
