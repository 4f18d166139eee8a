-- ===== src/Migration/Effects.antt =====
-- What the operations of the migrations do to the definitions of a database, as PostgreSQL documents
-- it.
use package.text.Mathlib.Text.{◌==◌ as str_eq}
use job_queue_service.Prelude.{
  String, ◌≡◌, Bool, true, false, ◌&&◌, ◌||◌, not, Option, none, some, List, [], ◌∷◌, ◌++◌,
  if◌then◌else◌, ap, some_injective, Option-cases, inl, inr, ◌∙◌,
}
use job_queue_service.Migration.Tables.{
  Index, TableDefinition, Catalog, Operation, create_type, drop_type, create_table, drop_table,
  create_index, drop_index, add_column, drop_column, find, remove, change, any, is_free, is_missing,
  uses_type, refers_to, without_column, without_index,
}
use job_queue_service.Migration.Conditions.{
  is_unused, has_column, is_coherent, is_supplied, is_indexable, is_droppable,
}

abbrev pub when : Bool → Catalog → Option Catalog
when true c = some c
when false c = none

abbrev pub passes_test : (TableDefinition → Bool) → Option TableDefinition → Bool
passes_test test none = false
passes_test test (some t) = test t

-- A statement on one table that is there and passes a test.
abbrev pub on_definition :
    String
    → (TableDefinition → Bool)
    → (TableDefinition → TableDefinition)
    → Catalog
    → Option Catalog
on_definition name test f c =
    when (passes_test test (find name c.tables)) (record c { tables = change name f c.tables })

abbrev pub without_text : String → List String → List String
without_text name [] = []
without_text name (x ∷ xs) =
    let rest = without_text name xs in if str_eq x name then xs else x ∷ rest

-- What a statement does to the catalog, under conditions that suffice; `none` where they do not hold.
-- A unique index is relied on only where there are no rows, and so is a new column only if it may be
-- NULL.
abbrev pub effect : Operation → Catalog → Option Catalog
effect (create_type name values) c =
    when (is_unused name c) (record c { types = (name, values) ∷ c.types })
effect (drop_type name) c =
    when (not (any (uses_type name) c.tables)) (record c { types = remove name c.types })
effect (create_table name t) c =
    when (is_unused name c && (is_unused t.primary_key.0 c && (is_coherent t && is_supplied t c)))
      (record c { tables = (name, t) ∷ c.tables; rowless = name ∷ c.rowless })
effect (drop_table name) c =
    when (not (is_free (find name c.tables)) && not (any (refers_to name) (remove name c.tables)))
      (record c { tables = remove name c.tables; rowless = without_text name c.rowless })
effect (create_index name i) c =
    let new =
      on_definition name (is_indexable i)
        (λ (t : TableDefinition). record t { indexes = t.indexes ++ (i ∷ []) }) c in
    if is_unused i.name c && (not i.unique || any (λ x. str_eq x name) c.rowless) then new else none
effect (drop_index name i) c =
    on_definition name (λ (t : TableDefinition). any (λ (k : Index). str_eq k.name i) t.indexes)
      (λ (t : TableDefinition). record t { indexes = without_index i t.indexes }) c
effect (add_column name col) c =
    on_definition name
      (λ (t : TableDefinition).
        not (has_column t.columns col.name) && (col.nullable && not (is_missing col.type c.types)))
      (λ (t : TableDefinition). record t { columns = t.columns ++ (col ∷ []) }) c
effect (drop_column name col) c =
    on_definition name (is_droppable col)
      (λ (t : TableDefinition). record t { columns = without_column col t.columns }) c

abbrev pub catalog_of : {S : Type 0} → (S → Catalog) → Option S → Option Catalog
catalog_of catalog none = none
catalog_of catalog (some s) = some (catalog s)

-- What the statements do, one after the other.
abbrev pub effects_after : (Catalog → Option Catalog) → Option Catalog → Option Catalog
effects_after f none = none
effects_after f (some c) = f c

unfoldable pub effects : List Operation → Catalog → Option Catalog
effects [] c = some c
effects (o ∷ os) c = effects_after (effects os) (effect o c)

pub effects-append :
    (os ps : List Operation) (c d : Catalog)
    → effects os c ≡ some d
    → effects (os ++ ps) c ≡ effects ps d
unfolding effects
effects-append [] ps c d e = ap (effects ps) (some_injective e)
effects-append (o ∷ os) ps c d e = elim (Option-cases (effect o c)) [
  | inl failed ↦ absurd (cc (rw failed at e))
  | inr (c', done) ↦ rw done (effects-append os ps c' d (rw done at e))
]

-- A database whose tables can be defined.
pub record Definable : Type 1 where
  pub Database : Type 0
  pub catalog : Database → Catalog
  pub apply : Operation → Database → Option Database
  pub apply-effect :
      (o : Operation) (s : Database) (c : Catalog)
      → effect o (catalog s) ≡ some c
      → catalog_of catalog (apply o s) ≡ some c

module _ (d : Definable) where
  open d use {Database, catalog, apply, apply-effect}

  abbrev and_then : (Database → Option Database) → Option Database → Option Database
  and_then f none = none
  and_then f (some s) = f s

  -- The statements of a migration, one after the other.
  unfoldable pub migrate : List Operation → Database → Option Database
  migrate [] s = some s
  migrate (o ∷ os) s = and_then (migrate os) (apply o s)

  followed :
      (f : Database → Option Database) (r : Option Database) (c' c : Catalog)
      → catalog_of catalog r ≡ some c'
      → ((s' : Database) → catalog s' ≡ c' → catalog_of catalog (f s') ≡ some c)
      → catalog_of catalog (and_then f r) ≡ some c
  followed f none c' c at next = absurd (cc)
  followed f (some s') c' c at next = next s' (some_injective at)

  -- Statements whose effects are known have them.
  pub migrate-effects :
      (os : List Operation) (s : Database) (c : Catalog)
      → effects os (catalog s) ≡ some c
      → catalog_of catalog (migrate os s) ≡ some c
  unfolding migrate effects
  migrate-effects [] s c e = e
  migrate-effects (o ∷ os) s c e = elim (Option-cases (effect o (catalog s))) [
    | inl failed ↦ absurd (cc (rw failed at e))
    | inr (c', done) ↦
        followed (migrate os) (apply o s) c' c (apply-effect o s c' done)
          (λ s' at. migrate-effects os s' c (ap (effects os) at ∙ rw done at e))
  ]
