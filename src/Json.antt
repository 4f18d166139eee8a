-- ===== src/Json.antt =====
-- JSON documents, as Python holds them once they are decoded. A real number is its text.
use job_queue_service.Prelude.{ℕ, suc, String, Bool, Option, none, some, if◌then◌else◌}
use job_queue_service.Prelude.Int.{ℤ}
use text.Mathlib.Text.{◌==◌ as str_eq}

mutual
  pub data Json : Type 0 where
    null : Json
    boolean : Bool → Json
    integer : ℤ → Json
    real : String → Json
    string : String → Json
    array : Items → Json
    object : Fields → Json

  pub data Items : Type 0 where
    done : Items
    item : Json → Items → Items

  -- The members of an object, a Python dictionary with texts as keys.
  pub data Fields : Type 0 where
    end : Fields
    field : String → Json → Fields → Fields

-- `fields[key]`; `none` is its KeyError.
unfoldable pub lookup : String → Fields → Option Json
lookup key end = none
lookup key (field name value fields) =
    let rest = lookup key fields in if str_eq name key then some value else rest

-- `len(items)` of a list.
unfoldable pub count : Items → ℕ
count done = 0
count (item value items) = suc (count items)

-- `len(fields)` of a dictionary.
unfoldable pub field_count : Fields → ℕ
field_count end = 0
field_count (field name value fields) = suc (field_count fields)
