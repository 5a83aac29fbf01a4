-- ===== src/Schemas/Values.antt =====
-- What the fields of common/schemas.py can hold: any decoded JSON value. A float counts
-- ten-thousandths.
use the_grid_x.Base.{
  ℤ, Bool, true, false, not, or_else, Text, is_empty, Dict, lookup, if◌then◌else◌,
}
use the_grid_x.Database.{is_zero}

mutual
  pub data Json : Type 0 where
    null : Json
    boolean : Bool → Json
    int : ℤ → Json
    real : ℤ → Json
    str : Text → Json
    array : Items → Json
    object : Fields → Json

  pub data Items : Type 0 where
    no_items : Items
    item : Json → Items → Items

  pub data Fields : Type 0 where
    no_fields : Fields
    field : (key : Text) → Json → Fields → Fields

-- The truth value in Python.
abbrev pub json_truth : Json → Bool
json_truth null = false
json_truth (boolean b) = b
json_truth (int z) = not (is_zero z)
json_truth (real z) = not (is_zero z)
json_truth (str s) = not (is_empty s)
json_truth (array no_items) = false
json_truth (array (item j r)) = true
json_truth (object no_fields) = false
json_truth (object (field k j r)) = true

-- `a or b`
abbrev pub or_json : Json → Json → Json
or_json a b = if json_truth a then a else b

-- `d.get(key, default)`
unfoldable pub get_or : (key : Text) → Json → Dict Json → Json
get_or key d dict = or_else (lookup key dict) d
