-- ===== src/Admin/Reader.antt =====
-- A reader of CSV in its usual format, as a machine with four modes.
use Prim.Native.Char.{Char, code}
use drawback_backend.Prelude.{ℕ, String, List, [], ◌∷◌, ◌==◌, if◌then◌else◌}

-- Before a field, in one without quotes, in one with quotes, and after a quote in that.
pub data Mode : Type 0 where
  fresh plain quoted closing : Mode

-- A character belongs to the field, or to the quotes, or ends the field or the row.
pub data Move : Type 0 where
  keep skip end_field end_row : Move

abbrev pub outside : ℕ → Mode × Move
outside c =
    if c == code ","
    then (fresh, end_field)
    else if c == code "\n"
    then (fresh, end_row)
    else (plain, keep)

abbrev pub step : Mode → ℕ → Mode × Move
step fresh c = if c == code "\"" then (quoted, skip) else outside c
step plain c = outside c
step quoted c = if c == code "\"" then (closing, skip) else (quoted, keep)
step closing c = if c == code "\"" then (quoted, keep) else outside c

-- The rest of the field, the other fields of the row, and the other rows.
pub record Rest : Type 0 where
  pub field : String
  pub fields : List String
  pub rows : List (List String)

abbrev pub act : Move → Char → Rest → Rest
act keep c r = record r { field = String.◌∷◌ c r.field }
act skip c r = r
act end_field c r = record { field = ""; fields = r.field ∷ r.fields; rows = r.rows }
act end_row c r = record { field = ""; fields = []; rows = (r.field ∷ r.fields) ∷ r.rows }

unfoldable pub read : Mode → String → Rest
read m String.[] = record { field = ""; fields = []; rows = [] }
read m (String.◌∷◌ c s) = act (step m (code c)).1 c (read (step m (code c)).0 s)

abbrev pub table_of : String → List (List String)
table_of s = let r = read fresh s in (r.field ∷ r.fields) ∷ r.rows
