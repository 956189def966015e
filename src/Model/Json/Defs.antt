-- ===== src/Model/Json/Defs.antt =====
-- The type of dynamic values, and the type assertions that the source makes on them.
use atlas_c.Base.{String, Bool, Option, none, some, List, [], ◌∷◌}
use atlas_c.Base.Int.{ℤ}
use atlas_c.Model.Float.{Float64}

mutual
  pub data Json : Type 0 where
    null : Json
    bool : Bool → Json
    float64 : Float64 → Json
    int int64 : ℤ → Json
    str : String → Json
    strings : List String → Json
    nil_strings : Json
    arr : Items → Json
    obj json_map : Fields → Json

  pub data Items : Type 0 where
    nil : Items
    cons : Json → Items → Items

  -- The entries of a map, in the order in which a `range` loop meets them.
  pub data Fields : Type 0 where
    end : Fields
    field : String → Json → Fields → Fields

-- A model.JSONMap variable; `none` is the nil map.
abbrev pub JsonMap : Type 0
JsonMap = Option Fields

-- A nil map reads as an empty one.
abbrev pub entries : JsonMap → Fields
entries none = end
entries (some fs) = fs

-- `v.(string)`
abbrev pub as_string : Json → Option String
as_string (str s) = some s
as_string _ = none

-- `v.(bool)`
abbrev pub as_bool : Json → Option Bool
as_bool (bool b) = some b
as_bool _ = none

-- `v.(map[string]any)`: a JSONMap does not pass.
abbrev pub as_map : Json → Option Fields
as_map (obj fs) = some fs
as_map _ = none

-- `v.([]any)`
abbrev pub as_array : Json → Option Items
as_array (arr xs) = some xs
as_array _ = none

abbrev pub items : Items → List Json
items nil = []
items (cons x xs) = x ∷ items xs
