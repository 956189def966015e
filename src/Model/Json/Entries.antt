-- ===== src/Model/Json/Entries.antt =====
-- Reads and writes of the maps inside dynamic values.
use atlas_c.Base.{String, ◌≡◌, refl, Option, none, some, arith, ◌==◌, eq_iff, ℕ, suc, if◌then◌else◌}
use atlas_c.Model.Json.Defs.{Json, Fields, end, field, null}

-- `v, ok := m[key]`
unfoldable pub get : String → Fields → Option Json
get key end = none
get key (field k v fs) = if k == key then some v else get key fs

-- `m[key] = v`
unfoldable pub set : String → Json → Fields → Fields
set key v end = field key v end
set key v (field k w fs) = if k == key then field key v fs else field k w (set key v fs)

-- `delete(m, key)`
unfoldable pub remove : String → Fields → Fields
remove key end = end
remove key (field k v fs) = let rest = remove key fs in if k == key then rest else field k v rest

-- `m[key]`, which is nil where the key is missing.
abbrev pub or_null : Option Json → Json
or_null none = null
or_null (some v) = v

abbrev pub at : String → Fields → Json
at key fs = or_null (get key fs)

-- `len(m)`
abbrev pub len_fields : Fields → ℕ
len_fields end = 0
len_fields (field k v fs) = suc (len_fields fs)

pub get-set :
    (k j : String) (v : Json) (fs : Fields)
    → get j (set k v fs) ≡ (if k == j then some v else get j fs)
unfolding get set
get-set k j v end = refl
get-set k j v (field i w fs) = ground (arith, eq_iff k j, eq_iff i k, eq_iff i j, get-set k j v fs)

pub get-remove :
    (k j : String) (fs : Fields) → get j (remove k fs) ≡ (if k == j then none else get j fs)
unfolding get remove
get-remove k j end = ground arith
get-remove k j (field i w fs) =
    ground (arith, eq_iff k j, eq_iff i k, eq_iff i j, get-remove k j fs)

pub ruleset map_laws = (get-set, get-remove)

-- No key stands twice, as in every Go map.
abbrev pub IsFresh : String → Fields → Type 0
IsFresh key fs = get key fs ≡ none

abbrev pub HasDistinctKeys : Fields → Type 0
HasDistinctKeys end = Unit
HasDistinctKeys (field k v fs) = IsFresh k fs × HasDistinctKeys fs
