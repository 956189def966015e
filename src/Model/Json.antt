-- ===== src/Model/Json.antt =====
-- The dynamic values (`any`) that the program handles. A decoded body holds `null`, `bool`, `float64`,
-- `str`, `arr` and `obj`; values that Go code builds may also hold `int`, `int64`, `strings`
-- and `nil_strings` (a []string, nil or not) and `json_map` (the named type model.JSONMap, distinct
-- from map[string]any). A nil []any or a nil map inside a document is not modelled: decoding gives none.
mod Defs
pub mod Entries
pub mod Clone
pub mod Equal
pub use Defs.*
