-- ===== src/Model/MediaType.antt =====
-- internal/mediatype/mediatype.go.
use atlas_c.Base.{String, Bool, true, false, Option, none, some, List, [], ◌∷◌, ◌==◌, if◌then◌else◌}
use atlas_c.Base.Trim.{trim_space}

-- mime.ParseMediaType and mime.FormatMediaType; `parse` gives none for an error.
pub record Mime : Type 0 where
  pub parse : String → Option (String × List (String × String))
  pub format : String → List (String × String) → String

abbrev pub octet_stream : String
octet_stream = "application/octet-stream"

unfoldable pub formatted_type : Mime → String → List (String × String) → String × Bool
formatted_type mime media_type [] = (media_type, true)
formatted_type mime media_type (p ∷ params) =
    let formatted = mime.format media_type (p ∷ params) in
    if formatted == "" then (media_type, true) else (formatted, true)

unfoldable pub parsed_type : Mime → Option (String × List (String × String)) → String × Bool
unfolding formatted_type
parsed_type mime none = (octet_stream, false)
parsed_type mime (some (media_type, params)) =
    if media_type == "" then (octet_stream, false) else formatted_type mime media_type params

-- NormalizeContentType
unfoldable pub normalize_content_type : Mime → String → String × Bool
unfolding parsed_type
normalize_content_type mime raw =
    let value = trim_space raw in
    if value == "" then (octet_stream, true) else parsed_type mime (mime.parse value)
