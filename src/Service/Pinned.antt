-- ===== src/Service/Pinned.antt =====
-- internal/service/cappedread.go and loadPinnedCatalog of service.go: the command catalog that a task
-- was created with, from memory where it is the active one, and else from its stored file.
pub mod Reading
pub mod Verified
use atlas_c.Base.{
  ℕ, ◌+◌, ◌*◌, ◌^◌, String, Bool, true, false, not, Option, none, some, List, [], length, ltb,
  nat_eq, ◌==◌, if◌then◌else◌, core, other, Result, ok, err, pass, ◌>>=◌, ◌>>◌,
}
use atlas_c.Model.Errors.{catalog_unavailable, payload_too_large}
use atlas_c.Model.Records.{ObjectFile}
use atlas_c.Catalog.Commands.{
  Catalog, validate, index_commands, object_id_from_content_hash, get_active,
}
use atlas_c.Store.{MemoryStore}
use atlas_c.Store.Files.{Reader, read_limited, open_object_file}
use atlas_c.Service.State.{Env, Services}

-- 8 << 20
abbrev pub max_pinned_catalog_bytes : ℕ
max_pinned_catalog_bytes = 8 * 2 ^ 20

-- readAllCapped
unfoldable pub read_all_capped : Reader → ℕ → Result (List ℕ)
read_all_capped r max = elim (read_limited (max + 1) r) [
  | err e ↦ err e
  | ok buf ↦
      if ltb max (length buf)
      then err (payload_too_large "pinned command catalog JSON exceeds read limit")
      else ok buf
]

abbrev unavailable : {A : Type 0} → String → Result A
unavailable message = err (catalog_unavailable message [])

-- The error of the read: an oversized file counts as an unavailable catalog.
unfoldable pub read_pinned : Reader → Result (List ℕ)
unfolding read_all_capped
read_pinned r = elim (read_all_capped r max_pinned_catalog_bytes) [
  | ok raw ↦ ok raw
  | err (core e) ↦
      if e.error_code == "payload_too_large"
      then unavailable "stored command catalog exceeds read limit"
      else err (core e)
  | err (other text) ↦ err (other text)
]

-- `if err := catalog.Validate(parsed)`: every CoreError becomes one about the stored catalog.
unfoldable pub as_stored_failure : Result (Unit {0}) → Result (Unit {0})
as_stored_failure (ok u) = ok u
as_stored_failure (err (core e)) = unavailable "stored command catalog failed validation"
as_stored_failure (err (other text)) = err (other text)

unfoldable pub require : Bool → String → Result (Unit {0})
require true message = pass
require false message = unavailable message

unfoldable pub parsed_or_fail : Option Catalog → Result Catalog
parsed_or_fail none = unavailable "stored command catalog is not valid JSON"
parsed_or_fail (some c) = ok c

module _ (env : Env) where
  -- `contentHash := active.ContentHash`, derived where it is empty.
  unfoldable pub hash_of_active : Catalog → String
  hash_of_active active =
      if active.content_hash == "" then env.content_hash active.raw else active.content_hash

  unfoldable pub verify_active : Catalog → String → Result Catalog
  unfolding require hash_of_active
  verify_active active object_id = do
    require (not (nat_eq (length active.raw) 0))
        "active command catalog has no raw bytes for verification"
    require (object_id_from_content_hash (hash_of_active active) == object_id)
        "command catalog object id does not match catalog bytes"
    ok active

  unfoldable pub load_stored : ObjectFile × List ℕ → String → Result Catalog
  unfolding require read_pinned parsed_or_fail as_stored_failure
  load_stored (meta, bytes) object_id = do
    require (ltb 0 meta.size_bytes) "stored command catalog has invalid size metadata"
    raw ← read_pinned (record { bytes = bytes; failure = none })
    require (nat_eq (length raw) meta.size_bytes)
        "stored command catalog byte length does not match object metadata"
    require (object_id_from_content_hash (env.content_hash raw) == object_id)
        "command catalog object id does not match catalog bytes"
    parsed ← parsed_or_fail (env.unmarshal_catalog raw)
    as_stored_failure (validate (record parsed { raw = raw }))
    ok (record parsed {
      raw = raw;
      object_id = object_id;
      content_hash = env.content_hash raw;
      by_type = index_commands [] parsed.commands;
    })

  unfoldable pub load_from_store : String → MemoryStore → Result Catalog
  unfolding load_stored
  load_from_store object_id m = do
    file ← open_object_file object_id "catalog-json" m
    load_stored file object_id

  -- loadPinnedCatalog
  unfoldable pub load_pinned_catalog : String → Services → Result Catalog
  unfolding verify_active load_from_store
  load_pinned_catalog object_id s = elim (get_active s.commands) [
    | none ↦ load_from_store object_id s.stores
    | some active ↦
        if active.object_id == object_id
        then verify_active active object_id
        else load_from_store object_id s.stores
  ]
