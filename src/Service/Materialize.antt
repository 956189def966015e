-- ===== src/Service/Materialize.antt =====
-- internal/catalog/catalog.go: Materialize, which stores the bytes of a catalog as an object's file.
pub mod Stores
use atlas_c.Base.{
  ℕ, ◌+◌, String, Bool, true, false, ◌||◌, none, some, List, [], ◌∷◌, length, nat_eq, ◌==◌,
  if◌then◌else◌, Result, ok, err, core, other, pass, ◌>>=◌, after, Error,
}
use atlas_c.Base.Int.{pos}
use atlas_c.Model.Errors.{catalog_unavailable}
use atlas_c.Model.Json.{str, field, end}
use atlas_c.Model.MediaType.{Mime}
use atlas_c.Model.Records.{Object, ObjectFile, Time}
use atlas_c.Catalog.Commands.{Catalog}
use atlas_c.Store.{MemoryStore, Method}
use atlas_c.Store.Objects.{get_object, create_object}
use atlas_c.Store.Files.{read_limited, open_object_file, list_object_files_for_object}
use atlas_c.Store.Staged.{FileSystem}
use atlas_c.Store.Uploads.{ObjectUploadInput, create_object_file}

-- `IsCoreError(err)` with the given code
unfoldable pub has_code : String → Error → Bool
has_code code (core e) = e.error_code == code
has_code code (other text) = false

-- bytes.Equal
unfoldable pub bytes_equal : List ℕ → List ℕ → Bool
bytes_equal [] [] = true
bytes_equal (x ∷ xs) (y ∷ ys) = let rest = bytes_equal xs ys in if nat_eq x y then rest else false
bytes_equal _ _ = false

abbrev mismatch : {A : Type 0} → Result A
mismatch =
    err (
      catalog_unavailable "materialized command catalog does not match checked-in catalog bytes" [])

unfoldable pub same_bytes : List ℕ → List ℕ → Result (Unit {0})
unfolding bytes_equal
same_bytes raw want = if bytes_equal raw want then pass else mismatch

unfoldable pub check_materialized : Catalog → ObjectFile × List ℕ → Result (Unit {0})
unfolding same_bytes
check_materialized c (meta, bytes) =
    if nat_eq meta.size_bytes (length c.raw)
    then after (read_limited (meta.size_bytes + 1) (record { bytes = bytes; failure = none }))
        (λ raw. same_bytes raw c.raw)
    else mismatch

-- verifyMaterializedCatalogFile
unfoldable pub verify_materialized : Catalog → MemoryStore → Result (Unit {0})
unfolding check_materialized
verify_materialized c m = open_object_file c.object_id "catalog-json" m >>= check_materialized c

-- The object of a catalog.
abbrev pub catalog_object : Catalog → Time → Object
catalog_object c now = record {
  object_id = c.object_id;
  type = "command_catalog";
  owner_type = "system";
  owner_id = "active_command_catalog";
  json = some (field "catalog_id" (str c.catalog_id) (field "version" (str c.version) end));
  created_at = now;
  updated_at = now;
}

-- The first step of Materialize: the object, created where it is not found.
unfoldable pub ensure_object : Catalog → Time → Method (Unit {0})
unfolding has_code
ensure_object c now m = elim (get_object c.object_id m) [
  | ok _ ↦ (ok tt, m)
  | err e ↦
      if has_code "not_found" e
      then elim (create_object (catalog_object c now) m).0 [
        | ok _ ↦ (ok tt, (create_object (catalog_object c now) m).1)
        | err e' ↦ (err e', (create_object (catalog_object c now) m).1)
      ]
      else (err e, m)
]

-- `for _, file := range files { if file.FileID == "catalog-json" { ... } }`
unfoldable pub has_catalog_file : List ObjectFile → Bool
has_catalog_file [] = false
has_catalog_file (file ∷ rest) = file.file_id == "catalog-json" || has_catalog_file rest

abbrev pub catalog_upload : Catalog → ObjectUploadInput
catalog_upload c = record {
  file = record {
    file_id = "catalog-json";
    object_id = c.object_id;
    path = "";
    content_type = "application/json";
    size_bytes = 0;
    usage_hint = "";
    created_at = 0;
    updated_at = 0;
  };
  reader = record { bytes = c.raw; failure = none };
  max_bytes = length c.raw + 1;
  pre_staged_path = "";
  pre_staged_size_bytes = pos 0;
  pre_staged_content_type = "";
}

-- An upload that another one came before is none.
unfoldable pub unless_conflict : Result ObjectFile → Result (Unit {0})
unless_conflict (ok file) = pass
unless_conflict (err e) = if has_code "conflict" e then pass else err e

module _ (mime : Mime) (fs : FileSystem) where
  -- The last step: the check of the file, or its upload.
  unfoldable pub ensure_file : Catalog → Time → Method (Unit {0})
  unfolding has_catalog_file verify_materialized unless_conflict
  ensure_file c now m =
      if has_catalog_file (list_object_files_for_object c.object_id m)
      then (verify_materialized c m, m)
      else (
        unless_conflict (create_object_file mime fs now (catalog_upload c) m).0,
        (create_object_file mime fs now (catalog_upload c) m).1,
      )

  -- Materialize; it reads the clock for the object, and the store for the file.
  unfoldable pub materialize : Catalog → Time → Time → Method Catalog
  unfolding ensure_object ensure_file
  materialize c now later m = elim (ensure_object c now m).0 [
    | err e ↦ (err e, (ensure_object c now m).1)
    | ok _ ↦
        let m' = (ensure_object c now m).1 in
        ((ensure_file c later m').0 >>= λ _. ok c, (ensure_file c later m').1)
  ]
