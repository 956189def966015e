-- ===== src/Store/Uploads.antt =====
-- internal/service/servicetest/stores.go: CreateObjectFile; internal/objectfiles/store.go: the check of
-- a path's segments.
use atlas_c.Base.{
  ℕ, String, Bool, ◌&&◌, ◌||◌, false, not, none, some, List, [], ◌∷◌, length, ltb, nat_eq, ◌==◌,
  ◌<>◌, if◌then◌else◌, Result, ok, err, pass, ◌>>=◌, ◌>>◌,
}
use atlas_c.Base.Assoc.{Assoc, string_eq, lookup, insert}
use atlas_c.Base.Int.{ℤ}
use atlas_c.Base.Trim.{trim_space}
use atlas_c.Model.Errors.{conflict, not_found, invalid, payload_too_large}
use atlas_c.Model.Ids.{validate_id}
use atlas_c.Model.MediaType.{Mime, octet_stream, normalize_content_type}
use atlas_c.Model.Records.{ObjectFile, Time}
use atlas_c.Sighting.{report}
use atlas_c.Store.State.{MemoryStore, ObjectFileKey, object_file_key_eq, Method}
use atlas_c.Store.Files.{Reader, read_limited, mem_upload_limit, read_count, key_of}
use atlas_c.Store.Staged.{FileSystem, read_staged}

-- An empty path stands for an upload that is not pre-staged.
pub record ObjectUploadInput : Type 0 where
  pub file : ObjectFile
  pub reader : Reader
  pub max_bytes : ℕ
  pub pre_staged_path : String
  pub pre_staged_size_bytes : ℤ
  pub pre_staged_content_type : String

-- ValidateObjectFilePathSegments
unfoldable pub validate_object_file_path_segments : String → String → Result (Unit {0})
validate_object_file_path_segments object_id file_id = do
  report (validate_id "object_id" object_id)
  report (validate_id "file_id" file_id)

-- filepath.Join("objects", objectID, fileID), on segments that passed the check.
unfoldable pub logical_path : String → String → String
logical_path object_id file_id = "objects/" <> object_id <> "/" <> file_id

-- `for _, existing := range m.ObjectFiles { if existing.Path == logicalPath { ... } }`
unfoldable pub has_path : String → Assoc ObjectFileKey ObjectFile → Bool
has_path path [] = false
has_path path ((_, file) ∷ rest) = file.path == path || has_path path rest

-- The tests of CreateObjectFile before it reads a byte.
unfoldable pub check_upload : ObjectFile → MemoryStore → Result (Unit {0})
unfolding validate_object_file_path_segments has_path logical_path
check_upload file m = elim (lookup file.object_id m.objects) [
  | none ↦ err (not_found "object" file.object_id)
  | some _ ↦ do
    validate_object_file_path_segments file.object_id file.file_id
    elim (lookup (key_of file.object_id file.file_id) m.object_files) [
      | some _ ↦ err (conflict "object_file" file.file_id "already_exists" [])
      | none ↦
          if has_path (logical_path file.object_id file.file_id) m.object_files
          then err (conflict "object_file" file.file_id "already_exists" [])
          else pass
    ]
]

unfoldable pub check_size : ℕ → List ℕ → Result (List ℕ)
check_size limit bytes =
    if nat_eq (length bytes) 0
    then err (invalid "file" "required" "file bytes are required")
    else if ltb limit (length bytes)
    then err (payload_too_large "upload exceeds configured limit")
    else ok bytes

module _ (mime : Mime) (fs : FileSystem) where
  -- The bytes of the upload.
  unfoldable pub read_upload : ObjectUploadInput → Result (List ℕ)
  unfolding check_size
  read_upload input =
      let limit = mem_upload_limit input.max_bytes in
      (if input.pre_staged_path == ""
        then read_limited (read_count limit) input.reader
        else read_staged fs input.pre_staged_path input.pre_staged_size_bytes limit)
      >>= check_size limit

  -- The content type that is stored.
  unfoldable pub stored_content_type : ObjectUploadInput → String
  stored_content_type input =
      let (normalized, valid) = normalize_content_type mime input.file.content_type in
      if valid && not (trim_space input.file.content_type == "")
      then normalized
      else if not (input.pre_staged_path == "")
      then (normalize_content_type mime input.pre_staged_content_type).0
      else octet_stream

  -- The record that is stored; a zero time is replaced by the present one.
  unfoldable pub new_object_file : Time → ObjectUploadInput → List ℕ → ObjectFile
  unfolding stored_content_type logical_path
  new_object_file now input bytes = record input.file {
    path = logical_path input.file.object_id input.file.file_id;
    size_bytes = length bytes;
    content_type = stored_content_type input;
    created_at = if nat_eq input.file.created_at 0 then now else input.file.created_at;
    updated_at = if nat_eq input.file.updated_at 0 then now else input.file.updated_at;
  }

  unfoldable pub uploaded : ObjectUploadInput → MemoryStore → Result (List ℕ)
  unfolding check_upload read_upload
  uploaded input m = do check_upload input.file m; read_upload input

  -- CreateObjectFile, at the time `now`.
  unfoldable pub create_object_file : Time → ObjectUploadInput → Method ObjectFile
  unfolding uploaded new_object_file
  create_object_file now input m = elim (uploaded input m) [
    | err e ↦ (err e, m)
    | ok bytes ↦
        let key = key_of input.file.object_id input.file.file_id in
        let file = new_object_file now input bytes in
        (
          ok file,
          record m {
            object_files = insert key file m.object_files;
            file_bytes = insert key bytes m.file_bytes;
          },
        )
  ]
