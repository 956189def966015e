-- ===== src/Store/Files.antt =====
-- The object file methods of the in-memory store. A reader is the bytes that it gives, and the error
-- with which it then ends, or none for the end of the file.
use atlas_c.Base.{
  ℕ, ◌+◌, ◌*◌, ◌^◌, String, Bool, Option, none, some, List, [], ◌∷◌, ◌++◌, length, take, leb, ltb,
  nat_eq, ◌==◌, if◌then◌else◌, Error, Result, ok, err, ◌>>=◌,
}
use atlas_c.Base.Assoc.{Assoc, string_eq, lookup, insert, delete}
use atlas_c.Model.Errors.{not_found, invalid, payload_too_large}
use atlas_c.Model.Records.{ObjectFile, Time}
use atlas_c.Store.State.{MemoryStore, ObjectFileKey, object_file_key_eq, Method, returns, fails}
use atlas_c.Store.Paging.{text_lt, sort_slice}

pub record Reader : Type 0 where
  pub bytes : List ℕ
  pub failure : Option Error

-- io.ReadAll of an io.LimitedReader with `n` bytes: a failure behind them is never met.
unfoldable pub read_limited : ℕ → Reader → Result (List ℕ)
read_limited n r =
    if leb n (length r.bytes)
    then ok (take n r.bytes)
    else elim r.failure [ none ↦ ok r.bytes | some e ↦ err e ]

-- memUploadLimit; a requested limit of zero or less stands for no request.
unfoldable pub mem_upload_limit : ℕ → ℕ
mem_upload_limit requested = if ltb 0 requested then requested else 16 * 1024 * 1024

-- `limit + 1` as the count of a reader: the largest int64 wraps around to a negative count, which ends
-- the reader at once.
unfoldable pub read_count : ℕ → ℕ
read_count limit = if ltb (limit + 1) (2 ^ 63) then limit + 1 else 0

abbrev pub key_of : String → String → ObjectFileKey
key_of object_id file_id = record { object_id = object_id; file_id = file_id }

-- GetObjectFile; `!ok || file.ObjectID != objectID`
unfoldable pub get_object_file : String → String → MemoryStore → Result ObjectFile
get_object_file object_id file_id m = elim (lookup (key_of object_id file_id) m.object_files) [
  | none ↦ err (not_found "object_file" file_id)
  | some file ↦
      if file.object_id == object_id then ok file else err (not_found "object_file" file_id)
]

abbrev pub bytes_of : Option (List ℕ) → List ℕ
bytes_of none = []
bytes_of (some bytes) = bytes

-- OpenObjectFile, with a reader over the stored bytes.
unfoldable pub open_object_file : String → String → MemoryStore → Result (ObjectFile × List ℕ)
open_object_file object_id file_id m = do
  file ← get_object_file object_id file_id m
  ok (file, bytes_of (lookup (key_of object_id file_id) m.file_bytes))

unfoldable pub checked_append : ℕ → List ℕ → Result (List ℕ)
checked_append limit bytes =
    if nat_eq (length bytes) 0
    then err (invalid "body" "required" "append body must not be empty")
    else if ltb limit (length bytes)
    then err (payload_too_large "append exceeds configured limit")
    else ok bytes

-- The reads and checks of AppendObjectFile: the bytes to append.
unfoldable pub read_append : Reader → ℕ → Result (List ℕ)
unfolding read_limited mem_upload_limit read_count checked_append
read_append reader max_bytes = do
  bytes ← read_limited (read_count (mem_upload_limit max_bytes)) reader
  checked_append (mem_upload_limit max_bytes) bytes

-- AppendObjectFile, at the time `now`.
unfoldable pub append_object_file : Time → String → String → Reader → ℕ → Method ObjectFile
append_object_file now object_id file_id reader max_bytes m =
    elim (get_object_file object_id file_id m) [
      | err e ↦ fails e m
      | ok file ↦ elim (read_append reader max_bytes) [
        | err e ↦ fails e m
        | ok bytes ↦
            let key = key_of object_id file_id in
            let whole = bytes_of (lookup key m.file_bytes) ++ bytes in
            let file' = record file { size_bytes = length whole; updated_at = now } in
            returns file' (record m {
              object_files = insert key file' m.object_files;
              file_bytes = insert key whole m.file_bytes;
            })
      ]
    ]

unfoldable pub delete_object_file : String → String → Method (Unit {0})
delete_object_file object_id file_id m = elim (get_object_file object_id file_id m) [
  | err e ↦ fails e m
  | ok file ↦
      let key = key_of object_id file_id in
      returns tt (record m {
        object_files = delete key m.object_files;
        file_bytes = delete key m.file_bytes;
      })
]

unfoldable pub select_files : String → Assoc ObjectFileKey ObjectFile → List ObjectFile
select_files object_id [] = []
select_files object_id ((_, file) ∷ rest) =
    let others = select_files object_id rest in
    if file.object_id == object_id then file ∷ others else others

abbrev file_less : ObjectFile → ObjectFile → Bool
file_less a b = text_lt a.file_id b.file_id

-- ListObjectFilesForObject
unfoldable pub list_object_files_for_object : String → MemoryStore → List ObjectFile
list_object_files_for_object object_id m =
    sort_slice file_less (select_files object_id m.object_files)
