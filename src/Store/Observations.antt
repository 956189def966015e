-- ===== src/Store/Observations.antt =====
-- The observation methods of the in-memory store.
use atlas_c.Base.{
  ℕ, String, Bool, ◌&&◌, not, Option, none, some, List, [], ◌∷◌, length, ltb, ◌==◌, if◌then◌else◌,
  Result, ok, err, ◌>>=◌,
}
use atlas_c.Base.Assoc.{Assoc, string_eq, lookup, insert, delete}
use atlas_c.Model.Errors.{conflict, not_found, invalid}
use atlas_c.Model.Records.{Observation, Object, ObjectFile, Time}
use atlas_c.Model.Pagination.{Pagination}
use atlas_c.Store.State.{MemoryStore, ObjectFileKey, object_file_key_eq, Method, returns, fails}
use atlas_c.Store.Paging.{newer, sort_slice, paginate}

unfoldable pub create_observation : Observation → Method Observation
create_observation item m = elim (lookup item.observation_id m.observations) [
  | some _ ↦ fails (conflict "observation" item.observation_id "already_exists" []) m
  | none ↦ returns item (record m { observations = insert item.observation_id item m.observations })
]

unfoldable pub get_observation : String → MemoryStore → Result Observation
get_observation id m = elim (lookup id m.observations) [
  | none ↦ err (not_found "observation" id)
  | some item ↦ ok item
]

unfoldable pub update_observation : Observation → Method Observation
update_observation item m = elim (lookup item.observation_id m.observations) [
  | none ↦ fails (not_found "observation" item.observation_id) m
  | some _ ↦
      returns item (record m { observations = insert item.observation_id item m.observations })
]

-- `for key, file := range m.ObjectFiles { if file.ObjectID == objectID { delete ... } }`, over the
-- entries that the loop meets.
unfoldable pub drop_files : String → Assoc ObjectFileKey ObjectFile → MemoryStore → MemoryStore
drop_files object_id [] m = m
drop_files object_id ((key, file) ∷ rest) m = drop_files object_id rest (
    if file.object_id == object_id
    then record m { object_files = delete key m.object_files; file_bytes = delete key m.file_bytes }
    else m)

-- `delete(m.Objects, id)` and the loop over the files.
unfoldable pub drop_object : String → MemoryStore → MemoryStore
unfolding drop_files
drop_object object_id m =
    drop_files object_id m.object_files (record m { objects = delete object_id m.objects })

abbrev pub is_owned_by : String → String → Object → Bool
is_owned_by owner_type id object = object.owner_type == owner_type && object.owner_id == id

-- The loop of DeleteObservation over the objects.
unfoldable pub drop_owned : String → Assoc String Object → MemoryStore → MemoryStore
drop_owned id [] m = m
drop_owned id ((object_id, object) ∷ rest) m =
    drop_owned id rest (if is_owned_by "observation" id object then drop_object object_id m else m)

unfoldable pub delete_observation : String → Method (Unit {0})
delete_observation id m = elim (lookup id m.observations) [
  | none ↦ fails (not_found "observation" id) m
  | some _ ↦
      returns tt (drop_owned id m.objects (record m { observations = delete id m.observations }))
]

pub record ObservationListFilter : Type 0 where
  pub source_asset_id : String
  pub updated_after : String

-- The loop of ListObservations; the cutoff is none where the filter has no time.
unfoldable pub select_observations :
    String → Option Time → Assoc String Observation → List Observation
select_observations source cutoff [] = []
select_observations source cutoff ((_, item) ∷ rest) =
    let others = select_observations source cutoff rest in
    if not (source == "") && not (item.source_asset_id == source) then others else elim cutoff [
      | none ↦ item ∷ others
      | some after ↦ if ltb item.updated_at after then others else item ∷ others
    ]

abbrev observation_less : Observation → Observation → Bool
observation_less a b = newer a.updated_at a.observation_id b.updated_at b.observation_id

-- time.Parse is a parameter.
module _ (parse_time : String → Option Time) where
  unfoldable pub parse_cutoff : String → Result (Option Time)
  parse_cutoff raw = if raw == "" then ok none else elim (parse_time raw) [
    | none ↦ err (invalid "updated_after" "invalid_format" "must be RFC3339 format")
    | some t ↦ ok (some t)
  ]

  -- ListObservations
  unfoldable pub list_observations :
      ObservationListFilter → Pagination → MemoryStore → Result (List Observation × ℕ)
  list_observations filter page m = do
    cutoff ← parse_cutoff filter.updated_after
    let found =
        sort_slice observation_less
          (select_observations filter.source_asset_id cutoff m.observations)
    items ← paginate found page
    ok (items, length found)
