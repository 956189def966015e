-- ===== src/Model/Records.antt =====
-- internal/model/types.go: the stored records, and what events and queries carry. A time is the number
-- of nanoseconds since a fixed instant.
use atlas_c.Base.{ℕ, String, List}
use atlas_c.Model.Json.{JsonMap}

abbrev pub Time : Type 0
Time = ℕ

pub record Entity : Type 0 where
  pub entity_id : String
  pub type : String
  pub subtype : String
  pub alias : String
  pub json : JsonMap
  pub created_at : Time
  pub updated_at : Time

pub record Observation : Type 0 where
  pub observation_id : String
  pub source_asset_id : String
  pub json : JsonMap
  pub created_at : Time
  pub updated_at : Time

pub record Task : Type 0 where
  pub task_id : String
  pub status : String
  pub asset_id : String
  pub command_catalog_object_id : String
  pub json : JsonMap
  pub created_at : Time
  pub updated_at : Time

pub record Object : Type 0 where
  pub object_id : String
  pub type : String
  pub owner_type : String
  pub owner_id : String
  pub json : JsonMap
  pub created_at : Time
  pub updated_at : Time

pub record ObjectFile : Type 0 where
  pub file_id : String
  pub object_id : String
  pub path : String
  pub content_type : String
  pub size_bytes : ℕ
  pub usage_hint : String
  pub created_at : Time
  pub updated_at : Time

-- What an event carries: a record, a deletion, or an object with its first files.
pub data EventData : Type 0 where
  entity : Entity → EventData
  observation : Observation → EventData
  task : Task → EventData
  object : Object → ℕ → List ObjectFile → EventData
  deleted_at : Time → EventData

pub record EventEnvelope : Type 0 where
  pub event_id : String
  pub type : String
  pub resource_type : String
  pub resource_id : String
  pub mutation : String
  pub occurred_at : Time
  pub payload : EventData

pub record ServiceBrief : Type 0 where
  pub service : String
  pub active_command_catalog_object_id : String

pub record QuerySnapshot : Type 0 where
  pub generated_at : Time
  pub service : ServiceBrief
  pub entities : List Entity
  pub observations : List Observation
  pub tasks : List Task
  pub objects : List Object
  pub object_files : List ObjectFile
