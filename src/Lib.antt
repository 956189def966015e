-- ===== src/Lib.antt =====
-- Atlas Core (atlas-core/internal): a model of its service layer and of what that layer stands on.
--
-- The program keeps four families of records (entities, observations, tasks, objects) and the files of
-- objects, checks every change against two catalogs of JSON schemas and against the references between
-- the records, and publishes each change as an event to the streams.
--
-- Files and what they model (paths from atlas-core/internal):
--   Model      model/types.go, errors.go, pagination.go: dynamic JSON values (Model/Json), cloning by
--              marshalling, merging, limits, identifiers, errors, records, pages. float64 values are
--              dyadic fractions with NaN and the infinities (Model/Float).
--   Catalog    catalog/schema.go and catalog.go: ValidateSchema, ValidateValue, the command catalog.
--   Sighting   sightingcatalog/catalog.go.
--   Events     events/publisher.go: the hub; channels are cells of a heap, a panic is none.
--   Store      service/servicetest/stores.go: the in-memory store, which the repository keeps in step
--              with the PostgreSQL store. Go maps are association lists, in any order; a method is one
--              step, since it holds the store's lock from end to end. Store/Integrity has the
--              references between records, Store/Filed what holds of files, Store/Frame and
--              Store/Atomic what methods leave alone, Store/Listing what lists answer; a slice out of
--              range is an error result. Store/Uploads also has the check of a path's
--              segments of objectfiles/store.go, and Model/MediaType has mediatype/mediatype.go.
--   Service    service/service.go, task_json.go, cappedread.go: each operation is an action on the state
--              of the services (stores, active catalogs, hub, reads of the clock) and keeps what it
--              wrote before an error. Service/Requests has runs of operations. Service/Change
--              describes what one operation may do to the stores, Service/Lifecycle what runs do to
--              records, Service/Atomic what a failed operation leaves, Service/Tasks what
--              is behind a created task and which events its changes send. Service/Materialize is
--              Materialize of catalog/catalog.go.
--   Tests      tests on concrete inputs, and the theorems at such inputs.
--   Base       shared names, lists, texts, association lists and results.
--
-- Numbers are natural numbers without a bound where Go has an int that only counts stored data; the
-- count `limit + 1` of a reader wraps around at the largest int64 (Store.Files.read_count). The int64
-- values of JSON are integers, and float64(i) rounds to the nearest even as Go does. strconv.Atoi has
-- the range of 64 bits. `decimal` writes at most twenty digits, enough for 64 bits.
--
-- Parameters: regexp, time.Parse, SHA-256, json.Unmarshal into a catalog, the length of json.Marshal's
-- output, the clock, the package mime, and path/filepath and os where a pre-staged upload is read are
-- fields of Service.State.Env or arguments. Fuel: the search for the staging directory gets the length
-- of the path plus one, and each of its rounds shortens the path.
--
-- Not modelled: the PostgreSQL store and the files on disk (SQL and system calls), the HTTP layer, the
-- configuration and the start of the process. A pre-staged file is read, but its removal from the disk
-- is left out, since the disk is no part of the state. A run
-- serves one request after the other: the calls that one operation makes of the store are not
-- interleaved with those of another.
pub mod Base
pub mod Model
pub mod Catalog
pub mod Sighting
pub mod Events
pub mod Store
pub mod Service
pub mod Tests
