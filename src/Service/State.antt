-- ===== src/Service/State.antt =====
-- The state of the services, the actions on it, and what they take from outside.
use atlas_c.Base.{ℕ, suc, String, Bool, Option, List, Error, Result, ok, err}
use atlas_c.Model.Json.{Json}
use atlas_c.Model.MediaType.{Mime}
use atlas_c.Model.Records.{Time}
use atlas_c.Catalog.Commands.{Active, Catalog}
use atlas_c.Sighting.{SightingActive}
use atlas_c.Events.{Hub}
use atlas_c.Store.{MemoryStore, Method}
use atlas_c.Store.Staged.{FileSystem}

-- Library functions that the services call: regexp.Compile with MatchString, time.Parse for RFC 3339,
-- the length of json.Marshal's output, the hexadecimal start of SHA-256, json.Unmarshal into a
-- Catalog, the clock, read by read, the package mime, and the file system that pre-staged uploads
-- lie on.
pub record Env : Type 0 where
  pub compile : String → Option (String → Bool)
  pub parse_time : String → Option Time
  pub json_size : Json → ℕ
  pub content_hash : List ℕ → String
  pub unmarshal_catalog : List ℕ → Option Catalog
  pub clock : ℕ → Time
  pub mime : Mime
  pub files : FileSystem

-- The fields of Services; `publisher` is none for a nil hub, and `reads` counts the clock's reads.
pub record Services : Type 0 where
  pub stores : MemoryStore
  pub commands : Active
  pub sightings : SightingActive
  pub publisher : Option Hub
  pub reads : ℕ

-- An action keeps what it wrote before it returned an error.
abbrev pub Action : Type 0 → Type 0
Action A = Services → Result A × Services

abbrev pub continue : {A B : Type 0} → Result A → (A → Action B) → Action B
continue (ok a) f s = f a s
continue (err e) f s = (err e, s)

infixl 5 ◌>>=◌ ◌>>◌
abbrev pub ◌>>=◌ : {A B : Type 0} → Action A → (A → Action B) → Action B
◌>>=◌ m f s = continue (m s).0 f (m s).1

abbrev pub ◌>>◌ : {B : Type 0} → Action (Unit {0}) → Action B → Action B
m >> k = m >>= λ _. k

abbrev pub pure : {A : Type 0} → A → Action A
pure a s = (ok a, s)

abbrev pub throw : {A : Type 0} → Error → Action A
throw e s = (err e, s)

-- A computation that reads and writes nothing.
abbrev pub lift : {A : Type 0} → Result A → Action A
lift r s = (r, s)

-- A read of the store.
abbrev pub reading : {A : Type 0} → (MemoryStore → Result A) → Action A
reading f s = (f s.stores, s)

-- A method of the store.
abbrev pub writing : {A : Type 0} → Method A → Action A
writing f s = ((f s.stores).0, record s { stores = (f s.stores).1 })

abbrev pub gets : {A : Type 0} → (Services → A) → Action A
gets f s = (ok (f s), s)

-- `s.now()`
abbrev pub now : Env → Action Time
now env s = (ok (env.clock s.reads), record s { reads = suc s.reads })
