-- ===== src/Service/Pinned/Verified.antt =====
-- loadPinnedCatalog of internal/service/service.go hands out no catalog but one that its object
-- identifier names.
use mathlib.Core.Path.{subst}
use atlas_c.Base.{
  ℕ, ◌≡◌, ◌≤◌, refl, ap, Option, none, String, Bool, true, false, not, some, List, [], length, ltb,
  nat_eq, ◌==◌, eq_iff, ◌⊎◌, inl, inr, Bool-cases, Option-cases, Result, ok, err, core, other,
  after-eq-ok, arith,
}
use atlas_c.Model.Records.{ObjectFile}
use atlas_c.Catalog.Commands.{
  Catalog, validate, index_commands, object_id_from_content_hash, get_active, catalog_errors,
}
use atlas_c.Store.{MemoryStore}
use atlas_c.Store.Files.{open_object_file}
use atlas_c.Service.State.{Env, Services}
use atlas_c.Service.Pinned.{
  max_pinned_catalog_bytes, read_pinned, as_stored_failure, require, parsed_or_fail, hash_of_active,
  verify_active, load_stored, load_from_store, load_pinned_catalog,
}
use atlas_c.Service.Pinned.Reading.{read_pinned-whole}

require-true : (b : Bool) (message : String) → require b message ≡ ok tt → b ≡ true
unfolding require
require-true true message h = refl
require-true false message h = cc h

-- What is known of a catalog that was read from its stored file.
pub record IsStored (env : Env) (id : String) (m : MemoryStore) (c : Catalog) : Type 0 where
  pub file : ObjectFile
  pub bytes : List ℕ
  pub opened : open_object_file id "catalog-json" m ≡ ok (file, bytes)
  pub contents : c.raw ≡ bytes
  pub parsed : Catalog
  pub decoded : env.unmarshal_catalog bytes ≡ some parsed
  pub catalog_id : c.catalog_id ≡ parsed.catalog_id
  pub version : c.version ≡ parsed.version
  pub authored_at : c.authored_at ≡ parsed.authored_at
  pub description : c.description ≡ parsed.description
  pub metadata : c.metadata ≡ parsed.metadata
  pub commands : c.commands ≡ parsed.commands
  pub content_hash : c.content_hash ≡ env.content_hash bytes
  pub size : length c.raw ≡ file.size_bytes
  pub bounded : length c.raw ≤ max_pinned_catalog_bytes
  pub hash : object_id_from_content_hash (env.content_hash c.raw) ≡ id
  pub object_id : c.object_id ≡ id
  pub valid : validate c ≡ ok tt
  pub by_type : c.by_type ≡ index_commands [] c.commands

-- What is known of a catalog that was the active one.
pub record IsVerified (env : Env) (id : String) (s : Services) (c : Catalog) : Type 0 where
  pub active : get_active s.commands ≡ some c
  pub object_id : c.object_id ≡ id
  pub hash : object_id_from_content_hash (hash_of_active env c) ≡ id

parsed_or_fail-some : (o : Option Catalog) (c : Catalog) → parsed_or_fail o ≡ ok c → o ≡ some c
unfolding parsed_or_fail
parsed_or_fail-some none c h = cc h
parsed_or_fail-some (some d) c h = let it : d ≡ c = cc h in ap some it

as_stored_failure-ok : (r : Result (Unit {0})) → as_stored_failure r ≡ ok tt → r ≡ ok tt
unfolding as_stored_failure
as_stored_failure-ok (ok u) h = refl
as_stored_failure-ok (err (core e)) h = cc h
as_stored_failure-ok (err (other text)) h = cc h

module _ (env : Env) where
  load_stored-IsStored :
      (m : MemoryStore) (file : ObjectFile) (bytes : List ℕ) (id : String) (c : Catalog)
      → open_object_file id "catalog-json" m ≡ ok (file, bytes)
      → load_stored env (file, bytes) id ≡ ok c
      → IsStored env id m c
  unfolding load_stored validate catalog_errors
  load_stored-IsStored m file bytes id c opened h =
      let (_, positive, h₁) = after-eq-ok (require (ltb 0 file.size_bytes) _) _ h in
      let (raw, read, h₂) = after-eq-ok (read_pinned _) _ h₁ in
      let (_, sized, h₃) = after-eq-ok (require (nat_eq (length raw) file.size_bytes) _) _ h₂ in
      let (_, hashed, h₄) =
        after-eq-ok (require (object_id_from_content_hash (env.content_hash raw) == id) _) _ h₃ in
      let (parsed, decoded, h₅) = after-eq-ok (parsed_or_fail (env.unmarshal_catalog raw)) _ h₄ in
      let (_, valid, h₆) =
        after-eq-ok (as_stored_failure (validate (record parsed { raw = raw }))) _ h₅ in
      let it : record parsed {
        raw = raw;
        object_id = id;
        content_hash = env.content_hash raw;
        by_type = index_commands [] parsed.commands;
      }
          ≡ c =
        cc h₆ in
      let (whole, bounded) = read_pinned-whole _ raw read in
      subst (IsStored env id m) it (record {
        file = file;
        bytes = bytes;
        opened = opened;
        contents = whole;
        parsed = parsed;
        decoded =
            subst (λ l. env.unmarshal_catalog l ≡ some parsed) whole
              (parsed_or_fail-some _ parsed decoded);
        catalog_id = refl;
        version = refl;
        authored_at = refl;
        description = refl;
        metadata = refl;
        commands = refl;
        content_hash = ap env.content_hash whole;
        size = ground (arith, require-true _ _ sized);
        bounded = bounded;
        hash = (eq_iff _ _).0 (require-true _ _ hashed);
        object_id = refl;
        valid = as_stored_failure-ok _ valid;
        by_type = refl;
      })

  load_from_store-IsStored :
      (m : MemoryStore) (id : String) (c : Catalog)
      → load_from_store env id m ≡ ok c
      → IsStored env id m c
  unfolding load_from_store
  load_from_store-IsStored m id c h =
      let (found, opened, h₁) = after-eq-ok (open_object_file id "catalog-json" m) _ h in
      load_stored-IsStored m found.0 found.1 id c opened h₁

  verify_active-ok :
      (active c : Catalog) (id : String)
      → verify_active env active id ≡ ok c
      → (active ≡ c) × (object_id_from_content_hash (hash_of_active env active) ≡ id)
  unfolding verify_active
  verify_active-ok active c id h =
      let (_, _, h₁) = after-eq-ok (require (not (nat_eq (length active.raw) 0)) _) _ h in
      let (_, hashed, h₂) =
        after-eq-ok (require (object_id_from_content_hash (hash_of_active env active) == id) _) _
          h₁ in
      let it : active ≡ c = cc h₂ in (it, (eq_iff _ _).0 (require-true _ _ hashed))

  -- A catalog that is loaded for an object identifier is the active one, under that identifier, which
  -- its content hash gives, or it comes from the identifier's stored file: then its raw bytes are all
  -- the bytes of that file, at most 8 MiB and as many as the file's record says, their SHA-256 gives
  -- the identifier, and its commands and other members are those that these bytes decode to, valid and
  -- indexed by their types.
  pub load_pinned_catalog-IsVerified :
      (s : Services) (id : String) (c : Catalog)
      → load_pinned_catalog env id s ≡ ok c
      → IsVerified env id s c ⊎ IsStored env id s.stores c
  unfolding load_pinned_catalog
  load_pinned_catalog-IsVerified s id c h = elim (Option-cases (get_active s.commands)) [
    | inl no_active ↦
        let h' = rw (no_active, load_pinned_catalog) at h in
        inr (load_from_store-IsStored s.stores id c h')
    | inr (active, is) ↦ elim (Bool-cases (active.object_id == id)) [
      | inl same ↦
          let h' = rw (is, same, load_pinned_catalog) at h in
          let (it, hash) = verify_active-ok active c id h' in
          inl (
            subst (IsVerified env id s) it
              (record { active = is; object_id = (eq_iff _ _).0 same; hash = hash }))
      | inr differs ↦
          let h' = rw (is, differs, load_pinned_catalog) at h in
          inr (load_from_store-IsStored s.stores id c h')
    ]
  ]
