-- ===== src/Service/Materialize/Stores.antt =====
-- What Materialize of internal/catalog/catalog.go leaves in the store.
use atlas_c.Base.{
  [], ◌^◌, ℕ, ◌+◌, ◌≡◌, ◌<◌, refl, sym, ap, ◌∙◌, true, false, none, some, List, [], ◌∷◌, length,
  leb, ltb, nat_eq, ◌⊎◌, inl, inr, Bool-cases, Result, Result-cases, ok, err, Error, after-eq-ok,
  arith,
}
use atlas_c.Base.Assoc.{string_eq, lookup, lookup-insert}
use atlas_c.Catalog.Commands.{Catalog}
use atlas_c.Model.MediaType.{Mime}
use atlas_c.Model.Records.{ObjectFile, Time}
use atlas_c.Store.{MemoryStore, object_file_key_eq, key_eq_iff}
use atlas_c.Store.Objects.{get_object, create_object}
use atlas_c.Store.Files.{
  read_limited, read_count, mem_upload_limit, key_of, bytes_of, get_object_file, open_object_file,
  list_object_files_for_object,
}
use atlas_c.Store.Filed.{IsFiled, Filed}
use atlas_c.Store.Filed.Methods.{get_object_file-found, create_object-IsFiled}
use atlas_c.Store.Staged.{FileSystem}
use atlas_c.Store.Uploads.{check_upload, check_size, read_upload, uploaded, create_object_file}
use atlas_c.Service.Materialize.{
  bytes_equal, same_bytes, check_materialized, verify_materialized, catalog_upload, catalog_object,
  has_code, unless_conflict, has_catalog_file, ensure_file, ensure_object, materialize,
}

bytes_equal-eq : (xs ys : List ℕ) → bytes_equal xs ys ≡ true → xs ≡ ys
unfolding bytes_equal
bytes_equal-eq [] [] h = refl
bytes_equal-eq [] (y ∷ ys) h = cc h
bytes_equal-eq (x ∷ xs) [] h = cc h
bytes_equal-eq (x ∷ xs) (y ∷ ys) h = elim (Bool-cases (nat_eq x y)) [
  | inl e ↦
      let h' : bytes_equal xs ys ≡ true = rw e at h in
      let tails = bytes_equal-eq xs ys h' in
      let heads : x ≡ y = ground (arith, e) in λ i. heads i ∷ tails i
  | inr e ↦ let bad : false ≡ true = rw e at h in cc bad
]

same_bytes-eq : (xs ys : List ℕ) → same_bytes xs ys ≡ ok tt → xs ≡ ys
unfolding same_bytes
same_bytes-eq xs ys h = elim (Bool-cases (bytes_equal xs ys)) [
  | inl e ↦ bytes_equal-eq xs ys e
  | inr e ↦ let bad : err _ ≡ ok tt = rw (e, same_bytes) at h in cc bad
]

-- A reader with fewer bytes than the limit is read to its end.
read_limited-all :
    (n : ℕ) (bytes : List ℕ)
    → length bytes < n
    → read_limited n (record { bytes = bytes; failure = none }) ≡ ok bytes
unfolding read_limited
read_limited-all n bytes h =
    let short : leb n (length bytes) ≡ false = ground arith in rw short refl

check_materialized-eq :
    (c : Catalog) (file : ObjectFile) (content : List ℕ)
    → file.size_bytes ≡ length content
    → check_materialized c (file, content) ≡ ok tt
    → content ≡ c.raw
unfolding check_materialized
check_materialized-eq c file content size h =
    elim (Bool-cases (nat_eq file.size_bytes (length c.raw))) [
      | inr e ↦ let bad : err _ ≡ ok tt = rw (e, check_materialized) at h in cc bad
      | inl e ↦
          let h₁ = rw (e, check_materialized) at h in
          let (raw, read, h₂) =
            after-eq-ok
              (read_limited (file.size_bytes + 1) (record { bytes = content; failure = none })) _
              h₁ in
          let whole = read_limited-all (file.size_bytes + 1) content (omega (arith, size)) in
          let it : ok content ≡ ok raw = sym whole ∙ read in
          let it' : content ≡ raw = cc it in it' ∙ same_bytes-eq raw c.raw h₂
    ]

-- The check of the file of a catalog passes only where the stored bytes are the catalog's.
pub verify_materialized-eq :
    (c : Catalog) (m : MemoryStore)
    → IsFiled m
    → verify_materialized c m ≡ ok tt
    → lookup (key_of c.object_id "catalog-json") m.file_bytes ≡ some c.raw
unfolding verify_materialized open_object_file check_materialized Filed
verify_materialized-eq c m filed h =
    let (opened, opens, h₁) = after-eq-ok (open_object_file c.object_id "catalog-json" m) _ h in
    let (file, got, h₂) = after-eq-ok (get_object_file c.object_id "catalog-json" m) _ opens in
    let there = get_object_file-found c.object_id "catalog-json" m file got in
    let w = filed (key_of c.object_id "catalog-json") file there in
    let is : (file, bytes_of (lookup (key_of c.object_id "catalog-json") m.file_bytes)) ≡ opened =
      cc h₂ in
    let is' = ap (λ o. (file, bytes_of o)) (sym w.stored) ∙ is in
    let h₃ : check_materialized c (file, w.content) ≡ ok tt = ap (check_materialized c) is' ∙ h₁ in
    w.stored ∙ ap some (check_materialized-eq c file w.content w.size h₃)

check_size-eq : (limit : ℕ) (bytes raw : List ℕ) → check_size limit bytes ≡ ok raw → bytes ≡ raw
unfolding check_size
check_size-eq limit bytes raw h = elim (Bool-cases (nat_eq (length bytes) 0)) [
  | inl e ↦ let bad : err _ ≡ ok raw = rw (e, check_size) at h in cc bad
  | inr e ↦ elim (Bool-cases (ltb limit (length bytes))) [
    | inl f ↦ let bad : err _ ≡ ok raw = rw (e, f, check_size) at h in cc bad
    | inr f ↦ let it : ok bytes ≡ ok raw = rw (e, f, check_size) at h in cc it
  ]
]

module _ (mime : Mime) (fs : FileSystem) where
  -- The upload of a catalog reads all of its bytes.
  uploaded-eq :
      (c : Catalog) (m : MemoryStore) (bytes : List ℕ)
      → uploaded mime fs (catalog_upload c) m ≡ ok bytes
      → bytes ≡ c.raw
  unfolding uploaded read_upload mem_upload_limit read_count read_limited
  uploaded-eq c m bytes h =
      let (_, _, h₁) = after-eq-ok (check_upload (catalog_upload c).file m) _ h in
      let limit = length c.raw + 1 in
      let positive : ltb 0 limit ≡ true = ground arith in
      let h₂ = rw positive at h₁ in
      let (read, is, h₃) =
        after-eq-ok (read_limited (read_count limit) (record { bytes = c.raw; failure = none })) _
          h₂ in
      elim (Bool-cases (ltb (limit + 1) (2 ^ 63))) [
        | inl fits ↦
            let is' = rw (fits, read_count) at is in
            let whole = read_limited-all (limit + 1) c.raw (omega arith) in
            let it : ok c.raw ≡ ok read = sym whole ∙ is' in
            let it' : c.raw ≡ read = cc it in sym (it' ∙ check_size-eq limit read bytes h₃)
        | inr wraps ↦
            let all : leb 0 (length c.raw) ≡ true = ground arith in
            let is' : ok [] ≡ ok read = rw (wraps, read_count, all, read_limited) at is in
            let it : [] ≡ read = cc is' in
            let bad : check_size limit [] ≡ ok bytes = ap (check_size limit) it ∙ h₃ in
            unfold check_size in cc bad
      ]

  upload-stores :
      (c : Catalog) (now : Time) (m : MemoryStore) (file : ObjectFile)
      → (create_object_file mime fs now (catalog_upload c) m).0 ≡ ok file
      → lookup
          (key_of c.object_id "catalog-json")
          (create_object_file mime fs now (catalog_upload c) m).1.file_bytes
        ≡ some c.raw
  unfolding create_object_file
  upload-stores c now m file h = elim (Result-cases (uploaded mime fs (catalog_upload c) m)) [
    | inr (e, failed) ↦ let bad : err e ≡ ok file = rw (failed, create_object_file) at h in cc bad
    | inl (bytes, read) ↦
        let key = key_of c.object_id "catalog-json" in
        let own = (key_eq_iff key key).1 refl in
        rw (read, create_object_file)
          (lookup-insert key key bytes m.file_bytes ∙ rw own (ap some (uploaded-eq c m bytes read)))
  ]

  -- The upload met a conflict, which Materialize takes as one that another upload won.
  pub record IsBeaten (c : Catalog) (now : Time) (m : MemoryStore) : Type 0 where
    pub error : Error
    pub answer : (create_object_file mime fs now (catalog_upload c) m).0 ≡ err error
    pub conflict : has_code "conflict" error ≡ true

  unless_conflict-cases :
      (r : Result ObjectFile)
      → unless_conflict r ≡ ok tt
      → ((file : ObjectFile) × (r ≡ ok file))
        ⊎ ((e : Error) × (r ≡ err e) × (has_code "conflict" e ≡ true))
  unfolding unless_conflict
  unless_conflict-cases (ok file) h = inl (file, refl)
  unless_conflict-cases (err e) h = elim (Bool-cases (has_code "conflict" e)) [
    | inl is ↦ inr (e, refl, is)
    | inr other ↦ let bad : err e ≡ ok tt = rw (other, unless_conflict) at h in cc bad
  ]

  ensure_file-stores :
      (c : Catalog) (now : Time) (m : MemoryStore)
      → IsFiled m
      → (ensure_file mime fs c now m).0 ≡ ok tt
      → (lookup (key_of c.object_id "catalog-json") (ensure_file mime fs c now m).1.file_bytes
          ≡ some c.raw)
        ⊎ IsBeaten c now m
  unfolding ensure_file
  ensure_file-stores c now m filed h =
      elim (Bool-cases (has_catalog_file (list_object_files_for_object c.object_id m))) [
        | inl e ↦
            let checked : verify_materialized c m ≡ ok tt = rw (e, ensure_file) at h in
            rw (e, ensure_file) (inl (verify_materialized-eq c m filed checked))
        | inr e ↦
            let sent : unless_conflict (create_object_file mime fs now (catalog_upload c) m).0
                ≡ ok tt =
              rw (e, ensure_file) at h in
            rw (e, ensure_file)
              (elim (unless_conflict-cases _ sent) [
                | inl (file, made) ↦ inl (upload-stores c now m file made)
                | inr (er, failed, is) ↦ inr (record { error = er; answer = failed; conflict = is })
              ])
      ]

  ensure_object-IsFiled :
      (c : Catalog) (now : Time) (m : MemoryStore) → IsFiled m → IsFiled (ensure_object c now m).1
  unfolding ensure_object
  ensure_object-IsFiled c now m filed = elim (Result-cases (get_object c.object_id m)) [
    | inl (o, found) ↦ rw (found, ensure_object) filed
    | inr (e, missing) ↦ elim (Bool-cases (has_code "not_found" e)) [
      | inr other ↦ rw (missing, other, ensure_object) filed
      | inl is ↦
          let made = create_object-IsFiled (catalog_object c now) m filed in
          elim (Result-cases (create_object (catalog_object c now) m).0) [
            | inl (o, answer) ↦ rw (missing, is, answer, ensure_object) made
            | inr (e', answer) ↦ rw (missing, is, answer, ensure_object) made
          ]
    ]
  ]

  -- Where Materialize answers a catalog, from a store whose files hold, it is the one that it was
  -- given, and the store then has that catalog's bytes, byte for byte, as the file "catalog-json" of
  -- the catalog's object, unless the store refused the upload as a conflict.
  pub materialize-stores :
      (c c' : Catalog) (now later : Time) (m : MemoryStore)
      → IsFiled m
      → (materialize mime fs c now later m).0 ≡ ok c'
      → (c ≡ c')
        × ((lookup
                (key_of c.object_id "catalog-json")
                (materialize mime fs c now later m).1.file_bytes
              ≡ some c.raw)
            ⊎ IsBeaten c later (ensure_object c now m).1)
  unfolding materialize
  materialize-stores c c' now later m filed h = elim (Result-cases (ensure_object c now m).0) [
    | inr (e, failed) ↦ let bad : err e ≡ ok c' = rw (failed, materialize) at h in cc bad
    | inl (u, made) ↦
        let h₁ = rw (made, materialize) at h in
        let (_, sent, h₂) =
          after-eq-ok (ensure_file mime fs c later (ensure_object c now m).1).0 _ h₁ in
        let it : c ≡ c' = cc h₂ in
        rw (made, materialize)
          (
            it,
            ensure_file-stores c later (ensure_object c now m).1
                (ensure_object-IsFiled c now m filed) sent,
          )
  ]
