-- ===== src/Store/Listing/Chosen.antt =====
-- What the loops of the list methods pick out of the stored records.
use atlas_c.Base.{
  arith, ◌≡◌, String, true, false, ◌&&◌, ◌||◌, not, List, [], ◌∷◌, map, ◌==◌, eq_iff, ◌⊎◌, inl, inr,
  Bool-cases,
}
use atlas_c.Base.Assoc.{Assoc}
use atlas_c.Model.Records.{Entity, Task, Object}
use atlas_c.Store.Entities.{select_entities}
use atlas_c.Store.Tasks.{TaskListFilter, select_tasks}
use atlas_c.Store.Objects.{ObjectListFilter, select_objects}

-- Of the records stored, those found are all the wanted ones and no others.
pub data Picks {A : Type 0} (Wanted : A → Type 0) : List A → List A → Type 0 where
  done : Picks Wanted [] []
  pick :
      {x : A} {stored found : List A}
      → Wanted x
      → Picks Wanted stored found
      → Picks Wanted (x ∷ stored) (x ∷ found)
  skip :
      {x : A} {stored found : List A}
      → ¬ Wanted x
      → Picks Wanted stored found
      → Picks Wanted (x ∷ stored) found

-- All records of a map.
abbrev pub records : {K V : Type 0} → Assoc K V → List V
records m = map (λ entry. entry.1) m

-- An empty filter wants every value.
abbrev pub Wants : String → String → Type 0
Wants filter value = (filter ≡ "") ⊎ (value ≡ filter)

abbrev pub WantedEntity : String → Entity → Type 0
WantedEntity type e = Wants type e.type

abbrev pub WantedTask : TaskListFilter → Task → Type 0
WantedTask filter t = Wants filter.asset_id t.asset_id × Wants filter.status t.status

-- The owner's identifier counts where an owner type is given.
abbrev pub WantedOwner : ObjectListFilter → Object → Type 0
WantedOwner filter o =
    (filter.owner_type ≡ "") ⊎ ((o.owner_type ≡ filter.owner_type) × (o.owner_id ≡ filter.owner_id))

abbrev pub WantedObject : ObjectListFilter → Object → Type 0
WantedObject filter o = WantedOwner filter o × Wants filter.type o.type

Wants-true : (f v : String) → (not (f == "") && not (v == f)) ≡ false → Wants f v
Wants-true f v h = elim (Bool-cases (f == "")) [
  | inl e ↦ inl ((eq_iff _ _).0 e)
  | inr n ↦ elim (Bool-cases (v == f)) [
    | inl e ↦ inr ((eq_iff _ _).0 e)
    | inr m ↦ let bad : true ≡ false = rw (n, m) at h in cc bad
  ]
]

Wants-false : (f v : String) → (not (f == "") && not (v == f)) ≡ true → ¬ Wants f v
Wants-false f v h (inl e) = let bad : false ≡ true = rw ((eq_iff f "").1 e) at h in cc bad
Wants-false f v h (inr e) = ground (arith, (eq_iff v f).1 e, h)

WantedEntity-true : (f v : String) → (f == "" || v == f) ≡ true → Wants f v
WantedEntity-true f v h = Wants-true f v (ground (arith, h))

WantedEntity-false : (f v : String) → (f == "" || v == f) ≡ false → ¬ Wants f v
WantedEntity-false f v h = Wants-false f v (ground (arith, h))

pub select_entities-Picks :
    (type : String) (m : Assoc String Entity)
    → Picks (WantedEntity type) (records m) (select_entities type m)
unfolding select_entities
select_entities-Picks type [] = Picks.done
select_entities-Picks type ((k, e) ∷ m) = elim (Bool-cases (type == "" || e.type == type)) [
  | inl h ↦ rw h (Picks.pick (WantedEntity-true type e.type h) (select_entities-Picks type m))
  | inr h ↦ rw h (Picks.skip (WantedEntity-false type e.type h) (select_entities-Picks type m))
]

pub select_tasks-Picks :
    (filter : TaskListFilter) (m : Assoc String Task)
    → Picks (WantedTask filter) (records m) (select_tasks filter m)
unfolding select_tasks
select_tasks-Picks filter [] = Picks.done
select_tasks-Picks filter ((k, t) ∷ m) =
    let rest = select_tasks-Picks filter m in
    elim (Bool-cases (not (filter.asset_id == "") && not (t.asset_id == filter.asset_id))) [
      | inl n ↦ rw n (Picks.skip (λ w. Wants-false filter.asset_id t.asset_id n w.0) rest)
      | inr a ↦ elim (Bool-cases (not (filter.status == "") && not (t.status == filter.status))) [
        | inl n ↦ rw (a, n) (Picks.skip (λ w. Wants-false filter.status t.status n w.1) rest)
        | inr b ↦
            rw (a, b)
              (Picks.pick
                (Wants-true filter.asset_id t.asset_id a, Wants-true filter.status t.status b) rest)
      ]
    ]

owner_passes :
    (f : ObjectListFilter) (o : Object)
    → (not (f.owner_type == "")
        && (not (o.owner_type == f.owner_type) || not (o.owner_id == f.owner_id)))
      ≡ false
    → WantedOwner f o
owner_passes f o h = elim (Bool-cases (f.owner_type == "")) [
  | inl e ↦ inl ((eq_iff _ _).0 e)
  | inr n ↦ inr ((eq_iff _ _).0 (ground (arith, n, h)), (eq_iff _ _).0 (ground (arith, n, h)))
]

owner_fails :
    (f : ObjectListFilter) (o : Object)
    → (not (f.owner_type == "")
        && (not (o.owner_type == f.owner_type) || not (o.owner_id == f.owner_id)))
      ≡ true
    → ¬ WantedOwner f o
owner_fails f o h (inl e) = ground (arith, (eq_iff f.owner_type "").1 e, h)
owner_fails f o h (inr (t, i)) =
    ground (arith, (eq_iff o.owner_type f.owner_type).1 t, (eq_iff o.owner_id f.owner_id).1 i, h)

pub select_objects-Picks :
    (filter : ObjectListFilter) (m : Assoc String Object)
    → Picks (WantedObject filter) (records m) (select_objects filter m)
unfolding select_objects
select_objects-Picks filter [] = Picks.done
select_objects-Picks filter ((k, o) ∷ m) =
    let rest = select_objects-Picks filter m in
    elim (Bool-cases (
      not (filter.owner_type == "")
      && (not (o.owner_type == filter.owner_type) || not (o.owner_id == filter.owner_id)))) [
        | inl n ↦ rw n (Picks.skip (λ w. owner_fails filter o n w.0) rest)
        | inr a ↦ elim (Bool-cases (not (filter.type == "") && not (o.type == filter.type))) [
          | inl n ↦ rw (a, n) (Picks.skip (λ w. Wants-false filter.type o.type n w.1) rest)
          | inr b ↦
              rw (a, b) (Picks.pick (owner_passes filter o a, Wants-true filter.type o.type b) rest)
        ]
      ]
