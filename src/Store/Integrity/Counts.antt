-- ===== src/Store/Integrity/Counts.antt =====
-- The counts that guard deletions: a count of zero means that no record refers to the identifier.
use mathlib.Core.Bool.{true≢false}
use atlas_c.Base.{
  ℕ, ◌+◌, ◌≡◌, ◌≢◌, refl, sym, ap, ◌∙◌, String, Bool, true, false, ◌&&◌, some, [], ◌∷◌, ◌⊎◌, inl,
  inr, ◌==◌, eq_iff, Bool-cases, if◌then◌else◌, arith,
}
use atlas_c.Base.Assoc.{Assoc, string_eq, lookup}
use atlas_c.Store.Entities.{count_tasks, count_observations, count_objects}
use atlas_c.Model.Records.{Observation, Task, Object}

-- Of a tally that is zero, the test is false and so is the rest.
tally_zero : (test : Bool) (n : ℕ) → (if test then n + 1 else n) ≡ 0 → (test ≡ false) × (n ≡ 0)
tally_zero true n h = ground (arith, h)
tally_zero false n h = (refl, h)

ne_of_test : (a b : String) → (a == b) ≡ false → a ≢ b
ne_of_test a b h e = true≢false (sym ((eq_iff a b).1 e) ∙ h)

-- A value found in a list of entries is the first entry's, or it is found in the rest.
lookup_cons :
    {V : Type 0} (k j : String) (v w : V) (m : Assoc String V)
    → lookup k ((j, v) ∷ m) ≡ some w
    → (v ≡ w) ⊎ (lookup k m ≡ some w)
unfolding lookup
lookup_cons k j v w m h = elim (Bool-cases (j == k)) [
  | inl e ↦ let same : some v ≡ some w = rw e at h in inl (cc same)
  | inr e ↦ let later : lookup k m ≡ some w = rw e at h in inr later
]

pub count_tasks-zero :
    (id : String) (m : Assoc String Task)
    → count_tasks id m ≡ 0
    → (k : String) (t : Task) → lookup k m ≡ some t
    → t.asset_id ≢ id
unfolding count_tasks lookup
count_tasks-zero id [] z k t h = cc h
count_tasks-zero id ((j, v) ∷ m) z k t h = elim (lookup_cons k j v t m h) [
  | inl same ↦ ne_of_test t.asset_id id (
      ap (λ x. x.asset_id == id) (sym same)
      ∙ (tally_zero (v.asset_id == id) (count_tasks id m) z).0)
  | inr later ↦
      count_tasks-zero id m (tally_zero (v.asset_id == id) (count_tasks id m) z).1 k t later
]

pub count_observations-zero :
    (id : String) (m : Assoc String Observation)
    → count_observations id m ≡ 0
    → (k : String) (o : Observation) → lookup k m ≡ some o
    → o.source_asset_id ≢ id
unfolding count_observations lookup
count_observations-zero id [] z k o h = cc h
count_observations-zero id ((j, v) ∷ m) z k o h = elim (lookup_cons k j v o m h) [
  | inl same ↦ ne_of_test o.source_asset_id id (
      ap (λ x. x.source_asset_id == id) (sym same)
      ∙ (tally_zero (v.source_asset_id == id) (count_observations id m) z).0)
  | inr later ↦
      count_observations-zero id m
        (tally_zero (v.source_asset_id == id) (count_observations id m) z).1 k o later
]

ne_of_both : (a b c d : String) → ((a == b && c == d) ≡ false) → a ≡ b → c ≢ d
ne_of_both a b c d h e =
    let tests : (c == d) ≡ false = rw ((eq_iff a b).1 e) at h in ne_of_test c d tests

pub count_objects-zero :
    (owner_type id : String) (m : Assoc String Object)
    → count_objects owner_type id m ≡ 0
    → (k : String) (o : Object) → lookup k m ≡ some o
    → o.owner_type ≡ owner_type
    → o.owner_id ≢ id
unfolding count_objects lookup
count_objects-zero owner_type id [] z k o h = cc h
count_objects-zero owner_type id ((j, v) ∷ m) z k o h = elim (lookup_cons k j v o m h) [
  | inl same ↦ ne_of_both o.owner_type owner_type o.owner_id id (
      ap (λ x. x.owner_type == owner_type && x.owner_id == id) (sym same)
      ∙ (tally_zero (v.owner_type == owner_type && v.owner_id == id) (count_objects owner_type id m)
          z).0)
  | inr later ↦
      count_objects-zero owner_type id m
        (tally_zero (v.owner_type == owner_type && v.owner_id == id) (count_objects owner_type id m)
          z).1
        k o later
]
