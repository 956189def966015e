-- ===== src/Service/Change/Evolution/Objects.antt =====
-- What a change of the stores may do to a stored object.
use mathlib.Core.Path.{subst}
use atlas_c.Base.{
  ◌≡◌, refl, sym, ap, ◌∙◌, String, some, inl, inr, Bool-cases, Option-cases, Result-cases, ok,
}
use atlas_c.Base.Assoc.{string_eq, lookup}
use atlas_c.Base.Assoc.Evolves.{Evolves, Evolves-kept, Evolves-add, Evolves-update, Evolves-delete}
use atlas_c.Catalog.Commands.{Active}
use atlas_c.Model.Records.{Object}
use atlas_c.Store.{MemoryStore}
use atlas_c.Store.Integrity.{IsIntact}
use atlas_c.Store.Frame
use atlas_c.Store.Objects.{
  create_object, get_object, update_object, delete_object, owner_exists, is_referenced,
}
use atlas_c.Store.Observations.{delete_observation}
use atlas_c.Store.Integrity.Cascade.{drop_object-links, drop_owned-left}
use atlas_c.Service.Intact.Objects.{get_object-found}
use atlas_c.Service.Change.{Change, SameObject}

update_object-Evolves :
    (id : String) (current v : Object) (m : MemoryStore)
    → IsIntact m
    → get_object id m ≡ ok current
    → SameObject current v
    → Evolves SameObject m.objects (update_object v m).1.objects
unfolding update_object
update_object-Evolves id current v m h got same =
    let there = get_object-found id m current got in
    elim (Option-cases (lookup v.object_id m.objects)) [
      | inl absent ↦ rw (absent, update_object) (Evolves-kept SameObject m.objects m.objects refl)
      | inr (_, found) ↦
          rw (found, update_object)
            (Evolves-update SameObject v.object_id id current v m.objects
              (same.object_id ∙ h.object_key id current there) there same)
    ]

delete_object-Evolves :
    (id : String) (m : MemoryStore) → Evolves SameObject m.objects (delete_object id m).1.objects
unfolding delete_object
delete_object-Evolves id m = elim (Option-cases (lookup id m.objects)) [
  | inl absent ↦ rw (absent, delete_object) (Evolves-kept SameObject m.objects m.objects refl)
  | inr (_, found) ↦ elim (Bool-cases (is_referenced id m.tasks)) [
    | inl used ↦ rw (found, used, delete_object) (Evolves-kept SameObject m.objects m.objects refl)
    | inr unused ↦
        rw (found, unused, delete_object)
          (subst (Evolves SameObject m.objects) (sym (ap (λ l. l.3) (drop_object-links id m)))
            (Evolves-delete SameObject id m.objects))
  ]
]

delete_observation-objects :
    (id : String) (m : MemoryStore)
    → Evolves SameObject m.objects (delete_observation id m).1.objects
unfolding delete_observation Evolves
delete_observation-objects id m k v v' h h' = elim (Option-cases (lookup id m.observations)) [
  | inl absent ↦
      let after : lookup k m.objects ≡ some v' = rw (absent, delete_observation) at h' in
      let it : some v' ≡ some v = sym after ∙ h in inl (cc it)
  | inr (_, found) ↦
      let after = rw (found, delete_observation) at h' in
      let (before, _) = drop_owned-left id m.objects _ k v' after in
      let it : some v' ≡ some v = sym before ∙ h in inl (cc it)
]

create_object-Evolves :
    (v : Object) (m : MemoryStore) → Evolves SameObject m.objects (create_object v m).1.objects
unfolding create_object
create_object-Evolves v m = elim (Option-cases (lookup v.object_id m.objects)) [
  | inr (_, found) ↦ rw (found, create_object) (Evolves-kept SameObject m.objects m.objects refl)
  | inl absent ↦ elim (Result-cases (owner_exists v m)) [
    | inl (_, owned) ↦
        rw (absent, owned, create_object) (Evolves-add SameObject v.object_id v m.objects absent)
    | inr (_, failed) ↦
        rw (absent, failed, create_object) (Evolves-kept SameObject m.objects m.objects refl)
  ]
]

pub Change-objects :
    {commands : Active} {m m' : MemoryStore}
    → Change commands m m'
    → IsIntact m
    → Evolves SameObject m.objects m'.objects
Change-objects {m} Change.unchanged h = Evolves-kept SameObject m.objects m.objects refl
Change-objects {m} (Change.entity_created v) h =
    Evolves-kept SameObject m.objects _ (ap (λ l. l.2) (Frame.create_entity-frame v m))
Change-objects {m} (Change.entity_updated _ _ v _ _) h =
    Evolves-kept SameObject m.objects _ (ap (λ l. l.2) (Frame.update_entity-frame v m))
Change-objects {m} (Change.entity_deleted id _) h =
    Evolves-kept SameObject m.objects _ (ap (λ l. l.2) (Frame.delete_entity-frame id m))
Change-objects {m} (Change.observation_created v _ _ _) h =
    Evolves-kept SameObject m.objects _ (ap (λ l. l.2) (Frame.create_observation-frame v m))
Change-objects {m} (Change.observation_updated _ _ v _ _) h =
    Evolves-kept SameObject m.objects _ (ap (λ l. l.2) (Frame.update_observation-frame v m))
Change-objects {m} (Change.observation_deleted id) h = delete_observation-objects id m
Change-objects {m} (Change.task_created v _ _ _ _) h =
    Evolves-kept SameObject m.objects _ (ap (λ l. l.2) (Frame.create_task-frame v m))
Change-objects {m} (Change.task_updated _ _ v _ _) h =
    Evolves-kept SameObject m.objects _ (ap (λ l. l.2) (Frame.update_task-frame v m))
Change-objects {m} (Change.task_deleted id _) h =
    Evolves-kept SameObject m.objects _ (ap (λ l. l.2) (Frame.delete_task-frame id m))
Change-objects {m} (Change.object_created v) h = create_object-Evolves v m
Change-objects {m} (Change.object_updated id current v got same) h =
    update_object-Evolves id current v m h got same
Change-objects {m} (Change.object_deleted id _) h = delete_object-Evolves id m
Change-objects {m} (Change.file_appended now object_id file_id reader max_bytes) h =
    Evolves-kept SameObject m.objects _
      (ap (λ l. l.3) (Frame.append_object_file-frame now object_id file_id reader max_bytes m))
Change-objects {m} (Change.file_deleted object_id file_id) h =
    Evolves-kept SameObject m.objects _
      (ap (λ l. l.3) (Frame.delete_object_file-frame object_id file_id m))
Change-objects {m} (Change.file_created mime fs now input) h =
    Evolves-kept SameObject m.objects _
      (ap (λ l. l.3) (Frame.create_object_file-frame mime fs now input m))
