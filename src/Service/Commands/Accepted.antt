-- ===== src/Service/Commands/Accepted.antt =====
-- What the checks of the command in a task have shown where they pass.
use atlas_c.Base.{
  ◌≡◌, refl, sym, ap, ◌∙◌, String, true, Option, none, some, List, inl, inr, Bool-cases,
  Option-cases, Result, ok, err, core, other, after-eq-ok, contains_string, ◌==◌,
}
use atlas_c.Base.Assoc.{string_eq, lookup}
use atlas_c.Model.Json.{Fields, JsonMap, entries, as_map, as_string}
use atlas_c.Model.Json.Entries.{get, at}
use atlas_c.Model.Merge.{read_string_slice}
use atlas_c.Model.Records.{Entity}
use atlas_c.Catalog.Commands.{Catalog, Command, validate_parameters}
use atlas_c.Catalog.Value.{or_blank}
use atlas_c.Service.State.{Env}
use atlas_c.Service.Commands.{
  required_section, command_type_of, defined_command, as_command_error, parameters_of,
  validate_task_command_catalog, supported_list, validate_task_command_support,
  validate_task_command,
}

-- A document whose command the catalog defines, with parameters that fit the command's schema.
pub record IsDefined (env : Env) (json : JsonMap) (cat : Catalog) (command_type : String)
    : Type 0 where
  pub components : Fields
  pub section : Fields
  pub command : Command
  pub has_components :
      required_section
        (get "components" (entries json))
        "json.components"
        "components are required"
        "components must be an object"
      ≡ ok components
  pub has_command :
      required_section
        (get "command" components)
        "json.components.command"
        "command is required"
        "command must be an object"
      ≡ ok section
  pub type : or_blank (as_string (at "type" section)) ≡ command_type
  pub defined : lookup command_type cat.by_type ≡ some command
  pub parameters :
      validate_parameters env.compile command (parameters_of (get "parameters" components)) ≡ ok tt

-- An asset whose list of supported commands has the command.
pub record Supports (asset : Entity) (command_type : String) : Type 0 where
  pub supported : Fields
  pub commands : List String
  pub section :
      as_map (at "supported_commands" (entries (as_map (at "components" (entries asset.json)))))
      ≡ some supported
  pub listed : read_string_slice (at "commands" supported) ≡ some commands
  pub member : contains_string commands command_type ≡ true

as_command_error-ok : (r : Result (Unit {0})) → as_command_error r ≡ ok tt → r ≡ ok tt
unfolding as_command_error
as_command_error-ok (ok u) h = refl
as_command_error-ok (err (core e)) h = cc h
as_command_error-ok (err (other text)) h = cc h

defined_command-ok :
    (cat : Catalog) (type : String) (command : Command)
    → defined_command cat type ≡ ok command
    → lookup type cat.by_type ≡ some command
unfolding defined_command
defined_command-ok cat type command h = elim (Option-cases (lookup type cat.by_type)) [
  | inl absent ↦ let bad : err _ ≡ ok command = rw (absent, defined_command) at h in cc bad
  | inr (c, found) ↦
      let it : ok c ≡ ok command = rw (found, defined_command) at h in
      let it' : c ≡ command = cc it in found ∙ ap some it'
]

command_type_of-ok :
    (section : Fields) (type : String)
    → command_type_of section ≡ ok type
    → or_blank (as_string (at "type" section)) ≡ type
unfolding command_type_of
command_type_of-ok section type h =
    elim (Bool-cases (or_blank (as_string (at "type" section)) == "")) [
      | inl e ↦ let bad : err _ ≡ ok type = rw (e, command_type_of) at h in cc bad
      | inr e ↦ let it : ok _ ≡ ok type = rw (e, command_type_of) at h in cc it
    ]

supported_list-ok :
    (o : Option Fields) (commands : List String)
    → supported_list o ≡ ok commands
    → (f : Fields) × (o ≡ some f) × (read_string_slice (at "commands" f) ≡ some commands)
unfolding supported_list
supported_list-ok none commands h = cc h
supported_list-ok (some f) commands h = elim (Option-cases (read_string_slice (at "commands" f))) [
  | inl absent ↦ let bad : err _ ≡ ok commands = rw (absent, supported_list) at h in cc bad
  | inr (l, found) ↦
      let it : ok l ≡ ok commands = rw (found, supported_list) at h in
      let it' : l ≡ commands = cc it in (f, refl, found ∙ ap some it')
]

support-Supports :
    (command_type : String) (asset : Entity)
    → validate_task_command_support command_type asset ≡ ok tt
    → Supports asset command_type
unfolding validate_task_command_support
support-Supports command_type asset h =
    let (commands, listed, h₁) = after-eq-ok (supported_list _) _ h in
    let (f, section, l) = supported_list-ok _ commands listed in
    elim (Bool-cases (contains_string commands command_type)) [
      | inl e ↦ record {
        supported = f;
        commands = commands;
        section = section;
        listed = l;
        member = e;
      }
      | inr e ↦ let bad : err _ ≡ ok tt = rw e at h₁ in cc bad
    ]

module _ (env : Env) where
  catalog-IsDefined :
      (json : JsonMap) (cat : Catalog) (type : String)
      → validate_task_command_catalog env json cat ≡ ok type
      → IsDefined env json cat type
  unfolding validate_task_command_catalog
  catalog-IsDefined json cat type h =
      let (components, has_components, h₁) = after-eq-ok (required_section _ _ _ _) _ h in
      let (section, has_command, h₂) = after-eq-ok (required_section _ _ _ _) _ h₁ in
      let (command_type, named, h₃) = after-eq-ok (command_type_of section) _ h₂ in
      let (command, found, h₄) = after-eq-ok (defined_command cat command_type) _ h₃ in
      let (_, fits, h₅) = after-eq-ok (as_command_error _) _ h₄ in
      let same : command_type ≡ type = cc h₅ in
      record {
        components = components;
        section = section;
        command = command;
        has_components = has_components;
        has_command = has_command;
        type = command_type_of-ok section command_type named ∙ same;
        defined =
            ap (λ t. lookup t cat.by_type) (sym same)
            ∙ defined_command-ok cat command_type command found;
        parameters = as_command_error-ok _ fits;
      }

  -- A command that is accepted for an asset is one that the catalog defines, its parameters fit the
  -- schema that the catalog has for it, and the asset lists it among its supported commands.
  pub validate_task_command-ok :
      (json : JsonMap) (cat : Catalog) (asset : Entity)
      → validate_task_command env json cat asset ≡ ok tt
      → (type : String) × IsDefined env json cat type × Supports asset type
  unfolding validate_task_command
  validate_task_command-ok json cat asset h =
      let (type, checked, h₁) = after-eq-ok (validate_task_command_catalog env json cat) _ h in
      (type, catalog-IsDefined json cat type checked, support-Supports type asset h₁)
