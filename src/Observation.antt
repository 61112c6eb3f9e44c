-- ===== src/Observation.antt =====
-- Observation domains and flow templates: the structs of src/f2k.h, the domain's tables in
-- src/dynamic-sensors/src/observation_id, their C wrappers and `save_template` in src/rb_sensor.c,
-- and `find_template` of src/template.c. A table is the function from a key to its entry.
pub mod Tables
use f2k.Base.{
  ℕ, suc, ◌+◌, Bool, List, [], ◌∷◌, ◌++◌, map, Option, none, some, take, ◌==◌, if◌then◌else◌,
}

-- `V9V10TemplateField`; `v9_template` is the place of the element in `ver9_templates`.
pub record Field : Type 0 where
  pub v9_template : Option ℕ
  pub field_id : ℕ
  pub field_len : ℕ

-- `V9IpfixSimpleTemplate`
pub record TemplateInfo : Type 0 where
  pub netflow_device_ip : ℕ
  pub observation_domain_id : ℕ
  pub template_id : ℕ
  pub field_count : ℕ
  pub scope_field_len : ℕ
  pub is_option_template : Bool

-- `FlowSetV9Ipfix`
pub record Template : Type 0 where
  pub template_info : TemplateInfo
  pub fields : List Field

-- A name is the bytes of a C string, with its NUL.
pub record Interface : Type 0 where
  pub name : List ℕ
  pub description : List ℕ

abbrev pub Table : Type 0 → Type 0
Table A = ℕ → Option A

-- `HashMap::insert`
unfoldable pub insert : {A : Type 0} → Table A → ℕ → A → Table A
insert t key value k = if k == key then some value else t k

-- The fields of `ObservationID` that a decoder reads or writes.
pub record ObservationId : Type 0 where
  pub id : ℕ
  pub applications : Table (List ℕ)
  pub selectors : Table (List ℕ)
  pub interfaces : Table Interface
  pub templates : Table Template

unfoldable pub find_observation_id_template : ObservationId → ℕ → Option Template
find_observation_id_template observation_id template_id = observation_id.templates template_id

unfoldable pub observation_id_add_template : ObservationId → ℕ → Template → ObservationId
observation_id_add_template observation_id id template = record observation_id {
  templates = insert observation_id.templates id template;
}

-- The copy that `application_new`, `selector_new` and `interface_new` make of a name.
unfoldable pub with_nul : List ℕ → List ℕ
with_nul name = name ++ (0 ∷ [])

unfoldable pub observation_id_add_application_id : ObservationId → ℕ → List ℕ → ObservationId
observation_id_add_application_id observation_id application_id application_name =
    record observation_id {
      applications = insert observation_id.applications application_id (with_nul application_name);
    }

unfoldable pub observation_id_add_selector_id : ObservationId → ℕ → List ℕ → ObservationId
observation_id_add_selector_id observation_id selector_id selector_name = record observation_id {
  selectors = insert observation_id.selectors selector_id (with_nul selector_name);
}

-- `interface_new` asserts that neither pointer is null: `none` is the abort of the process.
unfoldable pub interface_new : Option (List ℕ) → Option (List ℕ) → Option Interface
interface_new (some name) (some description) =
    some (record { name = with_nul name; description = with_nul description })
interface_new _ _ = none

unfoldable pub observation_id_add_new_interface :
    ObservationId → ℕ → Option (List ℕ) → Option (List ℕ) → Option ObservationId
observation_id_add_new_interface observation_id interface_id name description =
    elim (interface_new name description) [
      | none ↦ none
      | some i ↦
          some
            (record observation_id { interfaces = insert observation_id.interfaces interface_id i })
    ]

-- The loop of `find_template`, from `all_template_cursor`; an entry with identifier 0 ends the table.
unfoldable pub find_template_loop : List ℕ → ℕ → ℕ → Option ℕ
find_template_loop [] all_template_cursor template_element_id = none
find_template_loop (e ∷ es) all_template_cursor template_element_id =
    let rest = find_template_loop es (suc all_template_cursor) template_element_id in
    if e == 0 then none else if e == template_element_id then some all_template_cursor else rest

-- `ver9_templates` is the list of the identifiers of its entries.
module _ (ver9_templates : List ℕ) where
  unfoldable pub find_template : ℕ → Option ℕ
  find_template template_element_id = find_template_loop ver9_templates 0 template_element_id

  unfoldable pub resolve : Field → Field
  resolve field = record field { v9_template = find_template field.field_id }

  -- `enough_memory` says whether `rd_calloc_struct` can allocate the copy.
  unfoldable pub save_template : (Template → Bool) → ObservationId → Template → ObservationId
  save_template enough_memory observation_id template =
      let info = template.template_info in
      let copied = take info.field_count template.fields in
      if enough_memory template
      then observation_id_add_template observation_id info.template_id (record {
        template_info = record info { scope_field_len = 0 };
        fields = if info.is_option_template then copied else map resolve copied;
      })
      else observation_id
