-- ===== src/Collect/Options.antt =====
-- Option records: `dissect_nf9_option_flow` and `dissect_option_flow_set` of src/collect.c.
pub mod Ends
pub mod Names
pub mod Stuck
pub mod Abort
-- How a call ends. `aborted` is the failed assertion of `interface_new`, which ends the process.
use f2k.Printbuf.{sub_size}
use f2k.Number.{net2number}
use f2k.Observation.{
  Template, observation_id_add_selector_id, observation_id_add_new_interface,
  observation_id_add_application_id, Field, ObservationId,
}
use f2k.Base.{
  ℕ, zero, suc, ◌+◌, Bool, false, ◌||◌, Option, none, some, List, [], ◌∷◌, ltb, ◌==◌, if◌then◌else◌,
  length, take,
}
use f2k.Base.Bytes.{Pointer, advance, read_bytes}

pub data Outcome {ℓ} (A : Type ℓ) : Type ℓ where
  done : A → Outcome A
  aborted : Outcome A
  out_of_fuel : Outcome A

-- The locals `app`, `selector`, `snmp` and `snmp_description`; a name is `none` for a null buffer.
pub record Searched : Type 0 where
  pub app_id : ℕ
  pub app_name : Option (List ℕ)
  pub selector_id : ℕ
  pub selector_name : Option (List ℕ)
  pub snmp_id : ℕ
  pub snmp_name : Option (List ℕ)
  pub snmp_description : Option (List ℕ)

abbrev pub nothing_yet : Searched
nothing_yet = record {
  app_id = 0;
  app_name = none;
  selector_id = 0;
  selector_name = none;
  snmp_id = 0;
  snmp_name = none;
  snmp_description = none;
}

-- The `switch` on the identifier of a field.
unfoldable pub search_field : Searched → ℕ → ℕ → Pointer → Searched
search_field s field_id field_len p =
    if field_id == 95
    then record s { app_id = net2number p field_len }
    else if field_id == 96
    then record s { app_name = some (read_bytes field_len p) }
    else if field_id == 302
    then record s { selector_id = net2number p field_len }
    else if field_id == 335
    then record s { selector_name = some (read_bytes field_len p) }
    else if field_id == 10
    then record s { snmp_id = net2number p field_len }
    else if field_id == 82
    then record s { snmp_name = some (read_bytes field_len p) }
    else if field_id == 83
    then record s { snmp_description = some (read_bytes field_len p) }
    else s

-- The `for` loop over the fields left: `cursor` behind it, and what was found.
unfoldable pub search_fields : List Field → Pointer → ℕ → ℕ → Searched → ℕ × Searched
search_fields [] buffer buffer_size cursor s = (cursor, s)
search_fields (f ∷ fs) buffer buffer_size cursor s =
    let rest =
      search_fields fs buffer buffer_size (cursor + f.field_len)
        (search_field s f.field_id f.field_len (advance buffer cursor)) in
    if ltb buffer_size (cursor + f.field_len) then (buffer_size, s) else rest

-- `name.buffer && name.size > 0`
unfoldable pub is_named : Option (List ℕ) → Bool
is_named none = false
is_named (some name) = ltb 0 (length name)

-- A name that was tested.
abbrev pub the_name : Option (List ℕ) → List ℕ
the_name none = []
the_name (some name) = name

unfoldable pub add_application : ObservationId → Searched → ObservationId
add_application o s =
    if is_named s.app_name
    then observation_id_add_application_id o s.app_id (the_name s.app_name)
    else o

unfoldable pub add_selector : ObservationId → Searched → ObservationId
add_selector o s =
    if is_named s.selector_name
    then observation_id_add_selector_id o s.selector_id (the_name s.selector_name)
    else o

-- The pointer of the name that was not found is null.
unfoldable pub add_interface : ObservationId → Searched → Option ObservationId
add_interface o s =
    if is_named s.snmp_name || is_named s.snmp_description
    then observation_id_add_new_interface o s.snmp_id s.snmp_name s.snmp_description
    else some o

-- What was found is added to the domain.
unfoldable pub store_found : ObservationId → ℕ × Searched → Outcome (ℕ × ObservationId)
store_found observation_id (cursor, s) =
    elim (add_interface (add_selector (add_application observation_id s) s) s) [
      | none ↦ aborted
      | some o ↦ done (cursor, o)
    ]

-- The bytes read, and the domain after the record.
unfoldable pub dissect_nf9_option_flow :
    ObservationId → Template → Pointer → ℕ → Outcome (ℕ × ObservationId)
dissect_nf9_option_flow observation_id template buffer buffer_size = store_found observation_id (
    search_fields (take template.template_info.field_count template.fields) buffer buffer_size 0
      nothing_yet)

-- The `while` loop.
unfoldable pub dissect_option_flow_set :
    ℕ → ObservationId → Template → Pointer → ℕ → ℕ → Outcome (ℕ × ObservationId)
dissect_option_flow_set zero observation_id template buffer size cursor =
    if ltb cursor size then out_of_fuel else done (cursor, observation_id)
dissect_option_flow_set (suc fuel) observation_id template buffer size cursor =
    let left = sub_size size cursor in
    let again = λ (r : ℕ × ObservationId).
      dissect_option_flow_set fuel r.1 template buffer size (cursor + r.0) in
    if ltb cursor size
    then elim (dissect_nf9_option_flow observation_id template (advance buffer cursor) left) [
      | done r ↦ again r
      | aborted ↦ aborted
      | out_of_fuel ↦ out_of_fuel
    ]
    else done (cursor, observation_id)
