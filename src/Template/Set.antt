-- ===== src/Template/Set.antt =====
-- The template sets of a packet: `dissect_option_template` with its two parameter readers, and
-- `dissectNetFlowV9V10TemplateSet`, of src/collect.c.
use f2k.Printbuf.{sub_size, add_size}
use f2k.Template.{dissect_flow_template, Collector, ntohs}
use f2k.Observation.{save_template, Field, ObservationId, Template}
use f2k.Base.{
  ℕ, zero, suc, ◌+◌, ◌*◌, ◌/◌, ◌%◌, ◌^◌, Bool, true, ◌&&◌, Option, none, some, List, [], ◌∷◌, ltb,
  ◌==◌, if◌then◌else◌,
}
use f2k.Base.Bytes.{Pointer, advance}

-- What `dissect_nf9_option_template_params` and `dissect_ipfix_option_template_params` store.
pub record OptionParams : Type 0 where
  pub template_id : ℕ
  pub scope_field_count : ℕ
  pub field_count : ℕ

-- `sizeof(V9OptionTemplate)`, and of `IPFIXOptionsTemplate`
abbrev pub option_header : ℕ
option_header = 6

-- `none` is the result 0; the result is the header's size otherwise.
unfoldable pub dissect_nf9_option_template_params : Pointer → ℕ → Option OptionParams
dissect_nf9_option_template_params buffer buffer_size =
    if ltb buffer_size option_header
    then none
    else some (record {
      template_id = ntohs buffer 0;
      scope_field_count = ntohs buffer 2 / 4;
      field_count = ntohs buffer 4 / 4;
    })

-- The second subtraction is on `size_t`.
unfoldable pub dissect_ipfix_option_template_params : Pointer → ℕ → Option OptionParams
dissect_ipfix_option_template_params buffer buffer_size =
    if ltb buffer_size option_header
    then none
    else some (record {
      template_id = ntohs buffer 0;
      scope_field_count = ntohs buffer 4;
      field_count = sub_size (ntohs buffer 2) (ntohs buffer 4);
    })

-- The loop over the fields kept, with `n` of them left.
unfoldable pub option_fields : Pointer → ℕ → ℕ → List Field
option_fields buffer cursor zero = []
option_fields buffer cursor (suc n) =
    record {
      v9_template = none;
      field_id = ntohs buffer cursor;
      field_len = ntohs buffer (cursor + 2);
    }
    ∷ option_fields buffer (cursor + 4) n

-- `fieldCount`, a `uint16_t`, cut to `max_num_entries`
unfoldable pub num_entries : OptionParams → ℕ
num_entries params =
    let all = add_size params.scope_field_count params.field_count % 2 ^ 16 in
    if ltb 4 all then 4 else all

unfoldable pub option_template : Pointer → ObservationId → ℕ → OptionParams → Template
option_template buffer observation_id netflow_device_ip params = record {
  template_info = record {
    netflow_device_ip = netflow_device_ip;
    observation_domain_id = observation_id.id;
    template_id = params.template_id;
    field_count = num_entries params;
    scope_field_len = 0;
    is_option_template = true;
  };
  fields = option_fields buffer option_header (num_entries params);
}

module _ (ver9_templates : List ℕ) (enough_memory : Template → Bool) where
  unfoldable pub dissect_option_template :
      (Pointer → ℕ → Option OptionParams) → ObservationId → Pointer → ℕ → ℕ → ObservationId
  dissect_option_template dissect_option_template_params observation_id buffer size
        netflow_device_ip =
      elim (dissect_option_template_params buffer size) [
        | none ↦ observation_id
        | some params ↦
            if ltb size (option_header + 4 * num_entries params)
            then observation_id
            else save_template ver9_templates enough_memory observation_id
                (option_template buffer observation_id netflow_device_ip params)
      ]

  -- The `while` loop, which a template of at least one byte moves on; `none` means that the fuel ran
  -- out. The set has less than 2 ^ 16 bytes, so `displ` does not wrap.
  unfoldable pub template_loop :
      Bool → ℕ → Collector → Pointer → ℕ → ℕ → ℕ → Bool → Option Collector
  template_loop database_path zero worker buffer buffer_len displ netflow_device_ip handle_ipfix =
      if ltb displ buffer_len then none else some worker
  template_loop database_path (suc fuel) worker buffer buffer_len displ netflow_device_ip
        handle_ipfix =
      let (size, w) =
        dissect_flow_template ver9_templates enough_memory database_path worker
          (advance buffer displ) (sub_size buffer_len displ) netflow_device_ip handle_ipfix in
      let rest =
        template_loop database_path fuel w buffer buffer_len (displ + size) netflow_device_ip
          handle_ipfix in
      if ltb displ buffer_len then rest else some worker

  -- The type of a set is the low byte of its identifier; 2 means flow templates in IPFIX. A set
  -- shorter than its header is only logged.
  unfoldable pub dissect_netflow_v9v10_template_set :
      Bool → Collector → Pointer → ℕ → ℕ → Bool → Option Collector
  dissect_netflow_v9v10_template_set database_path worker buffer buffer_len netflow_device_ip
        handle_ipfix =
      let is_option_template = if handle_ipfix && buffer 1 == 2 then 0 else buffer 1 in
      if is_option_template == 0
      then template_loop database_path buffer_len worker buffer buffer_len 4 netflow_device_ip
          handle_ipfix
      else some (record worker {
        observation_id =
            dissect_option_template
              (if handle_ipfix
                then dissect_ipfix_option_template_params
                else dissect_nf9_option_template_params)
              worker.observation_id (advance buffer 4) (sub_size buffer_len 4) netflow_device_ip;
      })
