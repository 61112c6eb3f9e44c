-- ===== src/Template.antt =====
-- Flow templates off the wire: `dissect_flow_template` and `dissectNetFlowV9V10TemplateSet` with the
-- option templates of src/collect.c. A buffer is a pointer and a size; what is read behind the size
-- is what the memory holds there, as in C.
pub mod Flow
pub mod Encode
pub mod Set
pub mod Sound
pub mod Batch
mod Tests
use f2k.Base.{
  ℕ, zero, suc, ◌+◌, ◌%◌, ◌^◌, Bool, false, not, ◌&&◌, List, [], ◌∷◌, Option, none, some, ltb, ◌==◌,
  if◌then◌else◌, bit_and,
}
use f2k.Base.Bytes.{Pointer, advance, big_endian}
use f2k.Printbuf.{sub_size}
use f2k.Observation.{Field, Template, ObservationId, save_template}

-- `struct worker_stats`, without the times
pub record WorkerStats : Type 0 where
  pub num_packets_received : ℕ
  pub num_dissected_flow_packets : ℕ
  pub num_flows_unknown_template : ℕ
  pub num_flows_processed : ℕ
  pub num_good_templates_received : ℕ
  pub num_known_templates : ℕ
  pub num_bad_templates_received : ℕ

-- What a worker's decoder changes; `database` is the templates handed to `saveGoodTemplateInFile`,
-- the last one first.
pub record Collector : Type 0 where
  pub stats : WorkerStats
  pub observation_id : ObservationId
  pub database : List Template

-- `n++` on a `uint64_t`
abbrev pub increment : ℕ → ℕ
increment n = (n + 1) % 2 ^ 64

unfoldable pub good_template : WorkerStats → WorkerStats
good_template s = record s { num_good_templates_received = increment s.num_good_templates_received }

unfoldable pub bad_template : WorkerStats → WorkerStats
bad_template s = record s { num_bad_templates_received = increment s.num_bad_templates_received }

-- `ntohs` of the two bytes at an offset.
abbrev pub ntohs : Pointer → ℕ → ℕ
ntohs buffer displ = big_endian 2 (advance buffer displ)

unfoldable pub is_enterprise_specific : Bool → Pointer → ℕ → Bool
is_enterprise_specific handle_ipfix buffer displ =
    handle_ipfix && not (bit_and (buffer displ) 0x80 == 0)

-- The size of a field's definition, with its enterprise number.
unfoldable pub definition_len : Bool → Pointer → ℕ → ℕ
definition_len handle_ipfix buffer displ =
    4 + (if is_enterprise_specific handle_ipfix buffer displ then 4 else 0)

-- `0x7FFF` masks 15 bits.
unfoldable pub flow_field : Pointer → ℕ → Field
flow_field buffer displ = record {
  v9_template = none;
  field_id = ntohs buffer displ % 2 ^ 15;
  field_len = ntohs buffer (displ + 2);
}

-- Variable lengths do not count.
unfoldable pub counted_len : ℕ → ℕ
counted_len field_len = if field_len == 0xffff then 0 else field_len

-- The `for` loop with `n` fields left: the fields, `displ` and `accumulatedLen` after them, or
-- `none` for `goto bad_template`. At most 128 fields are read, so no `size_t` wraps.
unfoldable pub flow_fields : Bool → Pointer → ℕ → ℕ → ℕ → ℕ → Option (List Field × ℕ × ℕ)
flow_fields handle_ipfix buffer buffer_len zero displ accumulated_len =
    some ([], displ, accumulated_len)
flow_fields handle_ipfix buffer buffer_len (suc n) displ accumulated_len =
    let len = definition_len handle_ipfix buffer displ in
    let field = flow_field buffer displ in
    let rest =
      flow_fields handle_ipfix buffer buffer_len n (displ + len)
        (accumulated_len + counted_len field.field_len) in
    if ltb buffer_len (displ + len) then none else elim rest [
      | none ↦ none
      | some (fields, end, accumulated) ↦ some (field ∷ fields, end, accumulated)
    ]

-- What the template is before `find_template`.
unfoldable pub flow_template : Pointer → ObservationId → ℕ → List Field → Template
flow_template buffer observation_id netflow_device_ip fields = record {
  template_info = record {
    netflow_device_ip = netflow_device_ip;
    observation_domain_id = observation_id.id;
    template_id = ntohs buffer 0;
    field_count = ntohs buffer 2;
    scope_field_len = 0;
    is_option_template = false;
  };
  fields = fields;
}

module _ (ver9_templates : List ℕ) (enough_memory : Template → Bool) where
  -- `database_path` is whether `templates_database_path` is not empty.
  unfoldable pub keep_template : Bool → Collector → Template → Collector
  keep_template database_path worker template = record {
    stats = good_template worker.stats;
    observation_id = save_template ver9_templates enough_memory worker.observation_id template;
    database = if database_path then template ∷ worker.database else worker.database;
  }

  -- The size processed, and the worker after it. A buffer too short for the header is only logged.
  unfoldable pub dissect_flow_template : Bool → Collector → Pointer → ℕ → ℕ → Bool → ℕ × Collector
  dissect_flow_template database_path worker buffer buffer_len netflow_device_ip handle_ipfix =
      let field_count = ntohs buffer 2 in
      let bad : ℕ × Collector = (buffer_len, record worker { stats = bad_template worker.stats }) in
      if ltb 128 field_count
      then bad
      else elim (flow_fields handle_ipfix buffer buffer_len field_count 4 0) [
        | none ↦ bad
        | some (fields, displ, accumulated_len) ↦ if ltb 1500 accumulated_len then bad else (
          if ltb (sub_size buffer_len displ) 4 then buffer_len else displ,
          keep_template database_path worker
              (flow_template buffer worker.observation_id netflow_device_ip fields),
        )
      ]
