-- ===== src/Collect/Packet.antt =====
-- A packet and its sets: `dissectNetFlowV9V10Flow`, `dissectNetFlowV9V10Set` and
-- `dissectNetflowV9V10` of src/collect.c, with the domains of a sensor
-- (src/dynamic-sensors/src/sensor).
pub mod Sound
pub mod Ends
use f2k.Printbuf.{sub_size}
use f2k.Template.Set.{dissect_netflow_v9v10_template_set}
use f2k.Collect.Options.{done, aborted, out_of_fuel, dissect_option_flow_set, Outcome}
use f2k.Collect.Flow.{dissect_netflow_v9v10_flow_set_with_template, Flows, Printer}
use f2k.Template.{Collector, ntohs, increment, WorkerStats}
use f2k.Observation.{find_observation_id_template, Table, insert, Template, ObservationId}
use f2k.Base.{
  ℕ, zero, suc, ◌+◌, ◌%◌, ◌^◌, min, Bool, not, ◌&&◌, ◌||◌, Option, none, some, List, [], ◌++◌, ltb,
  ◌==◌, if◌then◌else◌,
}
use f2k.Base.Bytes.{Pointer, advance, big_endian}

-- The domains of `Sensor`.
pub record Sensor : Type 0 where
  pub default_observation_id : Option ObservationId
  pub observation_id : Table ObservationId

unfoldable pub get_observation_id : Sensor → ℕ → Option ObservationId
get_observation_id sensor id = elim (sensor.observation_id id) [
  | some o ↦ some o
  | none ↦ sensor.default_observation_id
]

-- The sensor after a change of the domain that `get_observation_id` points to.
unfoldable pub put_observation_id : Sensor → ℕ → ObservationId → Sensor
put_observation_id sensor id o = elim (sensor.observation_id id) [
  | some old ↦ record sensor { observation_id = insert sensor.observation_id id o }
  | none ↦ record sensor { default_observation_id = some o }
]

unfoldable pub unknown_template : WorkerStats → WorkerStats
unknown_template s = record s {
  num_flows_unknown_template = increment s.num_flows_unknown_template;
}

-- A template without fields counts as none.
unfoldable pub usable : Option Template → Option Template
usable none = none
usable (some t) = if t.template_info.field_count == 0 then none else some t

-- Whether the set at the head of the buffer holds templates.
unfoldable pub is_template_set : Bool → Pointer → Bool
is_template_set handle_ipfix buffer = buffer 0 == 0 || not handle_ipfix && ntohs buffer 0 == 1

module _ (printer : Printer) where
  open printer use {Message}

  -- The worker, and the messages of the sets so far.
  pub record Run : Type 0 where
    pub worker : Collector
    pub messages : List Message

  -- The flows of a template, whose count goes back to the worker.
  unfoldable pub run_of : Collector → Flows printer → Run
  run_of worker s = record {
    worker = record worker {
      stats = record worker.stats { num_flows_processed = s.num_flows_processed };
    };
    messages = s.messages;
  }

  unfoldable pub flows_of : Collector → ℕ → Flows printer
  flows_of worker flow_sequence = record {
    messages = [];
    num_flows_processed = worker.stats.num_flows_processed;
    flow_sequence = flow_sequence;
    tot_len = 0;
  }

  -- The two kinds of template.
  unfoldable pub dissect_with : Bool → Collector → Template → Pointer → ℕ → ℕ → ℕ → Outcome Run
  dissect_with handle_ipfix worker t buffer size flowset_len flow_sequence =
      let option_size = min flowset_len (sub_size size 4) in
      if t.template_info.is_option_template
      then elim (dissect_option_flow_set option_size worker.observation_id t (advance buffer 4)
          option_size 0) [
            | done r ↦
                done (record { worker = record worker { observation_id = r.1 }; messages = [] })
            | aborted ↦ aborted
            | out_of_fuel ↦ out_of_fuel
          ]
      else elim (dissect_netflow_v9v10_flow_set_with_template printer flowset_len handle_ipfix t
          flowset_len buffer (flows_of worker flow_sequence)) [
            | none ↦ out_of_fuel
            | some s ↦ done (run_of worker s)
          ]

  -- The length check behind the dissection only logs.
  unfoldable pub dissect_netflow_v9v10_flow : Bool → Collector → Pointer → ℕ → ℕ → Outcome Run
  dissect_netflow_v9v10_flow handle_ipfix worker buffer size flow_sequence =
      elim (usable (find_observation_id_template worker.observation_id (ntohs buffer 0))) [
        | none ↦ done (record {
          worker = record worker { stats = unknown_template worker.stats };
          messages = [];
        })
        | some t ↦ dissect_with handle_ipfix worker t buffer size (ntohs buffer 2) flow_sequence
      ]

module _ (ver9_templates : List ℕ) (enough_memory : Template → Bool) (printer : Printer) where
  open printer use {Message}

  unfoldable pub dissect_set : Bool → Bool → Collector → Pointer → ℕ → ℕ → ℕ → Outcome (Run printer)
  dissect_set database_path handle_ipfix worker set flowset_len netflow_device_ip flow_sequence =
      if is_template_set handle_ipfix set
      then elim (dissect_netflow_v9v10_template_set ver9_templates enough_memory database_path
          worker set flowset_len netflow_device_ip handle_ipfix) [
            | none ↦ out_of_fuel
            | some w ↦ done (record { worker = w; messages = [] })
          ]
      else dissect_netflow_v9v10_flow printer handle_ipfix worker set flowset_len flow_sequence

  -- The new `*_displ` with the worker and the messages. The flow sequence is a copy of 16 bits.
  unfoldable pub dissect_netflow_v9v10_set :
      Bool → Bool → Collector → Pointer → ℕ → ℕ → ℕ → ℕ → Outcome (ℕ × Run printer)
  dissect_netflow_v9v10_set database_path handle_ipfix worker buffer size displ netflow_device_ip
        flow_sequence =
      let flowset_len = ntohs buffer (displ + 2) in
      let nothing : Outcome (ℕ × Run printer) =
        done (size + 1, record { worker = worker; messages = [] }) in
      if ltb size (displ + 4)
      then nothing
      else if ltb size (displ + flowset_len)
      then nothing
      else elim (dissect_set database_path handle_ipfix worker (advance buffer displ) flowset_len
          netflow_device_ip (flow_sequence % 2 ^ 16)) [
            | done run ↦ done (displ + flowset_len, run)
            | aborted ↦ aborted
            | out_of_fuel ↦ out_of_fuel
          ]

  -- The `for` loop with `n` sets left to read; the messages come behind those before.
  unfoldable pub set_loop :
      ℕ
      → Bool
      → Bool
      → Collector
      → Pointer
      → ℕ
      → ℕ
      → ℕ
      → ℕ
      → ℕ
      → List Message
      → Outcome (Run printer)
  set_loop zero database_path handle_ipfix worker buffer size buffer_len displ ip flow_sequence
        messages =
      done (record { worker = worker; messages = messages })
  set_loop (suc n) database_path handle_ipfix worker buffer size buffer_len displ ip flow_sequence
        messages =
      let again = λ (r : ℕ × Run printer).
        set_loop n database_path handle_ipfix r.1.worker buffer size buffer_len r.0 ip flow_sequence
          (messages ++ r.1.messages) in
      if ltb displ buffer_len
      then elim (dissect_netflow_v9v10_set database_path handle_ipfix worker buffer size displ ip
          flow_sequence) [ done r ↦ again r | aborted ↦ aborted | out_of_fuel ↦ out_of_fuel ]
      else done (record { worker = worker; messages = messages })

  unfoldable pub dissect_netflow_v9v10 :
      Bool → Collector → Sensor → Pointer → ℕ → ℕ → Outcome (Sensor × Run printer)
  dissect_netflow_v9v10 database_path worker sensor buffer buffer_len netflow_device_ip =
      let handle_ipfix = ntohs buffer 0 == 10 in
      let num_entries = ntohs buffer 2 in
      let displ = if handle_ipfix then 16 else 20 in
      let flow_sequence = big_endian 4 (advance buffer (if handle_ipfix then 8 else 12)) in
      let observation_id_n = big_endian 4 (advance buffer (if handle_ipfix then 12 else 16)) in
      let size = if handle_ipfix then min buffer_len num_entries else buffer_len in
      elim (get_observation_id sensor observation_id_n) [
        | none ↦ done (sensor, record { worker = worker; messages = [] })
        | some o ↦
            elim (set_loop num_entries database_path handle_ipfix
              (record worker { observation_id = o }) buffer size buffer_len displ netflow_device_ip
              flow_sequence []) [
                | done run ↦
                    done (put_observation_id sensor observation_id_n run.worker.observation_id, run)
                | aborted ↦ aborted
                | out_of_fuel ↦ out_of_fuel
              ]
      ]
