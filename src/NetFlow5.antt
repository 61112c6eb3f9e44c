-- ===== src/NetFlow5.antt =====
-- NetFlow 5: `dissectNetFlowV5Field`, `dissectNetFlowV5Record` and `dissectNetFlowV5` of
-- src/collect.c, with `dissectNetFlow`, which tells the versions apart.
pub mod Encode
pub mod Flows
pub mod Decode
mod Tests
use f2k.Collect.Options.{done, Outcome}
use f2k.Collect.Flow.{Printer}
use f2k.Number.{net2number}
use f2k.Observation.{Template, ObservationId}
use f2k.Base.{
  ℕ, zero, suc, ◌+◌, ◌*◌, ◌/◌, ◌%◌, ◌^◌, Bool, false, not, ◌||◌, Option, none, some, List, [], ◌∷◌,
  ◌++◌, ltb, ◌==◌, if◌then◌else◌,
}
use f2k.Base.Bytes.{Pointer, advance, big_endian}
use f2k.Template.{increment, Collector, ntohs, WorkerStats}
use f2k.Collect.Packet.{Run, Sensor, get_observation_id, dissect_netflow_v9v10}

-- The identifiers that the `switch` names, and any other.
pub data V5Element : Type 0 where
  ipv4_src_addr : V5Element
  ipv4_dst_addr : V5Element
  ipv4_next_hop : V5Element
  input_snmp : V5Element
  output_snmp : V5Element
  in_pkts : V5Element
  in_bytes : V5Element
  first_switched : V5Element
  last_switched : V5Element
  src_tos : V5Element
  l4_src_port : V5Element
  l4_dst_port : V5Element
  tcp_flags : V5Element
  protocol : V5Element
  dst_as : V5Element
  src_as : V5Element
  engine_type : V5Element
  engine_id : V5Element
  unknown : V5Element

-- `v5TemplateFields`
abbrev pub v5_template_fields : List V5Element
v5_template_fields =
    ipv4_src_addr ∷ ipv4_dst_addr ∷ input_snmp ∷ output_snmp ∷ in_pkts ∷ in_bytes ∷ first_switched
    ∷ last_switched ∷ src_tos ∷ l4_src_port ∷ l4_dst_port ∷ tcp_flags ∷ protocol ∷ engine_type
    ∷ engine_id ∷ []

-- `&the5Record->flowRecord[flow_idx]`, behind the 24 bytes of the header.
abbrev pub flow_at : ℕ → ℕ
flow_at flow_idx = 24 + 48 * flow_idx

-- The offset of `buffer` and `real_field_len`, by the layout of `NetFlow5Record`; `none` is a null
-- pointer.
unfoldable pub v5_field : V5Element → ℕ → Option (ℕ × ℕ)
v5_field dst_as flow_idx = none
v5_field src_as flow_idx = none
v5_field ipv4_dst_addr flow_idx = some (flow_at flow_idx + 4, 4)
v5_field ipv4_src_addr flow_idx = some (flow_at flow_idx, 4)
v5_field in_pkts flow_idx = some (flow_at flow_idx + 16, 4)
v5_field in_bytes flow_idx = some (flow_at flow_idx + 20, 4)
v5_field first_switched flow_idx = some (flow_at flow_idx + 24, 4)
v5_field last_switched flow_idx = some (flow_at flow_idx + 28, 4)
v5_field l4_src_port flow_idx = some (flow_at flow_idx + 32, 2)
v5_field l4_dst_port flow_idx = some (flow_at flow_idx + 34, 2)
v5_field input_snmp flow_idx = some (flow_at flow_idx + 12, 2)
v5_field output_snmp flow_idx = some (flow_at flow_idx + 14, 2)
v5_field engine_id flow_idx = some (21, 1)
v5_field engine_type flow_idx = some (20, 1)
v5_field ipv4_next_hop flow_idx = some (flow_at flow_idx + 8, 4)
v5_field src_tos flow_idx = some (flow_at flow_idx + 39, 1)
v5_field protocol flow_idx = some (flow_at flow_idx + 38, 1)
v5_field tcp_flags flow_idx = some (flow_at flow_idx + 37, 1)
v5_field unknown flow_idx = none

-- The export time and the uptime, in seconds, of a header.
unfoldable pub flow_export_timestamp_uptime : Bool → Pointer → ℕ × ℕ
flow_export_timestamp_uptime handle_ipfix flow_header = (
  if handle_ipfix
      then net2number (advance flow_header 4) 4
      else net2number (advance flow_header 8) 4,
  if handle_ipfix then 0 else net2number (advance flow_header 4) 4 / 1000,
)

-- One line of output of NetFlow 5: `begin` is the allocation with the first two elements, for a
-- domain and a flow sequence number, and may fail; `field` is `printNetflowRecordWithTemplate` with
-- its result; `truncate` puts a NUL at `bpos`; `finish` is all that follows the last field.
pub record V5Printer (Message : Type 0) : Type 1 where
  pub Line : Type 0
  pub begin : Option ObservationId → ℕ → Option Line
  pub set_time : Line → ℕ → ℕ → Line
  pub field : Line → V5Element → Pointer → ℕ → ℕ × Line
  pub bpos : Line → ℕ
  pub truncate : Line → ℕ → Line
  pub finish : Line → List Message

module _ {Message : Type 0} (v5_printer : V5Printer Message) where
  open v5_printer use {Line, begin, set_time, field, bpos, truncate, finish}

  unfoldable pub dissect_netflow_v5_field : Pointer → ℕ → V5Element → Line → Line
  dissect_netflow_v5_field the5_record flow_idx element line = elim (v5_field element flow_idx) [
    | none ↦ line
    | some (buffer, real_field_len) ↦
        let (value_ret, printed) = field line element (advance the5_record buffer) real_field_len in
        if value_ret == 0 then truncate printed (bpos line) else printed
  ]

  unfoldable pub v5_fields : Pointer → ℕ → List V5Element → Line → Line
  v5_fields the5_record flow_idx [] line = line
  v5_fields the5_record flow_idx (e ∷ es) line =
      v5_fields the5_record flow_idx es (dissect_netflow_v5_field the5_record flow_idx e line)

  unfoldable pub dissect_netflow_v5_record : Pointer → ℕ → Option ObservationId → List Message
  dissect_netflow_v5_record the5_record flow_idx observation_id =
      let flow_sequence = (big_endian 4 (advance the5_record 16) + flow_idx) % 2 ^ 32 in
      let (export_timestamp_s, sys_uptime_s) = flow_export_timestamp_uptime false the5_record in
      elim (begin observation_id flow_sequence) [
        | none ↦ []
        | some line ↦ finish (
            v5_fields the5_record flow_idx v5_template_fields
              (set_time line export_timestamp_s sys_uptime_s))
      ]

  -- The `for` loop with `n` flows left.
  unfoldable pub v5_flow_loop : ℕ → Pointer → ℕ → Option ObservationId → List Message
  v5_flow_loop zero the5_record flow_idx observation_id = []
  v5_flow_loop (suc n) the5_record flow_idx observation_id =
      dissect_netflow_v5_record the5_record flow_idx observation_id
      ++ v5_flow_loop n the5_record (flow_idx + 1) observation_id

  -- `numFlows`
  unfoldable pub num_flows : Pointer → ℕ
  num_flows the5_record = let n = ntohs the5_record 2 in if ltb 30 n then 30 else n

  unfoldable pub dissect_netflow_v5 :
      WorkerStats → Pointer → Option ObservationId → WorkerStats × List Message
  dissect_netflow_v5 stats the5_record observation_id = (
    record stats {
      num_flows_processed = (stats.num_flows_processed + num_flows the5_record) % 2 ^ 64;
    },
    v5_flow_loop (num_flows the5_record) the5_record 0 observation_id,
  )

module _ (ver9_templates : List ℕ) (enough_memory : Template → Bool) (printer : Printer)
    (v5_printer : V5Printer printer.Message) where
  -- `has_sensors` is whether there is a list of sensors. NetFlow 5 does not look at `buffer_len`.
  unfoldable pub dissect_netflow :
      Bool → Bool → Collector → Sensor → Pointer → ℕ → ℕ → Outcome (Sensor × Run printer)
  dissect_netflow has_sensors database_path worker sensor buffer buffer_len netflow_device_ip =
      let n = increment worker.stats.num_dissected_flow_packets in
      let stats = record worker.stats { num_dissected_flow_packets = n } in
      let counted = record worker { stats = stats } in
      let flow_version = ntohs buffer 0 in
      if not has_sensors
      then done (sensor, record { worker = worker; messages = [] })
      else if flow_version == 9 || flow_version == 10
      then dissect_netflow_v9v10 ver9_templates enough_memory printer database_path counted sensor
          buffer buffer_len netflow_device_ip
      else if flow_version == 5
      then (let domain = get_observation_id sensor (buffer 20 * 256 + buffer 21) in
          let (stats5, messages) = dissect_netflow_v5 v5_printer stats buffer domain in
          done (sensor, record { worker = record worker { stats = stats5 }; messages = messages }))
      else done (sensor, record { worker = counted; messages = [] })
