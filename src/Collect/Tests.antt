-- ===== src/Collect/Tests.antt =====
-- Runs of the decoder, and its theorems at concrete inputs.
use f2k.Collect.Packet.Ends.{dissect_netflow_v9v10_set_ends}
use f2k.Collect.Options.Abort.{dissect_nf9_option_flow_aborts}
use f2k.Collect.Options.Stuck.{dissect_option_flow_set_stuck}
use f2k.Template.Sound.{IsSound}
use f2k.Number.{net2number}
use f2k.Collect.Flow.Ends.{
  Reads, dissect_netflow_v9v10_flow_set_with_template_ends,
  dissect_netflow_v9v10_flow_set_with_template_stuck,
}
use f2k.Collect.Flow.Records.{dissect_netflow_v9v10_flow_set_with_template-cut, behind_padding, cut}
use f2k.Collect.Packet.{Run, dissect_netflow_v9v10, dissect_netflow_v9v10_set, Sensor}
use f2k.Samples.{idle, empty_domain-IsSound, endless, empty_domain, table, pointer_to-IsMemory}
use f2k.Collect.Packet.Sound.{dissect_netflow_v9v10-IsSoundSensor, IsSoundSensor, LeavesSoundSensor}
use f2k.Collect.Options.Ends.{dissect_option_flow_set_ends, visited, record_len}
use f2k.Observation.{ObservationId, Template, Field}
use f2k.Collect.Options.{
  done, aborted, out_of_fuel, dissect_nf9_option_flow, dissect_option_flow_set,
}
use f2k.Collect.Flow.{
  next_sequence, flow_done, real_field, print_known, flow_record, flow_loop,
  dissect_netflow_v9v10_flow_set_with_template, Flows, Printer,
}
use f2k.Base.{
  ℕ, ◌+◌, ◌≤◌, ◌≡◌, refl, subst, ◌⊎◌, Bool, true, false, Option, none, some, List, [], ◌∷◌, ◌++◌,
  arith, length,
}
use f2k.Base.Bytes.{Pointer, advance, pointer_to, IsMemory, big_endian}

-- Lines of numbers: the sequence number, then each element with the length of its field.
abbrev numbers : Printer
numbers = record {
  Line = List ℕ;
  Message = List ℕ;
  begin = λ n. some (n ∷ []);
  field = λ line e p len. line ++ (e ∷ net2number p len ∷ []);
  finish = λ line. line ∷ [];
}

abbrev plain : ℕ → Option ℕ → ℕ → Field
plain id place len = record { v9_template = place; field_id = id; field_len = len }

abbrev template_with : Bool → List Field → Template
template_with option fields = record {
  template_info = record {
    netflow_device_ip = 0x0a000001;
    observation_domain_id = 7;
    template_id = 256;
    field_count = length fields;
    scope_field_len = 0;
    is_option_template = option;
  };
  fields = fields;
}

-- Two fields, of which the second is not known.
abbrev two : Template
two = template_with false (plain 8 (some 2) 4 ∷ plain 99 none 1 ∷ [])

abbrev blank : Template
blank = template_with false (plain 8 (some 2) 0 ∷ [])

abbrev option_names : Template
option_names = template_with true (plain 10 none 2 ∷ plain 82 none 3 ∷ [])

abbrev option_blank : Template
option_blank = template_with true (plain 10 none 0 ∷ [])

-- A set of two records, with two bytes of padding.
abbrev set : Pointer
set = pointer_to (1 ∷ 0 ∷ 0 ∷ 16 ∷ 10 ∷ 0 ∷ 0 ∷ 1 ∷ 6 ∷ 10 ∷ 0 ∷ 0 ∷ 2 ∷ 17 ∷ 0 ∷ 0 ∷ [])

set-IsMemory : IsMemory set
set-IsMemory =
    pointer_to-IsMemory (1 ∷ 0 ∷ 0 ∷ 16 ∷ 10 ∷ 0 ∷ 0 ∷ 1 ∷ 6 ∷ 10 ∷ 0 ∷ 0 ∷ 2 ∷ 17 ∷ 0 ∷ 0 ∷ [])
      (omega arith)

abbrev fresh : Flows numbers
fresh = record { messages = []; num_flows_processed = 0; flow_sequence = 41; tot_len = 0 }

reads_records :
    dissect_netflow_v9v10_flow_set_with_template numbers 16 false two 16 set fresh
    ≡ some (record {
      messages = (41 ∷ 2 ∷ 0x0a000001 ∷ []) ∷ (42 ∷ 2 ∷ 0x0a000002 ∷ []) ∷ [];
      num_flows_processed = 2;
      flow_sequence = 44;
      tot_len = 10;
    })
unfolding dissect_netflow_v9v10_flow_set_with_template flow_loop flow_record print_known real_field
    flow_done next_sequence net2number big_endian
reads_records = refl

abbrev started : ℕ → List ℕ
started n = n ∷ []

dissect_netflow_v9v10_flow_set_with_template-cut_example :
    dissect_netflow_v9v10_flow_set_with_template numbers 16 false two 16 set fresh
    ≡ some (
        behind_padding numbers started
          (λ n. refl)
          2
          (cut numbers started (λ n. refl) set (visited two) 2 4 fresh))
unfolding record_len
dissect_netflow_v9v10_flow_set_with_template-cut_example =
    dissect_netflow_v9v10_flow_set_with_template-cut numbers started (λ n. refl) false two 16 2 2
      set fresh (ground arith) (omega arith) (omega arith) (omega arith) (omega arith)

dissect_netflow_v9v10_flow_set_with_template_ends_example :
    (s' : Flows numbers) × (dissect_netflow_v9v10_flow_set_with_template numbers 16 false two 16 set
        fresh
      ≡ some s')
    × Reads numbers false (visited two) set 16 4 fresh s'
unfolding record_len
dissect_netflow_v9v10_flow_set_with_template_ends_example =
    dissect_netflow_v9v10_flow_set_with_template_ends numbers false two 16 set fresh (omega arith)

dissect_netflow_v9v10_flow_set_with_template_stuck_example :
    dissect_netflow_v9v10_flow_set_with_template numbers 1000 false blank 16 set fresh ≡ none
dissect_netflow_v9v10_flow_set_with_template_stuck_example =
    dissect_netflow_v9v10_flow_set_with_template_stuck numbers 1000 false blank 16 set fresh
      (λ n e. ground arith) (omega arith) (omega arith)

dissect_option_flow_set_ends_example :
    let r = dissect_option_flow_set 12 empty_domain option_names (advance set 4) 12 0 in
    (r ≡ aborted) ⊎ ((o' : ObservationId) × (r ≡ done (12, o')))
unfolding record_len
dissect_option_flow_set_ends_example =
    dissect_option_flow_set_ends 12 empty_domain option_names (advance set 4) 12 0 (omega arith)
      (omega arith) (omega arith) (omega arith)

dissect_option_flow_set_stuck_example :
    dissect_option_flow_set 1000 empty_domain option_blank (advance set 4) 12 0 ≡ out_of_fuel
dissect_option_flow_set_stuck_example =
    dissect_option_flow_set_stuck 1000 empty_domain option_blank (advance set 4) 12 (omega arith)
      (omega arith)

dissect_nf9_option_flow_aborts_example :
    dissect_nf9_option_flow empty_domain option_names (advance set 4) 12 ≡ aborted
unfolding record_len
dissect_nf9_option_flow_aborts_example =
    dissect_nf9_option_flow_aborts empty_domain option_names (advance set 4) 12
      (plain 10 none 2 ∷ []) (plain 82 none 3) [] refl refl (omega arith) (ground arith)
      (omega arith)

-- An IPFIX packet of one template set.
abbrev packet : Pointer
packet = pointer_to (
    0 ∷ 10 ∷ 0 ∷ 28 ∷ 0 ∷ 0 ∷ 0 ∷ 0 ∷ 0 ∷ 0 ∷ 0 ∷ 0 ∷ 0 ∷ 0 ∷ 0 ∷ 7 ∷ 0 ∷ 2 ∷ 0 ∷ 12 ∷ 1 ∷ 0 ∷ 0 ∷ 1
    ∷ 0 ∷ 8 ∷ 0 ∷ 4 ∷ [])

packet-IsMemory : IsMemory packet
packet-IsMemory =
    pointer_to-IsMemory
      (0 ∷ 10 ∷ 0 ∷ 28 ∷ 0 ∷ 0 ∷ 0 ∷ 0 ∷ 0 ∷ 0 ∷ 0 ∷ 0 ∷ 0 ∷ 0 ∷ 0 ∷ 7 ∷ 0 ∷ 2 ∷ 0 ∷ 12 ∷ 1 ∷ 0 ∷ 0
        ∷ 1 ∷ 0 ∷ 8 ∷ 0 ∷ 4 ∷ [])
      (omega arith)

abbrev exporter : Sensor
exporter = record { default_observation_id = some empty_domain; observation_id = λ k. none }

exporter-IsSoundSensor : IsSoundSensor exporter
exporter-IsSoundSensor = record {
  fallback = λ o e. subst IsSound (same o e) empty_domain-IsSound;
  each = λ i o e. absurd (ground arith);
}
  where
    same : (o : ObservationId) → some empty_domain ≡ some o → empty_domain ≡ o
    same o e = ground arith

dissect_netflow_v9v10-IsSoundSensor_example :
    LeavesSoundSensor table endless numbers
      (dissect_netflow_v9v10 table endless numbers false idle exporter packet 28 0x0a000001)
dissect_netflow_v9v10-IsSoundSensor_example =
    dissect_netflow_v9v10-IsSoundSensor table endless numbers false idle exporter packet 28
      0x0a000001 packet-IsMemory exporter-IsSoundSensor

dissect_netflow_v9v10_set_ends_example :
    let r =
      dissect_netflow_v9v10_set table endless numbers false true idle packet 28 16 0x0a000001 0 in
    (r ≡ aborted) ⊎ ((d : ℕ) × (run : Run numbers) × (r ≡ done (d, run)) × (16 ≤ d) × (d ≤ 28 + 1))
dissect_netflow_v9v10_set_ends_example =
    dissect_netflow_v9v10_set_ends table endless numbers false true idle packet 28 16 0x0a000001 0
      packet-IsMemory empty_domain-IsSound (λ k t e n. absurd (ground arith)) (omega arith)
