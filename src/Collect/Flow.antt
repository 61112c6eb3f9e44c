-- ===== src/Collect/Flow.antt =====
-- Flow records: `dissectNetFlowV9V10FlowSetWithTemplate` of src/collect.c. What a field is printed
-- as, and what becomes of a line that is complete, is the business of src/export.c and of the
-- timestamps: the interface `Printer`.
pub mod Records
pub mod Ends
use f2k.Base.{
  ℕ, zero, suc, ◌+◌, ◌-◌, ◌%◌, ◌^◌, Bool, ◌&&◌, Option, none, some, List, [], ◌∷◌, ◌++◌, ltb, ◌==◌,
  if◌then◌else◌, take,
}
use f2k.Base.Bytes.{Pointer, advance}
use f2k.Observation.{Template, Field}
use f2k.Template.{ntohs, increment}

-- One line of output: `begin` is the allocation with the first two elements, for a flow sequence
-- number, and may fail; `field` is `printNetflowRecordWithTemplate` for an element of
-- `ver9_templates`, its bytes and their number; `finish` is all that follows the last field, and
-- gives the messages of the line.
pub record Printer : Type 1 where
  pub Line : Type 0
  pub Message : Type 0
  pub begin : ℕ → Option Line
  pub field : Line → ℕ → Pointer → ℕ → Line
  pub finish : Line → List Message

-- `real_field_len_offset` and `real_field_len` of a field at `displ`
unfoldable pub real_field : Bool → Pointer → ℕ → ℕ → ℕ × ℕ
real_field handle_ipfix buffer displ field_len =
    if handle_ipfix && field_len == 65535
    then (if ltb (buffer displ) 255 then (1, buffer displ) else (3, ntohs buffer (displ + 1)))
    else (0, field_len)

module _ (printer : Printer) where
  open printer use {Line, Message, begin, field, finish}

  -- The `if` on the template of the field.
  unfoldable pub print_known : Line → Option ℕ → Pointer → ℕ → Line
  print_known line none p len = line
  print_known line (some v9_template) p len = field line v9_template p len

  -- The `for` loop over the fields left: `displ` and the line behind it.
  unfoldable pub flow_record : Bool → Pointer → ℕ → List Field → ℕ → Line → ℕ × Line
  flow_record handle_ipfix buffer end_flow [] displ line = (displ, line)
  flow_record handle_ipfix buffer end_flow (f ∷ fs) displ line =
      let (offset, len) = real_field handle_ipfix buffer displ f.field_len in
      let printed = print_known line f.v9_template (advance buffer (displ + offset)) len in
      let rest = flow_record handle_ipfix buffer end_flow fs (displ + (len + offset)) printed in
      if ltb displ end_flow then rest else (displ, line)

  -- What the function changes: `kafka_string_list`, `num_flows_processed`, `flowSequence` and
  -- `tot_len`.
  pub record Flows : Type 0 where
    pub messages : List Message
    pub num_flows_processed : ℕ
    pub flow_sequence : ℕ
    pub tot_len : ℕ

  -- The step for a line that is complete.
  unfoldable pub flow_done : Flows → ℕ → Line → Flows
  flow_done s accum_len line = record {
    messages = s.messages ++ finish line;
    num_flows_processed = increment s.num_flows_processed;
    flow_sequence = (s.flow_sequence + 1) % 2 ^ 16;
    tot_len = s.tot_len + accum_len;
  }

  unfoldable pub next_sequence : Flows → Flows
  next_sequence s = record s { flow_sequence = (s.flow_sequence + 1) % 2 ^ 16 }

  -- The `while` loop; `none` means that the fuel ran out. A set has less than 2 ^ 16 bytes, so that
  -- no `ssize_t` overflows.
  unfoldable pub flow_loop : ℕ → Bool → List Field → Pointer → ℕ → ℕ → Flows → Option Flows
  flow_loop zero handle_ipfix fields buffer end_flow displ s =
      if ltb displ end_flow then none else some s
  flow_loop (suc fuel) handle_ipfix fields buffer end_flow displ s =
      let again = λ (line : Line).
        let (end, printed) = flow_record handle_ipfix buffer end_flow fields displ line in
        flow_loop fuel handle_ipfix fields buffer end_flow end
          (flow_done s (end - displ) printed) in
      if ltb displ end_flow
      then (if ltb (end_flow - displ) 4
          then some (next_sequence s)
          else elim (begin s.flow_sequence) [
            | none ↦ some (next_sequence s)
            | some line ↦ again line
          ])
      else some s

  -- `flowsetLen` is the length of the set with its header.
  unfoldable pub dissect_netflow_v9v10_flow_set_with_template :
      ℕ → Bool → Template → ℕ → Pointer → Flows → Option Flows
  dissect_netflow_v9v10_flow_set_with_template fuel handle_ipfix cursor flowset_len buffer s =
      flow_loop fuel handle_ipfix (take cursor.template_info.field_count cursor.fields) buffer
        flowset_len 4 s
