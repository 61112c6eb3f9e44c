-- ===== src/NetFlow5/Decode.antt =====
-- What `dissectNetFlowV5` makes of a packet, with a printer that keeps what it is given.
use f2k.Base.{
  ℕ, suc, ◌+◌, ◌/◌, ◌%◌, ◌^◌, ◌≤◌, ◌≡◌, refl, sym, ap, ◌∙◌, inl, inr, Option, none, some, List, [],
  ◌∷◌, ◌++◌, append-nil, append_assoc, arith, ltb, if◌then◌else◌, Option-cases, length, get_elem?,
  All,
}
use f2k.Base.Bytes.{Pointer, advance, big_endian}
use f2k.NetFlow5.Encode.{encode_numbers, number_at, IsNumber}
use f2k.NetFlow5.Flows.{
  Header, Flow, packet_numbers, v5_value, read_field, read_field-v5_field, read_number,
}
use f2k.Template.Encode.{Holds}
use f2k.Number.{net2number}
use f2k.Template.{WorkerStats, ntohs}
use f2k.Observation.{ObservationId}
use f2k.NetFlow5.{
  net2number, flow_export_timestamp_uptime, V5Element, v5_field, V5Printer, dissect_netflow_v5,
  v5_flow_loop, num_flows, v5_fields, dissect_netflow_v5_record, dissect_netflow_v5_field,
  v5_template_fields,
}

-- A line: its flow sequence number, its export time and uptime in seconds, and its fields in order.
pub record Decoded : Type 0 where
  pub flow_sequence : ℕ
  pub export_timestamp_s : ℕ
  pub sys_uptime_s : ℕ
  pub fields : List (V5Element × ℕ)

abbrev pub decoder : V5Printer Decoded
decoder = record {
  Line = Decoded;
  begin = λ o flow_sequence. some (record {
    flow_sequence = flow_sequence;
    export_timestamp_s = 0;
    sys_uptime_s = 0;
    fields = [];
  });
  set_time = λ line e u. record line { export_timestamp_s = e; sys_uptime_s = u };
  field = λ line element p len.
      (1, record line { fields = line.fields ++ ((element, big_endian len p) ∷ []) });
  bpos = λ line. 0;
  truncate = λ line bpos. line;
  finish = λ line. line ∷ [];
}

abbrev pub listed_value : V5Element → Option ℕ → List (V5Element × ℕ)
listed_value e none = []
listed_value e (some x) = (e, x) ∷ []

unfoldable pub listed : Header → Flow → List V5Element → List (V5Element × ℕ)
listed h f [] = []
listed h f (e ∷ es) = listed_value e (v5_value e h f) ++ listed h f es

-- The line of the flow `f`, which has the place `i` in the packet.
abbrev pub decoded : Header → ℕ → Flow → Decoded
decoded h i f = record {
  flow_sequence = (h.flow_sequence + i) % 2 ^ 32;
  export_timestamp_s = h.unix_secs;
  sys_uptime_s = h.sys_uptime / 1000;
  fields = listed h f v5_template_fields;
}

unfoldable pub decoded_from : Header → ℕ → List Flow → List Decoded
decoded_from h i [] = []
decoded_from h i (f ∷ fs) = decoded h i f ∷ decoded_from h (i + 1) fs

module _ (h : Header) (fs : List Flow) (p : Pointer) (all : All IsNumber (packet_numbers h fs))
    (holds : Holds p 0 (encode_numbers (packet_numbers h fs))) where
  field-decoded :
      (e : V5Element) (i : ℕ) (f : Flow) (line : Decoded)
      → get_elem? fs i ≡ some f
      → dissect_netflow_v5_field decoder p i e line
        ≡ record line { fields = line.fields ++ listed_value e (v5_value e h f) }
  unfolding dissect_netflow_v5_field
  field-decoded e i f line at =
      let value = read_field-v5_field h fs p all holds e i f at in
      elim (Option-cases (v5_field e i)) [
        | inl absent ↦
            let nothing : v5_value e h f ≡ none = sym value ∙ ap (read_field p) absent in
            rw (absent, dissect_netflow_v5_field, nothing, append-nil line.fields) refl
        | inr ((buffer, len), there) ↦
            let found : v5_value e h f ≡ some (big_endian len (advance p buffer)) =
              sym value ∙ ap (read_field p) there in
            rw (there, dissect_netflow_v5_field, found) refl
      ]

  fields-decoded :
      (es : List V5Element) (i : ℕ) (f : Flow) (line : Decoded)
      → get_elem? fs i ≡ some f
      → v5_fields decoder p i es line ≡ record line { fields = line.fields ++ listed h f es }
  unfolding v5_fields listed
  fields-decoded [] i f line at =
      ap (λ l. record line { fields = l }) (sym (append-nil line.fields))
  fields-decoded (e ∷ es) i f line at =
      ap (v5_fields decoder p i es) (field-decoded e i f line at)
      ∙ fields-decoded es i f
          (record line { fields = line.fields ++ listed_value e (v5_value e h f) }) at
      ∙ ap (λ l. record line { fields = l })
          (append_assoc line.fields (listed_value e (v5_value e h f)) (listed h f es))

  record-decoded :
      (i : ℕ) (f : Flow) (domain : Option ObservationId)
      → get_elem? fs i ≡ some f
      → dissect_netflow_v5_record decoder p i domain ≡ decoded h i f ∷ []
  unfolding dissect_netflow_v5_record flow_export_timestamp_uptime net2number number_at
  record-decoded i f domain at =
      let secs = read_number h fs p all holds 8 4 h.unix_secs refl in
      let uptime = read_number h fs p all holds 4 4 h.sys_uptime refl in
      let sequence = read_number h fs p all holds 16 4 h.flow_sequence refl in
      rw (secs, uptime, sequence) (ap (λ l. l ∷ []) (fields-decoded v5_template_fields i f _ at))

  loop-decoded :
      (rest : List Flow) (i : ℕ) (domain : Option ObservationId)
      → ((j : ℕ) → get_elem? rest j ≡ get_elem? fs (i + j))
      → v5_flow_loop decoder (length rest) p i domain ≡ decoded_from h i rest
  unfolding v5_flow_loop decoded_from
  loop-decoded [] i domain at = refl
  loop-decoded (f ∷ rest) i domain at =
      let here : get_elem? fs i ≡ some f = ap (get_elem? fs) (omega arith) ∙ sym (at 0) in
      let later : (j : ℕ) → get_elem? rest j ≡ get_elem? fs (i + 1 + j) =
        λ j. at (suc j) ∙ ap (get_elem? fs) (omega arith) in
      ap (λ l. l ++ v5_flow_loop decoder (length rest) p (i + 1) domain)
        (record-decoded i f domain here)
      ∙ ap (λ l. decoded h i f ∷ l) (loop-decoded rest (i + 1) domain later)

  -- A packet of NetFlow 5 with at most 30 flows, whose count is the number of them, is decoded into
  -- a line for each of its flows, in their order: each has the times of the header, the flow
  -- sequence number of its flow, and the numbers that the exporter wrote for the elements of
  -- `v5TemplateFields`, in the order of that table.
  pub dissect_netflow_v5-decoded :
      (stats : WorkerStats) (domain : Option ObservationId)
      → h.count ≡ length fs
      → length fs ≤ 30
      → (dissect_netflow_v5 decoder stats p domain).1 ≡ decoded_from h 0 fs
  unfolding dissect_netflow_v5 num_flows number_at
  dissect_netflow_v5-decoded stats domain counted few =
      let count = read_number h fs p all holds 2 2 h.count refl in
      let n : (if ltb 30 (ntohs p 2) then 30 else ntohs p 2) ≡ length fs =
        ground (arith, count, counted, few) in
      ap (λ k. v5_flow_loop decoder k p 0 domain) n
      ∙ loop-decoded fs 0 domain (λ j. ap (get_elem? fs) (omega arith))
