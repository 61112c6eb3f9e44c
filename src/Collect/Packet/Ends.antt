-- ===== src/Collect/Packet/Ends.antt =====
-- When the reading of a set ends, and where.
use f2k.Template.Sound.{dissect_netflow_v9v10_template_set-IsSound, IsSound}
use f2k.Base.{
  ℕ, ◌+◌, ◌%◌, ◌^◌, ◌≤◌, ◌<◌, min, ◌≡◌, refl, ap, subst, ◌⊎◌, inl, inr, Bool, false, Option, none,
  some, List, [], arith, ltb, ◌==◌, Bool-cases, Option-cases,
}
use f2k.Base.Bytes.{Pointer, advance, IsMemory, big_endian-lt}
use f2k.Collect.Flow.Ends.{dissect_netflow_v9v10_flow_set_with_template_ends}
use f2k.Printbuf.{sub_size}
use f2k.Template.{ntohs, Collector}
use f2k.Collect.Options.Ends.{dissect_option_flow_set_ends, visited, record_len}
use f2k.Collect.Options.{done, aborted, Outcome}
use f2k.Collect.Packet.{
  unknown_template, is_template_set, Run, dissect_netflow_v9v10_set, dissect_netflow_v9v10_flow,
  dissect_set, run_of, flows_of, dissect_with, usable,
}
use f2k.Observation.{find_observation_id_template, Template, ObservationId}
use f2k.Collect.Flow.{Printer}

-- Templates with fields, but without any length, are what the decoder cannot read.
abbrev pub IsReadable : ObservationId → Type 0
IsReadable o =
    (k : ℕ) (t : Template)
    → o.templates k ≡ some t
    → 0 < t.template_info.field_count
    → 0 < record_len (visited t)

usable-some :
    (x : Option Template) (t : Template)
    → usable x ≡ some t
    → (x ≡ some t) × (0 < t.template_info.field_count)
unfolding usable
usable-some none t e = absurd (ground arith)
usable-some (some u) t e = elim (Bool-cases (u.template_info.field_count == 0)) [
  | inl empty ↦ absurd (ground arith)
  | inr full ↦ (
    same full,
    subst (λ (v : Template). 0 < v.template_info.field_count) (inner full) (ground arith),
  )
]
  where
    inner : (u.template_info.field_count == 0) ≡ false → u ≡ t
    inner full = ground arith

    same : (u.template_info.field_count == 0) ≡ false → some u ≡ some t
    same full = ap some (inner full)

module _ (printer : Printer) where
  abbrev Returns {ℓ} : {A : Type ℓ} → Outcome A → Type ℓ
  Returns {A = A} r = (r ≡ aborted) ⊎ ((a : A) × (r ≡ done a))

  dissect_with_ends :
      (ipfix : Bool) (worker : Collector) (t : Template) (buffer : Pointer)
      (size flowset_len seq : ℕ)
      → flowset_len < 2 ^ 16
      → 0 < record_len (visited t)
      → Returns (dissect_with printer ipfix worker t buffer size flowset_len seq)
  unfolding dissect_with
  dissect_with_ends ipfix worker t buffer size flowset_len seq hn h =
      let n = min flowset_len (sub_size size 4) in
      elim (Bool-cases t.template_info.is_option_template) [
        | inl option ↦
            elim (dissect_option_flow_set_ends n worker.observation_id t (advance buffer 4) n 0 h
              (omega arith) (omega arith) (omega arith)) [
                | inl e ↦ inl (rw (dissect_with, e, option) refl)
                | inr (o, e) ↦ inr (
                  record { worker = record worker { observation_id = o }; messages = [] },
                  rw (dissect_with, e, option) refl,
                )
              ]
        | inr flow ↦
            let (s, e, _) =
              dissect_netflow_v9v10_flow_set_with_template_ends printer ipfix t flowset_len buffer
                (flows_of printer worker seq) h in
            inr (run_of printer worker s, rw (dissect_with, e, flow) refl)
      ]

  dissect_netflow_v9v10_flow_ends :
      (ipfix : Bool) (worker : Collector) (buffer : Pointer) (size seq : ℕ)
      → IsMemory buffer
      → IsReadable worker.observation_id
      → Returns (dissect_netflow_v9v10_flow printer ipfix worker buffer size seq)
  unfolding dissect_netflow_v9v10_flow find_observation_id_template
  dissect_netflow_v9v10_flow_ends ipfix worker buffer size seq h ok =
      elim (Option-cases (usable (worker.observation_id.templates (ntohs buffer 0)))) [
        | inl unknown ↦ inr (
          record {
            worker = record worker { stats = unknown_template worker.stats };
            messages = [];
          },
          rw (dissect_netflow_v9v10_flow, unknown) refl,
        )
        | inr (t, e) ↦
            let (known, full) =
              usable-some (worker.observation_id.templates (ntohs buffer 0)) t e in
            rw (dissect_netflow_v9v10_flow, e)
              (dissect_with_ends ipfix worker t buffer size (ntohs buffer 2) seq
                (big_endian-lt 2 (advance buffer 2) (λ i. h (2 + i)))
                (ok (ntohs buffer 0) t known full))
      ]

module _ (ver9_templates : List ℕ) (enough_memory : Template → Bool) (printer : Printer) where
  dissect_set_ends :
      (database_path ipfix : Bool) (worker : Collector) (set : Pointer) (flowset_len ip seq : ℕ)
      → IsMemory set
      → flowset_len < 2 ^ 16
      → IsSound worker.observation_id
      → IsReadable worker.observation_id
      → Returns printer (
          dissect_set ver9_templates enough_memory printer database_path ipfix worker set
            flowset_len ip seq)
  unfolding dissect_set
  dissect_set_ends database_path ipfix worker set n ip seq h hn s ok =
      elim (Bool-cases (is_template_set ipfix set)) [
        | inr flows ↦
            rw (dissect_set, flows)
              (dissect_netflow_v9v10_flow_ends printer ipfix worker set n seq h ok)
        | inl templates ↦
            let (w, e, sound, _) =
              dissect_netflow_v9v10_template_set-IsSound ver9_templates enough_memory database_path
                worker set n ip ipfix h hn s in
            inr (record { worker = w; messages = [] }, rw (dissect_set, templates, e) refl)
      ]

  -- If the known templates are sound and each one with a field has some length, the decoder of a
  -- set returns, for whatever the memory holds, unless the process aborts, and `*_displ`, which
  -- starts not behind the byte after the buffer, does not move back nor beyond that byte.
  pub dissect_netflow_v9v10_set_ends :
      (database_path handle_ipfix : Bool) (worker : Collector) (buffer : Pointer)
      (size displ netflow_device_ip flow_sequence : ℕ)
      → IsMemory buffer
      → IsSound worker.observation_id
      → IsReadable worker.observation_id
      → displ ≤ size + 1
      → let r =
          dissect_netflow_v9v10_set ver9_templates enough_memory printer database_path handle_ipfix
            worker buffer size displ netflow_device_ip flow_sequence in
        (r ≡ aborted)
        ⊎ ((d : ℕ) × (run : Run printer) × (r ≡ done (d, run)) × (displ ≤ d) × (d ≤ size + 1))
  unfolding dissect_netflow_v9v10_set
  dissect_netflow_v9v10_set_ends database_path ipfix worker buffer size displ ip seq h s ok hd =
      let n = ntohs buffer (displ + 2) in
      let stay : Run printer = record { worker = worker; messages = [] } in
      elim (Bool-cases (ltb size (displ + 4))) [
        | inl short ↦
            inr (size + 1, stay, rw (short, dissect_netflow_v9v10_set) refl, hd, omega arith)
        | inr header ↦ elim (Bool-cases (ltb size (displ + n))) [
          | inl cut ↦
              inr
                (size + 1, stay, rw (header, cut, dissect_netflow_v9v10_set) refl, hd, omega arith)
          | inr whole ↦
              elim (dissect_set_ends database_path ipfix worker (advance buffer displ) n ip
                (seq % 2 ^ 16) (λ i. h (displ + i))
                (big_endian-lt 2 (advance buffer (displ + 2)) (λ i. h (displ + 2 + i))) s ok) [
                  | inl e ↦ inl (rw (header, whole, e, dissect_netflow_v9v10_set) refl)
                  | inr (run, e) ↦ inr (
                    displ + n,
                    run,
                    rw (header, whole, e, dissect_netflow_v9v10_set) refl,
                    omega arith,
                    ground arith,
                  )
                ]
        ]
      ]
