-- ===== src/Collect/Packet/Sound.antt =====
-- The templates of a domain through a whole packet.
use f2k.Base.{
  ℕ, zero, suc, ◌+◌, ◌%◌, ◌^◌, ◌<◌, min, ◌≡◌, refl, sym, ap, subst, ◌∙◌, ◌⊎◌, inl, inr, Bool,
  Option, some, List, [], ◌++◌, arith, ltb, ◌==◌, if◌then◌else◌, Bool-cases, Option-cases,
}
use f2k.Base.Bytes.{Pointer, advance, IsMemory, big_endian, big_endian-lt}
use f2k.Template.Sound.{dissect_netflow_v9v10_template_set-IsSound, IsSound}
use f2k.Collect.Options.{Outcome, dissect_option_flow_set}
use f2k.Collect.Options.Names.{dissect_option_flow_set-templates}
use f2k.Printbuf.{sub_size}
use f2k.Template.{ntohs, Collector}
use f2k.Collect.Packet.{
  dissect_netflow_v9v10, put_observation_id, get_observation_id, Sensor, dissect_netflow_v9v10_set,
  set_loop, usable, is_template_set, dissect_set, dissect_netflow_v9v10_flow, flows_of, out_of_fuel,
  aborted, done, Run, run_of, dissect_with,
}
use f2k.Collect.Flow.{dissect_netflow_v9v10_flow_set_with_template, Printer}
use f2k.Observation.{insert, ObservationId, find_observation_id_template, Template}

Outcome-cases :
    {A : Type 0} (r : Outcome A) → ((a : A) × (r ≡ done a)) ⊎ (r ≡ aborted) ⊎ (r ≡ out_of_fuel)
Outcome-cases (done a) = inl (a, refl)
Outcome-cases aborted = inr (inl refl)
Outcome-cases out_of_fuel = inr (inr refl)

module _ (printer : Printer) where
  -- The templates known behind a run are those before.
  abbrev Keeps : Collector → Outcome (Run printer) → Type 0
  Keeps worker (done run) = run.worker.observation_id.templates ≡ worker.observation_id.templates
  Keeps worker aborted = Unit
  Keeps worker out_of_fuel = Unit

  dissect_with-Keeps :
      (ipfix : Bool) (worker : Collector) (t : Template) (buffer : Pointer)
      (size flowset_len seq : ℕ)
      → Keeps worker (dissect_with printer ipfix worker t buffer size flowset_len seq)
  unfolding dissect_with run_of
  dissect_with-Keeps ipfix worker t buffer size flowset_len seq =
      let n = min flowset_len (sub_size size 4) in
      elim (Bool-cases t.template_info.is_option_template) [
        | inl option ↦
            elim (Outcome-cases
              (dissect_option_flow_set n worker.observation_id t (advance buffer 4) n 0)) [
                | inl ((m, o), e) ↦
                    rw (e, option)
                      (dissect_option_flow_set-templates n worker.observation_id o t
                        (advance buffer 4) n 0 m e)
                | inr (inl e) ↦ rw (e, option) tt
                | inr (inr e) ↦ rw (e, option) tt
              ]
        | inr flow ↦
            elim (Option-cases (
              dissect_netflow_v9v10_flow_set_with_template printer flowset_len ipfix t flowset_len
                buffer (flows_of printer worker seq))) [
                  | inl e ↦ rw (e, flow) tt
                  | inr (s, e) ↦ rw (e, flow) refl
                ]
      ]

  -- Every template known behind a run has the fields it says.
  abbrev pub LeavesSound : Outcome (Run printer) → Type 0
  LeavesSound (done run) = IsSound run.worker.observation_id
  LeavesSound aborted = Unit
  LeavesSound out_of_fuel = Unit

  Keeps-LeavesSound :
      (worker : Collector) (r : Outcome (Run printer))
      → Keeps worker r
      → IsSound worker.observation_id
      → LeavesSound r
  Keeps-LeavesSound worker (done run) k s =
      λ i t e. s i t (sym (ap (λ (f : ℕ → Option Template). f i) k) ∙ e)
  Keeps-LeavesSound worker aborted k s = tt
  Keeps-LeavesSound worker out_of_fuel k s = tt

  dissect_netflow_v9v10_flow-LeavesSound :
      (ipfix : Bool) (worker : Collector) (buffer : Pointer) (size seq : ℕ)
      → IsSound worker.observation_id
      → LeavesSound (dissect_netflow_v9v10_flow printer ipfix worker buffer size seq)
  unfolding dissect_netflow_v9v10_flow
  dissect_netflow_v9v10_flow-LeavesSound ipfix worker buffer size seq s =
      Keeps-LeavesSound worker (dissect_netflow_v9v10_flow printer ipfix worker buffer size seq)
        (elim (Option-cases
          (usable (find_observation_id_template worker.observation_id (ntohs buffer 0)))) [
            | inl e ↦ rw (e, dissect_netflow_v9v10_flow) refl
            | inr (t, e) ↦
                rw (e, dissect_netflow_v9v10_flow)
                  (dissect_with-Keeps ipfix worker t buffer size (ntohs buffer 2) seq)
          ])
        s

module _ (ver9_templates : List ℕ) (enough_memory : Template → Bool) (printer : Printer) where
  dissect_set-LeavesSound :
      (database_path ipfix : Bool) (worker : Collector) (set : Pointer) (flowset_len ip seq : ℕ)
      → IsMemory set
      → flowset_len < 2 ^ 16
      → IsSound worker.observation_id
      → LeavesSound printer (
          dissect_set ver9_templates enough_memory printer database_path ipfix worker set
            flowset_len ip seq)
  unfolding dissect_set
  dissect_set-LeavesSound database_path ipfix worker set n ip seq h hn s =
      elim (Bool-cases (is_template_set ipfix set)) [
        | inr flows ↦
            rw flows (dissect_netflow_v9v10_flow-LeavesSound printer ipfix worker set n seq s)
        | inl templates ↦
            let (w, e, sound, _) =
              dissect_netflow_v9v10_template_set-IsSound ver9_templates enough_memory database_path
                worker set n ip ipfix h hn s in
            rw (templates, e) sound
      ]

  -- The cursor and the run of a set.
  abbrev SetSound : Outcome (ℕ × Run printer) → Type 0
  SetSound (done (n, run)) = IsSound run.worker.observation_id
  SetSound aborted = Unit
  SetSound out_of_fuel = Unit

  dissect_netflow_v9v10_set-SetSound :
      (database_path ipfix : Bool) (worker : Collector) (buffer : Pointer) (size displ ip seq : ℕ)
      → IsMemory buffer
      → IsSound worker.observation_id
      → SetSound (
          dissect_netflow_v9v10_set ver9_templates enough_memory printer database_path ipfix worker
            buffer size displ ip seq)
  unfolding dissect_netflow_v9v10_set
  dissect_netflow_v9v10_set-SetSound database_path ipfix worker buffer size displ ip seq h s =
      let n = ntohs buffer (displ + 2) in
      let r =
        dissect_set ver9_templates enough_memory printer database_path ipfix worker
          (advance buffer displ) n ip (seq % 2 ^ 16) in
      let sound =
        dissect_set-LeavesSound database_path ipfix worker (advance buffer displ) n ip
          (seq % 2 ^ 16) (λ i. h (displ + i))
          (big_endian-lt 2 (advance buffer (displ + 2)) (λ i. h (displ + 2 + i))) s in
      elim (Bool-cases (ltb size (displ + 4))) [
        | inl short ↦ rw (short, dissect_netflow_v9v10_set) s
        | inr header ↦ elim (Bool-cases (ltb size (displ + n))) [
          | inl cut ↦ rw (header, cut, dissect_netflow_v9v10_set) s
          | inr whole ↦ elim (Outcome-cases r) [
            | inl (run, e) ↦
                rw (header, whole, e, dissect_netflow_v9v10_set)
                  (subst (LeavesSound printer) e sound)
            | inr (inl e) ↦ rw (header, whole, e, dissect_netflow_v9v10_set) tt
            | inr (inr e) ↦ rw (header, whole, e, dissect_netflow_v9v10_set) tt
          ]
        ]
      ]

  set_loop-LeavesSound :
      (n : ℕ) (database_path ipfix : Bool) (worker : Collector) (buffer : Pointer)
      (size buffer_len displ ip seq : ℕ) (messages : List printer.Message)
      → IsMemory buffer
      → IsSound worker.observation_id
      → LeavesSound printer (
          set_loop ver9_templates enough_memory printer n database_path ipfix worker buffer size
            buffer_len displ ip seq messages)
  unfolding set_loop
  set_loop-LeavesSound zero database_path ipfix worker buffer size buffer_len displ ip seq messages
        h s =
      s
  set_loop-LeavesSound (suc n) database_path ipfix worker buffer size buffer_len displ ip seq
        messages h s =
      let r =
        dissect_netflow_v9v10_set ver9_templates enough_memory printer database_path ipfix worker
          buffer size displ ip seq in
      let sound =
        dissect_netflow_v9v10_set-SetSound database_path ipfix worker buffer size displ ip seq h
          s in
      elim (Bool-cases (ltb displ buffer_len)) [
        | inr over ↦ rw (over, set_loop) s
        | inl more ↦ elim (Outcome-cases r) [
          | inl ((d, run), e) ↦
              rw (more, e, set_loop)
                (set_loop-LeavesSound n database_path ipfix run.worker buffer size buffer_len d ip
                  seq (messages ++ run.messages) h (subst SetSound e sound))
          | inr (inl e) ↦ rw (more, e, set_loop) tt
          | inr (inr e) ↦ rw (more, e, set_loop) tt
        ]
      ]

-- The templates of every domain of a sensor.
pub record IsSoundSensor (sensor : Sensor) : Type 0 where
  pub fallback : (o : ObservationId) → sensor.default_observation_id ≡ some o → IsSound o
  pub each : (i : ℕ) (o : ObservationId) → sensor.observation_id i ≡ some o → IsSound o

get_observation_id-IsSound :
    (sensor : Sensor) (id : ℕ) (o : ObservationId)
    → IsSoundSensor sensor
    → get_observation_id sensor id ≡ some o
    → IsSound o
unfolding get_observation_id
get_observation_id-IsSound sensor id o s e = elim (Option-cases (sensor.observation_id id)) [
  | inl absent ↦ s.fallback o (ground (arith, absent))
  | inr (o', got) ↦ s.each id o (ground (arith, got))
]

put_observation_id-IsSoundSensor :
    (sensor : Sensor) (id : ℕ) (o : ObservationId)
    → IsSoundSensor sensor
    → IsSound o
    → IsSoundSensor (put_observation_id sensor id o)
unfolding put_observation_id insert
put_observation_id-IsSoundSensor sensor id o s x = elim (Option-cases (sensor.observation_id id)) [
  | inl absent ↦
      rw (absent, put_observation_id)
        (record { fallback = λ u e. subst IsSound (some-inj o u e) x; each = s.each })
  | inr (old, got) ↦
      rw (got, put_observation_id)
        (record {
          fallback = s.fallback;
          each = λ i u e. elim (Bool-cases (i == id)) [
            | inl same ↦ subst IsSound (some-inj o u (ground (arith, same))) x
            | inr other ↦ s.each i u (ground (arith, other))
          ];
        })
]
  where
    some-inj : (a b : ObservationId) → some a ≡ some b → a ≡ b
    some-inj a b e = ground arith

module _ (ver9_templates : List ℕ) (enough_memory : Template → Bool) (printer : Printer) where
  -- The sensor behind a packet, if the decoder returns.
  abbrev pub LeavesSoundSensor : Outcome (Sensor × Run printer) → Type 0
  LeavesSoundSensor (done (sensor, run)) = IsSoundSensor sensor
  LeavesSoundSensor aborted = Unit
  LeavesSoundSensor out_of_fuel = Unit

  -- Whatever a packet holds, and however its lengths lie, every template that the sensor's domains
  -- know after it is kept under its own identifier and has as many fields as it says, at most 128,
  -- or 4 in an option template, if that was so before.
  pub dissect_netflow_v9v10-IsSoundSensor :
      (database_path : Bool) (worker : Collector) (sensor : Sensor) (buffer : Pointer)
      (buffer_len netflow_device_ip : ℕ)
      → IsMemory buffer
      → IsSoundSensor sensor
      → LeavesSoundSensor (
          dissect_netflow_v9v10 ver9_templates enough_memory printer database_path worker sensor
            buffer buffer_len netflow_device_ip)
  unfolding dissect_netflow_v9v10
  dissect_netflow_v9v10-IsSoundSensor database_path worker sensor buffer buffer_len ip h s =
      let ipfix = ntohs buffer 0 == 10 in
      let n = ntohs buffer 2 in
      let displ : ℕ = if ipfix then 16 else 20 in
      let seq = big_endian 4 (advance buffer (if◌then◌else◌ {A = ℕ} ipfix 8 12)) in
      let id = big_endian 4 (advance buffer (if◌then◌else◌ {A = ℕ} ipfix 12 16)) in
      let size = if ipfix then min buffer_len n else buffer_len in
      elim (Option-cases (get_observation_id sensor id)) [
        | inl unknown ↦ rw (unknown, dissect_netflow_v9v10) s
        | inr (o, got) ↦
            let w = record worker { observation_id = o } in
            let sound =
              set_loop-LeavesSound ver9_templates enough_memory printer n database_path ipfix w
                buffer size buffer_len displ ip seq [] h
                (get_observation_id-IsSound sensor id o s got) in
            elim (Outcome-cases (
              set_loop ver9_templates enough_memory printer n database_path ipfix w buffer size
                buffer_len displ ip seq [])) [
                  | inl (run, e) ↦
                      rw (got, e, dissect_netflow_v9v10)
                        (put_observation_id-IsSoundSensor sensor id run.worker.observation_id s
                          (subst (LeavesSound printer) e sound))
                  | inr (inl e) ↦ rw (got, e, dissect_netflow_v9v10) tt
                  | inr (inr e) ↦ rw (got, e, dissect_netflow_v9v10) tt
                ]
      ]
