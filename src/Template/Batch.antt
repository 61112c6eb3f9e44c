-- ===== src/Template/Batch.antt =====
-- A set of several templates.
use f2k.Template.Flow.{total_len}
use f2k.Template.Set.{dissect_netflow_v9v10_template_set, template_loop}
use f2k.Template.{sub_size, keep_template, Collector}
use f2k.Observation.{Template}
use f2k.Template.Encode.{
  dissect_flow_template-encode_template, Holds-append, template_of, field_of, Holds,
  encode_template, FieldSpec, IsSpec,
}
use f2k.Base.{
  ℕ, zero, suc, ◌+◌, ◌-◌, ◌^◌, ◌≤◌, ◌<◌, ◌≡◌, refl, subst, ◌⊎◌, inl, inr, Bool, true, ◌&&◌, some,
  List, [], ◌∷◌, ◌++◌, map, arith, ltb, ◌==◌, if◌then◌else◌, lt→ltb, length, All, length-append,
}
use f2k.Base.Bytes.{Pointer, advance}

-- A template of an exporter: its identifier and its fields.
pub record TemplateSpec : Type 0 where
  pub id : ℕ
  pub fields : List FieldSpec

unfoldable pub encode_templates : List TemplateSpec → List ℕ
encode_templates [] = []
encode_templates (t ∷ ts) = encode_template t.id t.fields ++ encode_templates ts

-- Templates that `dissect_flow_template` accepts.
pub record IsAccepted (handle_ipfix : Bool) (t : TemplateSpec) : Type 0 where
  pub small_id : t.id < 2 ^ 16
  pub few : length t.fields ≤ 128
  pub specs : All (IsSpec handle_ipfix) t.fields
  pub short : total_len (map field_of t.fields) ≤ 1500

module _ (ver9_templates : List ℕ) (enough_memory : Template → Bool) where
  -- Each template is counted and kept, in the order of the set.
  unfoldable pub keep_all : Bool → Collector → ℕ → List TemplateSpec → Collector
  keep_all database_path worker netflow_device_ip [] = worker
  keep_all database_path worker netflow_device_ip (t ∷ ts) =
      keep_all database_path
        (keep_template ver9_templates enough_memory database_path worker
          (template_of worker.observation_id netflow_device_ip t.id t.fields))
        netflow_device_ip ts

  shift :
      (buffer : Pointer) (displ i : ℕ) (xs : List ℕ)
      → Holds buffer (displ + i) xs
      → Holds (advance buffer displ) i xs
  shift buffer displ i [] h = tt
  shift buffer displ i (x ∷ xs) h =
      (h.0, shift buffer displ (suc i) xs (subst (λ j. Holds buffer j xs) next h.1))
    where
      next : suc (displ + i) ≡ displ + suc i
      next = omega arith

  template_size : (id : ℕ) (fs : List FieldSpec) → 4 ≤ length (encode_template id fs)
  template_size id fs = unfold encode_template in omega arith

  rest_size :
      (ts : List TemplateSpec)
      → (length (encode_templates ts) ≡ 0) ⊎ (4 ≤ length (encode_templates ts))
  rest_size [] = inl (unfold encode_templates in refl)
  rest_size (t ∷ ts) = inr (
      unfold encode_templates in
      omega (
        arith,
        template_size t.id t.fields,
        length-append (encode_template t.id t.fields) (encode_templates ts),
      ))

  template_loop-encode_templates :
      (database_path : Bool) (fuel : ℕ) (worker : Collector) (buffer : Pointer)
      (buffer_len displ ip : ℕ) (ipfix : Bool) (ts : List TemplateSpec)
      → All (IsAccepted ipfix) ts
      → Holds buffer displ (encode_templates ts)
      → displ + length (encode_templates ts) ≡ buffer_len
      → buffer_len < 2 ^ 16
      → length (encode_templates ts) ≤ fuel
      → template_loop ver9_templates enough_memory database_path fuel worker buffer buffer_len displ
          ip ipfix
        ≡ some (keep_all database_path worker ip ts)
  unfolding template_loop encode_templates keep_all
  template_loop-encode_templates database_path zero worker buffer buffer_len displ ip ipfix [] ok h
        hb hs hf =
      ground arith
  template_loop-encode_templates database_path (suc fuel) worker buffer buffer_len displ ip ipfix []
        ok h hb hs hf =
      ground arith
  template_loop-encode_templates database_path zero worker buffer buffer_len displ ip ipfix (t ∷ ts)
        ok h hb hs hf =
      absurd (
        omega (
          arith,
          template_size t.id t.fields,
          length-append (encode_template t.id t.fields) (encode_templates ts),
        ))
  template_loop-encode_templates database_path (suc fuel) worker buffer buffer_len displ ip ipfix
        (t ∷ ts) ok h hb hs hf =
      let n = length (encode_template t.id t.fields) in
      let (here, there) =
        Holds-append buffer displ (encode_template t.id t.fields) (encode_templates ts) h in
      let x = ok.0 in
      let all = length-append (encode_template t.id t.fields) (encode_templates ts) in
      let long = template_size t.id t.fields in
      let more : ltb displ buffer_len ≡ true = lt→ltb displ buffer_len (omega arith) in
      let left : sub_size buffer_len displ ≡ n + length (encode_templates ts) = omega arith in
      let first =
        dissect_flow_template-encode_template ver9_templates enough_memory database_path worker
          (advance buffer displ) (sub_size buffer_len displ) ip ipfix t.id t.fields x.small_id x.few
          x.specs x.short
          (shift buffer displ 0 (encode_template t.id t.fields)
            (subst (λ j. Holds buffer j (encode_template t.id t.fields)) (plus_zero displ) here))
          (omega arith) (omega arith) in
      let size : (if ltb (sub_size buffer_len displ - n) 4 then sub_size buffer_len displ else n)
          ≡ n =
        ground (arith, left, rest_size ts) in
      let w =
        keep_template ver9_templates enough_memory database_path worker
          (template_of worker.observation_id ip t.id t.fields) in
      let rest =
        template_loop-encode_templates database_path fuel w buffer buffer_len (displ + n) ip ipfix
          ts ok.1 there (omega arith) hs (omega arith) in
      rw (more, first, size) rest
    where
      plus_zero : (d : ℕ) → d ≡ d + 0
      plus_zero d = omega arith

  -- The type of a set of flow templates: 0 in NetFlow, 2 in IPFIX.
  abbrev pub set_id : Bool → ℕ
  set_id handle_ipfix = if handle_ipfix then 2 else 0

  -- A set of acceptable flow templates, behind its header of four bytes, is read to its end: every
  -- template of the set is counted as good and kept, in the order of the set.
  pub dissect_netflow_v9v10_template_set-encode_templates :
      (database_path : Bool) (worker : Collector) (buffer : Pointer) (buffer_len : ℕ)
      (netflow_device_ip : ℕ) (handle_ipfix : Bool) (ts : List TemplateSpec)
      → All (IsAccepted handle_ipfix) ts
      → buffer 1 ≡ set_id handle_ipfix
      → Holds buffer 4 (encode_templates ts)
      → 4 + length (encode_templates ts) ≡ buffer_len
      → buffer_len < 2 ^ 16
      → dissect_netflow_v9v10_template_set ver9_templates enough_memory database_path worker buffer
          buffer_len netflow_device_ip handle_ipfix
        ≡ some (keep_all database_path worker netflow_device_ip ts)
  unfolding dissect_netflow_v9v10_template_set
  dissect_netflow_v9v10_template_set-encode_templates database_path worker buffer buffer_len ip
        ipfix ts ok type h hb hs =
      let flow : ((if ipfix && buffer 1 == 2 then 0 else buffer 1) == 0) ≡ true = ground arith in
      rw flow (
        template_loop-encode_templates database_path buffer_len worker buffer buffer_len 4 ip ipfix
          ts ok h hb hs (omega arith))
