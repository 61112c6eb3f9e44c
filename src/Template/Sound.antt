-- ===== src/Template/Sound.antt =====
-- The templates that a domain keeps: whatever sets arrive, each has the fields it says.
use f2k.Base.{
  ◌%◌, ==_iff, ◌∙◌, none, ◌≢◌, get_elem?, min, ℕ, zero, suc, ◌+◌, ◌*◌, ◌^◌, ◌≤◌, ◌<◌, ◌≡◌, refl,
  sym, ap, subst, ◌⊎◌, inl, inr, Bool, true, ◌&&◌, Option, some, List, [], ◌∷◌, map, arith, ltb,
  ◌==◌, if◌then◌else◌, Bool-cases, Option-cases, length, take, length-take,
}
use f2k.Base.Bytes.{Pointer, advance, IsMemory}
use f2k.Template.{ntohs, keep_template, sub_size, dissect_flow_template, Collector}
use f2k.Template.Flow.{dissect_flow_template_cases, IsFlowTemplate}
use f2k.Template.Set.{
  dissect_nf9_option_template_params, dissect_ipfix_option_template_params,
  dissect_netflow_v9v10_template_set, option_header, num_entries, OptionParams, option_template,
  dissect_option_template, option_fields, template_loop,
}
use f2k.Observation.{
  Field, insert, observation_id_add_template, resolve, save_template, ObservationId, Template,
}

-- What a later decoder of flows relies on.
pub record IsStored (t : Template) : Type 0 where
  pub count : length t.fields ≡ t.template_info.field_count
  pub few : t.template_info.field_count ≤ (if t.template_info.is_option_template then 4 else 128)

abbrev pub IsSound : ObservationId → Type 0
IsSound o =
    (k : ℕ) (t : Template) → o.templates k ≡ some t → IsStored t × (t.template_info.template_id ≡ k)

length-map : {A B : Type 0} (f : A → B) (xs : List A) → length (map f xs) ≡ length xs
length-map f [] = refl
length-map f (x ∷ xs) = ap suc (length-map f xs)

module _ (ver9_templates : List ℕ) (enough_memory : Template → Bool) where
  abbrev saved : Template → Template
  saved t = record {
    template_info = record t.template_info { scope_field_len = 0 };
    fields =
        if t.template_info.is_option_template
        then take t.template_info.field_count t.fields
        else map (resolve ver9_templates) (take t.template_info.field_count t.fields);
  }

  saved-IsStored : (t : Template) → IsStored t → IsStored (saved t)
  saved-IsStored t x = record {
    count = ground (
      arith,
      x.count,
      length-map (resolve ver9_templates) (take t.template_info.field_count t.fields),
      length-take t.template_info.field_count t.fields,
    );
    few = x.few;
  }

  save_template-IsSound :
      (o : ObservationId) (t : Template)
      → IsSound o
      → IsStored t
      → IsSound (save_template ver9_templates enough_memory o t)
  unfolding save_template observation_id_add_template insert
  save_template-IsSound o t s x k u e = elim (Bool-cases (enough_memory t)) [
    | inl enough ↦ elim (Bool-cases (k == t.template_info.template_id)) [
      | inl new ↦
          subst (λ v. IsStored v × (v.template_info.template_id ≡ k)) (same enough new)
            (saved-IsStored t x, ground arith)
      | inr old ↦ s k u (ground arith)
    ]
    | inr full ↦ s k u (ground arith)
  ]
    where
      same : enough_memory t ≡ true → (k == t.template_info.template_id) ≡ true → saved t ≡ u
      same enough new = ground arith

  -- Every operation on templates keeps the tables sound.
  flow-IsStored : (t : Template) → IsFlowTemplate t → IsStored t
  flow-IsStored t x = record { count = x.count; few = ground (arith, x.few, x.no_option) }

  dissect_flow_template-IsSound :
      (database_path : Bool) (worker : Collector) (buffer : Pointer) (buffer_len ip : ℕ)
      (ipfix : Bool)
      → IsMemory buffer
      → IsSound worker.observation_id
      → let (n, w) =
          dissect_flow_template ver9_templates enough_memory database_path worker buffer buffer_len
            ip ipfix in
        IsSound w.observation_id × ((n ≡ buffer_len) ⊎ (4 ≤ n))
  dissect_flow_template-IsSound database_path worker buffer buffer_len ip ipfix h s =
      elim (dissect_flow_template_cases ver9_templates enough_memory database_path worker buffer
        buffer_len ip ipfix h) [
          | inl (all, e) ↦ (subst (λ (w : Collector). IsSound w.observation_id) (sym e) s, inl all)
          | inr (t, x, e, four, _) ↦ (
            subst (λ (w : Collector). IsSound w.observation_id) (sym e)
                (unfold keep_template in
                  save_template-IsSound worker.observation_id t s (flow-IsStored t x)),
            inr four,
          )
        ]

  length-option_fields :
      (buffer : Pointer) (cursor n : ℕ) → length (option_fields buffer cursor n) ≡ n
  unfolding option_fields
  length-option_fields buffer cursor zero = refl
  length-option_fields buffer cursor (suc n) = ap suc (length-option_fields buffer (cursor + 4) n)

  -- The number of fields that an option template is kept with.
  abbrev pub kept_count : OptionParams → ℕ
  kept_count p = min 4 ((p.scope_field_count + p.field_count) % 2 ^ 16)

  num_entries_lem : (p : OptionParams) → num_entries p ≡ kept_count p
  unfolding num_entries
  num_entries_lem p = ground arith

  -- The definition of a field, at an offset.
  abbrev field_at : Pointer → ℕ → Field
  field_at buffer offset = record {
    v9_template = none;
    field_id = ntohs buffer offset;
    field_len = ntohs buffer (offset + 2);
  }

  get_elem-option_fields :
      (buffer : Pointer) (n i cursor : ℕ)
      → i < n
      → get_elem? (option_fields buffer cursor n) i ≡ some (field_at buffer (cursor + 4 * i))
  unfolding option_fields
  get_elem-option_fields buffer zero i cursor h = absurd (omega arith)
  get_elem-option_fields buffer (suc n) zero cursor h =
      ap (λ c. some (field_at buffer c)) (omega arith)
  get_elem-option_fields buffer (suc n) (suc i) cursor h =
      get_elem-option_fields buffer n i (cursor + 4) (omega arith)
      ∙ ap (λ c. some (field_at buffer c)) (omega arith)

  -- The template that is kept, of the parameters of its header.
  pub record IsOptionTemplate (buffer : Pointer) (size ip : ℕ) (o : ObservationId)
      (p : OptionParams) (t : Template) : Type 0 where
    pub stored : IsStored t
    pub is_option : t.template_info.is_option_template ≡ true
    pub id : t.template_info.template_id ≡ p.template_id
    pub device : t.template_info.netflow_device_ip ≡ ip
    pub domain : t.template_info.observation_domain_id ≡ o.id
    pub count : t.template_info.field_count ≡ kept_count p
    pub inside : option_header + 4 * kept_count p ≤ size
    pub fields :
        (i : ℕ)
        → i < kept_count p
        → get_elem? t.fields i ≡ some (field_at buffer (option_header + 4 * i))

  option_template-IsOptionTemplate :
      (buffer : Pointer) (size ip : ℕ) (o : ObservationId) (p : OptionParams)
      → option_header + 4 * num_entries p ≤ size
      → IsOptionTemplate buffer size ip o p (option_template buffer o ip p)
  unfolding option_template
  option_template-IsOptionTemplate buffer size ip o p fits = record {
    stored = record {
      count = length-option_fields buffer option_header (num_entries p);
      few = omega (arith, num_entries_lem p);
    };
    is_option = refl;
    id = refl;
    device = refl;
    domain = refl;
    count = num_entries_lem p;
    inside = omega (arith, num_entries_lem p, fits);
    fields = λ i h.
        get_elem-option_fields buffer (num_entries p) i option_header
          (omega (arith, num_entries_lem p, h));
  }

  -- An option template is dropped if its header does not fit the set, or if the definitions of its
  -- fields do not, of which four are kept at most; otherwise it is saved with the identifier of its
  -- header, and each field that is kept is the one defined at its place inside the buffer.
  pub dissect_option_template_cases :
      (params : Pointer → ℕ → Option OptionParams) (o : ObservationId) (buffer : Pointer)
      (size ip : ℕ)
      → let r = dissect_option_template ver9_templates enough_memory params o buffer size ip in
        ((params buffer size ≡ none) × (r ≡ o))
        ⊎ ((p : OptionParams) × (params buffer size ≡ some p)
            × (((size < option_header + 4 * kept_count p) × (r ≡ o))
                ⊎ ((t : Template) × IsOptionTemplate buffer size ip o p t
                    × (r ≡ save_template ver9_templates enough_memory o t))))
  unfolding dissect_option_template
  dissect_option_template_cases params o buffer size ip = elim (Option-cases (params buffer size)) [
    | inl fails ↦ rw (fails, dissect_option_template) (inl (refl, refl))
    | inr (p, got) ↦ elim (Bool-cases (ltb size (option_header + 4 * num_entries p))) [
      | inl short ↦
          let less : size < option_header + 4 * kept_count p =
            ground (arith, num_entries_lem p, short) in
          rw (got, short, dissect_option_template) (inr (p, refl, inl (less, refl)))
      | inr fits ↦
          let enough : option_header + 4 * num_entries p ≤ size = ground (arith, fits) in
          rw (got, fits, dissect_option_template)
            (inr (
              p,
              refl,
              inr (
                option_template buffer o ip p,
                option_template-IsOptionTemplate buffer size ip o p enough,
                refl,
              ),
            ))
    ]
  ]

  dissect_option_template-IsSound :
      (params : Pointer → ℕ → Option OptionParams) (o : ObservationId) (buffer : Pointer)
      (size ip : ℕ)
      → IsSound o
      → IsSound (dissect_option_template ver9_templates enough_memory params o buffer size ip)
  dissect_option_template-IsSound params o buffer size ip s =
      elim (dissect_option_template_cases params o buffer size ip) [
        | inl (_, same) ↦ subst IsSound (sym same) s
        | inr (_, _, inl (_, same)) ↦ subst IsSound (sym same) s
        | inr (_, _, inr (t, x, kept)) ↦
            subst IsSound (sym kept) (save_template-IsSound o t s x.stored)
      ]

  -- A set of flow templates read from `displ` on, up to its end: each template is dissected where
  -- the one before it ends, and the worker is handed on.
  pub data Read (database_path : Bool) (buffer : Pointer) (buffer_len ip : ℕ) (ipfix : Bool)
      : ℕ → Collector → Collector → Type 0 where
    ended :
        {displ : ℕ} {worker : Collector}
        → buffer_len ≤ displ
        → Read database_path buffer buffer_len ip ipfix displ worker worker
    next :
        {displ size : ℕ} {worker w last : Collector}
        → displ < buffer_len
        → dissect_flow_template ver9_templates enough_memory database_path worker
            (advance buffer displ)
            (sub_size buffer_len displ)
            ip
            ipfix
          ≡ (size, w)
        → Read database_path buffer buffer_len ip ipfix (displ + size) w last
        → Read database_path buffer buffer_len ip ipfix displ worker last

  -- Enough fuel: a byte at least is taken in every round.
  template_loop-IsSound :
      (database_path : Bool) (fuel : ℕ) (worker : Collector) (buffer : Pointer)
      (buffer_len displ ip : ℕ) (ipfix : Bool)
      → IsMemory buffer
      → IsSound worker.observation_id
      → buffer_len < 2 ^ 16
      → buffer_len ≤ displ + fuel
      → (w : Collector) × (template_loop ver9_templates enough_memory database_path fuel worker
            buffer buffer_len displ ip ipfix
          ≡ some w)
        × IsSound w.observation_id
        × Read database_path buffer buffer_len ip ipfix displ worker w
  unfolding template_loop
  template_loop-IsSound database_path zero worker buffer buffer_len displ ip ipfix h s hb hf =
      (worker, ground arith, s, Read.ended (omega arith))
  template_loop-IsSound database_path (suc fuel) worker buffer buffer_len displ ip ipfix h s hb hf =
      elim (Bool-cases (ltb displ buffer_len)) [
        | inr done ↦ (worker, ground arith, s, Read.ended (ground arith))
        | inl more ↦
            let r : ℕ × Collector =
              dissect_flow_template ver9_templates enough_memory database_path worker
                (advance buffer displ) (sub_size buffer_len displ) ip ipfix in
            let (s', progress) =
              dissect_flow_template-IsSound database_path worker (advance buffer displ)
                (sub_size buffer_len displ) ip ipfix (λ i. h (displ + i)) s in
            let (w, e, sound, read) =
              template_loop-IsSound database_path fuel r.1 buffer buffer_len (displ + r.0) ip ipfix
                h s' hb (ground (arith, progress)) in
            (w, rw more e, sound, Read.next (ground arith) refl read)
      ]

  abbrev pub set_type : Bool → Pointer → ℕ
  set_type ipfix buffer = if ipfix && buffer 1 == 2 then 0 else buffer 1

  -- Whatever a template set of less than 2 ^ 16 bytes holds, its dissection ends. A set of flow
  -- templates is then read up to its end, behind its header, each template where the one before it
  -- ends; of a set of option templates the first is read. Every template that the domain then knows
  -- has as many fields as it says, at most 128, or 4 in an option template, if that was so before.
  pub dissect_netflow_v9v10_template_set-IsSound :
      (database_path : Bool) (worker : Collector) (buffer : Pointer) (buffer_len : ℕ)
      (netflow_device_ip : ℕ) (handle_ipfix : Bool)
      → IsMemory buffer
      → buffer_len < 2 ^ 16
      → IsSound worker.observation_id
      → (w : Collector) × (dissect_netflow_v9v10_template_set ver9_templates enough_memory
            database_path worker buffer buffer_len netflow_device_ip handle_ipfix
          ≡ some w)
        × IsSound w.observation_id
        × (((set_type handle_ipfix buffer ≡ 0)
              × Read database_path buffer buffer_len netflow_device_ip handle_ipfix 4 worker w)
            ⊎ ((set_type handle_ipfix buffer ≢ 0)
                × (w ≡ record worker {
                  observation_id =
                      dissect_option_template ver9_templates enough_memory
                        (if handle_ipfix
                          then dissect_ipfix_option_template_params
                          else dissect_nf9_option_template_params)
                        worker.observation_id
                        (advance buffer 4)
                        (sub_size buffer_len 4)
                        netflow_device_ip;
                })))
  unfolding dissect_netflow_v9v10_template_set
  dissect_netflow_v9v10_template_set-IsSound database_path worker buffer buffer_len ip ipfix h hb
        s =
      elim (Bool-cases (set_type ipfix buffer == 0)) [
        | inl flow ↦
            let (w, e, sound, read) =
              template_loop-IsSound database_path buffer_len worker buffer buffer_len 4 ip ipfix h s
                hb (omega arith) in
            (w, rw flow e, sound, inl ((==_iff _ 0).0 flow, read))
        | inr option ↦
            let params =
              if ipfix
              then dissect_ipfix_option_template_params
              else dissect_nf9_option_template_params in
            (
              record worker {
                observation_id =
                    dissect_option_template ver9_templates enough_memory params
                      worker.observation_id (advance buffer 4) (sub_size buffer_len 4) ip;
              },
              rw option refl,
              dissect_option_template-IsSound params worker.observation_id (advance buffer 4)
                  (sub_size buffer_len 4) ip s,
              inr ((λ z. ground arith), refl),
            )
      ]
