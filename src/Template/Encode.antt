-- ===== src/Template/Encode.antt =====
-- A template in the form of RFC 3954 and RFC 7011 is read back by `dissect_flow_template`.
use f2k.Template.Flow.{total_len}
use f2k.Base.{
  ℕ, suc, ◌+◌, ◌-◌, ◌/◌, ◌%◌, ◌^◌, ◌≤◌, ◌<◌, ◌≡◌, refl, subst, Bool, true, false, Option, none,
  some, List, [], ◌∷◌, ◌++◌, map, arith, ltb, if◌then◌else◌, length, All, length-append,
}
use f2k.Base.Bytes.{Pointer, big_endian, mask_one}
use f2k.Observation.{ObservationId, Field, Template}
use f2k.Template.{
  sub_size, keep_template, Collector, flow_template, ntohs, dissect_flow_template, counted_len,
  flow_field, is_enterprise_specific, definition_len, flow_fields,
}

-- One field of an exporter's template.
pub record FieldSpec : Type 0 where
  pub element_id : ℕ
  pub len : ℕ
  pub enterprise : Option ℕ

abbrev sixteen_bits : ℕ → List ℕ
sixteen_bits n = n / 256 ∷ n % 256 ∷ []

-- The top bit of the identifier says that an enterprise number follows.
unfoldable pub encode_field : FieldSpec → List ℕ
encode_field f = elim f.enterprise [
  | none ↦ sixteen_bits f.element_id ++ sixteen_bits f.len
  | some pen ↦
      sixteen_bits (2 ^ 15 + f.element_id)
      ++ (sixteen_bits f.len ++ (sixteen_bits (pen / 2 ^ 16) ++ sixteen_bits (pen % 2 ^ 16)))
]

unfoldable pub encode_fields : List FieldSpec → List ℕ
encode_fields [] = []
encode_fields (f ∷ fs) = encode_field f ++ encode_fields fs

unfoldable pub encode_template : ℕ → List FieldSpec → List ℕ
encode_template id fs = sixteen_bits id ++ (sixteen_bits (length fs) ++ encode_fields fs)

-- What a field is read as.
unfoldable pub field_of : FieldSpec → Field
field_of f = record { v9_template = none; field_id = f.element_id; field_len = f.len }

abbrev pub IsSpec : Bool → FieldSpec → Type 0
IsSpec handle_ipfix f =
    (f.element_id < 2 ^ 15) × (f.len < 2 ^ 16) × (handle_ipfix ≡ false → f.enterprise ≡ none)

-- Memory that holds bytes from an offset on.
abbrev pub Holds : Pointer → ℕ → List ℕ → Type 0
Holds p i [] = Unit
Holds p i (x ∷ xs) = (p i ≡ x) × Holds p (suc i) xs

pub Holds-append :
    (p : Pointer) (i : ℕ) (xs ys : List ℕ)
    → Holds p i (xs ++ ys)
    → Holds p i xs × Holds p (i + length xs) ys
Holds-append p i [] ys h = (tt, subst (λ j. Holds p j ys) nought h)
  where
    nought : i ≡ i + 0
    nought = omega arith
Holds-append p i (x ∷ xs) ys h =
    let (a, b) = Holds-append p (suc i) xs ys h.1 in ((h.0, a), subst (λ j. Holds p j ys) next b)
  where
    next : suc i + length xs ≡ i + suc (length xs)
    next = omega arith

-- One field is read back, and the cursor moves behind it.
field-read :
    (ipfix : Bool) (p : Pointer) (i id n : ℕ) (enterprise : Option ℕ)
    → let f : FieldSpec = record { element_id = id; len = n; enterprise = enterprise } in
      IsSpec ipfix f
      → Holds p i (encode_field f)
      → (definition_len ipfix p i ≡ length (encode_field f)) × (flow_field p i ≡ field_of f)
unfolding definition_len is_enterprise_specific flow_field encode_field field_of big_endian
field-read ipfix p i id n none s h = ground (arith, mask_one (p i))
field-read true p i id n (some pen) s h = ground (arith, mask_one (p i))
field-read false p i id n (some pen) s h = absurd (ground (arith, s.2 refl))

field_of_len : (f : FieldSpec) → (field_of f).field_len ≡ f.len
unfolding field_of
field_of_len f = refl

-- The loop reads the fields of an encoded list.
flow_fields-encode :
    (ipfix : Bool) (p : Pointer) (buffer_len i total : ℕ) (fs : List FieldSpec)
    → All (IsSpec ipfix) fs
    → Holds p i (encode_fields fs)
    → i + length (encode_fields fs) ≤ buffer_len
    → flow_fields ipfix p buffer_len (length fs) i total
      ≡ some (map field_of fs, i + length (encode_fields fs), total + total_len (map field_of fs))
unfolding flow_fields encode_fields total_len
flow_fields-encode ipfix p buffer_len i total [] s h fits = ground arith
flow_fields-encode ipfix p buffer_len i total (f ∷ fs) s h fits =
    let (here, there) = Holds-append p i (encode_field f) (encode_fields fs) h in
    let (len, field) = field-read ipfix p i f.element_id f.len f.enterprise s.0 here in
    let rest =
      flow_fields-encode ipfix p buffer_len (i + length (encode_field f))
        (total + counted_len f.len) fs s.1 there
        (omega (arith, length-append (encode_field f) (encode_fields fs))) in
    ground
      (arith, len, field, rest, field_of_len f, length-append (encode_field f) (encode_fields fs))

-- The template that an exporter means.
abbrev pub template_of : ObservationId → ℕ → ℕ → List FieldSpec → Template
template_of observation_id netflow_device_ip id fs = record {
  template_info = record {
    netflow_device_ip = netflow_device_ip;
    observation_domain_id = observation_id.id;
    template_id = id;
    field_count = length fs;
    scope_field_len = 0;
    is_option_template = false;
  };
  fields = map field_of fs;
}

header-read :
    (p : Pointer) (id : ℕ) (fs : List FieldSpec)
    → id < 2 ^ 16
    → length fs ≤ 128
    → Holds p 0 (encode_template id fs)
    → (ntohs p 0 ≡ id)
      × (ntohs p 2 ≡ length fs)
      × Holds p 4 (encode_fields fs)
      × (length (encode_template id fs) ≡ 4 + length (encode_fields fs))
unfolding encode_template big_endian
header-read p id fs hi hn h = (ground arith, ground arith, h.1.1.1.1, omega arith)

module _ (ver9_templates : List ℕ) (enough_memory : Template → Bool) where
  -- A template as an exporter sends it, at most 128 fields of at most 1500 bytes in total and in
  -- IPFIX with or without enterprise numbers, that lies inside the buffer is read as exactly the
  -- fields sent, kept under its identifier and counted as good. The size reported is that of the
  -- template, or the whole buffer if fewer than four bytes are left.
  pub dissect_flow_template-encode_template :
      (database_path : Bool) (worker : Collector) (buffer : Pointer) (buffer_len : ℕ)
      (netflow_device_ip : ℕ) (handle_ipfix : Bool) (id : ℕ) (fs : List FieldSpec)
      → id < 2 ^ 16
      → length fs ≤ 128
      → All (IsSpec handle_ipfix) fs
      → total_len (map field_of fs) ≤ 1500
      → Holds buffer 0 (encode_template id fs)
      → length (encode_template id fs) ≤ buffer_len
      → buffer_len < 2 ^ 64
      → let size = length (encode_template id fs) in
        dissect_flow_template ver9_templates enough_memory database_path worker buffer buffer_len
          netflow_device_ip handle_ipfix
        ≡ (
          (if ltb (buffer_len - size) 4 then buffer_len else size),
          keep_template ver9_templates enough_memory database_path worker
              (template_of worker.observation_id netflow_device_ip id fs),
        )
  unfolding dissect_flow_template flow_template
  dissect_flow_template-encode_template database_path worker buffer buffer_len ip ipfix id fs hi hn
        hs ht h fits hb =
      let (e0, e2, body, size) = header-read buffer id fs hi hn h in
      let fields = flow_fields-encode ipfix buffer buffer_len 4 0 fs hs body (omega arith) in
      let left : sub_size buffer_len (4 + length (encode_fields fs))
          ≡ buffer_len - length (encode_template id fs) =
        omega (arith, size) in
      ground (arith, e0, e2, fields, size, left)
