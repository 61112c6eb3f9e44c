-- ===== src/Template/Flow.antt =====
-- `dissect_flow_template`.
use f2k.Base.{
  refl, ◌⊎◌, max, false, ℕ, zero, suc, ◌+◌, ◌*◌, ◌^◌, ◌≤◌, ◌<◌, ◌≡◌, ap, subst, inl, inr, Bool,
  List, [], ◌∷◌, some, ltb, ◌==◌, if◌then◌else◌, Bool-cases, Option-cases, arith, length, All,
}
use f2k.Base.Bytes.{Pointer, advance, IsMemory, big_endian-lt}
use f2k.Observation.{Template, Field}
use f2k.Template.{
  keep_template, flow_template, ntohs, bad_template, Collector, dissect_flow_template,
  definition_len, flow_field, counted_len, flow_fields,
}

-- The sum of the lengths that are not variable.
unfoldable pub total_len : List Field → ℕ
total_len [] = 0
total_len (f ∷ fs) = counted_len f.field_len + total_len fs

abbrev pub IsFlowField : Field → Type 0
IsFlowField f = (f.field_id < 2 ^ 15) × (f.field_len < 2 ^ 16)

flow_field-IsFlowField :
    (buffer : Pointer) (displ : ℕ) → IsMemory buffer → IsFlowField (flow_field buffer displ)
unfolding flow_field
flow_field-IsFlowField buffer displ h =
    omega (arith, big_endian-lt 2 (advance buffer (displ + 2)) (λ i. h (displ + 2 + i)))

-- What the loop leaves: the fields asked for, and a cursor inside the buffer that moved by four or
-- eight bytes a field.
record Read (buffer_len n displ accumulated : ℕ) (r : List Field × ℕ × ℕ) : Type 0 where
  pub count : length r.0 ≡ n
  pub fields : All IsFlowField r.0
  pub total : r.2 ≡ accumulated + total_len r.0
  pub moved : displ + 4 * n ≤ r.1
  pub bounded : r.1 ≤ displ + 8 * n
  pub inside : if n == 0 then r.1 ≡ displ else r.1 ≤ buffer_len

definition_len_bounds :
    (ipfix : Bool) (buffer : Pointer) (displ : ℕ)
    → (4 ≤ definition_len ipfix buffer displ) × (definition_len ipfix buffer displ ≤ 8)
unfolding definition_len
definition_len_bounds ipfix buffer displ = ground arith

next-Read :
    (buffer_len n displ accumulated len : ℕ) (f : Field) (q : List Field × ℕ × ℕ)
    → 4 ≤ len
    → len ≤ 8
    → displ + len ≤ buffer_len
    → IsFlowField f
    → Read buffer_len n (displ + len) (accumulated + counted_len f.field_len) q
    → Read buffer_len (suc n) displ accumulated (f ∷ q.0, q.1, q.2)
unfolding total_len
next-Read buffer_len n displ accumulated len f q h4 h8 hb hf x = record {
  count = ap suc x.count;
  fields = (hf, x.fields);
  total = omega (arith, x.total);
  moved = omega (arith, x.moved);
  bounded = omega (arith, x.bounded);
  inside = ground (arith, x.inside);
}

flow_fields-Read :
    (ipfix : Bool) (buffer : Pointer) (buffer_len n displ accumulated : ℕ)
    → IsMemory buffer
    → (r : List Field × ℕ × ℕ) → flow_fields ipfix buffer buffer_len n displ accumulated ≡ some r
    → Read buffer_len n displ accumulated r
unfolding flow_fields total_len
flow_fields-Read ipfix buffer buffer_len zero displ accumulated h r e = ground arith
flow_fields-Read ipfix buffer buffer_len (suc n) displ accumulated h r e =
    let len = definition_len ipfix buffer displ in
    let f = flow_field buffer displ in
    elim (Option-cases (
      flow_fields ipfix buffer buffer_len n (displ + len)
        (accumulated + counted_len f.field_len))) [
          | inl fails ↦ absurd (ground arith)
          | inr (q, got) ↦ elim (Bool-cases (ltb buffer_len (displ + len))) [
            | inl short ↦ absurd (ground arith)
            | inr fits ↦ subst (Read buffer_len (suc n) displ accumulated) (ground arith) (
                next-Read buffer_len n displ accumulated len f q
                  (definition_len_bounds ipfix buffer displ).0
                  (definition_len_bounds ipfix buffer displ).1 (ground arith)
                  (flow_field-IsFlowField buffer displ h)
                  (flow_fields-Read ipfix buffer buffer_len n (displ + len)
                    (accumulated + counted_len f.field_len) h q got))
          ]
        ]

-- A template that can be kept: as many fields as it says, at most 128, of at most 1500 bytes.
pub record IsFlowTemplate (t : Template) : Type 0 where
  pub count : length t.fields ≡ t.template_info.field_count
  pub few : t.template_info.field_count ≤ 128
  pub fields : All IsFlowField t.fields
  pub short : total_len t.fields ≤ 1500
  pub no_option : t.template_info.is_option_template ≡ false

module _ (ver9_templates : List ℕ) (enough_memory : Template → Bool) where
  -- What a call does: it counts a bad template, keeps none and gives up the rest of the buffer, or
  -- it counts a good template, keeps one and moves behind it.
  abbrev pub Dissected : Bool → Collector → ℕ → ℕ × Collector → Type 0
  Dissected database_path worker buffer_len (n, w) =
      ((n ≡ buffer_len) × (w ≡ record worker { stats = bad_template worker.stats }))
      ⊎ ((t : Template) × IsFlowTemplate t
          × (w ≡ keep_template ver9_templates enough_memory database_path worker t)
          × (4 ≤ n)
          × (n ≤ max 4 buffer_len))

  -- Whatever the memory holds, `dissect_flow_template` either counts one bad template, keeps nothing
  -- and reports the whole buffer as read, or counts one good template and keeps exactly that
  -- template, which has as many fields as it says, at most 128 and of at most 1500 bytes in total;
  -- then it reports at least four bytes, and no more than the buffer unless that is shorter than four.
  pub dissect_flow_template_cases :
      (database_path : Bool) (worker : Collector) (buffer : Pointer) (buffer_len : ℕ)
      (netflow_device_ip : ℕ) (handle_ipfix : Bool)
      → IsMemory buffer
      → Dissected database_path worker buffer_len (
          dissect_flow_template ver9_templates enough_memory database_path worker buffer buffer_len
            netflow_device_ip handle_ipfix)
  unfolding dissect_flow_template flow_template
  dissect_flow_template_cases database_path worker buffer buffer_len ip ipfix h =
      elim (Bool-cases (ltb 128 (ntohs buffer 2))) [
        | inl many ↦ rw many (inl (refl, refl))
        | inr few ↦ elim (Option-cases (flow_fields ipfix buffer buffer_len (ntohs buffer 2) 4 0)) [
          | inl fails ↦ rw (few, fails) (inl (refl, refl))
          | inr ((fields, displ, total), got) ↦ elim (Bool-cases (ltb 1500 total)) [
            | inl long ↦ rw (few, got, long) (inl (refl, refl))
            | inr short ↦
                let x =
                  flow_fields-Read ipfix buffer buffer_len (ntohs buffer 2) 4 0 h
                    (fields, displ, total) got in
                rw (few, got, short)
                  (inr (
                    flow_template buffer worker.observation_id ip fields,
                    record {
                      count = x.count;
                      few = ground (arith, few);
                      fields = x.fields;
                      short = ground (arith, x.total);
                      no_option = refl;
                    },
                    refl,
                    ground (arith, x.moved, x.inside),
                    ground (arith, x.inside),
                  ))
          ]
        ]
      ]
