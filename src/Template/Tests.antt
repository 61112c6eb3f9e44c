-- ===== src/Template/Tests.antt =====
-- Runs of the template functions, and their theorems at concrete inputs.
use f2k.Observation.{save_template, Template}
use f2k.Template.Sound.{
  IsOptionTemplate, kept_count, Read, set_type, dissect_option_template_cases,
  dissect_netflow_v9v10_template_set-IsSound, IsSound,
}
use f2k.Template.Set.{
  OptionParams, option_header, dissect_ipfix_option_template_params,
  dissect_netflow_v9v10_template_set, dissect_option_template,
}
use f2k.Template.{
  sub_size, keep_template, dissect_flow_template, counted_len, is_enterprise_specific,
  definition_len, flow_field, Collector, flow_fields,
}
use f2k.Template.Encode.{
  dissect_flow_template-encode_template, template_of, field_of, encode_field, encode_fields,
  encode_template, FieldSpec,
}
use f2k.Samples.{empty_domain-IsSound, empty_domain, idle, endless, table, pointer_to-IsMemory}
use f2k.Template.Batch.{
  dissect_netflow_v9v10_template_set-encode_templates, keep_all, encode_templates, TemplateSpec,
}
use f2k.Template.Flow.{dissect_flow_template_cases, total_len, Dissected}
use f2k.Base.{
  ◌≢◌, ◌<◌, ℕ, ◌+◌, ◌-◌, ◌*◌, ◌≡◌, refl, ◌⊎◌, true, false, none, some, List, [], ◌∷◌, arith, ltb,
  if◌then◌else◌, length,
}
use f2k.Base.Bytes.{Pointer, advance, pointer_to, IsMemory, big_endian}

-- An address, and bytes with an enterprise number 9.
abbrev fields : List FieldSpec
fields =
    record { element_id = 8; len = 4; enterprise = none }
    ∷ record { element_id = 12; len = 65535; enterprise = some 9 }
    ∷ []

abbrev bytes : List ℕ
bytes = 1 ∷ 0 ∷ 0 ∷ 2 ∷ 0 ∷ 8 ∷ 0 ∷ 4 ∷ 128 ∷ 12 ∷ 255 ∷ 255 ∷ 0 ∷ 0 ∷ 0 ∷ 9 ∷ []

encodes : encode_template 256 fields ≡ bytes
unfolding encode_template encode_fields encode_field
encodes = refl

-- The set with that template alone.
abbrev set : Pointer
set = pointer_to (0 ∷ 2 ∷ 0 ∷ 20 ∷ bytes)

set-IsMemory : IsMemory set
set-IsMemory = pointer_to-IsMemory (0 ∷ 2 ∷ 0 ∷ 20 ∷ bytes) (omega arith)

reads_fields :
    flow_fields true set 20 2 8 0
    ≡ some (
      record { v9_template = none; field_id = 8; field_len = 4 }
          ∷ record { v9_template = none; field_id = 12; field_len = 65535 }
          ∷ [],
      20,
      4,
    )
unfolding flow_fields flow_field definition_len is_enterprise_specific counted_len big_endian
reads_fields = refl

dissect_flow_template_cases_example :
    Dissected table endless false idle 16
      (dissect_flow_template table endless false idle (advance set 4) 16 0x0a000001 true)
dissect_flow_template_cases_example =
    dissect_flow_template_cases table endless false idle (advance set 4) 16 0x0a000001 true
      (λ i. set-IsMemory (4 + i))

dissect_flow_template-encode_template_example :
    dissect_flow_template table endless false idle (pointer_to bytes) 16 0x0a000001 true ≡ (
      (if ltb (16 - length (encode_template 256 fields)) 4
          then 16
          else length (encode_template 256 fields)),
      keep_template table endless false idle (template_of empty_domain 0x0a000001 256 fields),
    )
unfolding encode_template encode_fields encode_field total_len field_of counted_len
dissect_flow_template-encode_template_example =
    dissect_flow_template-encode_template table endless false idle (pointer_to bytes) 16 0x0a000001
      true 256 fields (omega arith) (omega arith) (ground arith) (omega arith) (ground arith)
      (omega arith) (omega arith)

dissect_option_template_cases_example :
    let r =
      dissect_option_template table endless dissect_ipfix_option_template_params empty_domain
        (advance set 4)
        16
        0x0a000001 in
    ((dissect_ipfix_option_template_params (advance set 4) 16 ≡ none) × (r ≡ empty_domain))
    ⊎ ((p : OptionParams) × (dissect_ipfix_option_template_params (advance set 4) 16 ≡ some p)
        × (((16 < option_header + 4 * kept_count table endless p) × (r ≡ empty_domain))
            ⊎ ((t : Template) × IsOptionTemplate table endless
                  (advance set 4)
                  16
                  0x0a000001
                  empty_domain
                  p
                  t
                × (r ≡ save_template table endless empty_domain t))))
dissect_option_template_cases_example =
    dissect_option_template_cases table endless dissect_ipfix_option_template_params empty_domain
      (advance set 4) 16 0x0a000001

dissect_netflow_v9v10_template_set-IsSound_example :
    (w : Collector) × (dissect_netflow_v9v10_template_set table endless true idle set 20 0x0a000001
        true
      ≡ some w)
    × IsSound w.observation_id
    × (((set_type table endless true set ≡ 0)
          × Read table endless true set 20 0x0a000001 true 4 idle w)
        ⊎ ((set_type table endless true set ≢ 0)
            × (w ≡ record idle {
              observation_id =
                  dissect_option_template table endless dissect_ipfix_option_template_params
                    empty_domain
                    (advance set 4)
                    (sub_size 20 4)
                    0x0a000001;
            })))
dissect_netflow_v9v10_template_set-IsSound_example =
    dissect_netflow_v9v10_template_set-IsSound table endless true idle set 20 0x0a000001 true
      set-IsMemory (omega arith) empty_domain-IsSound

abbrev specs : List TemplateSpec
specs = record { id = 256; fields = fields } ∷ []

dissect_netflow_v9v10_template_set-encode_templates_example :
    dissect_netflow_v9v10_template_set table endless false idle set 20 0x0a000001 true
    ≡ some (keep_all table endless false idle 0x0a000001 specs)
unfolding encode_templates encode_template encode_fields encode_field total_len field_of counted_len
dissect_netflow_v9v10_template_set-encode_templates_example =
    dissect_netflow_v9v10_template_set-encode_templates table endless false idle set 20 0x0a000001
      true specs
      (
        record {
          small_id = omega arith;
          few = omega arith;
          specs = ground arith;
          short = omega arith;
        },
        tt,
      )
      refl (ground arith) (omega arith) (omega arith)
