-- ===== src/Collect/Options/Names.antt =====
-- What option records change in a domain.
use f2k.Base.{ℕ, zero, suc, ◌+◌, ◌≡◌, ◌∙◌, inl, inr, arith, ltb, Bool-cases}
use f2k.Base.Bytes.{Pointer, advance}
use f2k.Printbuf.{sub_size}
use f2k.Collect.Options.Ends.{visited, nf9_option_flow_cases}
use f2k.Observation.{
  Template, ObservationId, interface_new, observation_id_add_selector_id,
  observation_id_add_application_id, observation_id_add_new_interface,
}
use f2k.Collect.Options.{
  dissect_nf9_option_flow, nothing_yet, search_fields, dissect_option_flow_set, done, Searched,
  add_interface, add_selector, add_application, store_found,
}

store_found-templates :
    (o o' : ObservationId) (r : ℕ × Searched) (n : ℕ)
    → store_found o r ≡ done (n, o')
    → o'.templates ≡ o.templates
unfolding store_found add_application add_selector add_interface observation_id_add_new_interface
    observation_id_add_application_id observation_id_add_selector_id interface_new
store_found-templates o o' (cursor, s) n e = ground arith

-- Option records change no template.
pub dissect_option_flow_set-templates :
    (fuel : ℕ) (o o' : ObservationId) (t : Template) (buffer : Pointer) (size cursor n : ℕ)
    → dissect_option_flow_set fuel o t buffer size cursor ≡ done (n, o')
    → o'.templates ≡ o.templates
unfolding dissect_option_flow_set
dissect_option_flow_set-templates zero o o' t buffer size cursor n e = ground arith
dissect_option_flow_set-templates (suc fuel) o o' t buffer size cursor n e =
    elim (Bool-cases (ltb cursor size)) [
      | inr all ↦ ground arith
      | inl more ↦ elim (nf9_option_flow_cases o t (advance buffer cursor) (sub_size size cursor)) [
        | inl fails ↦ absurd (ground (arith, more, fails))
        | inr (m, o2, got, _) ↦
            dissect_option_flow_set-templates fuel o2 o' t buffer size (cursor + m) n
              (ground (arith, more, got))
            ∙ store_found-templates o o2
                (search_fields (visited t) (advance buffer cursor) (sub_size size cursor) 0
                  nothing_yet)
                m (unfold dissect_nf9_option_flow in got)
      ]
    ]
