-- ===== src/Collect/Options/Ends.antt =====
-- When the reading of option records ends.
-- The bytes of one record.
use f2k.Base.{
  ℕ, zero, suc, ◌+◌, ◌^◌, ◌≤◌, ◌<◌, ◌≡◌, refl, ◌⊎◌, inl, inr, List, [], ◌∷◌, arith, ltb, Bool-cases,
  Option-cases, take,
}
use f2k.Base.Bytes.{Pointer, advance}
use f2k.Observation.{Template, Field}
use f2k.Collect.Options.{
  store_found, add_application, add_selector, add_interface, sub_size, nothing_yet, done,
  search_field, aborted, ObservationId, Searched, search_fields, dissect_option_flow_set,
  dissect_nf9_option_flow,
}

unfoldable pub record_len : List Field → ℕ
record_len [] = 0
record_len (f ∷ fs) = f.field_len + record_len fs

-- The fields of a template that the loop visits.
abbrev pub visited : Template → List Field
visited t = take t.template_info.field_count t.fields

search_fields_cursor :
    (fs : List Field) (buffer : Pointer) (size cursor : ℕ) (s : Searched)
    → cursor ≤ size
    → let c = (search_fields fs buffer size cursor s).0 in
      (c ≤ size) × ((c ≡ size) ⊎ (c ≡ cursor + record_len fs))
unfolding search_fields record_len
search_fields_cursor [] buffer size cursor s h = ground arith
search_fields_cursor (f ∷ fs) buffer size cursor s h =
    elim (Bool-cases (ltb size (cursor + f.field_len))) [
      | inl short ↦ ground arith
      | inr fits ↦ ground (
        arith,
        search_fields_cursor fs buffer size (cursor + f.field_len)
            (search_field s f.field_id f.field_len (advance buffer cursor)),
      )
    ]

store_found_cases :
    (o : ObservationId) (r : ℕ × Searched)
    → (store_found o r ≡ aborted) ⊎ ((o' : ObservationId) × (store_found o r ≡ done (r.0, o')))
unfolding store_found
store_found_cases o (cursor, s) =
    elim (Option-cases (add_interface (add_selector (add_application o s) s) s)) [
      | inl fails ↦ inl (rw (fails, store_found) refl)
      | inr (o', got) ↦ inr (o', rw (got, store_found) refl)
    ]

pub nf9_option_flow_cases :
    (o : ObservationId) (t : Template) (buffer : Pointer) (size : ℕ)
    → (dissect_nf9_option_flow o t buffer size ≡ aborted)
      ⊎ ((n : ℕ) × (o' : ObservationId) × (dissect_nf9_option_flow o t buffer size ≡ done (n, o'))
          × (n ≡ (search_fields (visited t) buffer size 0 nothing_yet).0))
unfolding dissect_nf9_option_flow
nf9_option_flow_cases o t buffer size =
    let r = search_fields (visited t) buffer size 0 nothing_yet in
    elim (store_found_cases o r) [
      | inl fails ↦ inl fails
      | inr (o', got) ↦ inr (r.0, o', got, refl)
    ]

-- If a field of the template has a length, the loop over option records, with a round for each
-- byte that is left of a set below 2 ^ 64 bytes, reads the set exactly to its end, or the process
-- aborts.
pub dissect_option_flow_set_ends :
    (fuel : ℕ) (o : ObservationId) (t : Template) (buffer : Pointer) (size cursor : ℕ)
    → 0 < record_len (visited t)
    → size < 2 ^ 64
    → cursor ≤ size
    → size ≤ cursor + fuel
    → let r = dissect_option_flow_set fuel o t buffer size cursor in
      (r ≡ aborted) ⊎ ((o' : ObservationId) × (r ≡ done (size, o')))
unfolding dissect_option_flow_set
dissect_option_flow_set_ends zero o t buffer size cursor h hs hc hf = inr (o, ground arith)
dissect_option_flow_set_ends (suc fuel) o t buffer size cursor h hs hc hf =
    elim (Bool-cases (ltb cursor size)) [
      | inr all ↦ inr (o, ground arith)
      | inl more ↦ elim (nf9_option_flow_cases o t (advance buffer cursor) (sub_size size cursor)) [
        | inl fails ↦ inl (rw (more, fails) refl)
        | inr (n, o', got, same) ↦
            let moved =
              search_fields_cursor (visited t) (advance buffer cursor) (sub_size size cursor) 0
                nothing_yet (omega arith) in
            let rest =
              dissect_option_flow_set_ends fuel o' t buffer size (cursor + n) h hs
                (ground (arith, moved, same)) (ground (arith, moved, same)) in
            rw (more, got) rest
      ]
    ]
