-- ===== src/Collect/Options/Abort.antt =====
-- Interfaces with only one of their two names.
use f2k.Collect.Options.{
  nothing_yet, aborted, is_named, Searched, add_interface, search_field, dissect_nf9_option_flow,
  search_fields, store_found,
}
use f2k.Base.{
  ℕ, ◌+◌, ◌≤◌, ◌<◌, ◌≡◌, ◌≢◌, refl, ap, ◌∙◌, true, false, none, List, [], ◌∷◌, ◌++◌, arith, ltb,
  All,
}
use f2k.Base.Bytes.{Pointer, advance, length-read_bytes}
use f2k.Collect.Options.Ends.{visited, record_len}
use f2k.Observation.{
  observation_id_add_new_interface, Template, ObservationId, interface_new, Field,
}

abbrev pub IsNoDescription : Field → Type 0
IsNoDescription f = f.field_id ≢ 83

search_fields-description :
    (fs : List Field) (buffer : Pointer) (size cursor : ℕ) (s : Searched)
    → All IsNoDescription fs
    → s.snmp_description ≡ none
    → (search_fields fs buffer size cursor s).1.snmp_description ≡ none
unfolding search_fields search_field
search_fields-description [] buffer size cursor s z h = h
search_fields-description (f ∷ fs) buffer size cursor s z h = ground (
  arith,
  search_fields-description fs buffer size (cursor + f.field_len)
      (search_field s f.field_id f.field_len (advance buffer cursor)) z.1,
)

-- An interface name that was found is kept to the end of the record.
search_fields-name :
    (fs : List Field) (buffer : Pointer) (size cursor : ℕ) (s : Searched)
    → All (λ f. 0 < f.field_len) fs
    → is_named s.snmp_name ≡ true
    → is_named (search_fields fs buffer size cursor s).1.snmp_name ≡ true
unfolding search_fields search_field is_named
search_fields-name [] buffer size cursor s z h = h
search_fields-name (f ∷ fs) buffer size cursor s z h = ground (
  arith,
  search_fields-name fs buffer size (cursor + f.field_len)
      (search_field s f.field_id f.field_len (advance buffer cursor)) z.1,
  length-read_bytes f.field_len (advance buffer cursor),
)

search_fields-finds :
    (before : List Field) (f : Field) (after : List Field) (buffer : Pointer) (size cursor : ℕ)
    (s : Searched)
    → All (λ g. 0 < g.field_len) (before ++ (f ∷ after))
    → f.field_id ≡ 82
    → cursor + record_len before + f.field_len ≤ size
    → is_named (search_fields (before ++ (f ∷ after)) buffer size cursor s).1.snmp_name ≡ true
unfolding search_fields record_len
search_fields-finds [] f after buffer size cursor s z h fits =
    let fits' : ltb size (cursor + f.field_len) ≡ false = ground arith in
    rw fits' (
      search_fields-name after buffer size (cursor + f.field_len)
        (search_field s f.field_id f.field_len (advance buffer cursor)) z.1
        (unfold search_field in
          unfold is_named in ground (arith, length-read_bytes f.field_len (advance buffer cursor))))
search_fields-finds (g ∷ before) f after buffer size cursor s z h fits =
    let fits' : ltb size (cursor + g.field_len) ≡ false = ground arith in
    rw fits' (
      search_fields-finds before f after buffer size (cursor + g.field_len)
        (search_field s g.field_id g.field_len (advance buffer cursor)) z.1 h (omega arith))

store_found-abort :
    (o : ObservationId) (r : ℕ × Searched)
    → is_named r.1.snmp_name ≡ true
    → r.1.snmp_description ≡ none
    → store_found o r ≡ aborted
unfolding store_found add_interface observation_id_add_new_interface interface_new
store_found-abort o (cursor, s) named nameless = ground (arith, named, nameless)

-- A record with an interface's name (82) inside the buffer and no description (83), as its template
-- says, ends the process: `interface_new` is called with a null description.
pub dissect_nf9_option_flow_aborts :
    (o : ObservationId) (t : Template) (buffer : Pointer) (size : ℕ) (before : List Field)
    (f : Field) (after : List Field)
    → visited t ≡ before ++ (f ∷ after)
    → f.field_id ≡ 82
    → All (λ g. 0 < g.field_len) (before ++ (f ∷ after))
    → All IsNoDescription (before ++ (f ∷ after))
    → record_len before + f.field_len ≤ size
    → dissect_nf9_option_flow o t buffer size ≡ aborted
unfolding dissect_nf9_option_flow
dissect_nf9_option_flow_aborts o t buffer size before f after same h z n fits =
    ap (λ fs. store_found o (search_fields fs buffer size 0 nothing_yet)) same
    ∙ store_found-abort o (search_fields (before ++ (f ∷ after)) buffer size 0 nothing_yet)
        (search_fields-finds before f after buffer size 0 nothing_yet z h (omega arith))
        (search_fields-description (before ++ (f ∷ after)) buffer size 0 nothing_yet n refl)
