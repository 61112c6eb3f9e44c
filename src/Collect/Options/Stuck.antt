-- ===== src/Collect/Options/Stuck.antt =====
-- Option templates whose fields have no length.
use f2k.Base.{
  ℕ, zero, suc, ◌+◌, ◌≤◌, ◌<◌, ◌≡◌, refl, ap, ◌∙◌, true, false, List, [], ◌∷◌, arith, ltb, lt→ltb,
  All,
}
use f2k.Base.Bytes.{Pointer, advance, read_bytes}
use f2k.Collect.Options.Ends.{visited}
use f2k.Observation.{Field}
use f2k.Collect.Options.{
  store_found, sub_size, nothing_yet, done, out_of_fuel, add_interface, add_selector, Template,
  add_application, ObservationId, dissect_option_flow_set, dissect_nf9_option_flow, is_named,
  search_fields, Searched, search_field,
}

record Unnamed (s : Searched) : Type 0 where
  app : is_named s.app_name ≡ false
  selector : is_named s.selector_name ≡ false
  interface : is_named s.snmp_name ≡ false
  description : is_named s.snmp_description ≡ false

abbrev pub HasNoLength : Field → Type 0
HasNoLength f = f.field_len ≡ 0

search_field-Unnamed :
    (s : Searched) (id : ℕ) (p : Pointer) → Unnamed s → Unnamed (search_field s id 0 p)
unfolding search_field is_named read_bytes
search_field-Unnamed s id p u = ground (arith, u)

search_fields-Unnamed :
    (fs : List Field) (buffer : Pointer) (size cursor : ℕ) (s : Searched)
    → All HasNoLength fs
    → cursor ≤ size
    → Unnamed s
    → let (c, s') = search_fields fs buffer size cursor s in (c ≡ cursor) × Unnamed s'
unfolding search_fields
search_fields-Unnamed [] buffer size cursor s z h u = (refl, u)
search_fields-Unnamed (f ∷ fs) buffer size cursor s z h u =
    let same : cursor + f.field_len ≡ cursor = omega (arith, z.0) in
    let fits : ltb size cursor ≡ false = ground arith in
    rw (same, z.0, fits)
      (search_fields-Unnamed fs buffer size cursor
        (search_field s f.field_id 0 (advance buffer cursor)) z.1 h
        (search_field-Unnamed s f.field_id (advance buffer cursor) u))

store_found-Unnamed :
    (o : ObservationId) (r : ℕ × Searched) → Unnamed r.1 → store_found o r ≡ done (r.0, o)
unfolding store_found add_application add_selector add_interface
store_found-Unnamed o (cursor, s) u = ground (arith, u.app, u.selector, u.interface, u.description)

unnamed_option_flow :
    (o : ObservationId) (t : Template) (buffer : Pointer) (size : ℕ)
    → All HasNoLength (visited t)
    → dissect_nf9_option_flow o t buffer size ≡ done (0, o)
unfolding dissect_nf9_option_flow
unnamed_option_flow o t buffer size z =
    let r = search_fields (visited t) buffer size 0 nothing_yet in
    let (c, u) = search_fields-Unnamed (visited t) buffer size 0 nothing_yet z (omega arith) (
      unfold is_named in
      record { app = refl; selector = refl; interface = refl; description = refl }) in
    store_found-Unnamed o r u ∙ ap (λ n. done (n, o)) c

-- With an option template in which every field has length 0, the loop over its records reads nothing
-- and never ends, however long it runs, if there is a byte to read.
pub dissect_option_flow_set_stuck :
    (fuel : ℕ) (o : ObservationId) (t : Template) (buffer : Pointer) (size : ℕ)
    → All HasNoLength (visited t)
    → 0 < size
    → dissect_option_flow_set fuel o t buffer size 0 ≡ out_of_fuel
unfolding dissect_option_flow_set
dissect_option_flow_set_stuck zero o t buffer size z h = ground arith
dissect_option_flow_set_stuck (suc fuel) o t buffer size z h =
    let more : ltb 0 size ≡ true = lt→ltb 0 size h in
    let none_read = unnamed_option_flow o t (advance buffer 0) (sub_size size 0) z in
    rw (more, none_read) (dissect_option_flow_set_stuck fuel o t buffer size z h)
