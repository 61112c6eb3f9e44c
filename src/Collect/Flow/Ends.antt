-- ===== src/Collect/Flow/Ends.antt =====
-- When the reading of flow records ends.
use f2k.Collect.Options.Stuck.{HasNoLength}
use f2k.Base.{
  ℕ, zero, suc, ◌+◌, ◌-◌, ◌≤◌, ◌<◌, ◌≡◌, ◌≢◌, refl, inl, inr, Bool, true, false, ◌&&◌, none, some,
  List, [], ◌∷◌, arith, ltb, if◌then◌else◌, Bool-cases, Option-cases, All,
}
use f2k.Base.Bytes.{Pointer, advance}
use f2k.Observation.{Template, Field}
use f2k.Collect.Options.Ends.{visited, record_len}
use f2k.Collect.Flow.{
  flow_done, next_sequence, Flows, dissect_netflow_v9v10_flow_set_with_template, flow_loop,
  print_known, flow_record, real_field, Printer,
}

-- Records read from `displ` on: up to the end of the set, or up to padding of less than four bytes,
-- or until a line cannot be allocated.
pub data Reads (printer : Printer) (ipfix : Bool) (fs : List Field) (buffer : Pointer)
    (end_flow : ℕ) : ℕ → Flows printer → Flows printer → Type 0 where
  ended :
      {displ : ℕ} {s : Flows printer}
      → end_flow ≤ displ
      → Reads printer ipfix fs buffer end_flow displ s s
  padding :
      {displ : ℕ} {s : Flows printer}
      → displ < end_flow
      → end_flow < displ + 4
      → Reads printer ipfix fs buffer end_flow displ s (next_sequence printer s)
  no_memory :
      {displ : ℕ} {s : Flows printer}
      → displ + 4 ≤ end_flow
      → printer.begin s.flow_sequence ≡ none
      → Reads printer ipfix fs buffer end_flow displ s (next_sequence printer s)
  one_record :
      {displ : ℕ} {s last : Flows printer} (line : printer.Line)
      → displ + 4 ≤ end_flow
      → printer.begin s.flow_sequence ≡ some line
      → Reads printer ipfix fs buffer end_flow
          (flow_record printer ipfix buffer end_flow fs displ line).0
          (flow_done printer s
            ((flow_record printer ipfix buffer end_flow fs displ line).0 - displ)
            (flow_record printer ipfix buffer end_flow fs displ line).1)
          last
      → Reads printer ipfix fs buffer end_flow displ s last

module _ (printer : Printer) where
  open printer use {Line, Message, begin, field, finish}

  real_field-pos :
      (ipfix : Bool) (buffer : Pointer) (displ len : ℕ)
      → 0 < len
      → let (o, n) = real_field ipfix buffer displ len in 0 < n + o
  unfolding real_field
  real_field-pos ipfix buffer displ len h = ground arith

  -- The cursor never moves back, and moves on if a field of the template has a length.
  flow_record-moves :
      (ipfix : Bool) (buffer : Pointer) (end_flow : ℕ) (fs : List Field) (displ : ℕ) (line : Line)
      → let e = (flow_record printer ipfix buffer end_flow fs displ line).0 in
        (displ ≤ e) × (if ltb displ end_flow && ltb 0 (record_len fs) then displ < e else displ ≤ e)
  unfolding flow_record record_len
  flow_record-moves ipfix buffer end_flow [] displ line = ground arith
  flow_record-moves ipfix buffer end_flow (f ∷ fs) displ line =
      let r = real_field ipfix buffer displ f.field_len in
      elim (Bool-cases (ltb displ end_flow)) [
        | inr over ↦ ground arith
        | inl more ↦ elim (Bool-cases (ltb 0 f.field_len)) [
          | inl wide ↦ ground (
            arith,
            real_field-pos ipfix buffer displ f.field_len,
            flow_record-moves ipfix buffer end_flow fs (displ + (r.1 + r.0))
                (print_known printer line f.v9_template (advance buffer (displ + r.0)) r.1),
          )
          | inr empty ↦ ground (
            arith,
            flow_record-moves ipfix buffer end_flow fs (displ + (r.1 + r.0))
                (print_known printer line f.v9_template (advance buffer (displ + r.0)) r.1),
          )
        ]
      ]

  flow_loop-ends :
      (fuel : ℕ) (ipfix : Bool) (fs : List Field) (buffer : Pointer) (end_flow displ : ℕ)
      (s : Flows printer)
      → 0 < record_len fs
      → end_flow ≤ displ + fuel
      → (s' : Flows printer) × (flow_loop printer fuel ipfix fs buffer end_flow displ s ≡ some s')
        × Reads printer ipfix fs buffer end_flow displ s s'
  unfolding flow_loop
  flow_loop-ends zero ipfix fs buffer end_flow displ s h hf =
      (s, ground arith, Reads.ended (omega arith))
  flow_loop-ends (suc fuel) ipfix fs buffer end_flow displ s h hf =
      elim (Bool-cases (ltb displ end_flow)) [
        | inr over ↦ (s, rw over refl, Reads.ended (ground arith))
        | inl more ↦ elim (Bool-cases (ltb (end_flow - displ) 4)) [
          | inl few ↦ (
            next_sequence printer s,
            rw (more, few) refl,
            Reads.padding (ground arith) (ground arith),
          )
          | inr enough ↦ elim (Option-cases (begin s.flow_sequence)) [
            | inl full ↦ (
              next_sequence printer s,
              rw (more, enough, full) refl,
              Reads.no_memory (ground arith) full,
            )
            | inr (line, got) ↦
                let r = flow_record printer ipfix buffer end_flow fs displ line in
                let moved = flow_record-moves ipfix buffer end_flow fs displ line in
                let (s', e, read) =
                  flow_loop-ends fuel ipfix fs buffer end_flow r.0
                    (flow_done printer s (r.0 - displ) r.1) h (ground (arith, moved)) in
                (s', rw (more, enough, got) e, Reads.one_record line (ground arith) got read)
          ]
        ]
      ]

  -- Whatever the memory holds, the reading of a set ends if a field of its template has a length:
  -- one round of the loop for each byte of the set is enough. Record after record is then read, each
  -- behind the one before it, up to the end of the set, to less than four bytes of padding, or to
  -- the first line that cannot be allocated.
  pub dissect_netflow_v9v10_flow_set_with_template_ends :
      (ipfix : Bool) (t : Template) (flowset_len : ℕ) (buffer : Pointer) (s : Flows printer)
      → 0 < record_len (visited t)
      → (s' : Flows printer) × (dissect_netflow_v9v10_flow_set_with_template printer flowset_len
            ipfix t flowset_len buffer s
          ≡ some s')
        × Reads printer ipfix (visited t) buffer flowset_len 4 s s'
  unfolding dissect_netflow_v9v10_flow_set_with_template
  dissect_netflow_v9v10_flow_set_with_template_ends ipfix t flowset_len buffer s h =
      flow_loop-ends flowset_len ipfix (visited t) buffer flowset_len 4 s h (omega arith)

  flow_record-stuck :
      (ipfix : Bool) (buffer : Pointer) (end_flow : ℕ) (fs : List Field) (displ : ℕ) (line : Line)
      → All HasNoLength fs
      → (flow_record printer ipfix buffer end_flow fs displ line).0 ≡ displ
  unfolding flow_record real_field
  flow_record-stuck ipfix buffer end_flow [] displ line z = refl
  flow_record-stuck ipfix buffer end_flow (f ∷ fs) displ line z =
      let r = real_field ipfix buffer displ f.field_len in
      ground (
        arith,
        flow_record-stuck ipfix buffer end_flow fs (displ + (r.1 + r.0))
            (print_known printer line f.v9_template (advance buffer (displ + r.0)) r.1) z.1,
      )

  flow_loop-stuck :
      (fuel : ℕ) (ipfix : Bool) (fs : List Field) (buffer : Pointer) (end_flow displ : ℕ)
      (s : Flows printer)
      → ((n : ℕ) → begin n ≢ none)
      → All HasNoLength fs
      → displ + 4 ≤ end_flow
      → flow_loop printer fuel ipfix fs buffer end_flow displ s ≡ none
  unfolding flow_loop
  flow_loop-stuck zero ipfix fs buffer end_flow displ s ok z h = ground arith
  flow_loop-stuck (suc fuel) ipfix fs buffer end_flow displ s ok z h =
      elim (Option-cases (begin s.flow_sequence)) [
        | inl full ↦ absurd (ok s.flow_sequence full)
        | inr (line, got) ↦
            let r = flow_record printer ipfix buffer end_flow fs displ line in
            let more : ltb displ end_flow ≡ true = ground arith in
            let enough : ltb (end_flow - displ) 4 ≡ false = ground arith in
            let stays = flow_record-stuck ipfix buffer end_flow fs displ line z in
            rw (more, enough, got)
              (flow_loop-stuck fuel ipfix fs buffer end_flow r.0
                (flow_done printer s (r.0 - displ) r.1) ok z (omega (arith, stays)))
      ]

  -- With a template in which every field has length 0, a set with four bytes of data or more is read
  -- for ever, whatever the fuel, as long as allocation succeeds.
  pub dissect_netflow_v9v10_flow_set_with_template_stuck :
      (fuel : ℕ) (ipfix : Bool) (t : Template) (flowset_len : ℕ) (buffer : Pointer)
      (s : Flows printer)
      → ((n : ℕ) → begin n ≢ none)
      → All HasNoLength (visited t)
      → 8 ≤ flowset_len
      → dissect_netflow_v9v10_flow_set_with_template printer fuel ipfix t flowset_len buffer s
        ≡ none
  unfolding dissect_netflow_v9v10_flow_set_with_template
  dissect_netflow_v9v10_flow_set_with_template_stuck fuel ipfix t flowset_len buffer s ok z h =
      flow_loop-stuck fuel ipfix (visited t) buffer flowset_len 4 s ok z (omega arith)
