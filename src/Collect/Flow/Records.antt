-- ===== src/Collect/Flow/Records.antt =====
-- A set of records of one size is cut into its records.
use f2k.Base.{
  ℕ, zero, suc, ◌+◌, ◌-◌, ◌*◌, ◌%◌, ◌^◌, ◌≤◌, ◌<◌, ◌≡◌, ◌≢◌, refl, ◌∙◌, Bool, true, false, some,
  List, [], ◌∷◌, arith, ltb, ◌==◌, if◌then◌else◌, lt→ltb, All,
}
use f2k.Base.Bytes.{Pointer, advance}
use f2k.Collect.Options.Ends.{visited, record_len}
use f2k.Observation.{Template, Field}
use f2k.Collect.Flow.{
  dissect_netflow_v9v10_flow_set_with_template, flow_done, next_sequence, flow_loop, Flows,
  real_field, print_known, flow_record, Printer,
}

-- Fields whose length the template gives.
abbrev pub IsFixed : Bool → Field → Type 0
IsFixed handle_ipfix f = (handle_ipfix ≡ true) → (f.field_len ≢ 65535)

module _ (printer : Printer) where
  open printer use {Line, Message, begin, field, finish}

  -- The line of the record at `displ`: every field at its place.
  unfoldable pub record_at : Pointer → List Field → ℕ → Line → Line
  record_at buffer [] displ line = line
  record_at buffer (f ∷ fs) displ line =
      record_at buffer fs (displ + f.field_len)
        (print_known printer line f.v9_template (advance buffer displ) f.field_len)

  fixed-real_field :
      (ipfix : Bool) (buffer : Pointer) (displ : ℕ) (f : Field)
      → IsFixed ipfix f
      → real_field ipfix buffer displ f.field_len ≡ (0, f.field_len)
  unfolding real_field
  fixed-real_field false buffer displ f h = refl
  fixed-real_field true buffer displ f h = ground (arith, h refl)

  flow_record-fixed :
      (ipfix : Bool) (buffer : Pointer) (end_flow : ℕ) (fs : List Field) (displ : ℕ) (line : Line)
      → All (IsFixed ipfix) fs
      → All (λ f. 0 < f.field_len) fs
      → displ + record_len fs ≤ end_flow
      → flow_record printer ipfix buffer end_flow fs displ line
        ≡ (displ + record_len fs, record_at buffer fs displ line)
  unfolding flow_record record_at record_len
  flow_record-fixed ipfix buffer end_flow [] displ line z p h = ground arith
  flow_record-fixed ipfix buffer end_flow (f ∷ fs) displ line z p h =
      let more : ltb displ end_flow ≡ true = lt→ltb displ end_flow (omega (arith, p.0)) in
      let sum : displ + f.field_len + record_len fs ≡ displ + (f.field_len + record_len fs) =
        omega arith in
      let here : displ + 0 ≡ displ = omega arith in
      let there : f.field_len + 0 ≡ f.field_len = omega arith in
      rw (fixed-real_field ipfix buffer displ f z.0, more, here, there)
        (flow_record-fixed ipfix buffer end_flow fs (displ + f.field_len)
            (print_known printer line f.v9_template (advance buffer displ) f.field_len) z.1 p.1
            (omega arith)
          ∙ rw sum refl)

  module _ (first : ℕ → Line) (starts : (n : ℕ) → begin n ≡ some (first n)) where
    -- `k` records from `displ` on, each a line of its own.
    unfoldable pub cut : Pointer → List Field → ℕ → ℕ → Flows printer → Flows printer
    cut buffer fs zero displ s = s
    cut buffer fs (suc k) displ s =
        cut buffer fs k (displ + record_len fs)
          (flow_done printer s (record_len fs) (record_at buffer fs displ (first s.flow_sequence)))

    -- The sequence number moves once more if there is padding.
    abbrev pub behind_padding : ℕ → Flows printer → Flows printer
    behind_padding pad s = if pad == 0 then s else next_sequence printer s

    flow_loop-cut :
        (fuel : ℕ) (ipfix : Bool) (fs : List Field) (buffer : Pointer) (end_flow k displ pad : ℕ)
        (s : Flows printer)
        → All (IsFixed ipfix) fs
        → All (λ f. 0 < f.field_len) fs
        → 4 ≤ record_len fs
        → pad < 4
        → end_flow ≡ displ + k * record_len fs + pad
        → k < fuel
        → flow_loop printer fuel ipfix fs buffer end_flow displ s
          ≡ some (behind_padding pad (cut buffer fs k displ s))
    unfolding flow_loop cut
    flow_loop-cut zero ipfix fs buffer end_flow k displ pad s z p four hp he hf =
        absurd (omega arith)
    flow_loop-cut (suc fuel) ipfix fs buffer end_flow zero displ zero s z p four hp he hf =
        ground arith
    flow_loop-cut (suc fuel) ipfix fs buffer end_flow zero displ (suc pad) s z p four hp he hf =
        ground arith
    flow_loop-cut (suc fuel) ipfix fs buffer end_flow (suc k) displ pad s z p four hp he hf =
        let n = record_len fs in
        let more : ltb displ end_flow ≡ true = lt→ltb displ end_flow (omega arith) in
        let enough : ltb (end_flow - displ) 4 ≡ false = ground arith in
        let read =
          flow_record-fixed ipfix buffer end_flow fs displ (first s.flow_sequence) z p
            (omega arith) in
        let len : displ + n - displ ≡ n = omega arith in
        let rest =
          flow_loop-cut fuel ipfix fs buffer end_flow k (displ + n) pad
            (flow_done printer s n (record_at buffer fs displ (first s.flow_sequence))) z p four hp
            (omega arith) (omega arith) in
        rw (more, enough, starts s.flow_sequence, read, len) rest

    -- A set of `k` records of a template without variable or empty fields, at least four bytes each,
    -- and fewer than four bytes of padding, is cut into its records when allocation succeeds: each
    -- gives one line in the order of the set, with every known field printed from its own bytes, and
    -- the padding is skipped.
    pub dissect_netflow_v9v10_flow_set_with_template-cut :
        (ipfix : Bool) (t : Template) (flowset_len k pad : ℕ) (buffer : Pointer) (s : Flows printer)
        → All (IsFixed ipfix) (visited t)
        → All (λ f. 0 < f.field_len) (visited t)
        → 4 ≤ record_len (visited t)
        → pad < 4
        → flowset_len ≡ 4 + k * record_len (visited t) + pad
        → dissect_netflow_v9v10_flow_set_with_template printer flowset_len ipfix t flowset_len
            buffer s
          ≡ some (behind_padding pad (cut buffer (visited t) k 4 s))
    unfolding dissect_netflow_v9v10_flow_set_with_template
    dissect_netflow_v9v10_flow_set_with_template-cut ipfix t flowset_len k pad buffer s z p four hp
          h =
        flow_loop-cut flowset_len ipfix (visited t) buffer flowset_len k 4 pad s z p four hp h
          (few k (record_len (visited t)) pad flowset_len four h)
      where
        product : (k n : ℕ) → 4 ≤ n → k ≤ k * n
        product zero n h = omega arith
        product (suc k) n h = omega (arith, product k n h)

        few : (k n pad len : ℕ) → 4 ≤ n → len ≡ 4 + k * n + pad → k < len
        few k n pad len h e = omega (arith, product k n h)

    -- As many flows are counted as records are cut, and all their bytes.
    pub cut_counts :
        (k : ℕ) (fs : List Field) (buffer : Pointer) (displ : ℕ) (s : Flows printer)
        → s.num_flows_processed < 2 ^ 64
        → let r = cut buffer fs k displ s in
          (r.num_flows_processed ≡ (s.num_flows_processed + k) % 2 ^ 64)
          × (r.tot_len ≡ s.tot_len + k * record_len fs)
    unfolding cut flow_done
    cut_counts zero fs buffer displ s h = (omega arith, omega arith)
    cut_counts (suc k) fs buffer displ s h =
        let (a, b) =
          cut_counts k fs buffer (displ + record_len fs)
            (flow_done printer s (record_len fs)
              (record_at buffer fs displ (first s.flow_sequence)))
            (omega arith) in
        (omega (arith, a), omega (arith, b))
