-- ===== src/Direction/Words.antt =====
-- What the direction functions print.
use f2k.Number.{net2number}
use f2k.Direction.{
  print_netflow_direction, netflow_direction_word, upstream, downstream, FlowCache,
  process_direction, print_flow_end_reason, printbuf_memappend_fast_string, flow_end_reasons,
  print_known_word,
}
use f2k.Printbuf.Append.{memappend_fast-Copied, Fits, IsValid, Copied}
use f2k.Printbuf.{Printbuf, Allocator}
use f2k.Base.{
  ℕ, ◌+◌, ◌^◌, ◌≤◌, ◌<◌, ◌≡◌, ◌≢◌, refl, sym, subst, ◌⊎◌, inl, inr, Bool, true, false, Option, none,
  some, List, arith, ltb, ◌==◌, if◌then◌else◌, Bool-cases, length,
}
use f2k.Base.Bytes.{Pointer}

module _ (heap : Allocator) (never : (old : List ℕ) (n : ℕ) → heap.realloc old n ≢ none) where
  -- A word or nothing is appended, and its length returned.
  abbrev pub Printed : Printbuf → List ℕ → ℕ × Printbuf → Type 0
  Printed p word (n, q) = (n ≡ length word) × Copied p word q

  string-Printed :
      (p : Printbuf) (str : List ℕ)
      → IsValid p
      → Fits p str
      → Printed p str (printbuf_memappend_fast_string heap p str)
  string-Printed p str v f =
      unfold printbuf_memappend_fast_string in (refl, memappend_fast-Copied heap p str never v f)

  known-Printed :
      (p : Printbuf) (w : Option (List ℕ)) (word : List ℕ)
      → IsValid p
      → Fits p word
      → w ≡ some word
      → Printed p word (print_known_word heap p w)
  known-Printed p w word v f e =
      subst (λ u. Printed p word (print_known_word heap p u)) (sym e)
        (unfold print_known_word in string-Printed p word v f)

  -- The word of a code out of a table, if it has one: its length is returned and it is appended;
  -- otherwise nothing is printed.
  abbrev pub PrintedFrom : Option (List ℕ) → Printbuf → ℕ × Printbuf → Type 0
  PrintedFrom none p r = r ≡ (0, p)
  PrintedFrom (some word) p r = Printed p word r

  known_cases :
      (p : Printbuf) (w : Option (List ℕ)) (k : ℕ)
      → IsValid p
      → p.bpos + 32 < 2 ^ 60
      → ((word : List ℕ) → w ≡ some word → length word ≤ 32)
      → PrintedFrom w p (print_known_word heap p w)
  known_cases p none k v f short = unfold print_known_word in refl
  known_cases p (some word) k v f short =
      unfold print_known_word in string-Printed p word v (omega (arith, short word refl))

  -- The reason of a flow's end, of codes 1 to 5, is appended to a valid buffer and its length
  -- returned, if every `realloc` succeeds; for any other code nothing is printed.
  pub print_flow_end_reason_lem :
      (p : Printbuf) (buffer : Pointer)
      → IsValid p
      → p.bpos + 32 < 2 ^ 60
      → PrintedFrom (flow_end_reasons (buffer 0)) p (print_flow_end_reason heap p buffer)
  print_flow_end_reason_lem p buffer v f =
      unfold print_flow_end_reason in known_cases p (flow_end_reasons (buffer 0)) 0 v f short
    where
      short : (word : List ℕ) → flow_end_reasons (buffer 0) ≡ some word → length word ≤ 32
      short word e = unfold flow_end_reasons in ground arith

  -- `process_direction` in every case, on a valid buffer and if every `realloc` succeeds: a value
  -- above 1 does nothing; when directions are normalized nothing is printed and the direction is
  -- set, upstream for ingress (0) and downstream for egress, or the other way round if the
  -- exporter is in the WAN side; else the word is printed and the direction is left.
  pub process_direction_cases :
      (normalize in_wan_side : Bool) (p : Printbuf) (buffer : Pointer) (real_field_len : ℕ)
      (cache : FlowCache)
      → IsValid p
      → p.bpos + 32 < 2 ^ 60
      → let d = net2number buffer real_field_len in
        let (n, q, c) =
          process_direction heap normalize in_wan_side p buffer real_field_len cache in
        ((1 < d) × (n ≡ 0) × (q ≡ p) × (c ≡ cache))
        ⊎ ((d ≤ 1)
            × (normalize ≡ true)
            × (n ≡ 0)
            × (q ≡ p)
            × (c.direction ≡ (
                if in_wan_side
                then (if d == 0 then downstream else upstream)
                else (if d == 0 then upstream else downstream))))
        ⊎ ((d ≤ 1)
            × (normalize ≡ false)
            × (c ≡ cache)
            × Printed p (netflow_direction_word d) (n, q))
  unfolding process_direction
  process_direction_cases normalize in_wan_side p buffer len cache v f =
      let d = net2number buffer len in
      elim (Bool-cases (ltb 1 d)) [
        | inl wrong ↦ inl (ground arith, ground arith, ground arith, ground arith)
        | inr right ↦ elim (Bool-cases normalize) [
          | inl yes_normalize ↦
              inr (inl (ground arith, yes_normalize, ground arith, ground arith, ground arith))
          | inr raw ↦ inr (
              inr (
                ground arith,
                raw,
                ground arith,
                rw (process_direction, right, raw)
                    (unfold print_netflow_direction in
                      string-Printed p (netflow_direction_word d) v (short d right)),
              ))
        ]
      ]
    where
      short : (d : ℕ) → ltb 1 d ≡ false → p.bpos + length (netflow_direction_word d) < 2 ^ 60
      short d h = unfold netflow_direction_word in ground arith
