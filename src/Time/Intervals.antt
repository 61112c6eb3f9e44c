-- ===== src/Time/Intervals.antt =====
-- What is left of the bytes of a long flow. The intervals are those of `time_split_flow`: at most 60,
-- of 60 seconds.
use native.Mathlib.Nat.{div-mul-le_self}
use f2k.Base.{
  ℕ, zero, suc, ◌+◌, ◌-◌, ◌*◌, ◌/◌, ◌%◌, ◌^◌, ◌≤◌, ◌<◌, ◌≡◌, ap, ◌∙◌, inl, inr, true, false, ◌&&◌,
  some, List, [], ◌∷◌, arith, ltb, leb, ◌==◌, if◌then◌else◌, Bool-cases, length,
}
use f2k.Printbuf.{add_size, sub_size}
use f2k.Time.{
  intervals_except_first, shortened, with_remainder, shares, first_share, share,
  rb_separate_long_time_flow, Shares, Interval, interval_loop,
}

unfoldable pub total_bytes : List Interval → ℕ
total_bytes [] = 0
total_bytes (n ∷ nodes) = n.in_bytes + total_bytes nodes

-- Each node is put in front, `q` of them with an equal share, and one with the rest.
interval_loop_lem :
    (fuel q r : ℕ) (s : Shares) (end current : ℕ) (nodes : List Interval)
    → end ≡ current + 60 * q + r
    → r < 60
    → q + 2 ≤ fuel
    → end + 60 < 2 ^ 64
    → (l : List Interval) × (interval_loop fuel s end 60 current nodes ≡ some l)
      × (total_bytes l ≡ total_bytes nodes + q * s.bytes_per_interval + s.first_interval_bytes)
      × (length l ≡ length nodes + q + 1)
unfolding interval_loop total_bytes
interval_loop_lem zero q r s end current nodes he hr hf hm = absurd (omega arith)
interval_loop_lem (suc zero) q r s end current nodes he hr hf hm = absurd (omega arith)
interval_loop_lem (suc (suc fuel)) zero r s end current nodes he hr hf hm =
    let node : Interval = record {
      last_switched = current;
      in_bytes = s.first_interval_bytes;
      in_pkts = s.first_interval_pkts;
    } in
    (node ∷ nodes, ground arith, omega arith, omega arith)
interval_loop_lem (suc (suc fuel)) (suc q) r s end current nodes he hr hf hm =
    let node : Interval = record {
      last_switched = current;
      in_bytes = s.bytes_per_interval;
      in_pkts = s.packets_per_interval;
    } in
    let (l, e, t, n) =
      interval_loop_lem (suc fuel) q r s end (current + 60) (node ∷ nodes) (omega arith) hr
        (omega arith) hm in
    let next : (current + 60) % 2 ^ 64 ≡ current + 60 = omega arith in
    let more : leb current end ≡ true = ground arith in
    let inner : ltb end (current + 60) ≡ false = ground arith in
    (l, rw (next, more, inner) e, omega (arith, t), omega (arith, n))

-- The equal parts, with the rest, are all there is.
share_all :
    (total first n : ℕ)
    → first ≤ total
    → total < 2 ^ 53
    → n * share total first n + with_remainder total first n ≡ total
unfolding share with_remainder
share_all total first n h ht =
    let x : sub_size total first ≡ total - first = omega arith in
    elim (Bool-cases (ltb 0 n)) [
      | inr nought ↦ ground arith
      | inl many ↦
          let small : (total - first) / n * n ≤ total - first = div-mul-le_self (total - first) n in
          rw (x, many) (omega (arith, small))
    ]

-- How many equal parts of the bytes get lost.
unfoldable pub lost : ℕ → ℕ
lost d_switched = if ltb 0 d_switched && d_switched % 60 == 0 then 1 else 0

shortened-le : (d : ℕ) → shortened d 60 ≤ d
shortened-le d = unfold shortened in ground arith

counted_parts : (d : ℕ) → d < 3660 → intervals_except_first d 60 60 ≡ shortened d 60 / 60 + lost d
unfolding intervals_except_first shortened lost
counted_parts d h = ground arith

distributes : (n q k per : ℕ) → n ≡ q + k → n * per ≡ q * per + k * per
distributes n q k per e = ap (λ (t : ℕ). t * per) e ∙ omega arith

module _ (scale : ℕ → ℕ → ℕ → ℕ)
    (scale_le : (a n d : ℕ) → a < 2 ^ 53 → n ≤ d → scale a n d ≤ a) where
  first_share-le : (total d : ℕ) → total < 2 ^ 53 → first_share scale total d 60 ≤ total
  unfolding first_share
  first_share-le total d h = ground (arith, scale_le total (d % 60) d h (omega arith))

  -- A flow of less than 61 minutes and 2 ^ 53 bytes is spread over one node for each minute of its
  -- shortened duration that is begun, and the loop ends. The bytes of the nodes are all its bytes
  -- if its duration is no multiple of a minute; if it is, one equal part is lost, since the number
  -- of parts was taken before the duration was shortened by a second.
  pub rb_separate_long_time_flow_lem :
      (first_timestamp d_switched bytes pkts : ℕ)
      → first_timestamp < 2 ^ 63
      → d_switched < 3660
      → bytes < 2 ^ 53
      → let s = shares scale d_switched 60 60 bytes pkts in
        (l : List Interval) × (rb_separate_long_time_flow scale 62 first_timestamp d_switched 60 60
            bytes pkts
          ≡ some l)
        × (total_bytes l + lost d_switched * s.bytes_per_interval ≡ bytes)
        × (length l ≡ shortened d_switched 60 / 60 + 1)
  unfolding rb_separate_long_time_flow shares total_bytes
  rb_separate_long_time_flow_lem first_timestamp d bytes pkts hf hd hb =
      let s = shares scale d 60 60 bytes pkts in
      let d' = shortened d 60 in
      let q = d' / 60 in
      let small = shortened-le d in
      let n = intervals_except_first d 60 60 in
      let end : (first_timestamp + d') % 2 ^ 64 ≡ first_timestamp + d' = omega arith in
      let (l, e, t, k) =
        interval_loop_lem 62 q (d' % 60) s (first_timestamp + d') first_timestamp [] (omega arith)
          (omega arith) (omega arith) (omega arith) in
      let all = share_all bytes (first_share scale bytes d' 60) n (first_share-le bytes d' hb) hb in
      let parts = distributes n q (lost d) s.bytes_per_interval (counted_parts d hd) in
      (
        l,
        ap (λ z. interval_loop 62 s z 60 first_timestamp []) end ∙ e,
        omega (arith, t, all, parts),
        omega (arith, k),
      )

-- If the first timestamp is behind the last one, which sanitizing each for itself allows, the
-- duration wraps and the flow gives no node at all: it is lost.
pub rb_separate_long_time_flow_reversed :
    (scale : ℕ → ℕ → ℕ → ℕ) (fuel last first bytes pkts : ℕ)
    → 0 < last
    → last < first
    → first < 2 ^ 63
    → rb_separate_long_time_flow scale fuel first (sub_size last first) 60 60 bytes pkts ≡ some []
unfolding rb_separate_long_time_flow
rb_separate_long_time_flow_reversed scale fuel last first bytes pkts hl h hf =
    let over : leb first ((first + shortened ((last + 2 ^ 64 - first) % 2 ^ 64) 60) % 2 ^ 64)
        ≡ false =
      before last first hl h hf in
    stops fuel (shares scale (sub_size last first) 60 60 bytes pkts)
      (add_size first (shortened (sub_size last first) 60)) first over
  where
    before :
        (last first : ℕ)
        → 0 < last
        → last < first
        → first < 2 ^ 63
        → leb first (add_size first (shortened (sub_size last first) 60)) ≡ false
    before last first hl h hf = unfold shortened in ground arith

    stops :
        (fuel : ℕ) (s : Shares) (end first : ℕ)
        → leb first end ≡ false
        → interval_loop fuel s end 60 first [] ≡ some []
    stops zero s end first h = unfold interval_loop in ground arith
    stops (suc fuel) s end first h = unfold interval_loop in ground arith
