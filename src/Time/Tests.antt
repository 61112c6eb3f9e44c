-- ===== src/Time/Tests.antt =====
-- Runs of the time functions, and their theorems at concrete inputs.
use f2k.Printbuf.{sub_size}
use f2k.Base.{
  ℕ, ◌+◌, ◌-◌, ◌*◌, ◌/◌, ◌^◌, ◌≤◌, ◌<◌, min, ◌≡◌, refl, false, some, List, [], ◌∷◌, arith, length,
}
use f2k.Time.Intervals.{
  rb_separate_long_time_flow_reversed, rb_separate_long_time_flow_lem, lost, total_bytes,
}
use f2k.Time.Sanitize.{split_times-IsNear, split_times_fallback, IsNear}
use f2k.Time.{
  intervals_except_first, with_remainder, share, first_share, shortened, Interval,
  actual_last_timestamp, interval_loop, rb_separate_long_time_flow, FlowTime,
  actual_first_timestamp, shares, split_times,
}

-- Exact arithmetic for the scaling.
abbrev exact : ℕ → ℕ → ℕ → ℕ
exact a n d = min a (a * n / d)

exact-le : (a n d : ℕ) → a < 2 ^ 53 → n ≤ d → exact a n d ≤ a
exact-le a n d h l = omega arith

-- 150 seconds give three nodes, the last with 30 seconds' worth.
spreads_bytes :
    rb_separate_long_time_flow exact 62 1000 150 60 60 500 10
    ≡ some (
        record { last_switched = 1120; in_bytes = 100; in_pkts = 2 }
        ∷ record { last_switched = 1060; in_bytes = 200; in_pkts = 4 }
        ∷ record { last_switched = 1000; in_bytes = 200; in_pkts = 4 }
        ∷ [])
unfolding rb_separate_long_time_flow interval_loop shares first_share share with_remainder shortened
    intervals_except_first
spreads_bytes = refl

-- A first timestamp behind the last one makes a duration near 2 ^ 64, and no line at all.
loses_the_flow : rb_separate_long_time_flow exact 62 1000 (2 ^ 64 - 10) 60 60 500 10 ≡ some []
unfolding rb_separate_long_time_flow interval_loop shortened
loses_the_flow = refl

abbrev times : FlowTime
times = record {
  export_timestamp_s = 2000000;
  sys_uptime_s = 5000;
  first_timestamp_s = 0;
  last_timestamp_s = 0;
  first_switched_uptime_s = 4990;
  last_switched_uptime_s = 4990;
}

split_times-IsNear_example :
    let (last, first) = split_times false 0 times 2000000 in
    IsNear 2000000 last × IsNear 2000000 first
split_times-IsNear_example = split_times-IsNear times 2000000 (omega arith) (omega arith)

split_times_fallback_example :
    let (last, first) = split_times false (2 ^ 64 - 60) times 2000000 in
    (last ≡ actual_last_timestamp times 2000000) × (first + 60 ≡ last)
unfolding actual_first_timestamp actual_last_timestamp
split_times_fallback_example =
    split_times_fallback times 2000000 60 (omega arith) (omega arith) (omega arith) (omega arith)
      refl (omega arith)

rb_separate_long_time_flow_lem_example :
    let s = shares exact 150 60 60 500 10 in
    (l : List Interval) × (rb_separate_long_time_flow exact 62 1000 150 60 60 500 10 ≡ some l)
    × (total_bytes l + lost 150 * s.bytes_per_interval ≡ 500)
    × (length l ≡ shortened 150 60 / 60 + 1)
rb_separate_long_time_flow_lem_example =
    rb_separate_long_time_flow_lem exact exact-le 1000 150 500 10 (omega arith) (omega arith)
      (omega arith)

rb_separate_long_time_flow_reversed_example :
    rb_separate_long_time_flow exact 62 1000 (sub_size 990 1000) 60 60 500 10 ≡ some []
rb_separate_long_time_flow_reversed_example =
    rb_separate_long_time_flow_reversed exact 62 990 1000 500 10 (omega arith) (omega arith)
      (omega arith)
