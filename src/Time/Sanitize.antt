-- ===== src/Time/Sanitize.antt =====
-- Timestamps near the present.
use f2k.Base.{ℕ, ◌+◌, ◌-◌, ◌^◌, ◌≤◌, ◌<◌, ◌≡◌, false, arith}
use f2k.Time.{
  actual_last_timestamp, actual_first_timestamp, FlowTime, sanitize_timestamp, split_times,
}

-- Within ten minutes.
abbrev pub IsNear : ℕ → ℕ → Type 0
IsNear now t = (now ≤ t + 600) × (t ≤ now + 600)

-- Whatever the times of a flow are, if far timestamps are reforged, the domain has no fallback for
-- the first one, and the present is between 600 and 2 ^ 63 seconds, both timestamps of the flow
-- are within ten minutes of the present.
pub split_times-IsNear :
    (time : FlowTime) (now : ℕ)
    → 600 ≤ now
    → now < 2 ^ 63
    → let (last, first) = split_times false 0 time now in IsNear now last × IsNear now first
unfolding split_times sanitize_timestamp
split_times-IsNear time now h hn = ground arith

-- With a fallback of `back` seconds, at most ten minutes, before the last timestamp: if the first
-- timestamp of a flow equals the last one and both are within ten minutes of the present, the
-- first is moved back by `back` and the last is left.
pub split_times_fallback :
    (time : FlowTime) (now back : ℕ)
    → 0 < back
    → back ≤ 600
    → 1200 ≤ now
    → now < 2 ^ 63
    → actual_first_timestamp time now ≡ actual_last_timestamp time now
    → IsNear now (actual_last_timestamp time now)
    → let (last, first) = split_times false (2 ^ 64 - back) time now in
      (last ≡ actual_last_timestamp time now) × (first + back ≡ last)
unfolding split_times sanitize_timestamp
split_times_fallback time now back h hb hn hm same near = ground arith
