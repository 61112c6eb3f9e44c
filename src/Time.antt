-- ===== src/Time.antt =====
-- The time of a flow: `sanitize_timestamp` and the timestamps of `time_split_flow` in src/collect.c,
-- and `rb_separate_long_time_flow` of src/export.c, which spreads a long flow over intervals. The
-- printing into the nodes of the list is left out, and allocation is taken to succeed.
pub mod Sanitize
pub mod Intervals
mod Tests
use f2k.Base.{
  ℕ, zero, suc, ◌-◌, ◌/◌, ◌%◌, ◌^◌, Bool, not, ◌&&◌, ◌||◌, Option, none, some, List, [], ◌∷◌, ltb,
  leb, ◌==◌, if◌then◌else◌,
}
use f2k.Printbuf.{mul_size, sub_size, add_size}

-- `struct sanitize_timestamp_args`; `fallback_first_switched_s` is the bit pattern of an `int64_t`.
pub record SanitizeArgs : Type 0 where
  pub timestamp : ℕ
  pub now : ℕ
  pub low_limit : ℕ
  pub upper_limit : ℕ
  pub last_timestamp_s : ℕ
  pub fallback_first_switched_s : ℕ

unfoldable pub sanitize_timestamp : Bool → SanitizeArgs → ℕ
sanitize_timestamp dont_reforge_far_timestamp args =
    let too_future = ltb args.upper_limit args.timestamp in
    let too_past = ltb args.timestamp args.low_limit in
    if (too_future || too_past) && not dont_reforge_far_timestamp
    then args.now
    else if not (args.fallback_first_switched_s == 0) && args.timestamp == args.last_timestamp_s
    then add_size args.timestamp args.fallback_first_switched_s
    else args.timestamp

-- `flowCache->time`
pub record FlowTime : Type 0 where
  pub export_timestamp_s : ℕ
  pub sys_uptime_s : ℕ
  pub first_timestamp_s : ℕ
  pub last_timestamp_s : ℕ
  pub first_switched_uptime_s : ℕ
  pub last_switched_uptime_s : ℕ

abbrev pub is_set : ℕ → Bool
is_set x = not (x == 0)

-- `export_timestamp_s`, by default the current time
abbrev export_time : FlowTime → ℕ → ℕ
export_time time now = if time.export_timestamp_s == 0 then now else time.export_timestamp_s

unfoldable pub actual_last_timestamp : FlowTime → ℕ → ℕ
actual_last_timestamp time now =
    if is_set time.last_timestamp_s
    then time.last_timestamp_s
    else if is_set time.sys_uptime_s && is_set time.last_switched_uptime_s
    then add_size (sub_size (export_time time now) time.sys_uptime_s) time.last_switched_uptime_s
    else export_time time now

unfoldable pub actual_first_timestamp : FlowTime → ℕ → ℕ
actual_first_timestamp time now =
    if is_set time.first_timestamp_s
    then time.first_timestamp_s
    else if is_set time.sys_uptime_s && is_set time.first_switched_uptime_s
    then add_size (sub_size (export_time time now) time.sys_uptime_s) time.first_switched_uptime_s
    else add_size (sub_size (export_time time now) time.last_switched_uptime_s)
        time.first_switched_uptime_s

-- `last_timestamp_s` and `first_timestamp_s` of `time_split_flow`.
unfoldable pub split_times : Bool → ℕ → FlowTime → ℕ → ℕ × ℕ
split_times dont_reforge_far_timestamp fallback time now =
    let last = sanitize_timestamp dont_reforge_far_timestamp (record {
      timestamp = actual_last_timestamp time now;
      now = now;
      low_limit = sub_size now 600;
      upper_limit = add_size now 600;
      last_timestamp_s = 0;
      fallback_first_switched_s = 0;
    }) in
    let first = sanitize_timestamp dont_reforge_far_timestamp (record {
      timestamp = actual_first_timestamp time now;
      now = now;
      low_limit = sub_size now 600;
      upper_limit = add_size now 600;
      last_timestamp_s = last;
      fallback_first_switched_s = fallback;
    }) in
    (last, first)

-- One node of the list: `PRINT_LAST_SWITCHED`, `PRINT_IN_BYTES` and `PRINT_IN_PKTS`.
pub record Interval : Type 0 where
  pub last_switched : ℕ
  pub in_bytes : ℕ
  pub in_pkts : ℕ

-- What is given to every interval but the last, and to the last.
pub record Shares : Type 0 where
  pub bytes_per_interval : ℕ
  pub packets_per_interval : ℕ
  pub first_interval_bytes : ℕ
  pub first_interval_pkts : ℕ

-- `n_intervals_except_first`, an `unsigned`
unfoldable pub intervals_except_first : ℕ → ℕ → ℕ → ℕ
intervals_except_first d_switched d_interval max_intervals =
    let n = d_switched / d_interval % 2 ^ 32 in
    if ltb max_intervals n then sub_size max_intervals 1 % 2 ^ 32 else n

-- "Avoiding flows with 0 pkts/bytes"
unfoldable pub shortened : ℕ → ℕ → ℕ
shortened d_switched d_interval =
    if ltb 0 d_switched && d_switched % d_interval == 0 then d_switched - 1 else d_switched

-- An equal part of what the first interval leaves, and the remainder for it.
unfoldable pub share : ℕ → ℕ → ℕ → ℕ
share total first n = if ltb 0 n then sub_size total first / n else 0

unfoldable pub with_remainder : ℕ → ℕ → ℕ → ℕ
with_remainder total first n =
    add_size first (sub_size (sub_size total first) (mul_size (share total first n) n))

-- `scale a n d` is `a * ((double)n / d)`, cut to a `uint64_t`; `a * 1.0` is exact below 2 ^ 53.
module _ (scale : ℕ → ℕ → ℕ → ℕ) where
  unfoldable pub first_share : ℕ → ℕ → ℕ → ℕ
  first_share total d d_interval = if d == 0 then total else scale total (d % d_interval) d

  unfoldable pub shares : ℕ → ℕ → ℕ → ℕ → ℕ → Shares
  shares d_switched d_interval max_intervals bytes pkts =
      let n = intervals_except_first d_switched d_interval max_intervals in
      let d = shortened d_switched d_interval in
      record {
        bytes_per_interval = share bytes (first_share bytes d d_interval) n;
        packets_per_interval = share pkts (first_share pkts d d_interval) n;
        first_interval_bytes = with_remainder bytes (first_share bytes d d_interval) n;
        first_interval_pkts = with_remainder pkts (first_share pkts d d_interval) n;
      }

-- The `while` loop: a node goes in front of the list. `none` means that the fuel ran out.
unfoldable pub interval_loop : ℕ → Shares → ℕ → ℕ → ℕ → List Interval → Option (List Interval)
interval_loop zero s end d_interval current nodes = if leb current end then none else some nodes
interval_loop (suc fuel) s end d_interval current nodes =
    let next = add_size current d_interval in
    let is_last = ltb end next in
    let node : Interval = record {
      last_switched = current;
      in_bytes = if is_last then s.first_interval_bytes else s.bytes_per_interval;
      in_pkts = if is_last then s.first_interval_pkts else s.packets_per_interval;
    } in
    let rest = interval_loop fuel s end d_interval next (node ∷ nodes) in
    if leb current end then rest else some nodes

unfoldable pub rb_separate_long_time_flow :
    (ℕ → ℕ → ℕ → ℕ) → ℕ → ℕ → ℕ → ℕ → ℕ → ℕ → ℕ → Option (List Interval)
rb_separate_long_time_flow scale fuel first_timestamp d_switched d_interval max_intervals bytes
      pkts =
    interval_loop fuel (shares scale d_switched d_interval max_intervals bytes pkts)
      (add_size first_timestamp (shortened d_switched d_interval)) d_interval first_timestamp []
