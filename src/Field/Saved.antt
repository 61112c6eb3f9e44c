-- ===== src/Field/Saved.antt =====
-- src/export.c: the functions that print nothing and save a field in the flow cache.
use f2k.Number.{net2number}
use f2k.Field.Cache.{Flow}
use f2k.Field.{Printbuf, ExportFn}
use f2k.Base.{ℕ, ◌-◌, ◌/◌, ◌%◌, ◌^◌, Option, some, List, ltb, ◌==◌, if◌then◌else◌}
use f2k.Base.Bytes.{Pointer, read_bytes}

abbrev saved : Flow → Printbuf → Option (ℕ × Printbuf × Flow)
saved cache p = some (0, p, cache)

unfoldable pub save_first_second : ExportFn Flow
save_first_second p buffer len cache =
    saved (record cache { first_timestamp_s = net2number buffer len }) p

unfoldable pub save_last_second : ExportFn Flow
save_last_second p buffer len cache =
    saved (record cache { last_timestamp_s = net2number buffer len }) p

-- The uptime is in milliseconds.
unfoldable pub save_x_switched : Pointer → ℕ → ℕ
save_x_switched buffer len = net2number buffer len / 1000

unfoldable pub save_first_switched : ExportFn Flow
save_first_switched p buffer len cache =
    saved (record cache { first_switched_uptime_s = save_x_switched buffer len }) p

unfoldable pub save_last_switched : ExportFn Flow
save_last_switched p buffer len cache =
    saved (record cache { last_switched_uptime_s = save_x_switched buffer len }) p

unfoldable pub save_flow_bytes : ExportFn Flow
save_flow_bytes p buffer len cache = saved (record cache { bytes = net2number buffer len }) p

unfoldable pub save_flow_pkts : ExportFn Flow
save_flow_pkts p buffer len cache = saved (record cache { packets = net2number buffer len }) p

-- The memory of a `uint64_t` that `htonll` put in network order.
unfoldable pub be_number : ℕ → Pointer
be_number n i = if ltb i 8 then n / 256 ^ (7 - i) % 256 else 0

unfoldable pub callback_mili_buffer : ExportFn Flow → ExportFn Flow
callback_mili_buffer cb p buffer len cache = cb p (be_number (net2number buffer len)) 8 cache

unfoldable pub save_first_msecond : ExportFn Flow
save_first_msecond = callback_mili_buffer save_first_second

unfoldable pub save_last_msecond : ExportFn Flow
save_last_msecond = callback_mili_buffer save_last_second

-- `save_mac`: the address of another length is not kept.
unfoldable pub save_mac : List ℕ → Pointer → ℕ → List ℕ
save_mac dst buffer len = if len == 6 then read_bytes 6 buffer else dst
