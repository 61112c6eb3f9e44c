-- ===== src/Field/Plain.antt =====
-- src/export.c: the functions that print a number, a text of the record, or the flags of TCP.
use f2k.Number.{printbuf_memappend_fast_n10, net2number}
use f2k.Field.Cache.{Flow}
use f2k.Direction.{
  print_flow_cache_direction, print_biflow_direction, print_flow_end_reason,
  get_direction_based_target_port, get_direction_based_client_port, FlowCache,
}
use f2k.Field.{printbuf_memappend_fast, ExportFn}
use f2k.Printbuf.{sub_size, Printbuf, Allocator}
use f2k.Base.{
  ◌>>=◌, ℕ, zero, suc, ◌-◌, ◌%◌, ◌^◌, Bool, not, ◌&&◌, bit_and, Option, some, List, [], ◌∷◌, ◌==◌,
  if◌then◌else◌,
}
use f2k.Base.Bytes.{Pointer, advance, read_bytes}

-- What `flag_id_char` says of the flags left, from bit `7 - i` down: its letter, or a dot.
unfoldable pub flags_text : ℕ → ℕ → List ℕ → List ℕ
flags_text tcp_flags i [] = []
flags_text tcp_flags i (c ∷ cs) =
    (if bit_and tcp_flags (2 ^ (7 - i)) == 0 then b'.' else c) ∷ flags_text tcp_flags (suc i) cs

-- "CEUAPRSF"
abbrev pub flag_id_char : List ℕ
flag_id_char = b'C' ∷ b'E' ∷ b'U' ∷ b'A' ∷ b'P' ∷ b'R' ∷ b'S' ∷ b'F' ∷ []

-- "netflowv"
abbrev pub type_msg : List ℕ
type_msg = b'n' ∷ b'e' ∷ b't' ∷ b'f' ∷ b'l' ∷ b'o' ∷ b'w' ∷ b'v' ∷ []

-- `strnlen`
unfoldable pub strnlen : Pointer → ℕ → ℕ
strnlen s zero = 0
strnlen s (suc maxlen) = let rest = strnlen (advance s 1) maxlen in if s 0 == 0 then 0 else suc rest

module _ (heap : Allocator) where
  -- The number as text, for a function with `cache`.
  abbrev pub print_n10 : ℕ → Printbuf → Flow → Option (ℕ × Printbuf × Flow)
  print_n10 value p cache = do (n, q) ← printbuf_memappend_fast_n10 heap p value; some (n, q, cache)

  unfoldable pub print_string : ExportFn Flow
  print_string p buffer len cache =
      let q = printbuf_memappend_fast heap p (read_bytes len buffer) in
      some (sub_size q.bpos p.bpos, q, cache)

  unfoldable pub print_number : ExportFn Flow
  print_number p buffer len cache = print_n10 (net2number buffer len) p cache

  unfoldable pub print_netflow_type : ExportFn Flow
  print_netflow_type p buffer len cache = do
    (n, q) ←
        printbuf_memappend_fast_n10 heap (printbuf_memappend_fast heap p type_msg)
          (net2number buffer len)
    some (sub_size q.bpos p.bpos, q, cache)

  unfoldable pub print_tcp_flags : ExportFn Flow
  print_tcp_flags p buffer len cache =
      let tcp_flags = if len == 1 then buffer 0 else buffer 1 in
      let q = printbuf_memappend_fast heap p (flags_text tcp_flags 0 flag_id_char) in
      if not (len == 1) && not (len == 2)
      then some (0, p, cache)
      else if tcp_flags == 0
      then some (0, p, cache)
      else some (sub_size q.bpos p.bpos, q, cache)

  unfoldable pub print_ssid_name0 : Printbuf → Pointer → ℕ → ℕ × Printbuf
  print_ssid_name0 p buffer len =
      let n = strnlen buffer (len % 2 ^ 16) in
      (n, printbuf_memappend_fast heap p (read_bytes n buffer))

  unfoldable pub print_ssid_name : ExportFn Flow
  print_ssid_name p buffer len cache =
      let (n, q) = print_ssid_name0 p buffer len in some (n, q, cache)

  -- `save_port` stores into the port that the caller names.
  unfoldable pub process_port0 : Bool → (ℕ → FlowCache → FlowCache) → ExportFn Flow
  process_port0 normalize_directions save_port p buffer len cache =
      let port = net2number buffer len % 2 ^ 16 in
      let printed = print_n10 port p cache in
      if not (len == 2)
      then some (0, p, cache)
      else if normalize_directions
      then some (0, p, record cache { base = save_port port cache.base })
      else printed

  unfoldable pub process_src_port : Bool → ExportFn Flow
  process_src_port normalize_directions =
      process_port0 normalize_directions (λ port base. record base { src_port = port })

  unfoldable pub process_dst_port : Bool → ExportFn Flow
  process_dst_port normalize_directions =
      process_port0 normalize_directions (λ port base. record base { dst_port = port })

  unfoldable pub print_flow_cache_number : (FlowCache → ℕ) → ExportFn Flow
  print_flow_cache_number get_number_cb p buffer len cache =
      print_n10 (get_number_cb cache.base % 2 ^ 64) p cache

  unfoldable pub print_lan_port : ExportFn Flow
  print_lan_port = print_flow_cache_number get_direction_based_client_port

  unfoldable pub print_wan_port : ExportFn Flow
  print_wan_port = print_flow_cache_number get_direction_based_target_port

  -- The functions of the direction, on this cache.
  unfoldable pub print_flow_end_reason_fn : ExportFn Flow
  print_flow_end_reason_fn p buffer len cache =
      let (n, q) = print_flow_end_reason heap p buffer in some (n, q, cache)

  unfoldable pub print_biflow_direction_fn : ExportFn Flow
  print_biflow_direction_fn p buffer len cache =
      let (n, q) = print_biflow_direction heap p buffer in some (n, q, cache)

  unfoldable pub print_flow_cache_direction_fn : ExportFn Flow
  print_flow_cache_direction_fn p buffer len cache =
      let (n, q) = print_flow_cache_direction heap p cache.base in some (n, q, cache)
