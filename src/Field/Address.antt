-- ===== src/Field/Address.antt =====
-- src/export.c: the functions that print addresses, and the networks and countries they lie in.
use f2k.Escape.{printbuf_memappend_fast_n16}
use f2k.Field.Saved.{save_mac}
use f2k.Field.{printbuf_memappend_fast, ExportFn}
use f2k.Direction.{
  address_at, Place, get_client_endpoint, get_direction_based_target_ip,
  get_direction_based_client_ip, FlowCache,
}
use f2k.Field.Cache.{Flow}
use f2k.Printbuf.{Printbuf, Allocator}
use f2k.Number.{intoa_v4, net2number}
use f2k.Base.{
  Option, ◌>>=◌, ℕ, zero, suc, ◌+◌, ◌-◌, ◌*◌, ◌/◌, ◌%◌, ◌^◌, Bool, not, ◌||◌, bit_and, some, List,
  [], ◌∷◌, ltb, ◌==◌, if◌then◌else◌, length,
}
use f2k.Base.Bytes.{Pointer, advance, pointer_to, big_endian}

-- The 16 bytes of an address.
unfoldable pub address_bytes : ℕ → Pointer
address_bytes address i = if ltb i 16 then address / 256 ^ (15 - i) % 256 else 0

-- `ipv4buf_to_6`
unfoldable pub ipv4buf_to_6 : Pointer → ℕ
ipv4buf_to_6 buffer = 0xffff * 2 ^ 32 + big_endian 4 buffer

unfoldable pub is_ipv4_mapped : ℕ → Bool
is_ipv4_mapped address = address / 2 ^ 32 == 0xffff

unfoldable pub is_private_v4 : ℕ → Bool
is_private_v4 ipv4 =
    (bit_and ipv4 0xff000000 == 0x0a000000)
    || (bit_and ipv4 0xfff00000 == 0xac100000)
    || (bit_and ipv4 0xffff0000 == 0xc0a80000)

unfoldable pub is_private_v6 : ℕ → Bool
is_private_v6 address = bit_and (address_bytes address 0) 0x30 == 0x20

unfoldable pub ipv6_to_v4 : ℕ → ℕ
ipv6_to_v4 address = net2number (advance (address_bytes address) 12) 4

unfoldable pub is_private : ℕ → Bool
is_private address =
    if is_ipv4_mapped address then is_private_v4 (ipv6_to_v4 address) else is_private_v6 address

unfoldable pub get_direction_based_client_mac : Bool → Flow → List ℕ
get_direction_based_client_mac is_span cache =
    get_client_endpoint cache.base.direction cache.src_mac
      (if is_span then cache.dst_mac else cache.post_dst_mac)

module _ (heap : Allocator) where
  abbrev append : Printbuf → List ℕ → Printbuf
  append = printbuf_memappend_fast heap

  -- The loop of `print_mac0`, with `n` bytes left.
  unfoldable pub mac_loop : ℕ → Pointer → Printbuf → Printbuf
  mac_loop zero buffer p = p
  mac_loop (suc n) buffer p =
      let q = printbuf_memappend_fast_n16 heap p (buffer 0) in
      mac_loop n (advance buffer 1) (if n == 0 then q else append q (b':' ∷ []))

  unfoldable pub print_mac0 : Printbuf → Pointer → ℕ × Printbuf
  print_mac0 p buffer = (17, mac_loop 6 buffer p)

  unfoldable pub print_mac : ExportFn Flow
  print_mac p buffer len cache =
      let (n, q) = print_mac0 p buffer in
      if not (len == 6) then some (0, p, cache) else some (n, q, cache)

  -- `process_mac0`; `save_mac_in` stores into the address that the caller names.
  unfoldable pub process_mac0 : Bool → (Pointer → ℕ → Flow → Flow) → ExportFn Flow
  process_mac0 normalize_directions save_mac_in p buffer len cache =
      let printed = print_mac p buffer len cache in
      if normalize_directions then some (0, p, save_mac_in buffer len cache) else printed

  unfoldable pub process_src_mac : Bool → ExportFn Flow
  process_src_mac normalize_directions =
      process_mac0 normalize_directions
        (λ buffer len cache. record cache { src_mac = save_mac cache.src_mac buffer len })

  unfoldable pub process_post_src_mac : Bool → ExportFn Flow
  process_post_src_mac normalize_directions =
      process_mac0 normalize_directions
        (λ buffer len cache. record cache { post_src_mac = save_mac cache.post_src_mac buffer len })

  unfoldable pub process_dst_mac : Bool → ExportFn Flow
  process_dst_mac normalize_directions =
      process_mac0 normalize_directions
        (λ buffer len cache. record cache { dst_mac = save_mac cache.dst_mac buffer len })

  unfoldable pub process_post_dst_mac : Bool → ExportFn Flow
  process_post_dst_mac normalize_directions =
      process_mac0 normalize_directions
        (λ buffer len cache. record cache { post_dst_mac = save_mac cache.post_dst_mac buffer len })

  unfoldable pub print_direction_based_client_mac : Bool → ExportFn Flow
  print_direction_based_client_mac is_span p buffer len cache =
      let mac = pointer_to (get_direction_based_client_mac is_span cache) in
      let (n, q) = print_mac0 p mac in
      if not (cache.client_mac == 0)
      then some (0, p, cache)
      else some (n, q, record cache { client_mac = net2number mac 6 })

  unfoldable pub print_client_mac : ExportFn Flow
  print_client_mac p buffer len cache =
      let (n, q) = print_mac0 p buffer in
      if not (len == 6)
      then some (0, p, cache)
      else if not (cache.client_mac == 0)
      then some (0, p, cache)
      else some (n, q, record cache { client_mac = net2number buffer 6 })

  unfoldable pub print_ipv4_addr0 : Printbuf → ℕ → ℕ × Printbuf
  print_ipv4_addr0 p ipv4 = let text = intoa_v4 ipv4 in (length text, append p text)

  -- The loop of `print_ipv6_addr0`, with `n` groups left.
  unfoldable pub ipv6_loop : ℕ → Pointer → Printbuf → Printbuf
  ipv6_loop zero buffer p = p
  ipv6_loop (suc n) buffer p =
      let q =
        printbuf_memappend_fast_n16 heap (printbuf_memappend_fast_n16 heap p (buffer 0))
          (buffer 1) in
      ipv6_loop n (advance buffer 2) (if n == 0 then q else append q (b':' ∷ []))

  unfoldable pub print_ipv6_addr0 : Printbuf → Pointer → ℕ × Printbuf
  print_ipv6_addr0 p buffer = (39, ipv6_loop 8 buffer p)

  unfoldable pub print_ipv4_addr : ExportFn Flow
  print_ipv4_addr p buffer len cache =
      let (n, q) = print_ipv4_addr0 p (net2number buffer 4 % 2 ^ 32) in
      if not (len == 4) then some (0, p, cache) else some (n, q, cache)

  -- `process_ipv4_addr0`; `save_in` stores into the address that the caller names.
  unfoldable pub process_ipv4_addr0 : Bool → (ℕ → FlowCache → FlowCache) → ExportFn Flow
  process_ipv4_addr0 normalize_directions save_in p buffer len cache =
      let printed = print_ipv4_addr p buffer len cache in
      if not normalize_directions
      then printed
      else if not (len == 4)
      then some (0, p, cache)
      else some (0, p, record cache { base = save_in (ipv4buf_to_6 buffer) cache.base })

  unfoldable pub print_ipv4_src_addr : Bool → ExportFn Flow
  print_ipv4_src_addr normalize_directions =
      process_ipv4_addr0 normalize_directions
        (λ address base. record base { src_address = address })

  unfoldable pub print_ipv4_dst_addr : Bool → ExportFn Flow
  print_ipv4_dst_addr normalize_directions =
      process_ipv4_addr0 normalize_directions
        (λ address base. record base { dst_address = address })

  -- `print_ipv6`; `save_in` stores into the address that the caller names.
  unfoldable pub print_ipv6 : (ℕ → FlowCache → FlowCache) → ExportFn Flow
  print_ipv6 save_in p buffer len cache =
      let (n, q) = print_ipv6_addr0 p buffer in
      if not (len == 16)
      then some (0, p, cache)
      else some (n, q, record cache { base = save_in (big_endian 16 buffer) cache.base })

  unfoldable pub print_ipv6_src_addr : ExportFn Flow
  print_ipv6_src_addr = print_ipv6 (λ address base. record base { src_address = address })

  unfoldable pub print_ipv6_dst_addr : ExportFn Flow
  print_ipv6_dst_addr = print_ipv6 (λ address base. record base { dst_address = address })

  unfoldable pub print_sta_ipv4_address : ExportFn Flow
  print_sta_ipv4_address p buffer len cache =
      let client = cache.base.client_address / 2 ^ 48 * 2 ^ 48 + ipv4buf_to_6 buffer in
      let (n, q) = print_ipv4_addr0 p (net2number buffer len % 2 ^ 32) in
      if not (len == 4)
      then some (0, p, cache)
      else some (n, q, record cache { base = record cache.base { client_address = client } })

  unfoldable pub print_flow_cache_addr : Printbuf → ℕ → ℕ × Printbuf
  print_flow_cache_addr p address =
      if is_ipv4_mapped address
      then print_ipv4_addr0 p (big_endian 4 (advance (address_bytes address) 12))
      else print_ipv6_addr0 p (address_bytes address)

  -- `print_flow_cache_address`: the callback is not given a null pointer.
  unfoldable pub print_flow_cache_address :
      (FlowCache → Place) → (Printbuf → ℕ → Option (ℕ × Printbuf)) → ExportFn Flow
  print_flow_cache_address get_addr_cb print_addr_cb p buffer len cache = do
    (n, q) ← print_addr_cb p (address_at cache.base (get_addr_cb cache.base))
    some (n, q, cache)

  unfoldable pub print_lan_addr : Bool → ExportFn Flow
  print_lan_addr normalize_directions p buffer len cache =
      let printed =
        print_flow_cache_address get_direction_based_client_ip
          (λ p address. some (print_flow_cache_addr p address)) p buffer len cache in
      if not normalize_directions then some (0, p, cache) else printed

  unfoldable pub print_wan_addr : ExportFn Flow
  print_wan_addr =
      print_flow_cache_address get_direction_based_target_ip
        (λ p address. some (print_flow_cache_addr p address))
