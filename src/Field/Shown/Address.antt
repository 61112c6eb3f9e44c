-- ===== src/Field/Shown/Address.antt =====
-- The functions that print hardware and network addresses.
use f2k.Field.Table.{call}
use f2k.Field.Address.{
  get_direction_based_client_mac, address_bytes, print_flow_cache_address, is_ipv4_mapped,
  process_src_mac, print_ipv4_addr, print_ipv6_src_addr, print_ipv6_dst_addr, process_post_dst_mac,
  process_post_src_mac, print_direction_based_client_mac, print_sta_ipv4_address, process_dst_mac,
  print_wan_addr, print_lan_addr, print_ipv4_dst_addr, print_ipv4_src_addr, print_client_mac,
  process_mac0, print_flow_cache_addr, print_mac, print_ipv6, process_ipv4_addr0,
}
use f2k.Field.Shown.Call.{
  show-ipv6, show-mac, show-nothing, show-ipv4, show-if, IsGood, Shown, Call,
}
use f2k.Printbuf.{Printbuf, Allocator}
use f2k.Field.Shown.Plain.{IsShown}
use f2k.Field.Shown.{
  client_address_of, net2number, target_address_of, process_mac_value, ipv6_value,
  process_ipv4_value, mac_value, Function, address_text, FlowCache, Flow, Databases, value,
}
use f2k.Base.{ℕ, ◌%◌, ◌^◌, inl, inr, not, some, ◌==◌, Bool-cases}
use f2k.Base.Bytes.{Pointer, advance, pointer_to, big_endian}

module _ {heap : Allocator} {db : Databases} {p : Printbuf} {buffer : Pointer} {len : ℕ}
    {cache : Flow} (k : Call heap db p buffer len cache) where
  mac-Shown : Shown p (mac_value buffer len cache) (print_mac heap p buffer len cache)
  unfolding print_mac
  mac-Shown =
      show-if p (not (len == 6)) (show-nothing k cache k.good) (show-mac k buffer cache k.good)

  pub print_mac-Shown : IsShown k Function.print_mac
  unfolding value call
  print_mac-Shown = mac-Shown

  -- A hardware address saved is no text of the cache.
  process_mac-Shown :
      (save : Pointer → ℕ → Flow → Flow)
      → IsGood (save buffer len cache)
      → Shown p
          (process_mac_value db.normalize_directions save buffer len cache)
          (process_mac0 heap db.normalize_directions save p buffer len cache)
  unfolding process_mac0
  process_mac-Shown save g = show-if p db.normalize_directions (show-nothing k _ g) mac-Shown

  pub process_src_mac-Shown : IsShown k Function.process_src_mac
  unfolding value call process_src_mac
  process_src_mac-Shown = process_mac-Shown _ k.good

  pub process_post_src_mac-Shown : IsShown k Function.process_post_src_mac
  unfolding value call process_post_src_mac
  process_post_src_mac-Shown = process_mac-Shown _ k.good

  pub process_dst_mac-Shown : IsShown k Function.process_dst_mac
  unfolding value call process_dst_mac
  process_dst_mac-Shown = process_mac-Shown _ k.good

  pub process_post_dst_mac-Shown : IsShown k Function.process_post_dst_mac
  unfolding value call process_post_dst_mac
  process_post_dst_mac-Shown = process_mac-Shown _ k.good

  pub print_direction_based_client_mac-Shown : IsShown k Function.print_direction_based_client_mac
  unfolding value call print_direction_based_client_mac
  print_direction_based_client_mac-Shown =
      show-if p (not (cache.client_mac == 0)) (show-nothing k cache k.good)
        (show-mac k (pointer_to (get_direction_based_client_mac db.is_span cache)) _ k.good)

  pub print_client_mac-Shown : IsShown k Function.print_client_mac
  unfolding value call print_client_mac
  print_client_mac-Shown = show-if p (not (len == 6)) (show-nothing k cache k.good) (
      show-if p (not (cache.client_mac == 0)) (show-nothing k cache k.good)
        (show-mac k buffer _ k.good))

  ipv4-Shown :
      (save : ℕ → FlowCache → FlowCache)
      → Shown p
          (process_ipv4_value db.normalize_directions save buffer len cache)
          (process_ipv4_addr0 heap db.normalize_directions save p buffer len cache)
  unfolding process_ipv4_addr0 print_ipv4_addr
  ipv4-Shown save =
      show-if p (not db.normalize_directions)
        (show-if p (not (len == 4)) (show-nothing k cache k.good)
          (show-ipv4 k (net2number buffer 4 % 2 ^ 32) cache k.good))
        (show-if p (not (len == 4)) (show-nothing k cache k.good) (show-nothing k _ k.good))

  pub print_ipv4_src_addr-Shown : IsShown k Function.print_ipv4_src_addr
  unfolding value call print_ipv4_src_addr
  print_ipv4_src_addr-Shown = ipv4-Shown _

  pub print_ipv4_dst_addr-Shown : IsShown k Function.print_ipv4_dst_addr
  unfolding value call print_ipv4_dst_addr
  print_ipv4_dst_addr-Shown = ipv4-Shown _

  ipv6-Shown :
      (save : ℕ → FlowCache → FlowCache)
      → Shown p (ipv6_value save buffer len cache) (print_ipv6 heap save p buffer len cache)
  unfolding print_ipv6
  ipv6-Shown save =
      show-if p (not (len == 16)) (show-nothing k cache k.good) (show-ipv6 k buffer _ k.good)

  pub print_ipv6_src_addr-Shown : IsShown k Function.print_ipv6_src_addr
  unfolding value call print_ipv6_src_addr
  print_ipv6_src_addr-Shown = ipv6-Shown _

  pub print_ipv6_dst_addr-Shown : IsShown k Function.print_ipv6_dst_addr
  unfolding value call print_ipv6_dst_addr
  print_ipv6_dst_addr-Shown = ipv6-Shown _

  pub print_sta_ipv4_address-Shown : IsShown k Function.print_sta_ipv4_address
  unfolding value call print_sta_ipv4_address
  print_sta_ipv4_address-Shown =
      show-if p (not (len == 4)) (show-nothing k cache k.good)
        (show-ipv4 k (net2number buffer len % 2 ^ 32) _ k.good)

  pub address-Shown :
      (address : ℕ)
      → let (n, q) = print_flow_cache_addr heap p address in
        Shown p (address_text address, cache) (some (n, q, cache))
  unfolding print_flow_cache_addr address_text
  address-Shown address = elim (Bool-cases (is_ipv4_mapped address)) [
    | inl mapped ↦
        rw mapped (show-ipv4 k (big_endian 4 (advance (address_bytes address) 12)) cache k.good)
    | inr other ↦ rw other (show-ipv6 k (address_bytes address) cache k.good)
  ]

  pub print_lan_addr-Shown : IsShown k Function.print_lan_addr
  unfolding value call print_lan_addr print_flow_cache_address
  print_lan_addr-Shown =
      show-if p (not db.normalize_directions) (show-nothing k cache k.good)
        (address-Shown (client_address_of cache))

  pub print_wan_addr-Shown : IsShown k Function.print_wan_addr
  unfolding value call print_wan_addr print_flow_cache_address
  print_wan_addr-Shown = address-Shown (target_address_of cache)
