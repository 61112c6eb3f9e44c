-- ===== src/Field/Names.antt =====
-- src/export.c: the functions that print a name out of a table: networks, hardware vendors,
-- applications, countries and autonomous systems.
use f2k.Escape.{printbuf_memappend_fast_n16, append_escaped}
use f2k.Direction.{
  get_direction_based_client_ip, get_direction_based_target_ip, printbuf_memappend_fast_string,
  print_known_word,
}
use f2k.Field.{ExportFn}
use f2k.Field.Address.{
  ipv6_to_v4, print_mac0, ipv4buf_to_6, print_flow_cache_address, get_direction_based_client_mac,
  is_ipv4_mapped, is_private,
}
use f2k.Number.{printbuf_memappend_fast_n10, net2number}
use f2k.Field.Cache.{Flow, Databases}
use f2k.Printbuf.{printbuf_memappend_fast, Printbuf, Allocator}
use f2k.Base.{
  ◌>>=◌, ℕ, zero, suc, ◌+◌, ◌%◌, ◌^◌, not, ◌&&◌, bit_and, Option, none, some, List, [], ◌∷◌, ltb,
  ◌==◌, if◌then◌else◌,
}
use f2k.Base.Bytes.{Pointer, advance, pointer_to, big_endian}

unfoldable pub get_direction_based_client_hostname : Flow → Option (List ℕ)
get_direction_based_client_hostname cache = elim cache.client_name [
  | some name ↦ some name
  | none ↦ cache.client_name_cache
]

unfoldable pub get_direction_based_target_hostname : Flow → Option (List ℕ)
get_direction_based_target_hostname cache = elim cache.target_name [
  | some name ↦ some name
  | none ↦ cache.target_name_cache
]

module _ (db : Databases) where
  -- `print_mac_vendor0`
  unfoldable pub mac_vendor_of : Pointer → Option (List ℕ)
  mac_vendor_of buffer =
      let mac = net2number buffer 6 in if mac == 0 then none else db.mac_vendor mac

  -- `appid_str` of `print_application_id_name0`
  unfoldable pub application_of : ℕ → Option (List ℕ)
  application_of appid = elim (db.application_name appid) [
    | some name ↦ some name
    | none ↦ db.app_name appid
  ]

  -- `geoip_decorator` on `print_country6_code_nl`; without the database of IPv6 an IPv4-mapped address
  -- has no country either.
  unfoldable pub country_of : ℕ → Option (List ℕ)
  country_of address =
      if is_private address
      then none
      else if not db.has_country_db_v6
      then none
      else if is_ipv4_mapped address
      then db.country_code (ipv6_to_v4 address)
      else db.country_code_v6 address

module _ (heap : Allocator) where
  -- The name, or nothing.
  abbrev print_name : Printbuf → Option (List ℕ) → ℕ × Printbuf
  print_name = print_known_word heap

  module _ (db : Databases) where
    -- `print_net0`: the networks of the domain come first.
    unfoldable pub print_net0 :
        (ℕ → Option (List ℕ)) → ((List ℕ × List ℕ) → List ℕ) → Printbuf → ℕ → ℕ × Printbuf
    print_net0 sensor_list_search_cb global_net_list_cb p address =
        elim (sensor_list_search_cb address) [
          | some sensor_home_net ↦ printbuf_memappend_fast_string heap p sensor_home_net
          | none ↦ elim (db.nets address) [
            | some ip_name_as ↦
                printbuf_memappend_fast_string heap p (global_net_list_cb ip_name_as)
            | none ↦ (0, p)
          ]
        ]

    abbrev global_net_list_number : (List ℕ × List ℕ) → List ℕ
    global_net_list_number assoc = assoc.0

    abbrev global_net_list_name : (List ℕ × List ℕ) → List ℕ
    global_net_list_name assoc = assoc.1

    unfoldable pub print_net_v6_0 : Printbuf → ℕ → ℕ × Printbuf
    print_net_v6_0 = print_net0 db.network_ip global_net_list_number

    unfoldable pub print_net_name_v6_0 : Printbuf → ℕ → ℕ × Printbuf
    print_net_name_v6_0 = print_net0 db.network_name global_net_list_name

    -- `ipv4_to_6_decorator` on `print_net_v6` or `print_net_name_v6`
    unfoldable pub ipv4_to_6_decorator : (Printbuf → ℕ → ℕ × Printbuf) → ExportFn Flow
    ipv4_to_6_decorator cb p buffer len cache =
        let (n, q) = cb p (ipv4buf_to_6 buffer) in
        if not (len == 4)
        then some (0, p, cache)
        else if db.normalize_directions
        then some (0, p, cache)
        else some (n, q, cache)

    unfoldable pub print_net : ExportFn Flow
    print_net = ipv4_to_6_decorator print_net_v6_0

    unfoldable pub print_net_name : ExportFn Flow
    print_net_name = ipv4_to_6_decorator print_net_name_v6_0

    unfoldable pub net_v6 : (Printbuf → ℕ → ℕ × Printbuf) → ExportFn Flow
    net_v6 cb p buffer len cache =
        let (n, q) = cb p (big_endian 16 buffer) in
        if db.normalize_directions
        then some (0, p, cache)
        else if not (len == 16)
        then some (0, p, cache)
        else some (n, q, cache)

    unfoldable pub print_net_v6 : ExportFn Flow
    print_net_v6 = net_v6 print_net_v6_0

    unfoldable pub print_net_name_v6 : ExportFn Flow
    print_net_name_v6 = net_v6 print_net_name_v6_0

    unfoldable pub print_lan_addr_net : ExportFn Flow
    print_lan_addr_net =
        print_flow_cache_address heap get_direction_based_client_ip
          (λ p address. some (print_net_v6_0 p address))

    unfoldable pub print_wan_addr_net : ExportFn Flow
    print_wan_addr_net =
        print_flow_cache_address heap get_direction_based_target_ip
          (λ p address. some (print_net_v6_0 p address))

    unfoldable pub print_lan_addr_net_name : ExportFn Flow
    print_lan_addr_net_name =
        print_flow_cache_address heap get_direction_based_client_ip
          (λ p address. some (print_net_name_v6_0 p address))

    unfoldable pub print_wan_addr_net_name : ExportFn Flow
    print_wan_addr_net_name =
        print_flow_cache_address heap get_direction_based_target_ip
          (λ p address. some (print_net_name_v6_0 p address))

    unfoldable pub print_mac_vendor : ExportFn Flow
    print_mac_vendor p buffer len cache =
        let (n, q) = print_name p (mac_vendor_of db buffer) in
        if not (len == 6) then some (0, p, cache) else some (n, q, cache)

    unfoldable pub print_direction_based_client_mac_vendor : ExportFn Flow
    print_direction_based_client_mac_vendor p buffer len cache =
        let mac = pointer_to (get_direction_based_client_mac db.is_span cache) in
        let (n, q) = print_name p (mac_vendor_of db mac) in some (n, q, cache)

    -- The loop over the last three bytes of `print_mac_vendor_addr_format0`, with `n` left.
    unfoldable pub vendor_loop : ℕ → Pointer → Printbuf → Printbuf
    vendor_loop zero buffer p = p
    vendor_loop (suc n) buffer p =
        let q = printbuf_memappend_fast heap p (b':' ∷ []) in
        vendor_loop n (advance buffer 1) (printbuf_memappend_fast_n16 heap q (buffer 0))

    unfoldable pub print_mac_vendor_addr_format0 : Printbuf → Pointer → ℕ × Printbuf
    print_mac_vendor_addr_format0 p buffer =
        let (n, q) = print_name p (mac_vendor_of db buffer) in
        if ltb 0 n then (n + 9, vendor_loop 3 (advance buffer 3) q) else (0, q)

    -- `print_mac_map0`. The name of the address, if it has one, is printed and its length lost.
    unfoldable pub print_mac_map0 : Printbuf → Pointer → ℕ × Printbuf
    print_mac_map0 p buffer =
        let mac = net2number buffer 6 in
        let (n, q) = print_mac_vendor_addr_format0 p buffer in
        if mac == 0 then print_mac0 heap p buffer else elim (db.mac_name mac) [
          | some char_map ↦ print_mac0 heap (printbuf_memappend_fast heap p char_map) buffer
          | none ↦ if ltb 0 n then (n, q) else print_mac0 heap q buffer
        ]

    unfoldable pub print_mac_map : ExportFn Flow
    print_mac_map p buffer len cache =
        let (n, q) = print_mac_map0 p buffer in
        if not (len == 6) then some (0, p, cache) else some (n, q, cache)

    unfoldable pub print_engine_id : Printbuf → ℕ → Option (ℕ × Printbuf)
    print_engine_id p engine_id =
        let printed = printbuf_memappend_fast_n10 heap p engine_id in
        if engine_id == 0 then some (0, p) else printed

    unfoldable pub print_engine_id_name0 : Printbuf → ℕ → Option (ℕ × Printbuf)
    print_engine_id_name0 p engine_id =
        if engine_id == 0 then some (0, p) else elim (db.engine_name engine_id) [
          | some name ↦ some (printbuf_memappend_fast_string heap p name)
          | none ↦ print_engine_id p engine_id
        ]

    unfoldable pub print_engine_id_name : ExportFn Flow
    print_engine_id_name p buffer len cache = do
      (n, q) ← print_engine_id_name0 p (net2number buffer 1)
      some (n, q, cache)

    unfoldable pub print_application_id0 : Printbuf → Pointer → ℕ → Option (ℕ × Printbuf)
    print_application_id0 p buffer len =
        let major_proto = buffer 0 in
        let minor_proto = bit_and (net2number buffer 4) 0x00ffffff % 2 ^ 32 in
        let printed = (do
          (n, q) ← print_engine_id_name0 p major_proto
          (m, r) ←
              printbuf_memappend_fast_n10 heap (printbuf_memappend_fast heap q (b':' ∷ []))
                minor_proto
          some (n + 1 + m, r)) in
        if not (len == 4)
        then some (0, p)
        else if (major_proto == 0) && (minor_proto == 0)
        then some (0, p)
        else printed

    unfoldable pub print_application_id_name0 : Printbuf → Pointer → ℕ → Option (ℕ × Printbuf)
    print_application_id_name0 p buffer len =
        let appid = net2number buffer len in
        if appid == 0 then some (0, p) else elim (application_of db appid) [
          | some appid_str ↦ some (printbuf_memappend_fast_string heap p appid_str)
          | none ↦ print_application_id0 p buffer len
        ]

    unfoldable pub print_application_id : ExportFn Flow
    print_application_id p buffer len cache = do
      (n, q) ← print_application_id0 p buffer len
      some (n, q, cache)

    unfoldable pub print_application_id_name : ExportFn Flow
    print_application_id_name p buffer len cache = do
      (n, q) ← print_application_id_name0 p buffer len
      some (n, q, cache)

    -- A text of GeoIP, escaped.
    unfoldable pub print_escaped_name : Printbuf → Option (List ℕ) → Option (ℕ × Printbuf)
    print_escaped_name p none = some (0, p)
    print_escaped_name p (some text) = append_escaped heap p text

    unfoldable pub print_country_code : ExportFn Flow
    print_country_code p buffer len cache =
        let printed = (do
          (n, q) ← print_escaped_name p (db.country_code (net2number buffer 4 % 2 ^ 32))
          some (n, q, cache)) in
        if db.normalize_directions
        then some (0, p, cache)
        else if not (len == 4)
        then some (0, p, cache)
        else printed

    unfoldable pub print_country6_code : ExportFn Flow
    print_country6_code p buffer len cache =
        let printed = (do
          (n, q) ← print_escaped_name p (country_of db (big_endian 16 buffer))
          some (n, q, cache)) in
        if not (len == 16) then some (0, p, cache) else printed

    unfoldable pub print_lan_country_code : ExportFn Flow
    print_lan_country_code =
        print_flow_cache_address heap get_direction_based_client_ip
          (λ p address. print_escaped_name p (country_of db address))

    unfoldable pub print_wan_country_code : ExportFn Flow
    print_wan_country_code =
        print_flow_cache_address heap get_direction_based_target_ip
          (λ p address. print_escaped_name p (country_of db address))

    unfoldable pub print_client_name : ExportFn Flow
    print_client_name p buffer len cache =
        let (n, q) = print_name p (get_direction_based_client_hostname cache) in some (n, q, cache)

    unfoldable pub print_target_name : ExportFn Flow
    print_target_name p buffer len cache =
        let (n, q) = print_name p (get_direction_based_target_hostname cache) in some (n, q, cache)
