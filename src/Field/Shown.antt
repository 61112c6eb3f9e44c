-- ===== src/Field/Shown.antt =====
-- What each printing function of the table shows: the bytes for the line, and the cache behind it.
pub mod Call
pub mod Plain
pub mod Address
pub mod Names
pub mod Apps
pub mod Http
pub mod Every
use f2k.Field.Saved.{save_mac}
use f2k.Field.Names.{
  get_direction_based_target_hostname, get_direction_based_client_hostname, country_of,
  mac_vendor_of, application_of,
}
use f2k.Field.Plain.{strnlen, type_msg, flag_id_char, flags_text}
use f2k.Number.{net2number, intoa_v4}
use f2k.Field.Table.{Function}
use f2k.Field.Http.{
  extract_flowcache_referer, extract_flowcache_host, https_common_name_nbar_id, http_referer_id,
  kept, http_host_id, http_ua_id, http_url_id, cisco_private_content, l2_domain,
}
use f2k.Field.Address.{address_bytes, get_direction_based_client_mac, ipv4buf_to_6, is_ipv4_mapped}
use f2k.Field.Texts.{number_text, mac_text, ipv6_text, escape}
use f2k.Field.Members.{Value}
use f2k.Field.Cache.{Flow, Databases}
use f2k.Direction.{
  direction_word, biflow_directions, flow_end_reasons, get_direction_based_target_port,
  get_direction_based_client_port, netflow_direction_word, downstream, upstream,
  get_direction_based_target_ip, get_direction_based_client_ip, address_at, FlowCache,
}
use f2k.Base.{
  ℕ, suc, ◌+◌, ◌*◌, ◌/◌, ◌%◌, ◌^◌, Bool, not, ◌&&◌, bit_and, Option, none, some, List, [], ◌∷◌,
  ◌++◌, ltb, ◌==◌, if◌then◌else◌, length,
}
use f2k.Base.Bytes.{Pointer, advance, pointer_to, big_endian, read_bytes}

abbrev nothing : Flow → List ℕ × Flow
nothing cache = ([], cache)

abbrev pub name_text : Option (List ℕ) → List ℕ
name_text none = []
name_text (some text) = text

abbrev pub escaped_name_text : Option (List ℕ) → List ℕ
escaped_name_text none = []
escaped_name_text (some text) = escape text

unfoldable pub address_text : ℕ → List ℕ
address_text address =
    if is_ipv4_mapped address
    then intoa_v4 (big_endian 4 (advance (address_bytes address) 12))
    else ipv6_text 8 (address_bytes address)

abbrev pub client_address_of : Flow → ℕ
client_address_of cache = address_at cache.base (get_direction_based_client_ip cache.base)

abbrev pub target_address_of : Flow → ℕ
target_address_of cache = address_at cache.base (get_direction_based_target_ip cache.base)

-- Where each port, address and hardware address of a flow is kept.
abbrev pub with_base : Flow → FlowCache → Flow
with_base cache base = record cache { base = base }

abbrev pub port_value : Bool → (ℕ → FlowCache → FlowCache) → Value Flow
port_value normalize save_port buffer len cache =
    let port = net2number buffer len % 2 ^ 16 in
    if not (len == 2)
    then nothing cache
    else if normalize
    then nothing (with_base cache (save_port port cache.base))
    else (number_text port, cache)

abbrev pub mac_value : Value Flow
mac_value buffer len cache = if not (len == 6) then nothing cache else (mac_text 6 buffer, cache)

abbrev pub process_mac_value : Bool → (Pointer → ℕ → Flow → Flow) → Value Flow
process_mac_value normalize save buffer len cache =
    if normalize then nothing (save buffer len cache) else mac_value buffer len cache

abbrev pub ipv4_value : Value Flow
ipv4_value buffer len cache =
    if not (len == 4) then nothing cache else (intoa_v4 (net2number buffer 4 % 2 ^ 32), cache)

abbrev pub process_ipv4_value : Bool → (ℕ → FlowCache → FlowCache) → Value Flow
process_ipv4_value normalize save buffer len cache =
    if not normalize
    then ipv4_value buffer len cache
    else if not (len == 4)
    then nothing cache
    else nothing (with_base cache (save (ipv4buf_to_6 buffer) cache.base))

abbrev pub ipv6_value : (ℕ → FlowCache → FlowCache) → Value Flow
ipv6_value save buffer len cache =
    if not (len == 16)
    then nothing cache
    else (ipv6_text 8 buffer, with_base cache (save (big_endian 16 buffer) cache.base))

-- A private field of Cisco, escaped; what it leaves in the cache.
abbrev pub cisco_value : List ℕ → (Option (List ℕ) → Flow → Flow) → Value Flow
cisco_value expected save buffer len cache =
    let content = cisco_private_content buffer len expected in
    (escaped_name_text content, save content cache)

module _ (db : Databases) where
  unfoldable pub net_text : (ℕ → Option (List ℕ)) → ((List ℕ × List ℕ) → List ℕ) → ℕ → List ℕ
  net_text first global address = elim (first address) [
    | some home_net ↦ home_net
    | none ↦ elim (db.nets address) [ some assoc ↦ global assoc | none ↦ [] ]
  ]

  abbrev pub net_number : ℕ → List ℕ
  net_number = net_text db.network_ip (λ assoc. assoc.0)

  abbrev pub net_name : ℕ → List ℕ
  net_name = net_text db.network_name (λ assoc. assoc.1)

  abbrev pub net_value : (ℕ → List ℕ) → Value Flow
  net_value text buffer len cache =
      if not (len == 4)
      then nothing cache
      else if db.normalize_directions
      then nothing cache
      else (text (ipv4buf_to_6 buffer), cache)

  abbrev pub net_v6_value : (ℕ → List ℕ) → Value Flow
  net_v6_value text buffer len cache =
      if db.normalize_directions
      then nothing cache
      else if not (len == 16)
      then nothing cache
      else (text (big_endian 16 buffer), cache)

  unfoldable pub engine_text : ℕ → List ℕ
  engine_text engine_id =
      if engine_id == 0
      then []
      else elim (db.engine_name engine_id) [ some name ↦ name | none ↦ number_text engine_id ]

  unfoldable pub application_id_text : Pointer → ℕ → List ℕ
  application_id_text buffer len =
      let minor = bit_and (net2number buffer 4) 0x00ffffff % 2 ^ 32 in
      if not (len == 4)
      then []
      else if (buffer 0 == 0) && (minor == 0)
      then []
      else engine_text (buffer 0) ++ (b':' ∷ number_text minor)

  unfoldable pub application_text : Pointer → ℕ → List ℕ
  application_text buffer len =
      let appid = net2number buffer len in
      if appid == 0 then [] else elim (application_of db appid) [
        | some name ↦ name
        | none ↦ application_id_text buffer len
      ]

  -- The registered domain, escaped.
  abbrev pub l2_text : List ℕ → List ℕ
  l2_text hostname = escaped_name_text (l2_domain db.is_ip_text (suc (length hostname)) hostname)

  abbrev pub tcp_flags_value : Value Flow
  tcp_flags_value buffer len cache =
      let tcp_flags = if len == 1 then buffer 0 else buffer 1 in
      if not (len == 1) && not (len == 2)
      then nothing cache
      else if tcp_flags == 0
      then nothing cache
      else (flags_text tcp_flags 0 flag_id_char, cache)

  abbrev pub direction_value : Value Flow
  direction_value buffer len cache =
      let direction = net2number buffer len in
      let ingress = if db.exporter_in_wan_side then not (direction == 0) else direction == 0 in
      if ltb 1 direction
      then nothing cache
      else if db.normalize_directions
      then nothing (
          with_base cache
            (record cache.base { direction = if ingress then upstream else downstream }))
      else (netflow_direction_word direction, cache)

  abbrev pub direction_mac_value : Value Flow
  direction_mac_value buffer len cache =
      let mac = pointer_to (get_direction_based_client_mac db.is_span cache) in
      if not (cache.client_mac == 0)
      then nothing cache
      else (mac_text 6 mac, record cache { client_mac = net2number mac 6 })

  abbrev pub client_mac_value : Value Flow
  client_mac_value buffer len cache =
      if not (len == 6)
      then nothing cache
      else if not (cache.client_mac == 0)
      then nothing cache
      else (mac_text 6 buffer, record cache { client_mac = net2number buffer 6 })

  abbrev pub sta_value : Value Flow
  sta_value buffer len cache =
      let client = cache.base.client_address / 2 ^ 48 * 2 ^ 48 + ipv4buf_to_6 buffer in
      if not (len == 4) then nothing cache else (
        intoa_v4 (net2number buffer len % 2 ^ 32),
        with_base cache (record cache.base { client_address = client }),
      )

  unfoldable pub value : Function → Value Flow
  value Function.print_string buffer len cache = (read_bytes len buffer, cache)
  value Function.print_number buffer len cache = (number_text (net2number buffer len), cache)
  value Function.print_netflow_type buffer len cache =
      (type_msg ++ number_text (net2number buffer len), cache)
  value Function.print_tcp_flags buffer len cache = tcp_flags_value buffer len cache
  value Function.print_ssid_name buffer len cache =
      (read_bytes (strnlen buffer (len % 2 ^ 16)) buffer, cache)
  value Function.process_src_port buffer len cache =
      port_value db.normalize_directions (λ port base. record base { src_port = port }) buffer len
        cache
  value Function.process_dst_port buffer len cache =
      port_value db.normalize_directions (λ port base. record base { dst_port = port }) buffer len
        cache
  value Function.print_lan_port buffer len cache =
      (number_text (get_direction_based_client_port cache.base % 2 ^ 64), cache)
  value Function.print_wan_port buffer len cache =
      (number_text (get_direction_based_target_port cache.base % 2 ^ 64), cache)
  value Function.print_flow_end_reason buffer len cache =
      (name_text (flow_end_reasons (buffer 0)), cache)
  value Function.print_biflow_direction buffer len cache =
      (name_text (biflow_directions (buffer 0)), cache)
  value Function.print_flow_cache_direction buffer len cache =
      (direction_word cache.base.direction, cache)
  value Function.process_direction buffer len cache = direction_value buffer len cache
  value Function.save_first_second buffer len cache =
      nothing (record cache { first_timestamp_s = net2number buffer len })
  value Function.save_last_second buffer len cache =
      nothing (record cache { last_timestamp_s = net2number buffer len })
  value Function.save_first_switched buffer len cache =
      nothing (record cache { first_switched_uptime_s = net2number buffer len / 1000 })
  value Function.save_last_switched buffer len cache =
      nothing (record cache { last_switched_uptime_s = net2number buffer len / 1000 })
  value Function.save_flow_bytes buffer len cache =
      nothing (record cache { bytes = net2number buffer len })
  value Function.save_flow_pkts buffer len cache =
      nothing (record cache { packets = net2number buffer len })
  value Function.save_first_msecond buffer len cache =
      nothing (record cache { first_timestamp_s = net2number buffer len })
  value Function.save_last_msecond buffer len cache =
      nothing (record cache { last_timestamp_s = net2number buffer len })
  value Function.print_mac buffer len cache = mac_value buffer len cache
  value Function.process_src_mac buffer len cache =
      process_mac_value db.normalize_directions
        (λ b n c. record c { src_mac = save_mac c.src_mac b n }) buffer len cache
  value Function.process_post_src_mac buffer len cache =
      process_mac_value db.normalize_directions
        (λ b n c. record c { post_src_mac = save_mac c.post_src_mac b n }) buffer len cache
  value Function.process_dst_mac buffer len cache =
      process_mac_value db.normalize_directions
        (λ b n c. record c { dst_mac = save_mac c.dst_mac b n }) buffer len cache
  value Function.process_post_dst_mac buffer len cache =
      process_mac_value db.normalize_directions
        (λ b n c. record c { post_dst_mac = save_mac c.post_dst_mac b n }) buffer len cache
  value Function.print_direction_based_client_mac buffer len cache =
      direction_mac_value buffer len cache
  value Function.print_client_mac buffer len cache = client_mac_value buffer len cache
  value Function.print_ipv4_src_addr buffer len cache =
      process_ipv4_value db.normalize_directions
        (λ address base. record base { src_address = address }) buffer len cache
  value Function.print_ipv4_dst_addr buffer len cache =
      process_ipv4_value db.normalize_directions
        (λ address base. record base { dst_address = address }) buffer len cache
  value Function.print_ipv6_src_addr buffer len cache =
      ipv6_value (λ address base. record base { src_address = address }) buffer len cache
  value Function.print_ipv6_dst_addr buffer len cache =
      ipv6_value (λ address base. record base { dst_address = address }) buffer len cache
  value Function.print_sta_ipv4_address buffer len cache = sta_value buffer len cache
  value Function.print_lan_addr buffer len cache =
      if not db.normalize_directions
      then nothing cache
      else (address_text (client_address_of cache), cache)
  value Function.print_wan_addr buffer len cache = (address_text (target_address_of cache), cache)
  value Function.print_net buffer len cache = net_value net_number buffer len cache
  value Function.print_net_name buffer len cache = net_value net_name buffer len cache
  value Function.print_net_v6 buffer len cache = net_v6_value net_number buffer len cache
  value Function.print_net_name_v6 buffer len cache = net_v6_value net_name buffer len cache
  value Function.print_lan_addr_net buffer len cache = (net_number (client_address_of cache), cache)
  value Function.print_wan_addr_net buffer len cache = (net_number (target_address_of cache), cache)
  value Function.print_lan_addr_net_name buffer len cache =
      (net_name (client_address_of cache), cache)
  value Function.print_wan_addr_net_name buffer len cache =
      (net_name (target_address_of cache), cache)
  value Function.print_mac_vendor buffer len cache =
      if not (len == 6) then nothing cache else (name_text (mac_vendor_of db buffer), cache)
  value Function.print_direction_based_client_mac_vendor buffer len cache = (
    name_text (mac_vendor_of db (pointer_to (get_direction_based_client_mac db.is_span cache))),
    cache,
  )
  value Function.print_engine_id_name buffer len cache = (engine_text (net2number buffer 1), cache)
  value Function.print_application_id buffer len cache = (application_id_text buffer len, cache)
  value Function.print_application_id_name buffer len cache = (application_text buffer len, cache)
  value Function.print_country_code buffer len cache =
      if db.normalize_directions
      then nothing cache
      else if not (len == 4)
      then nothing cache
      else (escaped_name_text (db.country_code (net2number buffer 4 % 2 ^ 32)), cache)
  value Function.print_country6_code buffer len cache =
      if not (len == 16)
      then nothing cache
      else (escaped_name_text (country_of db (big_endian 16 buffer)), cache)
  value Function.print_lan_country_code buffer len cache =
      (escaped_name_text (country_of db (client_address_of cache)), cache)
  value Function.print_wan_country_code buffer len cache =
      (escaped_name_text (country_of db (target_address_of cache)), cache)
  value Function.print_client_name buffer len cache =
      (name_text (get_direction_based_client_hostname cache), cache)
  value Function.print_target_name buffer len cache =
      (name_text (get_direction_based_target_hostname cache), cache)
  value Function.print_http_url buffer len cache =
      cisco_value http_url_id (λ content c. c) buffer len cache
  value Function.print_http_user_agent buffer len cache =
      cisco_value http_ua_id (λ content c. c) buffer len cache
  value Function.print_http_host buffer len cache =
      cisco_value http_host_id (λ content c. record c { http_host = kept content c.http_host })
        buffer len cache
  value Function.print_http_referer buffer len cache =
      cisco_value http_referer_id
        (λ content c. record c { http_referer = kept content c.http_referer }) buffer len cache
  value Function.print_https_common_name buffer len cache =
      cisco_value https_common_name_nbar_id
        (λ content c. record c { ssl_common_name = kept content c.ssl_common_name }) buffer len
        cache
  value Function.print_http_host_l2 buffer len cache =
      elim (cisco_private_content buffer len http_host_id) [
        | none ↦ nothing cache
        | some host ↦ (l2_text host, cache)
      ]
  value Function.print_host buffer len cache = (escape (extract_flowcache_host cache), cache)
  value Function.print_referer buffer len cache = elim cache.http_referer [
    | some referer ↦ (escape referer, cache)
    | none ↦ (escape (extract_flowcache_host cache), cache)
  ]
  value Function.print_host_l2 buffer len cache = (l2_text (extract_flowcache_host cache), cache)
  value Function.print_referer_l2 buffer len cache =
      (l2_text (extract_flowcache_referer cache), cache)
