-- ===== src/Field/Shown/Every.antt =====
-- Every printing function of the table shows its value, and the line of a flow.
use f2k.Field.Shown.Http.{
  print_referer_l2-Shown, print_host_l2-Shown, print_referer-Shown, print_host-Shown,
  print_http_host_l2-Shown, print_https_common_name-Shown, print_http_referer-Shown,
  print_http_host-Shown, print_http_user_agent-Shown, print_http_url-Shown,
}
use f2k.Field.Shown.Names.{
  print_target_name-Shown, print_client_name-Shown, print_wan_country_code-Shown,
  print_lan_country_code-Shown, print_country6_code-Shown, print_country_code-Shown,
  print_direction_based_client_mac_vendor-Shown, print_mac_vendor-Shown,
  print_wan_addr_net_name-Shown, print_lan_addr_net_name-Shown, print_wan_addr_net-Shown,
  print_lan_addr_net-Shown, print_net_name_v6-Shown, print_net_v6-Shown, print_net_name-Shown,
  print_net-Shown,
}
use f2k.Field.Shown.Apps.{
  print_engine_id_name-Shown, print_application_id-Shown, print_application_id_name-Shown,
}
use f2k.Field.Shown.Address.{
  print_wan_addr-Shown, print_lan_addr-Shown, print_sta_ipv4_address-Shown,
  print_ipv6_dst_addr-Shown, print_ipv6_src_addr-Shown, print_ipv4_dst_addr-Shown,
  print_ipv4_src_addr-Shown, print_client_mac-Shown, print_direction_based_client_mac-Shown,
  process_post_dst_mac-Shown, process_dst_mac-Shown, process_post_src_mac-Shown,
  process_src_mac-Shown, print_mac-Shown,
}
use f2k.Field.{Printbuf}
use f2k.Field.Shown.Call.{Call, value_limit, IsGood, HasShortNames}
use f2k.Printbuf.{Allocator}
use f2k.Field.Shown.Plain.{
  save_last_msecond-Shown, save_first_msecond-Shown, save_flow_pkts-Shown, save_flow_bytes-Shown,
  save_last_switched-Shown, save_first_switched-Shown, save_last_second-Shown,
  save_first_second-Shown, process_direction-Shown, print_flow_cache_direction-Shown,
  print_biflow_direction-Shown, print_flow_end_reason-Shown, print_wan_port-Shown,
  print_lan_port-Shown, process_dst_port-Shown, process_src_port-Shown, print_ssid_name-Shown,
  print_tcp_flags-Shown, print_netflow_type-Shown, print_number-Shown, print_string-Shown, IsShown,
}
use f2k.Field.Shown.{Function, Databases, value}
use f2k.Field.Members.{Shows, room}
use f2k.Field.Table.{call}
use f2k.Base.{ℕ, ◌≢◌, none, List}

module _ (heap : Allocator) (never : (old : List ℕ) (n : ℕ) → heap.realloc old n ≢ none)
    (db : Databases) (names : HasShortNames db) where
  -- Every function of the table appends exactly the bytes that `value` gives, at most 2 ^ 18,
  -- returns their number and leaves the cache that `value` gives, on a ready buffer below 2 ^ 31
  -- bytes and a field below 2 ^ 16 bytes, if every `realloc` succeeds and the texts of the tables
  -- and of the cache are shorter than 2 ^ 16 bytes.
  pub call-Shows : (f : Function) → Shows IsGood value_limit (call heap db f) (value db f)
  call-Shows f p buffer len cache memory small ready room good = every f
    where
      k : Call heap db p buffer len cache
      k = record {
        never = never;
        names = names;
        memory = memory;
        small = small;
        ready = ready;
        room = room;
        good = good;
      }

      every : (g : Function) → IsShown k g
      every Function.print_string = print_string-Shown k
      every Function.print_number = print_number-Shown k
      every Function.print_netflow_type = print_netflow_type-Shown k
      every Function.print_tcp_flags = print_tcp_flags-Shown k
      every Function.print_ssid_name = print_ssid_name-Shown k
      every Function.process_src_port = process_src_port-Shown k
      every Function.process_dst_port = process_dst_port-Shown k
      every Function.print_lan_port = print_lan_port-Shown k
      every Function.print_wan_port = print_wan_port-Shown k
      every Function.print_flow_end_reason = print_flow_end_reason-Shown k
      every Function.print_biflow_direction = print_biflow_direction-Shown k
      every Function.print_flow_cache_direction = print_flow_cache_direction-Shown k
      every Function.process_direction = process_direction-Shown k
      every Function.save_first_second = save_first_second-Shown k
      every Function.save_last_second = save_last_second-Shown k
      every Function.save_first_switched = save_first_switched-Shown k
      every Function.save_last_switched = save_last_switched-Shown k
      every Function.save_flow_bytes = save_flow_bytes-Shown k
      every Function.save_flow_pkts = save_flow_pkts-Shown k
      every Function.save_first_msecond = save_first_msecond-Shown k
      every Function.save_last_msecond = save_last_msecond-Shown k
      every Function.print_mac = print_mac-Shown k
      every Function.process_src_mac = process_src_mac-Shown k
      every Function.process_post_src_mac = process_post_src_mac-Shown k
      every Function.process_dst_mac = process_dst_mac-Shown k
      every Function.process_post_dst_mac = process_post_dst_mac-Shown k
      every Function.print_direction_based_client_mac = print_direction_based_client_mac-Shown k
      every Function.print_client_mac = print_client_mac-Shown k
      every Function.print_ipv4_src_addr = print_ipv4_src_addr-Shown k
      every Function.print_ipv4_dst_addr = print_ipv4_dst_addr-Shown k
      every Function.print_ipv6_src_addr = print_ipv6_src_addr-Shown k
      every Function.print_ipv6_dst_addr = print_ipv6_dst_addr-Shown k
      every Function.print_sta_ipv4_address = print_sta_ipv4_address-Shown k
      every Function.print_lan_addr = print_lan_addr-Shown k
      every Function.print_wan_addr = print_wan_addr-Shown k
      every Function.print_net = print_net-Shown k
      every Function.print_net_name = print_net_name-Shown k
      every Function.print_net_v6 = print_net_v6-Shown k
      every Function.print_net_name_v6 = print_net_name_v6-Shown k
      every Function.print_lan_addr_net = print_lan_addr_net-Shown k
      every Function.print_wan_addr_net = print_wan_addr_net-Shown k
      every Function.print_lan_addr_net_name = print_lan_addr_net_name-Shown k
      every Function.print_wan_addr_net_name = print_wan_addr_net_name-Shown k
      every Function.print_mac_vendor = print_mac_vendor-Shown k
      every Function.print_direction_based_client_mac_vendor =
          print_direction_based_client_mac_vendor-Shown k
      every Function.print_engine_id_name = print_engine_id_name-Shown k
      every Function.print_application_id = print_application_id-Shown k
      every Function.print_application_id_name = print_application_id_name-Shown k
      every Function.print_country_code = print_country_code-Shown k
      every Function.print_country6_code = print_country6_code-Shown k
      every Function.print_lan_country_code = print_lan_country_code-Shown k
      every Function.print_wan_country_code = print_wan_country_code-Shown k
      every Function.print_client_name = print_client_name-Shown k
      every Function.print_target_name = print_target_name-Shown k
      every Function.print_http_url = print_http_url-Shown k
      every Function.print_http_user_agent = print_http_user_agent-Shown k
      every Function.print_http_host = print_http_host-Shown k
      every Function.print_http_referer = print_http_referer-Shown k
      every Function.print_https_common_name = print_https_common_name-Shown k
      every Function.print_http_host_l2 = print_http_host_l2-Shown k
      every Function.print_host = print_host-Shown k
      every Function.print_referer = print_referer-Shown k
      every Function.print_host_l2 = print_host_l2-Shown k
      every Function.print_referer_l2 = print_referer_l2-Shown k
