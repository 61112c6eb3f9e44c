-- ===== src/Field/Table.antt =====
-- src/template.h: the printing functions that the table of elements names, as names.
use f2k.Field.{ExportFn}
use f2k.Field.Cache.{Flow, Databases}
use f2k.Printbuf.{Allocator}
use f2k.Base.{some}
use f2k.Direction
use f2k.Field.Plain
use f2k.Field.Saved
use f2k.Field.Address
use f2k.Field.Names
use f2k.Field.Http

-- A `FUNCTION` of `X_TEMPLATE_ENTITIES`, or of the elements behind those.
pub data Function : Type 0 where
  print_string print_number print_netflow_type print_tcp_flags print_ssid_name : Function
  process_src_port process_dst_port print_lan_port print_wan_port : Function
  print_flow_end_reason print_biflow_direction : Function
  print_flow_cache_direction process_direction : Function
  save_first_second save_last_second save_first_switched save_last_switched : Function
  save_flow_bytes save_flow_pkts save_first_msecond save_last_msecond : Function
  print_mac process_src_mac process_post_src_mac process_dst_mac process_post_dst_mac : Function
  print_direction_based_client_mac print_client_mac : Function
  print_ipv4_src_addr print_ipv4_dst_addr print_ipv6_src_addr print_ipv6_dst_addr : Function
  print_sta_ipv4_address print_lan_addr print_wan_addr : Function
  print_net print_net_name print_net_v6 print_net_name_v6 : Function
  print_lan_addr_net print_wan_addr_net : Function
  print_lan_addr_net_name print_wan_addr_net_name : Function
  print_mac_vendor print_direction_based_client_mac_vendor : Function
  print_engine_id_name print_application_id print_application_id_name : Function
  print_country_code print_country6_code print_lan_country_code print_wan_country_code : Function
  print_client_name print_target_name : Function
  print_http_url print_http_user_agent print_http_host print_http_referer : Function
  print_https_common_name print_http_host_l2 : Function
  print_host print_referer print_host_l2 print_referer_l2 : Function

module _ (heap : Allocator) (db : Databases) where
  -- `process_direction` on this cache.
  unfoldable pub process_direction_fn : ExportFn Flow
  process_direction_fn p buffer len cache =
      let (n, q, base) =
        Direction.process_direction heap db.normalize_directions db.exporter_in_wan_side p buffer
          len cache.base in
      some (n, q, record cache { base = base })

  -- What a function pointer points to.
  unfoldable pub call : Function → ExportFn Flow
  call Function.print_string = Plain.print_string heap
  call Function.print_number = Plain.print_number heap
  call Function.print_netflow_type = Plain.print_netflow_type heap
  call Function.print_tcp_flags = Plain.print_tcp_flags heap
  call Function.print_ssid_name = Plain.print_ssid_name heap
  call Function.process_src_port = Plain.process_src_port heap db.normalize_directions
  call Function.process_dst_port = Plain.process_dst_port heap db.normalize_directions
  call Function.print_lan_port = Plain.print_lan_port heap
  call Function.print_wan_port = Plain.print_wan_port heap
  call Function.print_flow_end_reason = Plain.print_flow_end_reason_fn heap
  call Function.print_biflow_direction = Plain.print_biflow_direction_fn heap
  call Function.print_flow_cache_direction = Plain.print_flow_cache_direction_fn heap
  call Function.process_direction = process_direction_fn
  call Function.save_first_second = Saved.save_first_second
  call Function.save_last_second = Saved.save_last_second
  call Function.save_first_switched = Saved.save_first_switched
  call Function.save_last_switched = Saved.save_last_switched
  call Function.save_flow_bytes = Saved.save_flow_bytes
  call Function.save_flow_pkts = Saved.save_flow_pkts
  call Function.save_first_msecond = Saved.save_first_msecond
  call Function.save_last_msecond = Saved.save_last_msecond
  call Function.print_mac = Address.print_mac heap
  call Function.process_src_mac = Address.process_src_mac heap db.normalize_directions
  call Function.process_post_src_mac = Address.process_post_src_mac heap db.normalize_directions
  call Function.process_dst_mac = Address.process_dst_mac heap db.normalize_directions
  call Function.process_post_dst_mac = Address.process_post_dst_mac heap db.normalize_directions
  call Function.print_direction_based_client_mac =
      Address.print_direction_based_client_mac heap db.is_span
  call Function.print_client_mac = Address.print_client_mac heap
  call Function.print_ipv4_src_addr = Address.print_ipv4_src_addr heap db.normalize_directions
  call Function.print_ipv4_dst_addr = Address.print_ipv4_dst_addr heap db.normalize_directions
  call Function.print_ipv6_src_addr = Address.print_ipv6_src_addr heap
  call Function.print_ipv6_dst_addr = Address.print_ipv6_dst_addr heap
  call Function.print_sta_ipv4_address = Address.print_sta_ipv4_address heap
  call Function.print_lan_addr = Address.print_lan_addr heap db.normalize_directions
  call Function.print_wan_addr = Address.print_wan_addr heap
  call Function.print_net = Names.print_net heap db
  call Function.print_net_name = Names.print_net_name heap db
  call Function.print_net_v6 = Names.print_net_v6 heap db
  call Function.print_net_name_v6 = Names.print_net_name_v6 heap db
  call Function.print_lan_addr_net = Names.print_lan_addr_net heap db
  call Function.print_wan_addr_net = Names.print_wan_addr_net heap db
  call Function.print_lan_addr_net_name = Names.print_lan_addr_net_name heap db
  call Function.print_wan_addr_net_name = Names.print_wan_addr_net_name heap db
  call Function.print_mac_vendor = Names.print_mac_vendor heap db
  call Function.print_direction_based_client_mac_vendor =
      Names.print_direction_based_client_mac_vendor heap db
  call Function.print_engine_id_name = Names.print_engine_id_name heap db
  call Function.print_application_id = Names.print_application_id heap db
  call Function.print_application_id_name = Names.print_application_id_name heap db
  call Function.print_country_code = Names.print_country_code heap db
  call Function.print_country6_code = Names.print_country6_code heap db
  call Function.print_lan_country_code = Names.print_lan_country_code heap db
  call Function.print_wan_country_code = Names.print_wan_country_code heap db
  call Function.print_client_name = Names.print_client_name heap db
  call Function.print_target_name = Names.print_target_name heap db
  call Function.print_http_url = Http.print_http_url heap
  call Function.print_http_user_agent = Http.print_http_user_agent heap
  call Function.print_http_host = Http.print_http_host heap
  call Function.print_http_referer = Http.print_http_referer heap
  call Function.print_https_common_name = Http.print_https_common_name heap
  call Function.print_http_host_l2 = Http.print_http_host_l2 heap db.is_ip_text
  call Function.print_host = Http.print_host heap
  call Function.print_referer = Http.print_referer heap
  call Function.print_host_l2 = Http.print_host_l2 heap db.is_ip_text
  call Function.print_referer_l2 = Http.print_referer_l2 heap db.is_ip_text
