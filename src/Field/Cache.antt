-- ===== src/Field/Cache.antt =====
-- src/export.h, `struct flowCache`: what the printing functions remember of a flow, and the
-- configured tables that they look names up in (`readOnlyGlobals`, the sensor's tables, GeoIP).
use f2k.Direction.{FlowCache}
use f2k.Base.{ℕ, Bool, Option, List}

-- A string pointer is its text, or `none`; a hardware address is its six bytes.
pub record Flow : Type 0 where
  pub base : FlowCache
  pub client_mac : ℕ
  pub src_mac : List ℕ
  pub dst_mac : List ℕ
  pub post_src_mac : List ℕ
  pub post_dst_mac : List ℕ
  pub http_referer : Option (List ℕ)
  pub http_host : Option (List ℕ)
  pub ssl_common_name : Option (List ℕ)
  pub client_name : Option (List ℕ)
  pub target_name : Option (List ℕ)
  pub client_name_cache : Option (List ℕ)
  pub target_name_cache : Option (List ℕ)
  pub first_switched_uptime_s : ℕ
  pub last_switched_uptime_s : ℕ
  pub first_timestamp_s : ℕ
  pub last_timestamp_s : ℕ
  pub bytes : ℕ
  pub packets : ℕ

-- An IPv6 address is its 16 bytes as a number. `nets` gives the `number` and the `name` of the
-- network in the global list.
pub record Databases : Type 0 where
  pub normalize_directions : Bool
  pub exporter_in_wan_side : Bool
  pub is_span : Bool
  pub network_ip : ℕ → Option (List ℕ)
  pub network_name : ℕ → Option (List ℕ)
  pub nets : ℕ → Option (List ℕ × List ℕ)
  pub mac_vendor : ℕ → Option (List ℕ)
  pub mac_name : ℕ → Option (List ℕ)
  pub engine_name : ℕ → Option (List ℕ)
  pub application_name : ℕ → Option (List ℕ)
  pub app_name : ℕ → Option (List ℕ)
  pub has_country_db_v6 : Bool
  pub country_code : ℕ → Option (List ℕ)
  pub country_code_v6 : ℕ → Option (List ℕ)
  pub as_name_v6 : ℕ → Option (List ℕ)
  pub is_ip_text : List ℕ → Bool
