-- ===== src/Field/Shown/Names.antt =====
-- The functions that print a name out of a table.
use f2k.Field.Address.{
  ipv4buf_to_6, ipv6_to_v4, get_direction_based_client_mac, is_ipv4_mapped,
  print_flow_cache_address, is_private,
}
use f2k.Field.Table.{call}
use f2k.Direction.{print_known_word}
use f2k.Field.Names.{
  get_direction_based_target_hostname, get_direction_based_client_hostname, net_v6,
  ipv4_to_6_decorator, print_lan_addr_net_name, print_client_name,
  print_direction_based_client_mac_vendor, print_wan_addr_net_name, print_wan_country_code,
  print_country6_code, print_net_name_v6, print_net, print_lan_addr_net, print_mac_vendor,
  print_target_name, print_wan_addr_net, print_net_name, print_lan_country_code, print_net_v6,
  print_country_code, print_escaped_name, mac_vendor_of, print_net_name_v6_0, country_of,
  print_net_v6_0, print_net0,
}
use f2k.Field.Shown.Call.{
  show-if, show-name, show-escaped, HasShortNames, show-text, value_limit, show-nothing, Shown,
  Call, IsShortText,
}
use f2k.Printbuf.{Printbuf, Allocator}
use f2k.Field.Shown.Plain.{IsShown}
use f2k.Field.Shown.{
  target_address_of, client_address_of, net2number, Function, name_text, net_number, net_name,
  escaped_name_text, Flow, Databases, net_text, value,
}
use f2k.Base.{
  ◌>>=◌, ℕ, ◌%◌, ◌^◌, ◌≤◌, ◌<◌, ◌≡◌, subst, inl, inr, not, Option, none, some, List, arith, ◌==◌,
  Bool-cases, Option-cases, length,
}
use f2k.Base.Bytes.{Pointer, pointer_to, big_endian}

mac_vendor_of-short :
    (db : Databases) (buffer : Pointer) → HasShortNames db → IsShortText (mac_vendor_of db buffer)
unfolding mac_vendor_of
mac_vendor_of-short db buffer h = elim (Bool-cases (net2number buffer 6 == 0)) [
  | inl e ↦ rw (e, mac_vendor_of) tt
  | inr e ↦ rw (e, mac_vendor_of) (h.mac_vendor (net2number buffer 6))
]

country_of-short : (db : Databases) (a : ℕ) → HasShortNames db → IsShortText (country_of db a)
unfolding country_of
country_of-short db a h = elim (Bool-cases (is_private a)) [
  | inl e ↦ rw (e, country_of) tt
  | inr e ↦ elim (Bool-cases db.has_country_db_v6) [
    | inr e0 ↦ rw (e, country_of, e0) tt
    | inl e0 ↦ elim (Bool-cases (is_ipv4_mapped a)) [
      | inl e1 ↦ rw (e, country_of, e0, e1) (h.country_code (ipv6_to_v4 a))
      | inr e1 ↦ rw (e, country_of, e0, e1) (h.country_code_v6 a)
    ]
  ]
]

hostname-short :
    (a b : Option (List ℕ))
    → IsShortText a
    → IsShortText b
    → IsShortText (elim a [ some name ↦ some name | none ↦ b ])
hostname-short none b h g = g
hostname-short (some name) b h g = h

module _ {heap : Allocator} {db : Databases} {p : Printbuf} {buffer : Pointer} {len : ℕ}
    {cache : Flow} (k : Call heap db p buffer len cache) where
  net-Shown :
      (first : ℕ → Option (List ℕ)) (global : (List ℕ × List ℕ) → List ℕ) (a : ℕ)
      → IsShortText (first a)
      → ((assoc : List ℕ × List ℕ) → db.nets a ≡ some assoc → length (global assoc) < 2 ^ 16)
      → let (n, q) = print_net0 heap db first global p a in
        Shown p (net_text db first global a, cache) (some (n, q, cache))
  unfolding net_text print_net0 f2k.Direction.printbuf_memappend_fast_string
  net-Shown first global a h g = elim (Option-cases (first a)) [
    | inl e ↦ elim (Option-cases (db.nets a)) [
      | inl e1 ↦ rw (e, net_text, print_net0, e1) (show-nothing k cache k.good)
      | inr (assoc, e1) ↦
          rw (e, net_text, print_net0, e1) (show-text k (global assoc) (omega (arith, g assoc e1)))
    ]
    | inr (t, e) ↦ rw (e, net_text, print_net0) (show-text k t (small t (subst IsShortText e h)))
  ]
    where
      small : (t : List ℕ) → length t < 2 ^ 16 → length t ≤ value_limit
      small t l = omega arith

  number-Shown :
      (a : ℕ)
      → let (n, q) = print_net_v6_0 heap db p a in
        Shown p (net_number db a, cache) (some (n, q, cache))
  unfolding print_net_v6_0
  number-Shown a =
      net-Shown db.network_ip (λ assoc. assoc.0) a (k.names.network_ip a)
        (λ assoc e. (k.names.nets a assoc e).0)

  name-Shown :
      (a : ℕ)
      → let (n, q) = print_net_name_v6_0 heap db p a in
        Shown p (net_name db a, cache) (some (n, q, cache))
  unfolding print_net_name_v6_0
  name-Shown a =
      net-Shown db.network_name (λ assoc. assoc.1) a (k.names.network_name a)
        (λ assoc e. (k.names.nets a assoc e).1)

  pub print_net-Shown : IsShown k Function.print_net
  unfolding value call print_net ipv4_to_6_decorator
  print_net-Shown = show-if p (not (len == 4)) (show-nothing k cache k.good) (
      show-if p db.normalize_directions (show-nothing k cache k.good)
        (number-Shown (ipv4buf_to_6 buffer)))

  pub print_net_v6-Shown : IsShown k Function.print_net_v6
  unfolding value call print_net_v6 net_v6
  print_net_v6-Shown = show-if p db.normalize_directions (show-nothing k cache k.good) (
      show-if p (not (len == 16)) (show-nothing k cache k.good)
        (number-Shown (big_endian 16 buffer)))

  pub print_lan_addr_net-Shown : IsShown k Function.print_lan_addr_net
  unfolding value call print_lan_addr_net print_flow_cache_address
  print_lan_addr_net-Shown = number-Shown (client_address_of cache)

  pub print_wan_addr_net-Shown : IsShown k Function.print_wan_addr_net
  unfolding value call print_wan_addr_net print_flow_cache_address
  print_wan_addr_net-Shown = number-Shown (target_address_of cache)

  pub print_net_name-Shown : IsShown k Function.print_net_name
  unfolding value call print_net_name ipv4_to_6_decorator
  print_net_name-Shown = show-if p (not (len == 4)) (show-nothing k cache k.good) (
      show-if p db.normalize_directions (show-nothing k cache k.good)
        (name-Shown (ipv4buf_to_6 buffer)))

  pub print_net_name_v6-Shown : IsShown k Function.print_net_name_v6
  unfolding value call print_net_name_v6 net_v6
  print_net_name_v6-Shown = show-if p db.normalize_directions (show-nothing k cache k.good) (
      show-if p (not (len == 16)) (show-nothing k cache k.good) (name-Shown (big_endian 16 buffer)))

  pub print_lan_addr_net_name-Shown : IsShown k Function.print_lan_addr_net_name
  unfolding value call print_lan_addr_net_name print_flow_cache_address
  print_lan_addr_net_name-Shown = name-Shown (client_address_of cache)

  pub print_wan_addr_net_name-Shown : IsShown k Function.print_wan_addr_net_name
  unfolding value call print_wan_addr_net_name print_flow_cache_address
  print_wan_addr_net_name-Shown = name-Shown (target_address_of cache)

  vendor-Shown :
      (mac : Pointer)
      → let (n, q) = print_known_word heap p (mac_vendor_of db mac) in
        Shown p (name_text (mac_vendor_of db mac), cache) (some (n, q, cache))
  vendor-Shown mac = show-name k (mac_vendor_of db mac) (mac_vendor_of-short db mac k.names)

  pub print_mac_vendor-Shown : IsShown k Function.print_mac_vendor
  unfolding value call print_mac_vendor
  print_mac_vendor-Shown =
      show-if p (not (len == 6)) (show-nothing k cache k.good) (vendor-Shown buffer)

  pub print_direction_based_client_mac_vendor-Shown :
      IsShown k Function.print_direction_based_client_mac_vendor
  unfolding value call print_direction_based_client_mac_vendor
  print_direction_based_client_mac_vendor-Shown =
      vendor-Shown (pointer_to (get_direction_based_client_mac db.is_span cache))

  geoip-Shown :
      (name : Option (List ℕ))
      → IsShortText name
      → Shown p
          (escaped_name_text name, cache)
          (do (n, q) ← print_escaped_name heap db p name; some (n, q, cache))
  unfolding print_escaped_name
  geoip-Shown none h = show-nothing k cache k.good
  geoip-Shown (some text) h = show-escaped k text cache h k.good

  country-Shown :
      (a : ℕ)
      → Shown p
          (escaped_name_text (country_of db a), cache)
          (do (n, q) ← print_escaped_name heap db p (country_of db a); some (n, q, cache))
  country-Shown a = geoip-Shown (country_of db a) (country_of-short db a k.names)

  pub print_country_code-Shown : IsShown k Function.print_country_code
  unfolding value call print_country_code
  print_country_code-Shown = show-if p db.normalize_directions (show-nothing k cache k.good) (
      show-if p (not (len == 4)) (show-nothing k cache k.good)
        (geoip-Shown (db.country_code (net2number buffer 4 % 2 ^ 32)) (k.names.country_code _)))

  pub print_country6_code-Shown : IsShown k Function.print_country6_code
  unfolding value call print_country6_code
  print_country6_code-Shown =
      show-if p (not (len == 16)) (show-nothing k cache k.good)
        (country-Shown (big_endian 16 buffer))

  pub print_lan_country_code-Shown : IsShown k Function.print_lan_country_code
  unfolding value call print_lan_country_code print_flow_cache_address
  print_lan_country_code-Shown = country-Shown (client_address_of cache)

  pub print_wan_country_code-Shown : IsShown k Function.print_wan_country_code
  unfolding value call print_wan_country_code print_flow_cache_address
  print_wan_country_code-Shown = country-Shown (target_address_of cache)

  pub print_client_name-Shown : IsShown k Function.print_client_name
  unfolding value call print_client_name get_direction_based_client_hostname
  print_client_name-Shown =
      show-name k (get_direction_based_client_hostname cache)
        (hostname-short cache.client_name cache.client_name_cache k.good.3 k.good.5)

  pub print_target_name-Shown : IsShown k Function.print_target_name
  unfolding value call print_target_name get_direction_based_target_hostname
  print_target_name-Shown =
      show-name k (get_direction_based_target_hostname cache)
        (hostname-short cache.target_name cache.target_name_cache k.good.4 k.good.6)
