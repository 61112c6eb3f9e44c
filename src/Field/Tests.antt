-- ===== src/Field/Tests.antt =====
-- Runs of the printing functions, and their theorems at concrete inputs.
use f2k.Field.Private.{is_private_v6_lem}
use f2k.Field.Milliseconds.{msecond_as_second}
use f2k.Field.MacMap.{print_mac_map_named}
use f2k.Field.Names.{print_mac_map}
use f2k.Field.Flags.{read_flags-flags_text, read_flags}
use f2k.Field.Line.{more_text, member_text, object_text}
use f2k.Samples.{pointer_to-IsMemory, zeroed-never, small, zeroed}
use f2k.Field.Table.{call, Function}
use f2k.Field.Domain.{l2_domain-IsPart, IsPart}
use f2k.Printbuf.{contents}
use f2k.Field.Http.{
  buffer_is_ip, skip_char, split_last, last_labels, before_first, starts_with, l2_domain,
  http_header,
}
use f2k.Field.Cache.{Databases, Flow}
use f2k.Field.Shown.Call.{Call}
use f2k.Field.{print_netflow_record_with_template, Printbuf, Element, element, nil, cons}
use f2k.Field.Shown.{value}
use f2k.Field.Members.{room}
use f2k.Direction.{unset}
use f2k.Base.Bytes.{IsMemory, Pointer, pointer_to, big_endian}
use f2k.Number.{net2number}
use f2k.Field.Saved.{save_first_msecond, save_first_second, save_last_msecond, save_last_second}
use f2k.Field.Address.{address_bytes, is_private_v6}
use f2k.Field.Plain.{flags_text, flag_id_char}
use f2k.Field.Texts.{mac_text}
use f2k.Base.{
  length, ◌==◌, ◌%◌, ◌/◌, ◌*◌, ◌≢◌, ℕ, ◌-◌, ◌^◌, ◌≡◌, refl, true, false, none, some, List, [], ◌∷◌,
  ◌++◌, arith,
}

-- No table has a name, and directions are printed as they come.
abbrev no_names : Databases
no_names = record {
  normalize_directions = false;
  exporter_in_wan_side = false;
  is_span = false;
  network_ip = λ a. none;
  network_name = λ a. none;
  nets = λ a. none;
  mac_vendor = λ a. none;
  mac_name = λ a. none;
  engine_name = λ a. none;
  application_name = λ a. none;
  app_name = λ a. none;
  has_country_db_v6 = false;
  country_code = λ a. none;
  country_code_v6 = λ a. none;
  as_name_v6 = λ a. none;
  is_ip_text = λ s. false;
}

-- `new_flowCache`
abbrev fresh : Flow
fresh = record {
  base = record {
    src_address = 0;
    dst_address = 0;
    client_address = 0;
    direction = unset;
    src_port = 0;
    dst_port = 0;
    input_interface = 0;
    output_interface = 0;
  };
  client_mac = 0;
  src_mac = 0 ∷ 0 ∷ 0 ∷ 0 ∷ 0 ∷ 0 ∷ [];
  dst_mac = 0 ∷ 0 ∷ 0 ∷ 0 ∷ 0 ∷ 0 ∷ [];
  post_src_mac = 0 ∷ 0 ∷ 0 ∷ 0 ∷ 0 ∷ 0 ∷ [];
  post_dst_mac = 0 ∷ 0 ∷ 0 ∷ 0 ∷ 0 ∷ 0 ∷ [];
  http_referer = none;
  http_host = none;
  ssl_common_name = none;
  client_name = none;
  target_name = none;
  client_name_cache = none;
  target_name_cache = none;
  first_switched_uptime_s = 0;
  last_switched_uptime_s = 0;
  first_timestamp_s = 0;
  last_timestamp_s = 0;
  bytes = 0;
  packets = 0;
}

-- "tos" and "flag", the second behind the first.
abbrev tos : Element Function
tos = element 5 false (some (b't' ∷ b'o' ∷ b's' ∷ [])) (some Function.print_number) (
    cons
      (element 6 true (some (b'f' ∷ b'l' ∷ b'a' ∷ b'g' ∷ [])) (some Function.print_tcp_flags) nil)
      nil)

abbrev memory : Pointer
memory = pointer_to (2 ∷ [])

printed_text :
    contents
      (elim (print_netflow_record_with_template zeroed
        (call zeroed no_names)
        tos
        small
        memory
        1
        fresh) [ none ↦ small | some (n, q, c) ↦ q ])
    ≡ object_text (
        record { name = b't' ∷ b'o' ∷ b's' ∷ []; quoted = false; value = b'2' ∷ [] }
        ∷ record {
          name = b'f' ∷ b'l' ∷ b'a' ∷ b'g' ∷ [];
          quoted = true;
          value = b'.' ∷ b'.' ∷ b'.' ∷ b'.' ∷ b'.' ∷ b'.' ∷ b'S' ∷ b'.' ∷ [];
        }
        ∷ [])
unfolding object_text member_text more_text print_netflow_record_with_template
    f2k.Field.print_member f2k.Field.export_value call f2k.Field.Plain.print_number
    f2k.Number.printbuf_memappend_fast_n10 f2k.Number.itoa10 f2k.Number.itoa10_loop
    f2k.Number.quot_ten f2k.Number.to_int64 f2k.Number.net2number f2k.Number.digit_table
    f2k.Number.digit_index f2k.Field.Plain.print_tcp_flags f2k.Field.close_member
    f2k.Printbuf.printbuf_memappend_fast f2k.Field.Plain.flags_text f2k.Field.open_member
    f2k.Field.same_string f2k.Printbuf.copy_in f2k.Printbuf.memcpy f2k.Printbuf.printbuf_memappend
    f2k.Printbuf.printbuf_extend f2k.Samples.grown f2k.Field.int_of_size f2k.Base.Bytes.big_endian
printed_text = refl

-- "http://www.a.es/x"
abbrev url : List ℕ
url = http_header ++ (b'w' ∷ b'w' ∷ b'w' ∷ b'.' ∷ b'a' ∷ b'.' ∷ b'e' ∷ b's' ∷ b'/' ∷ b'x' ∷ [])

registered_domain : l2_domain (λ s. false) 18 url ≡ some (b'a' ∷ b'.' ∷ b'e' ∷ b's' ∷ [])
unfolding l2_domain starts_with before_first last_labels split_last skip_char buffer_is_ip
registered_domain = refl

l2_domain-IsPart_example : (d : List ℕ) × (l2_domain (λ s. false) 18 url ≡ some d) × IsPart d url
l2_domain-IsPart_example = l2_domain-IsPart (λ s. false) 18 url (omega arith)

memory-IsMemory : IsMemory memory
memory-IsMemory = pointer_to-IsMemory (2 ∷ []) (omega arith)

msecond_as_second_example :
    (save_first_msecond small memory 1 fresh ≡ save_first_second small memory 1 fresh)
    × (save_last_msecond small memory 1 fresh ≡ save_last_second small memory 1 fresh)
msecond_as_second_example = msecond_as_second small memory 1 fresh memory-IsMemory (omega arith)

-- 2001::
is_private_v6_lem_example :
    is_private_v6 (0x2001 * 2 ^ 112) ≡ (address_bytes (0x2001 * 2 ^ 112) 0 / 16 % 4 == 2)
is_private_v6_lem_example = is_private_v6_lem (0x2001 * 2 ^ 112)

global_address_is_private : is_private_v6 (0x2001 * 2 ^ 112) ≡ true
unfolding is_private_v6 address_bytes
global_address_is_private = refl

-- SYN and ACK
read_flags-flags_text_example :
    (length (flags_text 18 0 flag_id_char) ≡ 8) × (read_flags (flags_text 18 0 flag_id_char) ≡ 18)
read_flags-flags_text_example = read_flags-flags_text 18 (omega arith)

abbrev mac : Pointer
mac = pointer_to (1 ∷ 2 ∷ 3 ∷ 4 ∷ 5 ∷ 6 ∷ [])

-- The address of `mac` is "ap".
abbrev one_name : Databases
one_name = record no_names { mac_name = λ a. some (b'a' ∷ b'p' ∷ []) }

one_name-Call : Call zeroed one_name small mac 6 fresh
one_name-Call = record {
  never = zeroed-never;
  names = record {
    network_ip = λ a. tt;
    network_name = λ a. tt;
    nets = λ a assoc e. absurd (ground arith);
    mac_vendor = λ a. tt;
    engine_name = λ a. tt;
    application_name = λ a. tt;
    app_name = λ a. tt;
    country_code = λ a. tt;
    country_code_v6 = λ a. tt;
  };
  memory = pointer_to-IsMemory (1 ∷ 2 ∷ 3 ∷ 4 ∷ 5 ∷ 6 ∷ []) (omega arith);
  small = omega arith;
  ready = record { valid = omega arith; ends = refl };
  room = omega arith;
  good = (tt, tt, tt, tt, tt, tt, tt);
}

mac-nonzero : net2number mac 6 ≢ 0
unfolding f2k.Number.net2number f2k.Base.Bytes.big_endian
mac-nonzero e = absurd (omega arith)

print_mac_map_named_example :
    (q : Printbuf) × (print_mac_map zeroed one_name small mac 6 fresh ≡ some (17, q, fresh))
    × (contents q ≡ contents small ++ ((b'a' ∷ b'p' ∷ []) ++ mac_text 6 mac))
print_mac_map_named_example =
    print_mac_map_named one_name-Call (b'a' ∷ b'p' ∷ []) mac-nonzero refl (omega arith)
