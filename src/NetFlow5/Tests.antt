-- ===== src/NetFlow5/Tests.antt =====
-- A packet of NetFlow 5 with two flows.
use f2k.Base.{◌≡◌, refl, none, List, [], ◌∷◌, arith, All}
use f2k.Base.Bytes.{Pointer, pointer_to}
use f2k.Samples.{no_stats}
use f2k.Template.Encode.{Holds}
use f2k.NetFlow5.Decode.{decoder, decoded_from, dissect_netflow_v5-decoded}
use f2k.NetFlow5.Flows.{flows_numbers, Header, Flow, packet_numbers}
use f2k.NetFlow5.Encode.{encode_numbers, IsNumber, pointer_to-Holds}
use f2k.NetFlow5.{dissect_netflow_v5}

abbrev header : Header
header = record {
  count = 2;
  sys_uptime = 123456;
  unix_secs = 1400000000;
  unix_nsecs = 5;
  flow_sequence = 4294967295;
  engine_type = 1;
  engine_id = 7;
  sample_rate = 0;
}

abbrev web : Flow
web = record {
  srcaddr = 167772161;
  dstaddr = 167772162;
  nexthop = 0;
  input = 3;
  output = 4;
  d_pkts = 10;
  d_octets = 65536;
  first = 120000;
  last = 123000;
  srcport = 50000;
  dstport = 443;
  tcp_flags = 18;
  proto = 6;
  tos = 0;
  src_as = 65000;
  dst_as = 65001;
  src_mask = 24;
  dst_mask = 16;
}

abbrev dns : Flow
dns = record web { dstport = 53; proto = 17; tcp_flags = 0; d_octets = 70 }

abbrev flows : List Flow
flows = web ∷ dns ∷ []

abbrev packet : Pointer
packet = pointer_to (encode_numbers (packet_numbers header flows))

packet-numbers : All IsNumber (packet_numbers header flows)
unfolding flows_numbers
packet-numbers = ground arith

packet-Holds : Holds packet 0 (encode_numbers (packet_numbers header flows))
packet-Holds = pointer_to-Holds (encode_numbers (packet_numbers header flows))

dissect_netflow_v5-decoded_example :
    (dissect_netflow_v5 decoder no_stats packet none).1 ≡ decoded_from header 0 flows
dissect_netflow_v5-decoded_example =
    dissect_netflow_v5-decoded header flows packet packet-numbers packet-Holds no_stats none refl
      (omega arith)
