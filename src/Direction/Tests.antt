-- ===== src/Direction/Tests.antt =====
-- Runs of the direction functions, and their theorems at concrete inputs.
use f2k.Samples.{small, zeroed-never, zeroed}
use f2k.Direction.Client.{
  ends, client_and_target_ports, named_client_target, guess_direction-client, client_and_target,
}
use f2k.Number.{net2number}
use f2k.Direction.{
  netflow_direction_word, get_direction_based_target_interface,
  get_direction_based_client_interface, upstream, get_client_endpoint, downstream, unset,
  process_direction, get_direction_based_target_port, ip_direction, get_direction_based_client_port,
  guess_direction, FlowCache,
}
use f2k.Direction.Words.{process_direction_cases, Printed}
use f2k.Base.{ℕ, ◌≤◌, ◌<◌, ◌≡◌, refl, ◌⊎◌, Bool, true, false, arith, ltb, ◌==◌, if◌then◌else◌}
use f2k.Base.Bytes.{Pointer}

-- Addresses below 1000 are at home.
abbrev at_home : ℕ → Bool
at_home a = ltb a 1000

abbrev inbound : FlowCache
inbound = record {
  src_address = 5000;
  dst_address = 10;
  client_address = 0;
  direction = unset;
  src_port = 443;
  dst_port = 50000;
  input_interface = 1;
  output_interface = 2;
}

client_port : get_direction_based_client_port (guess_direction at_home inbound).1 ≡ 50000
unfolding get_direction_based_client_port guess_direction ip_direction get_client_endpoint
client_port = refl

guess_direction-client_example : client_and_target (guess_direction at_home inbound).1 ≡ (10, 5000)
guess_direction-client_example =
    guess_direction-client at_home inbound (omega arith) (omega arith) refl refl

client_and_target_ports_example :
    ((get_direction_based_client_port inbound, get_direction_based_target_port inbound)
      ≡ ends unset 443 50000)
    × ((get_direction_based_client_interface inbound, get_direction_based_target_interface inbound)
        ≡ ends unset 1 2)
client_and_target_ports_example = client_and_target_ports inbound

abbrev named : FlowCache
named = record inbound { client_address = 5000 }

named_client_target_example : client_and_target named ≡ (5000, 5000)
named_client_target_example = named_client_target named (omega arith)

-- The byte 2 at every offset.
abbrev twos : Pointer
twos i = 2

process_direction_cases_example :
    let d = net2number twos 1 in
    let (n, q, c) = process_direction zeroed true false small twos 1 inbound in
    ((1 < d) × (n ≡ 0) × (q ≡ small) × (c ≡ inbound))
    ⊎ ((d ≤ 1)
        × (true ≡ true)
        × (n ≡ 0)
        × (q ≡ small)
        × (c.direction ≡ (if d == 0 then upstream else downstream)))
    ⊎ ((d ≤ 1)
        × (true ≡ false)
        × (c ≡ inbound)
        × Printed zeroed zeroed-never small (netflow_direction_word d) (n, q))
process_direction_cases_example =
    process_direction_cases zeroed zeroed-never true false small twos 1 inbound (omega arith)
      (omega arith)
