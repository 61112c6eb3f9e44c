-- ===== src/Direction/Client.antt =====
-- The client of a flow and its other end.
use f2k.Direction.{
  unset, Direction, downstream, is_downstream, get_direction_based_target_interface, upstream,
  get_client_endpoint, get_direction_based_client_interface, internal,
  get_direction_based_target_port, address_at, ip_direction, get_direction_based_target_ip,
  get_direction_based_client_ip, get_direction_based_client_port, FlowCache, guess_direction,
}
use f2k.Base.{ℕ, ◌≡◌, ◌≢◌, Bool, not, arith, ◌==◌, if◌then◌else◌}

-- The address of the client and of the other end, as they are printed.
abbrev pub client_and_target : FlowCache → ℕ × ℕ
client_and_target cache = (
  address_at cache (get_direction_based_client_ip cache),
  address_at cache (get_direction_based_target_ip cache),
)

-- If exactly one end of a flow is in a home network, both addresses are known and the flow names
-- no client itself, then that end is the client, whatever direction was set before, and the other
-- end is the target.
pub guess_direction-client :
    (in_home_net : ℕ → Bool) (cache : FlowCache)
    → cache.src_address ≢ 0
    → cache.dst_address ≢ 0
    → cache.client_address ≡ 0
    → in_home_net cache.src_address ≡ not (in_home_net cache.dst_address)
    → client_and_target (guess_direction in_home_net cache).1 ≡ (
        if in_home_net cache.src_address
        then (cache.src_address, cache.dst_address)
        else (cache.dst_address, cache.src_address))
unfolding guess_direction ip_direction get_direction_based_client_ip get_direction_based_target_ip
    get_client_endpoint address_at
guess_direction-client in_home_net cache hs hd hc one = ground arith

-- The ends in order, the client first.
abbrev pub ends : Direction → ℕ → ℕ → ℕ × ℕ
ends downstream a b = (b, a)
ends _ a b = (a, b)

-- The client's port and the target's port are the two ports of the flow, the client's the source
-- unless the flow goes downstream; so are the interfaces.
pub client_and_target_ports :
    (cache : FlowCache)
    → ((get_direction_based_client_port cache, get_direction_based_target_port cache)
        ≡ ends cache.direction cache.src_port cache.dst_port)
      × ((get_direction_based_client_interface cache, get_direction_based_target_interface cache)
          ≡ ends cache.direction cache.input_interface cache.output_interface)
unfolding get_direction_based_client_port get_direction_based_target_port
    get_direction_based_client_interface get_direction_based_target_interface get_client_endpoint
client_and_target_ports cache = (
  pair cache.direction cache.src_port cache.dst_port,
  pair cache.direction cache.input_interface cache.output_interface,
)
  where
    pair :
        (d : Direction) (a b : ℕ)
        → let c = if is_downstream d then b else a in
          (c, if◌then◌else◌ {A = ℕ} (c == a) b a) ≡ ends d a b
    pair upstream a b = ground arith
    pair downstream a b = ground arith
    pair internal a b = ground arith
    pair unset a b = ground arith

-- A flow that names its client is given its source as the target, even if the source is that client.
pub named_client_target :
    (cache : FlowCache)
    → cache.client_address ≢ 0
    → client_and_target cache ≡ (cache.client_address, cache.src_address)
unfolding get_direction_based_client_ip get_direction_based_target_ip address_at
named_client_target cache h = ground arith
