-- ===== src/Direction.antt =====
-- The direction of a flow, and which of its ends is the client: src/export.c. Whether an address is
-- in a home network of the flow's domain (`network_ip`) is the parameter `in_home_net`.
pub mod Client
pub mod Words
mod Tests
use f2k.Number.{net2number}
use f2k.Printbuf.{printbuf_memappend_fast, Printbuf, Allocator}
use f2k.Base.{
  ℕ, Bool, true, false, not, ◌&&◌, ◌||◌, Option, none, some, List, [], ◌∷◌, ltb, ◌==◌,
  if◌then◌else◌, length,
}
use f2k.Base.Bytes.{Pointer}

-- `direction_t`
pub data Direction : Type 0 where
  unset : Direction
  upstream : Direction
  downstream : Direction
  internal : Direction

-- The part of `struct flowCache` that this is about. An address is its 16 bytes as a number, and
-- `client_address` the client that the flow itself names, 0 if none.
pub record FlowCache : Type 0 where
  pub src_address : ℕ
  pub dst_address : ℕ
  pub client_address : ℕ
  pub direction : Direction
  pub src_port : ℕ
  pub dst_port : ℕ
  pub input_interface : ℕ
  pub output_interface : ℕ

unfoldable pub ip_direction : Bool → Bool → Direction
ip_direction known_src known_dst =
    if not known_src && known_dst
    then downstream
    else if known_src && not known_dst
    then upstream
    else if known_src && known_dst
    then internal
    else unset

abbrev pub is_unset : Direction → Bool
is_unset unset = true
is_unset _ = false

abbrev pub is_downstream : Direction → Bool
is_downstream downstream = true
is_downstream _ = false

unfoldable pub guess_direction : (ℕ → Bool) → FlowCache → Bool × FlowCache
guess_direction in_home_net cache =
    let guessed = ip_direction (in_home_net cache.src_address) (in_home_net cache.dst_address) in
    if cache.src_address == 0 || cache.dst_address == 0
    then (false, cache)
    else if not (is_unset guessed)
    then (true, record cache { direction = guessed })
    else (true, cache)

-- `GET_CLIENT_ENDPOINT`
unfoldable pub get_client_endpoint {ℓ} : {A : Type ℓ} → Direction → A → A → A
get_client_endpoint direction src dst = if is_downstream direction then dst else src

unfoldable pub get_direction_based_client_port : FlowCache → ℕ
get_direction_based_client_port cache =
    get_client_endpoint cache.direction cache.src_port cache.dst_port

unfoldable pub get_direction_based_target_port : FlowCache → ℕ
get_direction_based_target_port cache =
    if get_direction_based_client_port cache == cache.src_port
    then cache.dst_port
    else cache.src_port

unfoldable pub get_direction_based_client_interface : FlowCache → ℕ
get_direction_based_client_interface cache =
    get_client_endpoint cache.direction cache.input_interface cache.output_interface

unfoldable pub get_direction_based_target_interface : FlowCache → ℕ
get_direction_based_target_interface cache =
    if get_direction_based_client_interface cache == cache.input_interface
    then cache.output_interface
    else cache.input_interface

-- A pointer into `flowCache->address`.
pub data Place : Type 0 where
  src : Place
  dst : Place
  client : Place

unfoldable pub address_at : FlowCache → Place → ℕ
address_at cache src = cache.src_address
address_at cache dst = cache.dst_address
address_at cache client = cache.client_address

abbrev is_src : Place → Bool
is_src src = true
is_src _ = false

unfoldable pub get_direction_based_client_ip : FlowCache → Place
get_direction_based_client_ip cache =
    if not (cache.client_address == 0) then client else get_client_endpoint cache.direction src dst

-- The comparison is of pointers.
unfoldable pub get_direction_based_target_ip : FlowCache → Place
get_direction_based_target_ip cache =
    if is_src (get_direction_based_client_ip cache) then dst else src

-- `reasons` of `print_flow_end_reason`
unfoldable pub flow_end_reasons : ℕ → Option (List ℕ)
flow_end_reasons reason =
    if reason == 1
    then some
        (b'i' ∷ b'd' ∷ b'l' ∷ b'e' ∷ b' ' ∷ b't' ∷ b'i' ∷ b'm' ∷ b'e' ∷ b'o' ∷ b'u' ∷ b't' ∷ [])
    else if reason == 2
    then some (
        b'a' ∷ b'c' ∷ b't' ∷ b'i' ∷ b'v' ∷ b'e' ∷ b' ' ∷ b't' ∷ b'i' ∷ b'm' ∷ b'e' ∷ b'o' ∷ b'u'
        ∷ b't' ∷ [])
    else if reason == 3
    then some (b'e' ∷ b'n' ∷ b'd' ∷ b' ' ∷ b'o' ∷ b'f' ∷ b' ' ∷ b'f' ∷ b'l' ∷ b'o' ∷ b'w' ∷ [])
    else if reason == 4
    then some (b'f' ∷ b'o' ∷ b'r' ∷ b'c' ∷ b'e' ∷ b'd' ∷ b' ' ∷ b'e' ∷ b'n' ∷ b'd' ∷ [])
    else if reason == 5
    then some (
        b'l' ∷ b'a' ∷ b'c' ∷ b'k' ∷ b' ' ∷ b'o' ∷ b'f' ∷ b' ' ∷ b'r' ∷ b'e' ∷ b's' ∷ b'o' ∷ b'u'
        ∷ b'r' ∷ b'c' ∷ b'e' ∷ b's' ∷ [])
    else none

-- `directions` of `print_biflow_direction`
unfoldable pub biflow_directions : ℕ → Option (List ℕ)
biflow_directions direction =
    if direction == 0
    then some (b'a' ∷ b'r' ∷ b'b' ∷ b'i' ∷ b't' ∷ b'r' ∷ b'a' ∷ b'r' ∷ b'y' ∷ [])
    else if direction == 1
    then some (b'i' ∷ b'n' ∷ b'i' ∷ b't' ∷ b'i' ∷ b'a' ∷ b't' ∷ b'o' ∷ b'r' ∷ [])
    else if direction == 2
    then some (
        b'r' ∷ b'e' ∷ b'v' ∷ b'e' ∷ b'r' ∷ b's' ∷ b'e' ∷ b' ' ∷ b'i' ∷ b'n' ∷ b'i' ∷ b't' ∷ b'i'
        ∷ b'a' ∷ b't' ∷ b'o' ∷ b'r' ∷ [])
    else if direction == 3
    then some (b'p' ∷ b'e' ∷ b'r' ∷ b'i' ∷ b'm' ∷ b'e' ∷ b't' ∷ b'e' ∷ b'r' ∷ [])
    else none

unfoldable pub netflow_direction_word : ℕ → List ℕ
netflow_direction_word direction =
    if direction == 0
    then (b'i' ∷ b'n' ∷ b'g' ∷ b'r' ∷ b'e' ∷ b's' ∷ b's' ∷ [])
    else if direction == 1
    then (b'e' ∷ b'g' ∷ b'r' ∷ b'e' ∷ b's' ∷ b's' ∷ [])
    else []

unfoldable pub direction_word : Direction → List ℕ
direction_word upstream = (b'u' ∷ b'p' ∷ b's' ∷ b't' ∷ b'r' ∷ b'e' ∷ b'a' ∷ b'm' ∷ [])
direction_word downstream =
    (b'd' ∷ b'o' ∷ b'w' ∷ b'n' ∷ b's' ∷ b't' ∷ b'r' ∷ b'e' ∷ b'a' ∷ b'm' ∷ [])
direction_word internal = (b'i' ∷ b'n' ∷ b't' ∷ b'e' ∷ b'r' ∷ b'n' ∷ b'a' ∷ b'l' ∷ [])
direction_word unset = []

module _ (heap : Allocator) where
  unfoldable pub printbuf_memappend_fast_string : Printbuf → List ℕ → ℕ × Printbuf
  printbuf_memappend_fast_string p str = (length str, printbuf_memappend_fast heap p str)

  -- The text of a code out of a table, or nothing.
  unfoldable pub print_known_word : Printbuf → Option (List ℕ) → ℕ × Printbuf
  print_known_word p none = (0, p)
  print_known_word p (some word) = printbuf_memappend_fast_string p word

  unfoldable pub print_flow_end_reason : Printbuf → Pointer → ℕ × Printbuf
  print_flow_end_reason p buffer = print_known_word p (flow_end_reasons (buffer 0))

  unfoldable pub print_biflow_direction : Printbuf → Pointer → ℕ × Printbuf
  print_biflow_direction p buffer = print_known_word p (biflow_directions (buffer 0))

  unfoldable pub print_netflow_direction : Printbuf → ℕ → ℕ × Printbuf
  print_netflow_direction p direction =
      printbuf_memappend_fast_string p (netflow_direction_word direction)

  unfoldable pub print_flow_cache_direction : Printbuf → FlowCache → ℕ × Printbuf
  print_flow_cache_direction p cache =
      printbuf_memappend_fast_string p (direction_word cache.direction)

  -- The first two arguments are `normalize_directions` and `is_exporter_in_wan_side`.
  unfoldable pub process_direction :
      Bool → Bool → Printbuf → Pointer → ℕ → FlowCache → ℕ × Printbuf × FlowCache
  process_direction normalize_directions in_wan_side p buffer real_field_len cache =
      let direction = net2number buffer real_field_len in
      let ingress = if in_wan_side then not (direction == 0) else direction == 0 in
      let (n, q) = print_netflow_direction p direction in
      if ltb 1 direction
      then (0, p, cache)
      else if normalize_directions
      then (0, p, record cache { direction = if ingress then upstream else downstream })
      else (n, q, cache)
