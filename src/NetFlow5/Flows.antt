-- ===== src/NetFlow5/Flows.antt =====
-- A packet of NetFlow 5 is decoded into the flows that its exporter put into it.
use f2k.Base.{
  ℕ, zero, suc, ◌+◌, ◌*◌, ◌≡◌, refl, ap, ◌∙◌, Option, none, some, List, [], ◌∷◌, ◌++◌, arith,
  get_elem?, All,
}
use f2k.Base.Bytes.{Pointer, advance, big_endian}
use f2k.NetFlow5.Encode.{
  are_positive, Holds-number_at, number_at-append, IsNumber, size_of, number_at, encode_numbers,
}
use f2k.Template.Encode.{Holds}
use f2k.NetFlow5.{
  dst_as, src_as, unknown, ipv4_dst_addr, ipv4_src_addr, ipv4_next_hop, in_pkts, in_bytes,
  first_switched, last_switched, l4_src_port, l4_dst_port, input_snmp, output_snmp, engine_id,
  engine_type, src_tos, protocol, tcp_flags, V5Element, v5_field, flow_at,
}

pub record Header : Type 0 where
  pub count : ℕ
  pub sys_uptime : ℕ
  pub unix_secs : ℕ
  pub unix_nsecs : ℕ
  pub flow_sequence : ℕ
  pub engine_type : ℕ
  pub engine_id : ℕ
  pub sample_rate : ℕ

pub record Flow : Type 0 where
  pub srcaddr : ℕ
  pub dstaddr : ℕ
  pub nexthop : ℕ
  pub input : ℕ
  pub output : ℕ
  pub d_pkts : ℕ
  pub d_octets : ℕ
  pub first : ℕ
  pub last : ℕ
  pub srcport : ℕ
  pub dstport : ℕ
  pub tcp_flags : ℕ
  pub proto : ℕ
  pub tos : ℕ
  pub src_as : ℕ
  pub dst_as : ℕ
  pub src_mask : ℕ
  pub dst_mask : ℕ

abbrev pub header_numbers : Header → List (ℕ × ℕ)
header_numbers h =
    (2, 5)
    ∷ (2, h.count)
    ∷ (4, h.sys_uptime)
    ∷ (4, h.unix_secs)
    ∷ (4, h.unix_nsecs)
    ∷ (4, h.flow_sequence)
    ∷ (1, h.engine_type)
    ∷ (1, h.engine_id)
    ∷ (2, h.sample_rate)
    ∷ []

abbrev pub flow_numbers : Flow → List (ℕ × ℕ)
flow_numbers f =
    (4, f.srcaddr)
    ∷ (4, f.dstaddr)
    ∷ (4, f.nexthop)
    ∷ (2, f.input)
    ∷ (2, f.output)
    ∷ (4, f.d_pkts)
    ∷ (4, f.d_octets)
    ∷ (4, f.first)
    ∷ (4, f.last)
    ∷ (2, f.srcport)
    ∷ (2, f.dstport)
    ∷ (1, 0)
    ∷ (1, f.tcp_flags)
    ∷ (1, f.proto)
    ∷ (1, f.tos)
    ∷ (2, f.src_as)
    ∷ (2, f.dst_as)
    ∷ (1, f.src_mask)
    ∷ (1, f.dst_mask)
    ∷ (2, 0)
    ∷ []

unfoldable pub flows_numbers : List Flow → List (ℕ × ℕ)
flows_numbers [] = []
flows_numbers (f ∷ fs) = flow_numbers f ++ flows_numbers fs

-- The numbers of a packet, in the order in which they are sent.
abbrev pub packet_numbers : Header → List Flow → List (ℕ × ℕ)
packet_numbers h fs = header_numbers h ++ flows_numbers fs

-- What an element stands for; an element that is not read stands for nothing.
unfoldable pub v5_value : V5Element → Header → Flow → Option ℕ
v5_value dst_as h f = none
v5_value src_as h f = none
v5_value unknown h f = none
v5_value ipv4_dst_addr h f = some f.dstaddr
v5_value ipv4_src_addr h f = some f.srcaddr
v5_value ipv4_next_hop h f = some f.nexthop
v5_value in_pkts h f = some f.d_pkts
v5_value in_bytes h f = some f.d_octets
v5_value first_switched h f = some f.first
v5_value last_switched h f = some f.last
v5_value l4_src_port h f = some f.srcport
v5_value l4_dst_port h f = some f.dstport
v5_value input_snmp h f = some f.input
v5_value output_snmp h f = some f.output
v5_value engine_id h f = some h.engine_id
v5_value engine_type h f = some h.engine_type
v5_value src_tos h f = some f.tos
v5_value protocol h f = some f.proto
v5_value tcp_flags h f = some f.tcp_flags

flow_number_at :
    (i offset : ℕ) (n : ℕ × ℕ) (f : Flow) (fs : List Flow)
    → get_elem? fs i ≡ some f
    → ((more : List (ℕ × ℕ)) → number_at offset (flow_numbers f ++ more) ≡ some n)
    → number_at (48 * i + offset) (flows_numbers fs) ≡ some n
unfolding flows_numbers
flow_number_at i offset n f [] e here = absurd (ground arith)
flow_number_at zero offset n f (g ∷ fs) e here =
    let same : g ≡ f = ap (λ o. elim o [ none ↦ g | some x ↦ x ]) e in
    let place : 48 * 0 + offset ≡ offset = omega arith in
    ap (λ k. number_at k (flow_numbers g ++ flows_numbers fs)) place
    ∙ ap (λ x. number_at offset (flow_numbers x ++ flows_numbers fs)) same
    ∙ here (flows_numbers fs)
flow_number_at (suc i) offset n f (g ∷ fs) e here =
    let front : size_of (flow_numbers g) ≡ 48 = unfold size_of in refl in
    let place : 48 * suc i + offset ≡ size_of (flow_numbers g) + (48 * i + offset) =
      omega (arith, front) in
    ap (λ k. number_at k (flow_numbers g ++ flows_numbers fs)) place
    ∙ number_at-append (48 * i + offset) (flow_numbers g) (flows_numbers fs)
        (unfold are_positive in refl)
    ∙ flow_number_at i offset n f fs e here

-- A field as it is read.
abbrev pub read_field : Pointer → Option (ℕ × ℕ) → Option ℕ
read_field p none = none
read_field p (some (buffer, len)) = some (big_endian len (advance p buffer))

module _ (h : Header) (fs : List Flow) (p : Pointer) (all : All IsNumber (packet_numbers h fs))
    (holds : Holds p 0 (encode_numbers (packet_numbers h fs))) where
  pub read_number :
      (offset w x : ℕ)
      → number_at offset (packet_numbers h fs) ≡ some (w, x)
      → big_endian w (advance p offset) ≡ x
  read_number offset w x e =
      let start : offset ≡ 0 + offset = omega arith in
      ap (λ k. big_endian w (advance p k)) start
      ∙ Holds-number_at p 0 offset w x (packet_numbers h fs) all holds e

  read :
      (offset w x : ℕ)
      → number_at offset (packet_numbers h fs) ≡ some (w, x)
      → read_field p (some (offset, w)) ≡ some x
  read offset w x e = ap some (read_number offset w x e)

  read_flow :
      (i offset w x : ℕ) (f : Flow)
      → get_elem? fs i ≡ some f
      → ((more : List (ℕ × ℕ)) → number_at offset (flow_numbers f ++ more) ≡ some (w, x))
      → read_field p (some (flow_at i + offset, w)) ≡ some x
  read_flow i offset w x f e here =
      let front : size_of (header_numbers h) ≡ 24 = unfold size_of in refl in
      let place : flow_at i + offset ≡ size_of (header_numbers h) + (48 * i + offset) =
        omega (arith, front) in
      read (flow_at i + offset) w x (
        ap (λ k. number_at k (packet_numbers h fs)) place
        ∙ number_at-append (48 * i + offset) (header_numbers h) (flows_numbers fs)
            (unfold are_positive in refl)
        ∙ flow_number_at i offset (w, x) f fs e here)

  -- Every field is read from the place where the exporter wrote it.
  pub read_field-v5_field :
      (e : V5Element) (i : ℕ) (f : Flow)
      → get_elem? fs i ≡ some f
      → read_field p (v5_field e i) ≡ v5_value e h f
  unfolding v5_field v5_value number_at
  read_field-v5_field dst_as i f e = refl
  read_field-v5_field src_as i f e = refl
  read_field-v5_field unknown i f e = refl
  read_field-v5_field ipv4_dst_addr i f e = read_flow i 4 4 f.dstaddr f e (λ more. refl)
  read_field-v5_field ipv4_src_addr i f e =
      ap (λ k. read_field p (some (k, 4))) (omega arith)
      ∙ read_flow i 0 4 f.srcaddr f e (λ more. refl)
  read_field-v5_field ipv4_next_hop i f e = read_flow i 8 4 f.nexthop f e (λ more. refl)
  read_field-v5_field in_pkts i f e = read_flow i 16 4 f.d_pkts f e (λ more. refl)
  read_field-v5_field in_bytes i f e = read_flow i 20 4 f.d_octets f e (λ more. refl)
  read_field-v5_field first_switched i f e = read_flow i 24 4 f.first f e (λ more. refl)
  read_field-v5_field last_switched i f e = read_flow i 28 4 f.last f e (λ more. refl)
  read_field-v5_field l4_src_port i f e = read_flow i 32 2 f.srcport f e (λ more. refl)
  read_field-v5_field l4_dst_port i f e = read_flow i 34 2 f.dstport f e (λ more. refl)
  read_field-v5_field input_snmp i f e = read_flow i 12 2 f.input f e (λ more. refl)
  read_field-v5_field output_snmp i f e = read_flow i 14 2 f.output f e (λ more. refl)
  read_field-v5_field engine_id i f e = read 21 1 h.engine_id refl
  read_field-v5_field engine_type i f e = read 20 1 h.engine_type refl
  read_field-v5_field src_tos i f e = read_flow i 39 1 f.tos f e (λ more. refl)
  read_field-v5_field protocol i f e = read_flow i 38 1 f.proto f e (λ more. refl)
  read_field-v5_field tcp_flags i f e = read_flow i 37 1 f.tcp_flags f e (λ more. refl)
