-- ===== src/Field/Shown/Plain.antt =====
-- The functions that print texts of the record, numbers and words, and those that only save.
use f2k.Field.Texts.{number_text}
use f2k.Field.Writes.{number-Copied, shows-moved}
use f2k.Printbuf.Append.{memappend_fast-Copied, Copied, Copied-trans}
use f2k.Field.Table.{process_direction_fn, call, Function}
use f2k.Field.Shown.Call.{
  show-name, IsShortText, show-text, show-nothing, show-if, wrote, show-number, Shown, value_limit,
  Call,
}
use f2k.Field.Cache.{Flow, Databases}
use f2k.Field.Saved.{
  save_x_switched, callback_mili_buffer, save_first_second, save_last_switched, save_first_msecond,
  save_flow_pkts, save_first_switched, save_last_second, save_flow_bytes, save_last_msecond,
  be_number,
}
use f2k.Number.{net2number}
use f2k.Printbuf.{printbuf_memappend_fast, sub_size, Printbuf, Allocator}
use f2k.Field.Plain.{
  print_flow_cache_number, process_port0, print_biflow_direction_fn, print_wan_port, print_lan_port,
  print_flow_cache_direction_fn, process_src_port, print_flow_end_reason_fn, process_dst_port,
  flag_id_char, type_msg, print_ssid_name0, flags_text, print_netflow_type, print_number,
  print_ssid_name, print_string, print_tcp_flags, strnlen,
}
use f2k.Number.Wire.{net2number-lt}
use f2k.Field.Shown.{port_value, value}
use f2k.Direction.{
  Direction, FlowCache, biflow_directions, direction_word, flow_end_reasons, netflow_direction_word,
  unset, upstream, downstream, internal,
}
use f2k.Base.{
  ℕ, zero, suc, ◌%◌, ◌^◌, ◌≤◌, ◌<◌, ◌≡◌, sym, ap, subst, inl, inr, not, ◌&&◌, some, List, [], ◌++◌,
  arith, ltb, ◌==◌, if◌then◌else◌, Bool-cases, length, length-append,
}
use f2k.Base.Bytes.{Pointer, advance, big_endian, read_bytes, length-read_bytes}

strnlen-le : (s : Pointer) (n : ℕ) → strnlen s n ≤ n
unfolding strnlen
strnlen-le s zero = omega arith
strnlen-le s (suc n) = ground (arith, strnlen-le (advance s 1) n)

pub be_number-same : (n : ℕ) → n < 2 ^ 64 → net2number (be_number n) 8 ≡ n
unfolding net2number big_endian be_number
be_number-same n h = omega arith

flow_end_reasons-short : (reason : ℕ) → IsShortText (flow_end_reasons reason)
unfolding flow_end_reasons
flow_end_reasons-short reason = ground arith

biflow_directions-short : (direction : ℕ) → IsShortText (biflow_directions direction)
unfolding biflow_directions
biflow_directions-short direction = ground arith

direction_word-le : (direction : Direction) → length (direction_word direction) ≤ 2 ^ 18
unfolding direction_word
direction_word-le unset = omega arith
direction_word-le upstream = omega arith
direction_word-le downstream = omega arith
direction_word-le internal = omega arith

netflow_direction_word-le : (d : ℕ) → length (netflow_direction_word d) ≤ 2 ^ 18
unfolding netflow_direction_word
netflow_direction_word-le d = ground arith

module _ {heap : Allocator} {db : Databases} {p : Printbuf} {buffer : Pointer} {len : ℕ}
    {cache : Flow} (k : Call heap db p buffer len cache) where
  -- The function shows its value.
  abbrev pub IsShown : Function → Type 0
  IsShown f = Shown p (value db f buffer len cache) (call heap db f p buffer len cache)

  read_bytes-small : (n : ℕ) → n < 2 ^ 16 → length (read_bytes n buffer) ≤ value_limit
  read_bytes-small n h = omega (arith, length-read_bytes n buffer)

  -- An append of which the result is the distance that `bpos` moved.
  moved :
      (t : List ℕ) (q : Printbuf)
      → length t ≤ value_limit
      → Copied p t q
      → Shown p (t, cache) (some (sub_size q.bpos p.bpos, q, cache))
  moved t q l x =
      wrote k t cache (shows-moved heap k.never p cache k.ready t q (omega (arith, k.room)) x) l
        k.good

  pub print_string-Shown : IsShown Function.print_string
  unfolding value call print_string
  print_string-Shown = moved (read_bytes len buffer) _ (read_bytes-small len k.small) (
      memappend_fast-Copied heap p (read_bytes len buffer) k.never k.ready.valid
        (omega (arith, k.room, k.small, length-read_bytes len buffer)))

  wire : net2number buffer len < 2 ^ 64
  wire = net2number-lt buffer len k.memory k.small

  pub print_number-Shown : IsShown Function.print_number
  unfolding value call print_number
  print_number-Shown = show-number k (net2number buffer len) wire

  pub print_netflow_type-Shown : IsShown Function.print_netflow_type
  unfolding value call print_netflow_type
  print_netflow_type-Shown =
      let n = net2number buffer len in
      let p1 = printbuf_memappend_fast heap p type_msg in
      let x = memappend_fast-Copied heap p type_msg k.never k.ready.valid (omega (arith, k.room)) in
      let (q, e, y, l) =
        number-Copied heap k.never p1 cache (record { valid = x.valid; ends = x.ends }) n wire
          (omega (arith, x.moved, k.room)) in
      rw e (
        moved (type_msg ++ number_text n) q (omega (arith, length-append type_msg (number_text n)))
          (Copied-trans p p1 q type_msg (number_text n) x y))

  pub print_tcp_flags-Shown : IsShown Function.print_tcp_flags
  unfolding value call print_tcp_flags flags_text
  print_tcp_flags-Shown =
      show-if p (not (len == 1) && not (len == 2)) (show-nothing k cache k.good) (
        show-if p ((if len == 1 then buffer 0 else buffer 1) == 0) (show-nothing k cache k.good) (
          moved (flags_text (if len == 1 then buffer 0 else buffer 1) 0 flag_id_char) _
            (omega arith)
            (memappend_fast-Copied heap p _ k.never k.ready.valid (omega (arith, k.room)))))

  pub print_ssid_name-Shown : IsShown Function.print_ssid_name
  unfolding value call print_ssid_name print_ssid_name0
  print_ssid_name-Shown =
      let n = strnlen buffer (len % 2 ^ 16) in
      let small = strnlen-le buffer (len % 2 ^ 16) in
      wrote k (read_bytes n buffer) cache
        (
          printbuf_memappend_fast heap p (read_bytes n buffer),
          ap (λ m. some (m, printbuf_memappend_fast heap p (read_bytes n buffer), cache))
              (sym (length-read_bytes n buffer)),
          memappend_fast-Copied heap p _ k.never k.ready.valid
              (omega (arith, k.room, length-read_bytes n buffer)),
        )
        (omega (arith, length-read_bytes n buffer)) k.good

  port-Shown :
      (save_port : ℕ → FlowCache → FlowCache)
      → Shown p
          (port_value db.normalize_directions save_port buffer len cache)
          (process_port0 heap db.normalize_directions save_port p buffer len cache)
  unfolding process_port0
  port-Shown save_port = show-if p (not (len == 2)) (show-nothing k cache k.good) (
      show-if p db.normalize_directions (show-nothing k _ k.good)
        (show-number k (net2number buffer len % 2 ^ 16) (omega arith)))

  pub process_src_port-Shown : IsShown Function.process_src_port
  unfolding value call process_src_port
  process_src_port-Shown = port-Shown _

  pub process_dst_port-Shown : IsShown Function.process_dst_port
  unfolding value call process_dst_port
  process_dst_port-Shown = port-Shown _

  pub print_lan_port-Shown : IsShown Function.print_lan_port
  unfolding value call print_lan_port print_flow_cache_number
  print_lan_port-Shown = show-number k _ (omega arith)

  pub print_wan_port-Shown : IsShown Function.print_wan_port
  unfolding value call print_wan_port print_flow_cache_number
  print_wan_port-Shown = show-number k _ (omega arith)

  pub print_flow_end_reason-Shown : IsShown Function.print_flow_end_reason
  unfolding value call print_flow_end_reason_fn f2k.Direction.print_flow_end_reason
  print_flow_end_reason-Shown = show-name k _ (flow_end_reasons-short (buffer 0))

  pub print_biflow_direction-Shown : IsShown Function.print_biflow_direction
  unfolding value call print_biflow_direction_fn f2k.Direction.print_biflow_direction
  print_biflow_direction-Shown = show-name k _ (biflow_directions-short (buffer 0))

  pub print_flow_cache_direction-Shown : IsShown Function.print_flow_cache_direction
  unfolding value call print_flow_cache_direction_fn f2k.Direction.print_flow_cache_direction
      f2k.Direction.printbuf_memappend_fast_string
  print_flow_cache_direction-Shown = show-text k _ (direction_word-le cache.base.direction)

  pub process_direction-Shown : IsShown Function.process_direction
  unfolding value call process_direction_fn f2k.Direction.process_direction
      f2k.Direction.print_netflow_direction f2k.Direction.printbuf_memappend_fast_string
  process_direction-Shown = elim (Bool-cases (ltb 1 (net2number buffer len))) [
    | inl strange ↦ rw strange (show-nothing k cache k.good)
    | inr known ↦ elim (Bool-cases db.normalize_directions) [
      | inl normal ↦ rw (known, normal) (show-nothing k _ k.good)
      | inr plain ↦
          rw (known, plain) (show-text k _ (netflow_direction_word-le (net2number buffer len)))
    ]
  ]

  pub save_first_second-Shown : IsShown Function.save_first_second
  unfolding value call save_first_second
  save_first_second-Shown = show-nothing k _ k.good

  pub save_last_second-Shown : IsShown Function.save_last_second
  unfolding value call save_last_second
  save_last_second-Shown = show-nothing k _ k.good

  pub save_first_switched-Shown : IsShown Function.save_first_switched
  unfolding value call save_first_switched save_x_switched
  save_first_switched-Shown = show-nothing k _ k.good

  pub save_last_switched-Shown : IsShown Function.save_last_switched
  unfolding value call save_last_switched save_x_switched
  save_last_switched-Shown = show-nothing k _ k.good

  pub save_flow_bytes-Shown : IsShown Function.save_flow_bytes
  unfolding value call save_flow_bytes
  save_flow_bytes-Shown = show-nothing k _ k.good

  pub save_flow_pkts-Shown : IsShown Function.save_flow_pkts
  unfolding value call save_flow_pkts
  save_flow_pkts-Shown = show-nothing k _ k.good

  -- The milliseconds go into the field of the seconds as they are.
  pub save_first_msecond-Shown : IsShown Function.save_first_msecond
  unfolding value call save_first_msecond callback_mili_buffer save_first_second
  save_first_msecond-Shown =
      subst
        (λ n.
          Shown p ([], record cache { first_timestamp_s = n })
            (call heap db Function.save_first_msecond p buffer len cache))
        (be_number-same (net2number buffer len) wire) (show-nothing k _ k.good)

  -- The milliseconds go into the field of the seconds as they are.
  pub save_last_msecond-Shown : IsShown Function.save_last_msecond
  unfolding value call save_last_msecond callback_mili_buffer save_last_second
  save_last_msecond-Shown =
      subst
        (λ n.
          Shown p ([], record cache { last_timestamp_s = n })
            (call heap db Function.save_last_msecond p buffer len cache))
        (be_number-same (net2number buffer len) wire) (show-nothing k _ k.good)
