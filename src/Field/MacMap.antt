-- ===== src/Field/MacMap.antt =====
-- `print_mac_map` of src/export.c.
use f2k.Printbuf.Append.{memappend_fast-Copied}
use f2k.Field.Texts.{mac_text}
use f2k.Field.Writes.{mac_loop-Copied}
use f2k.Number.{net2number}
use f2k.Field.Shown.Call.{Call}
use f2k.Field.Cache.{Flow, Databases}
use f2k.Printbuf.{printbuf_memappend_fast, contents, Printbuf, Allocator}
use f2k.Field.Address.{mac_loop, print_mac0}
use f2k.Field.Names.{print_mac_map0, print_mac_map}
use f2k.Base.{ℕ, ◌^◌, ◌<◌, ◌≡◌, ◌≢◌, refl, false, some, List, ◌++◌, arith, ◌==◌, length}
use f2k.Base.Bytes.{Pointer}

-- A hardware address, not 0, that has a name is printed as its name and the address behind it, and
-- the result is the length of the address alone, if every `realloc` succeeds, on a buffer below
-- 2 ^ 31 bytes with its texts shorter than 2 ^ 16 bytes.
pub print_mac_map_named :
    {heap : Allocator} {db : Databases} {p : Printbuf} {buffer : Pointer} {cache : Flow}
    (k : Call heap db p buffer 6 cache) (name : List ℕ)
    → net2number buffer 6 ≢ 0
    → db.mac_name (net2number buffer 6) ≡ some name
    → length name < 2 ^ 16
    → (q : Printbuf) × (print_mac_map heap db p buffer 6 cache ≡ some (17, q, cache))
      × (contents q ≡ contents p ++ (name ++ mac_text 6 buffer))
unfolding print_mac_map print_mac_map0 print_mac0
print_mac_map_named {heap} {db} {p} {buffer} {cache} k name nonzero named short =
    let e : (net2number buffer 6 == 0) ≡ false = ground arith in
    let p1 = printbuf_memappend_fast heap p name in
    let x = memappend_fast-Copied heap p name k.never k.ready.valid (omega (arith, k.room)) in
    let y = mac_loop-Copied heap k.never 6 buffer p p1 name x (omega (arith, k.room, x.moved)) in
    (mac_loop heap 6 buffer p1, rw (e, print_mac_map, print_mac_map0, named) refl, y.bytes)
