-- ===== src/Field/Shown/Apps.antt =====
-- The functions that print an engine or an application.
use f2k.Number.{printbuf_memappend_fast_n10}
use f2k.Printbuf.Append.{Copied-trans, memappend_fast-Copied, Copied-nil, Copied}
use f2k.Field.Writes.{number-Copied}
use f2k.Number.Wire.{net2number-lt}
use f2k.Field.Table.{call}
use f2k.Field.Names.{
  print_application_id_name0, print_application_id, print_application_id_name, application_of,
  print_engine_id, print_engine_id_name0, print_engine_id_name, print_application_id0,
}
use f2k.Field.Shown.Call.{HasShortNames, show-text, show-nothing, Shown, Call, IsShortText}
use f2k.Printbuf.{printbuf_memappend_fast, Printbuf, Allocator}
use f2k.Field.Shown.Plain.{IsShown}
use f2k.Field.Shown.{
  application_text, number_text, engine_text, application_id_text, net2number, Function, Flow,
  Databases, value,
}
use f2k.Field.Open.{appended}
use f2k.Base.{
  ◌>>=◌, ℕ, ◌%◌, ◌^◌, ◌≤◌, ◌<◌, ◌≡◌, refl, ap, subst, ◌∙◌, inl, inr, false, not, ◌&&◌, bit_and,
  some, [], ◌∷◌, ◌++◌, append_assoc, arith, ◌==◌, Bool-cases, Option-cases, length, length-append,
}
use f2k.Base.Bytes.{Pointer}

application_of-short :
    (db : Databases) (appid : ℕ) → HasShortNames db → IsShortText (application_of db appid)
unfolding application_of
application_of-short db appid h = elim (Option-cases (db.application_name appid)) [
  | inl e ↦ rw (e, application_of) (h.app_name appid)
  | inr (name, e) ↦ rw (e, application_of) (subst IsShortText e (h.application_name appid))
]

id_printed :
    (heap : Allocator) (db : Databases) (p : Printbuf) (id : ℕ)
    → (id == 0) ≡ false
    → print_engine_id heap db p id ≡ printbuf_memappend_fast_n10 heap p id
unfolding print_engine_id
id_printed heap db p id e = rw (e, print_engine_id) refl

module _ {heap : Allocator} {db : Databases} {p : Printbuf} {buffer : Pointer} {len : ℕ}
    {cache : Flow} (k : Call heap db p buffer len cache) where
  -- An engine's name or number, in front of what is printed next.
  engine-Copied :
      (id : ℕ)
      → id < 2 ^ 64
      → (q : Printbuf) × (print_engine_id_name0 heap db p id ≡ some (length (engine_text db id), q))
        × Copied p (engine_text db id) q
        × (length (engine_text db id) ≤ 2 ^ 16)
  unfolding print_engine_id_name0 engine_text f2k.Direction.printbuf_memappend_fast_string
  engine-Copied id h = elim (Bool-cases (id == 0)) [
    | inl e ↦
        rw (e, engine_text, print_engine_id_name0)
          (p, refl, Copied-nil p k.ready.valid k.ready.ends, omega arith)
    | inr e ↦ elim (Option-cases (db.engine_name id)) [
      | inl e1 ↦
          let (q, e2, x, l) =
            number-Copied heap k.never p cache k.ready id h (omega (arith, k.room)) in
          rw (e, engine_text, print_engine_id_name0, e1)
            (q, id_printed heap db p id e ∙ e2, x, omega arith)
      | inr (name, e1) ↦
          let short : length name < 2 ^ 16 = subst IsShortText e1 (k.names.engine_name id) in
          rw (e, engine_text, print_engine_id_name0, e1)
            (
              printbuf_memappend_fast heap p name,
              refl,
              memappend_fast-Copied heap p name k.never k.ready.valid (omega (arith, k.room)),
              omega arith,
            )
    ]
  ]

  pub print_engine_id_name-Shown : IsShown k Function.print_engine_id_name
  unfolding value call print_engine_id_name
  print_engine_id_name-Shown =
      let (q, e, x, l) =
        engine-Copied (net2number buffer 1) (net2number-lt buffer 1 k.memory (omega arith)) in
      (q, rw e refl, x, omega arith, k.good)

  application_id-Shown :
      Shown p
        (application_id_text db buffer len, cache)
        (do (n, q) ← print_application_id0 heap db p buffer len; some (n, q, cache))
  unfolding print_application_id0 application_id_text
  application_id-Shown =
      let minor = bit_and (net2number buffer 4) 0x00ffffff % 2 ^ 32 in
      elim (Bool-cases (not (len == 4))) [
        | inl e ↦ rw (e, application_id_text, print_application_id0) (show-nothing k cache k.good)
        | inr e ↦ elim (Bool-cases ((buffer 0 == 0) && (minor == 0))) [
          | inl e1 ↦
              rw (e, application_id_text, print_application_id0, e1) (show-nothing k cache k.good)
          | inr e1 ↦
              let (q, e2, x, l) = engine-Copied (buffer 0) (omega (arith, k.memory 0)) in
              let q1 = printbuf_memappend_fast heap q (b':' ∷ []) in
              let name = engine_text db (buffer 0) in
              let x1 = appended heap k.never p q name (b':' ∷ []) x (omega (arith, k.room)) in
              let l1 = length-append name (b':' ∷ []) in
              let (q2, e3, y, l2) =
                number-Copied heap k.never q1 cache (record { valid = x1.valid; ends = x1.ends })
                  minor (omega arith) (omega (arith, k.room, x1.moved)) in
              let l3 = length-append name (b':' ∷ number_text minor) in
              rw (e, application_id_text, print_application_id0, e1, e2, e3)
                (
                  q2,
                  ap (λ n. some (n, q2, cache)) (omega arith),
                  subst (λ t. Copied p t q2) (append_assoc name (b':' ∷ []) (number_text minor))
                      (Copied-trans p q1 q2 (name ++ (b':' ∷ [])) (number_text minor) x1 y),
                  omega arith,
                  k.good,
                )
        ]
      ]

  pub print_application_id-Shown : IsShown k Function.print_application_id
  unfolding value call print_application_id
  print_application_id-Shown = application_id-Shown

  pub print_application_id_name-Shown : IsShown k Function.print_application_id_name
  unfolding value call print_application_id_name print_application_id_name0 application_text
      f2k.Direction.printbuf_memappend_fast_string
  print_application_id_name-Shown =
      let appid = net2number buffer len in
      elim (Bool-cases (appid == 0)) [
        | inl e ↦ rw (e, application_text, print_application_id_name0) (show-nothing k cache k.good)
        | inr e ↦ elim (Option-cases (application_of db appid)) [
          | inl e1 ↦ rw (e, application_text, print_application_id_name0, e1) application_id-Shown
          | inr (name, e1) ↦
              let short : length name < 2 ^ 16 =
                subst IsShortText e1 (application_of-short db appid k.names) in
              rw (e, application_text, print_application_id_name0, e1)
                (show-text k name (omega arith))
        ]
      ]
