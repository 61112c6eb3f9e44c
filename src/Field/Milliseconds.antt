-- ===== src/Field/Milliseconds.antt =====
-- `save_first_msecond` and `save_last_msecond` of src/export.c.
use f2k.Number.Wire.{net2number-lt}
use f2k.Number.{net2number}
use f2k.Field.Saved.{
  save_last_second, save_first_second, callback_mili_buffer, save_last_msecond, be_number,
  save_first_msecond,
}
use f2k.Field.Cache.{Flow}
use f2k.Printbuf.{Printbuf}
use f2k.Field.Shown.Plain.{be_number-same}
use f2k.Base.{ℕ, ◌^◌, ◌<◌, ◌≡◌, ap, Option, some}
use f2k.Base.Bytes.{Pointer, IsMemory}

module _ (p : Printbuf) (buffer : Pointer) (len : ℕ) (cache : Flow) (memory : IsMemory buffer)
    (small : len < 2 ^ 16) where
  -- The number read goes through eight bytes in network order and back.
  through :
      (cb : ℕ → Option (ℕ × Printbuf × Flow))
      → cb (net2number (be_number (net2number buffer len)) 8) ≡ cb (net2number buffer len)
  through cb =
      ap cb (be_number-same (net2number buffer len) (net2number-lt buffer len memory small))

  -- A timestamp in milliseconds is stored as a timestamp in seconds is: both functions leave the
  -- number of the field itself in the seconds of the flow, on a field of less than 2 ^ 16 bytes.
  pub msecond_as_second :
      (save_first_msecond p buffer len cache ≡ save_first_second p buffer len cache)
      × (save_last_msecond p buffer len cache ≡ save_last_second p buffer len cache)
  unfolding save_first_msecond save_last_msecond callback_mili_buffer save_first_second
      save_last_second
  msecond_as_second = (
    through (λ n. some (0, p, record cache { first_timestamp_s = n })),
    through (λ n. some (0, p, record cache { last_timestamp_s = n })),
  )
