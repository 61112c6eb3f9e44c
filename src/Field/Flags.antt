-- ===== src/Field/Flags.antt =====
-- The letters of `print_tcp_flags` in src/export.c.
use f2k.Field.Plain.{flag_id_char, flags_text}
use f2k.Base.Bytes.{checked, checked-lt, IsByte}
use f2k.Base.{length, ℕ, ◌+◌, ◌≡◌, refl, List, [], ◌∷◌, ◌==◌, if◌then◌else◌, ==_iff}

-- The bit of a flag, by its letter: FIN, SYN, RST, PSH, ACK, URG, ECE and CWR. A dot is none.
unfoldable pub read_flag : ℕ → ℕ
read_flag c =
    if c == b'F'
    then 1
    else if c == b'S'
    then 2
    else if c == b'R'
    then 4
    else if c == b'P'
    then 8
    else if c == b'A'
    then 16
    else if c == b'U'
    then 32
    else if c == b'E'
    then 64
    else if c == b'C'
    then 128
    else 0

-- The flags that a text names.
unfoldable pub read_flags : List ℕ → ℕ
read_flags [] = 0
read_flags (c ∷ cs) = read_flag c + read_flags cs

-- The text of a byte of TCP flags has eight characters, and the letters in it are those of the
-- flags that are set.
pub read_flags-flags_text :
    (tcp_flags : ℕ)
    → IsByte tcp_flags
    → (length (flags_text tcp_flags 0 flag_id_char) ≡ 8)
      × (read_flags (flags_text tcp_flags 0 flag_id_char) ≡ tcp_flags)
unfolding checked read_flags read_flag flags_text
read_flags-flags_text tcp_flags h = (
  refl,
  (==_iff _ _).0
      (checked-lt (λ b. read_flags (flags_text b 0 flag_id_char) == b) tcp_flags 256 h refl),
)
