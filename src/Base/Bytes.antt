-- ===== src/Base/Bytes.antt =====
-- Bytes: their range, tables over it, and memory read through a pointer.
use f2k.Base.Tests.{ltb, ◌==◌}
use Prim.Native.Nat.{bit_and, ℕ, zero, suc, ◌+◌, ◌*◌, ◌^◌, ◌<◌}
use mathlib.Core.Path.{◌≡◌, refl, ap}
use mathlib.Core.Bool.{Bool, true, false, not, ◌&&◌}
use mathlib.Core.List.{List, [], ◌∷◌}
use native.Mathlib.Omega.{arith}
use f2k.Base.Lists.{length, get_or}

abbrev pub IsByte : ℕ → Type 0
IsByte b = b < 256

-- A test on every number below `top`, by evaluation.
unfoldable pub checked : (ℕ → Bool) → ℕ → Bool
checked test zero = true
checked test (suc top) = checked test top && test top

pub checked-lt : (test : ℕ → Bool) (x top : ℕ) → x < top → checked test top ≡ true → test x ≡ true
unfolding checked
checked-lt test x zero below passed = absurd (omega arith)
checked-lt test x (suc top) below passed = ground (arith, checked-lt test x top)

-- A pointer into memory: the byte at each offset from it. Nothing bounds a read, as in C.
abbrev pub Pointer : Type 0
Pointer = ℕ → ℕ

-- `p + n`
abbrev pub advance : Pointer → ℕ → Pointer
advance p n i = p (n + i)

-- Memory that holds a list, and zero bytes behind it.
abbrev pub pointer_to : List ℕ → Pointer
pointer_to bytes i = get_or bytes i 0

abbrev pub IsMemory : Pointer → Type 0
IsMemory p = (i : ℕ) → IsByte (p i)

-- The number of `k` bytes in network order, `ntohs`, `ntohl` and `ntohll` for 2, 4 and 8.
unfoldable pub big_endian : ℕ → Pointer → ℕ
big_endian zero p = 0
big_endian (suc k) p = big_endian k p * 256 + p k

-- The first `n` bytes.
unfoldable pub read_bytes : ℕ → Pointer → List ℕ
read_bytes zero p = []
read_bytes (suc n) p = p 0 ∷ read_bytes n (advance p 1)

pub big_endian-lt : (k : ℕ) (p : Pointer) → IsMemory p → big_endian k p < 256 ^ k
unfolding big_endian
big_endian-lt zero p h = omega arith
big_endian-lt (suc k) p h = omega (arith, big_endian-lt k p h, h k)

pub length-read_bytes : (n : ℕ) (p : Pointer) → length (read_bytes n p) ≡ n
unfolding read_bytes
length-read_bytes zero p = refl
length-read_bytes (suc n) p = ap suc (length-read_bytes n (advance p 1))

abbrev pub same : Bool → Bool → Bool
same true b = b
same false b = not b

pub same→eq : (a b : Bool) → same a b ≡ true → a ≡ b
same→eq true true h = refl
same→eq true false h = ground arith
same→eq false true h = ground arith
same→eq false false h = refl

module _ (f g : ℕ → Bool) where
  -- Two tests that agree on every byte, by evaluation.
  pub agree : checked (λ b. same (f b) (g b)) 256 ≡ true → (b : ℕ) → IsByte b → f b ≡ g b
  agree t b h = same→eq (f b) (g b) (checked-lt (λ x. same (f x) (g x)) b 256 h t)

-- The top bit.
pub mask_one : (b : ℕ) → IsByte b → (bit_and b 0x80 == 0) ≡ ltb b 0x80
unfolding checked
mask_one = agree _ _ refl
