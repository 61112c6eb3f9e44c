-- ===== src/Field/Private.antt =====
-- `is_private_v6` of src/export.c.
use f2k.Field.Address.{address_bytes, is_private_v6}
use f2k.Base.Bytes.{checked, agree, IsByte}
use f2k.Base.{ℕ, ◌/◌, ◌%◌, ◌≡◌, refl, bit_and, arith, ◌==◌}

-- An IPv6 address is taken for private if and only if its first four bits are 2, 6, 10 or 14. So
-- every address of 2000::/4 is, and no unique local address, fc00::/7.
pub is_private_v6_lem :
    (address : ℕ) → is_private_v6 address ≡ (address_bytes address 0 / 16 % 4 == 2)
unfolding is_private_v6 checked
is_private_v6_lem address =
    agree (λ b. bit_and b 0x30 == 0x20) (λ b. b / 16 % 4 == 2) refl (address_bytes address 0)
      (address_bytes-IsByte address 0)
  where
    address_bytes-IsByte : (a i : ℕ) → IsByte (address_bytes a i)
    address_bytes-IsByte a i = unfold address_bytes in ground arith
