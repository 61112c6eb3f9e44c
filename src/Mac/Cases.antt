-- ===== src/Mac/Cases.antt =====
-- Which texts `parse_mac` takes for an address, and what number it makes of them.
use f2k.Mac.Form.{address_value}
use f2k.Base.{ℕ, ◌^◌, ◌<◌, ◌≡◌, ◌⊎◌, true, none, some, List, [], ◌∷◌, ◌==◌}
use f2k.Mac.{ishexchar, no_mac, parse_mac}

-- What `parse_mac` makes of a text.
abbrev pub IsParsed : List ℕ → Type 0
IsParsed mac =
    ((v : ℕ) × (v < 2 ^ 48) × (address_value 5 0 mac ≡ some v) × (parse_mac mac ≡ v))
    ⊎ ((address_value 5 0 mac ≡ none) × (parse_mac mac ≡ no_mac))

module _ (c0 c1 c2 c3 c4 c5 c6 c7 c8 c9 c10 c11 c12 c13 c14 c15 c16 : ℕ) where
  abbrev text : List ℕ
  text =
      c0 ∷ c1 ∷ c2 ∷ c3 ∷ c4 ∷ c5 ∷ c6 ∷ c7 ∷ c8 ∷ c9 ∷ c10 ∷ c11 ∷ c12 ∷ c13 ∷ c14 ∷ c15 ∷ c16 ∷ []

  -- The places of the digits and the colons.
  abbrev IsForm : Type 0
  IsForm =
      (ishexchar c0 ≡ true)
      × (ishexchar c1 ≡ true)
      × (ishexchar c3 ≡ true)
      × (ishexchar c4 ≡ true)
      × (ishexchar c6 ≡ true)
      × (ishexchar c7 ≡ true)
      × (ishexchar c9 ≡ true)
      × (ishexchar c10 ≡ true)
      × (ishexchar c12 ≡ true)
      × (ishexchar c13 ≡ true)
      × (ishexchar c15 ≡ true)
      × (ishexchar c16 ≡ true)
      × (c2 == b':' ≡ true)
      × (c5 == b':' ≡ true)
      × (c8 == b':' ≡ true)
      × (c11 == b':' ≡ true)
      × (c14 == b':' ≡ true)
