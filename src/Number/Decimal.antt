-- ===== src/Number/Decimal.antt =====
-- `_itoa10` prints the decimal digits of a number, with its sign.
use f2k.Base.{
  ◌≢◌, get_or, ℕ, zero, suc, ◌+◌, ◌-◌, ◌*◌, ◌/◌, ◌%◌, ◌^◌, ◌≤◌, ◌<◌, ◌≡◌, refl, ap, ◌∙◌, Bool, true,
  false, not, ◌&&◌, List, [], ◌∷◌, ◌++◌, append_assoc, append-nil, some, arith, length, All,
  length-append, All-append, ltb, ◌==◌, if◌then◌else◌, Bool-cases, inl, inr,
}
use f2k.Number.{
  ℤ, pos, negsuc, negative, to_int64, quot_ten, digit_table, digit_index, is_zero, is_negative,
  itoa10_loop, itoa10,
}

abbrev pub IsDigit : ℕ → Type 0
IsDigit c = (b'0' ≤ c) × (c ≤ b'9')

-- The number that decimal digits stand for, behind the number read so far.
unfoldable pub decimal_from : ℕ → List ℕ → ℕ
decimal_from acc [] = acc
decimal_from acc (c ∷ cs) = decimal_from (acc * 10 + (c - b'0')) cs

abbrev pub decimal : List ℕ → ℕ
decimal text = decimal_from 0 text

decimal_from-append :
    (acc : ℕ) (xs : List ℕ) (c : ℕ)
    → decimal_from acc (xs ++ (c ∷ [])) ≡ decimal_from acc xs * 10 + (c - b'0')
unfolding decimal_from
decimal_from-append acc [] c = refl
decimal_from-append acc (x ∷ xs) c = decimal_from-append (acc * 10 + (x - b'0')) xs c

-- The digits of `m`: at most `k` of them, and no zero in front unless `m` is 0.
pub record Digits (m k : ℕ) (text : List ℕ) : Type 0 where
  pub digits : All IsDigit text
  pub value : decimal text ≡ m
  pub shown : 1 ≤ length text
  pub fits : length text ≤ k
  pub no_zero : 2 ≤ length text → get_or text 0 b'0' ≢ b'0'

one_digit : (m k : ℕ) → m < 10 → 1 ≤ k → Digits m k ((b'0' + m) ∷ [])
unfolding decimal_from
one_digit m k h hk = record {
  digits = omega arith;
  value = omega arith;
  shown = omega arith;
  fits = omega arith;
  no_zero = λ two. absurd (omega arith);
}

-- The first digit of a number that is not 0.
first_digit : (m k c : ℕ) (d : List ℕ) → 0 < m → Digits m k d → get_or (d ++ (c ∷ [])) 0 b'0' ≢ b'0'
unfolding decimal_from
first_digit m k c [] h x = absurd (omega (arith, x.shown))
first_digit m k c (a ∷ []) h x = λ z. absurd (omega (arith, x.value, z, h))
first_digit m k c (a ∷ b ∷ d) h x = x.no_zero (omega arith)

more-Digits :
    (m k : ℕ) (d : List ℕ)
    → 0 < m / 10
    → Digits (m / 10) k d
    → Digits m (suc k) (d ++ ((b'0' + m % 10) ∷ []))
more-Digits m k d h x = record {
  digits = All-append IsDigit d ((b'0' + m % 10) ∷ []) x.digits (omega arith);
  value = omega (arith, decimal_from-append 0 d (b'0' + m % 10), x.value);
  shown = omega (arith, length-append d ((b'0' + m % 10) ∷ []));
  fits = omega (arith, length-append d ((b'0' + m % 10) ∷ []), x.fits);
  no_zero = λ two. first_digit (m / 10) k (b'0' + m % 10) d h x;
}

-- Numbers of one sign: `s m` is the number of size `m`.
module _ (s : ℕ → ℤ) (neg : Bool) (quot : (m : ℕ) → quot_ten (s m) ≡ s (m / 10))
    (digit : (m : ℕ) → digit_table (digit_index (s m)) ≡ b'0' + m % 10)
    (nought : (m : ℕ) → is_zero (s m) ≡ (m == 0))
    (sign : (m : ℕ) → is_negative (s m) ≡ (neg && not (m == 0))) where
  -- What one round of the loop makes of `m`.
  itoa10_loop_round :
      (f m : ℕ) (text : List ℕ)
      → itoa10_loop (suc f) (s m) text ≡ (
          if m / 10 == 0
          then some (
              if neg && not (m == 0) then b'-' ∷ (b'0' + m % 10) ∷ text else (b'0' + m % 10) ∷ text)
          else itoa10_loop f (s (m / 10)) ((b'0' + m % 10) ∷ text))
  unfolding itoa10_loop
  itoa10_loop_round f m text = rw (digit, quot, nought, sign)

  pub itoa10_loop-Digits :
      (f m : ℕ) (text : List ℕ)
      → m < 10 ^ suc f
      → (d : List ℕ) × Digits m (suc f) d
        × (itoa10_loop (suc f) (s m) text
            ≡ some (if neg && not (m == 0) then b'-' ∷ (d ++ text) else d ++ text))
  itoa10_loop-Digits zero m text h = (
    (b'0' + m) ∷ [],
    one_digit m 1 (omega arith) (omega arith),
    ground (arith, itoa10_loop_round 0 m text),
  )
  itoa10_loop-Digits (suc f) m text h = elim (Bool-cases (m / 10 == 0)) [
    | inl last ↦ (
      (b'0' + m) ∷ [],
      one_digit m (suc (suc f)) (ground arith) (omega arith),
      ground (arith, itoa10_loop_round (suc f) m text),
    )
    | inr more ↦
        let c = b'0' + m % 10 in
        let (d, x, e) = itoa10_loop-Digits f (m / 10) (c ∷ text) (omega arith) in
        (
          d ++ (c ∷ []),
          more-Digits m (suc f) d (ground arith) x,
          ground (arith, itoa10_loop_round (suc f) m text, e, append_assoc d (c ∷ []) text),
        )
  ]

pos_digit : (m : ℕ) → digit_table (digit_index (pos m)) ≡ b'0' + m % 10
unfolding digit_table digit_index
pos_digit m = ground arith

negative_digit : (m : ℕ) → digit_table (digit_index (negative m)) ≡ b'0' + m % 10
unfolding digit_table digit_index
negative_digit zero = refl
negative_digit (suc m) = ground arith

negative_quot : (m : ℕ) → quot_ten (negative m) ≡ negative (m / 10)
unfolding quot_ten
negative_quot zero = refl
negative_quot (suc m) = ap negative (omega arith)

pos_zero : (m : ℕ) → is_zero (pos m) ≡ (m == 0)
pos_zero zero = refl
pos_zero (suc m) = ground arith

negative_zero : (m : ℕ) → is_zero (negative m) ≡ (m == 0)
negative_zero zero = refl
negative_zero (suc m) = ground arith

negative_sign : (m : ℕ) → is_negative (negative m) ≡ (true && not (m == 0))
negative_sign zero = refl
negative_sign (suc m) = ground arith

negsuc-pred : (m : ℕ) → 0 < m → negsuc (m - 1) ≡ negative m
negsuc-pred zero h = absurd (omega arith)
negsuc-pred (suc m) h = ap negsuc (omega arith)

mark :
    (m : ℕ) (d : List ℕ)
    → 0 < m
    → (if true && not (m == 0) then b'-' ∷ (d ++ []) else d ++ []) ≡ b'-' ∷ d
mark m d h = ground (arith, append-nil d)

-- The size of the `int64_t` that the 64 bits stand for, and the text of such a number.
abbrev pub magnitude : ℕ → ℕ
magnitude value = if ltb value (2 ^ 63) then value else 2 ^ 64 - value

abbrev pub signed_text : ℕ → List ℕ → List ℕ
signed_text value d = if ltb value (2 ^ 63) then d else b'-' ∷ d

-- The loop of `_itoa10` ends for every 64-bit value, and the text is the decimal form of the
-- `int64_t` with the same bits: the digits of its size, behind a minus sign if it is negative.
pub itoa10_lem :
    (value : ℕ)
    → value < 2 ^ 64
    → (d : List ℕ) × Digits (magnitude value) 20 d
      × (itoa10 (to_int64 value) ≡ some (signed_text value d))
unfolding itoa10 to_int64
itoa10_lem value h = elim (Bool-cases (ltb value (2 ^ 63))) [
  | inl low ↦
      let (d, x, e) =
        itoa10_loop-Digits pos false (λ m. unfold quot_ten in refl) pos_digit pos_zero (λ m. refl)
          19 value [] (omega arith) in
      rw low (d, x, e ∙ ap some (append-nil d))
  | inr high ↦
      let m = 2 ^ 64 - value in
      let (d, x, e) =
        itoa10_loop-Digits negative true negative_quot negative_digit negative_zero negative_sign 19
          m [] (omega arith) in
      rw high (
        d,
        x,
        ap (λ v. itoa10_loop 20 v []) (negsuc-pred m (ground arith))
            ∙ e
            ∙ ap some (mark m d (ground arith)),
      )
]
