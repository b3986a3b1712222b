-- ===== src/Common/Numerals.antt =====
-- Decimal numerals are read back: the verb %d against the digits of strconv.
use p2p_update.Common.{
  ℕ, suc, zero, ◌+◌, ◌*◌, ◌-◌, ◌^◌, ◌/◌, ◌%◌, ◌≡◌, ◌<◌, refl, ◌∙◌, Bool, true, ◌&&◌, [], ◌∷◌, ◌++◌,
  Text, ltb, leb, arith, Bool-cases, inl, inr, decimal_from, All, All-append,
}

abbrev pub is_digit : ℕ → Bool
is_digit c = leb 48 c && leb c 57

abbrev pub number_from : ℕ → Text → ℕ
number_from acc [] = acc
number_from acc (c ∷ t) = number_from (10 * acc + (c - 48)) t

pub number_from-append :
    (acc : ℕ) (t : Text) (c : ℕ) → number_from acc (t ++ c ∷ []) ≡ 10 * number_from acc t + (c - 48)
number_from-append acc [] c = refl
number_from-append acc (d ∷ t) c = number_from-append (10 * acc + (d - 48)) t c

pub number_from-decimal_from :
    (fuel n : ℕ) → n < 10 ^ fuel → number_from 0 (decimal_from fuel n) ≡ n
unfolding decimal_from
number_from-decimal_from zero n h = omega (arith, h)
number_from-decimal_from (suc fuel) n h = elim (Bool-cases (ltb n 10)) [
  | inl small ↦ rw (small) (ground (arith, small))
  | inr big ↦
      let smaller : n / 10 < 10 ^ fuel = omega (arith, h) in
      let read = number_from-decimal_from fuel (n / 10) smaller in
      rw (big)
        (number_from-append 0 (decimal_from fuel (n / 10)) (48 + n % 10) ∙ omega (arith, read))
]

abbrev pub IsDigit : ℕ → Type 0
IsDigit c = is_digit c ≡ true

pub decimal_from-IsDigit : (fuel n : ℕ) → All IsDigit (decimal_from fuel n)
unfolding decimal_from
decimal_from-IsDigit zero n = tt
decimal_from-IsDigit (suc fuel) n = elim (Bool-cases (ltb n 10)) [
  | inl small ↦ rw (small) (ground arith, tt)
  | inr big ↦ rw (big) (
      All-append IsDigit (decimal_from fuel (n / 10)) ((48 + n % 10) ∷ [])
        (decimal_from-IsDigit fuel (n / 10)) (ground arith, tt))
]
