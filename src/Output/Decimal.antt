-- ===== src/Output/Decimal.antt =====
-- How `{}` writes a number.
use qcs_sdk_qir.Base.{
  ℕ, zero, suc, ◌+◌, ◌-◌, ◌*◌, ◌/◌, ◌%◌, ◌<◌, ◌==◌, ◌≡◌, ap, ◌∙◌, [], ◌∷◌, Text, arith,
  if◌then◌else◌, Bool-cases, inl, inr,
}
use qcs_sdk_qir.Base.Int.{ℤ, pos, negsuc}

-- The digits of `n` in front of `acc`: the last digit first, as long as there is more.
unfoldable pub decimal_onto : ℕ → ℕ → Text → Text
decimal_onto zero n acc = acc
decimal_onto (suc fuel) n acc =
    let digits = (48 + n % 10) ∷ acc in
    let more = decimal_onto fuel (n / 10) digits in if n / 10 == 0 then digits else more

-- A number has no more digits than its value plus one.
unfoldable pub decimal : ℕ → Text
unfolding decimal_onto
decimal n = decimal_onto (suc n) n []

unfoldable pub decimal_int : ℤ → Text
unfolding decimal
decimal_int (pos n) = decimal n
decimal_int (negsuc n) = b'-' ∷ decimal (suc n)

-- The value of a text of digits, behind digits of the value `v`.
unfoldable pub read_onto : ℕ → Text → ℕ
read_onto v [] = v
read_onto v (c ∷ t) = read_onto (v * 10 + (c - 48)) t

read_onto-decimal_onto :
    (fuel n : ℕ) (acc : Text) → n < fuel → read_onto 0 (decimal_onto fuel n acc) ≡ read_onto n acc
unfolding decimal_onto read_onto
read_onto-decimal_onto zero n acc h = absurd (omega arith)
read_onto-decimal_onto (suc fuel) n acc h = elim (Bool-cases (n / 10 == 0)) [
  | inl e ↦
      let same : 0 * 10 + (48 + n % 10 - 48) ≡ n = ground arith in
      rw e (ap (λ v. read_onto v acc) same)
  | inr e ↦
      let below : n / 10 < fuel = ground arith in
      let same : n / 10 * 10 + (48 + n % 10 - 48) ≡ n = omega arith in
      rw e (
        read_onto-decimal_onto fuel (n / 10) ((48 + n % 10) ∷ acc) below
        ∙ ap (λ v. read_onto v acc) same)
]

-- The fuel is enough: the digits of a number read back as the number.
pub read_onto-decimal : (n : ℕ) → read_onto 0 (decimal n) ≡ n
unfolding decimal read_onto
read_onto-decimal n = read_onto-decimal_onto (suc n) n [] (omega arith)
