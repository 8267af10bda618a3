-- ===== src/Js/Decimal.antt =====
-- The decimal form of a whole number, as `${n}` writes it below 10^21.
use simply_transport.Common.{
  ℕ, zero, suc, ◌+◌, ◌*◌, ◌/◌, ◌%◌, ◌-◌, ◌<◌, ◌≡◌, refl, Text, true, false, [], ◌∷◌, ◌++◌, arith,
  ltb, Bool-cases, inl, inr,
}

-- The digits of `n`, with fuel above `n`.
unfoldable pub decimal_from : ℕ → ℕ → Text
decimal_from zero n = []
decimal_from (suc f) n = elim (ltb n 10) [
  | true ↦ (b'0' + n) ∷ []
  | false ↦ decimal_from f (n / 10) ++ (b'0' + n % 10) ∷ []
]

unfoldable pub decimal : ℕ → Text
unfolding decimal_from
decimal n = decimal_from (suc n) n

-- The number that a text of digits denotes, read from the left.
unfoldable pub read_from : ℕ → Text → ℕ
read_from acc [] = acc
read_from acc (c ∷ s) = read_from (acc * 10 + (c - b'0')) s

read_from-append : (acc : ℕ) (s t : Text) → read_from acc (s ++ t) ≡ read_from (read_from acc s) t
unfolding read_from
read_from-append acc [] t = refl
read_from-append acc (c ∷ s) t = read_from-append (acc * 10 + (c - b'0')) s t

decimal_from-small : (f n : ℕ) → ltb n 10 ≡ true → decimal_from (suc f) n ≡ (b'0' + n) ∷ []
unfolding decimal_from
decimal_from-small f n e = ground arith

decimal_from-large :
    (f n : ℕ)
    → ltb n 10 ≡ false
    → decimal_from (suc f) n ≡ decimal_from f (n / 10) ++ (b'0' + n % 10) ∷ []
unfolding decimal_from
decimal_from-large f n e = ground arith

read_from-digit : (acc d : ℕ) → read_from acc ((b'0' + d) ∷ []) ≡ acc * 10 + d
unfolding read_from
read_from-digit acc d = omega arith

read_from-decimal_from : (f n : ℕ) → n < f → read_from 0 (decimal_from f n) ≡ n
read_from-decimal_from zero n h = elim h [ ]
read_from-decimal_from (suc f) n h = elim (Bool-cases (ltb n 10)) [
  | inl small ↦ rw (decimal_from-small f n small, read_from-digit) (omega arith)
  | inr big ↦
      rw (decimal_from-large f n big, read_from-append, read_from-digit)
        (rw (read_from-decimal_from f (n / 10) (ground arith)) (omega arith))
]

-- The digits denote the number, so the fuel is enough and two numbers never look alike.
pub read_from-decimal : (n : ℕ) → read_from 0 (decimal n) ≡ n
unfolding decimal
read_from-decimal n = read_from-decimal_from (suc n) n (omega arith)
