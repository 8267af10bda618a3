-- ===== src/Tests/Numbers.antt =====
-- Whole numbers with an infinity, as numbers that the bearings can be computed with.
use simply_transport.Common.{
  ℕ, ◌+◌, ◌-◌, ◌*◌, ◌/◌, ◌%◌, ◌≡◌, refl, Bool, true, false, if◌then◌else◌, ltb, leb, arith,
}
use simply_transport.Js.Floats.{Floats}

-- `minus n` is -(n + 1).
pub data Number : Type 0 where
  plus minus : ℕ → Number
  top : Number

-- `a - b`
abbrev pub less : ℕ → ℕ → Number
less a b = if leb b a then plus (a - b) else minus (b - a - 1)

abbrev pub plus_of : Number → Number → Number
plus_of (plus a) (plus b) = plus (a + b)
plus_of (plus a) (minus b) = less a (b + 1)
plus_of (minus a) (plus b) = less b (a + 1)
plus_of (minus a) (minus b) = minus (a + b + 1)
plus_of _ _ = top

abbrev pub opposite : Number → Number
opposite (plus a) = less 0 a
opposite (minus a) = plus (a + 1)
opposite top = top

abbrev pub times : Number → Number → Number
times (plus a) (plus b) = plus (a * b)
times (plus a) (minus b) = less 0 (a * (b + 1))
times (minus a) (plus b) = less 0 ((a + 1) * b)
times (minus a) (minus b) = plus ((a + 1) * (b + 1))
times _ _ = top

abbrev pub quotient : Number → Number → Number
quotient (plus a) (plus b) = plus (a / b)
quotient (minus a) (plus b) = less 0 ((a + 1) / b)
quotient _ _ = top

-- The sign of the left side, as `%` has it.
abbrev pub remainder : Number → Number → Number
remainder (plus a) (plus b) = plus (a % b)
remainder (minus a) (plus b) = less 0 ((a + 1) % b)
remainder _ _ = top

abbrev pub below : Number → Number → Bool
below (plus a) (plus b) = ltb a b
below (plus a) (minus b) = false
below (minus a) (plus b) = true
below (minus a) (minus b) = ltb b a
below top _ = false
below _ top = true

abbrev pub IsWhole : Number → Type 0
IsWhole (plus a) = Unit
IsWhole (minus a) = Unit
IsWhole top = ⊥

pub irrefl : (a : Number) → below a a ≡ false
irrefl (plus a) = ground arith
irrefl (minus a) = ground arith
irrefl top = refl

pub below_trans : (a b c : Number) → below a b ≡ true → below b c ≡ true → below a c ≡ true
below_trans a b c h k = ground arith

pub below_top : (a b : Number) → below a b ≡ true → below a top ≡ true
below_top a b h = ground arith

pub remainder-below : (a : Number) → IsWhole a → below (remainder a (plus 360)) (plus 360) ≡ true
remainder-below (plus a) h = ground arith
remainder-below (minus a) h = ground arith
remainder-below top h = absurd h

pub remainder_sign :
    (a : Number)
    → IsWhole a
    → below a (plus 0) ≡ false
    → below (remainder a (plus 360)) (plus 0) ≡ false
remainder_sign (plus a) h k = ground arith
remainder_sign (minus a) h k = ground arith
remainder_sign top h k = absurd h

pub remainder_shift :
    (a : Number) → IsWhole a → below (plus_of (remainder a (plus 360)) (plus 360)) (plus 0) ≡ false
remainder_shift (plus a) h = ground arith
remainder_shift (minus a) h = ground arith
remainder_shift top h = absurd h

pub shift-IsWhole : (a : Number) → IsWhole a → IsWhole (plus_of (remainder a (plus 360)) (plus 360))
shift-IsWhole (plus a) h = tt
shift-IsWhole (minus a) h = ground arith
shift-IsWhole top h = absurd h

pub turn-IsWhole :
    (a : Number) → IsWhole a → IsWhole (plus_of (remainder a (plus 360)) (opposite (plus 90)))
turn-IsWhole (plus a) h = ground arith
turn-IsWhole (minus a) h = ground arith
turn-IsWhole top h = absurd h

abbrev pub whole_numbers : Floats
whole_numbers = record {
  F = Number;
  num = plus;
  tiny = λ k. plus 0;
  pi = plus 180;
  infinity = top;
  add = plus_of;
  sub = λ a b. plus_of a (opposite b);
  mul = times;
  div = quotient;
  rem = remainder;
  lt = below;
  min = λ a b. if below a b then a else b;
  max = λ a b. if below a b then b else a;
  sin = λ a. a;
  cos = λ a. plus 1;
  atan2 = λ y x. y;
  IsFinite = IsWhole;
  lt_irrefl = irrefl;
  lt_trans = below_trans;
  lt_infinity = below_top;
  rem_below = remainder-below;
  rem_sign = remainder_sign;
  rem_shift = remainder_shift;
  shift_finite = shift-IsWhole;
  turn_finite = turn-IsWhole;
  zero_below = refl;
}
