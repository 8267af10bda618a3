-- ===== src/Table/Ordered.antt =====
-- The comparator orders the rows of a column, by number or by text.
use simply_transport.Common.{
  ℕ, ◌≡◌, ◌≢◌, refl, sym, ◌∙◌, Bool, true, false, if◌then◌else◌, Bool-cases, inl, inr, arith,
}
use simply_transport.Js.Floats.{Floats}
use simply_transport.Js.Sort.{negative, text_less}
use simply_transport.Js.Sort.Laws.{Orders, text_less_asym, not_less_trans}
use simply_transport.Table.{
  Reading, Row, lacks, text_at, cell_value, parse_value, sign_of, dir_modifier, compare_numbers,
  compare_texts, compare_rows,
}

-- What IEEE arithmetic says of the sign of a difference, times 1 or -1, and of numbers that are not less.
pub record SignLaws (floats : Floats) (reading : Reading floats) : Type 0 where
  pub mul_one : (x : floats.F) → floats.mul x (floats.num 1) ≡ x
  pub minus_sign :
      (a b : floats.F)
      → floats.IsFinite a
      → floats.IsFinite b
      → floats.lt (floats.mul (floats.sub a b) reading.minus_one) (floats.num 0)
        ≡ floats.lt (floats.num 0) (floats.sub a b)
  pub below_sign :
      (a b : floats.F)
      → floats.IsFinite a
      → floats.IsFinite b
      → floats.lt (floats.sub a b) (floats.num 0) ≡ floats.lt a b
  pub above_sign :
      (a b : floats.F)
      → floats.IsFinite a
      → floats.IsFinite b
      → floats.lt (floats.num 0) (floats.sub a b) ≡ floats.lt b a
  pub not_less :
      (a b c : floats.F)
      → floats.IsFinite a
      → floats.IsFinite b
      → floats.IsFinite c
      → floats.lt a b ≡ false
      → floats.lt b c ≡ false
      → floats.lt a c ≡ false

module _ (floats : Floats) (reading : Reading floats) where
  open floats use {F, num, sub, mul, lt, IsFinite}

  -- The number by which a row is sorted.
  abbrev pub key : ℕ → Row → F
  key column row = parse_value floats reading (cell_value floats reading (text_at column row))

  -- The row has the cell, and in a column of numbers the cell reads as a finite one; an empty cell reads as 0.
  abbrev pub IsReadable : Bool → ℕ → Row → Type 0
  IsReadable true column row = (lacks column row ≡ false) × IsFinite (key column row)
  IsReadable false column row = lacks column row ≡ false

  abbrev pub row_less : Bool → ℕ → Row → Row → Bool
  row_less true column a b = lt (key column a) (key column b)
  row_less false column a b = text_less (text_at column a) (text_at column b)

  -- `a` is not above `b`, or in descending order not below.
  abbrev pub MayPrecede : Bool → ℕ → Bool → Row → Row → Type 0
  MayPrecede numeric column true a b = row_less numeric column b a ≡ false
  MayPrecede numeric column false a b = row_less numeric column a b ≡ false

  less-asym : (a b : F) → lt a b ≡ true → lt b a ≡ false
  less-asym a b h = elim (Bool-cases (lt b a)) [
    | inl back ↦
        let loop = floats.lt_trans a b a h back in let no_loop = floats.lt_irrefl a in absurd (cc)
    | inr e ↦ e
  ]

  sign_of-negative : (x : F) → sign_of floats reading x ≡ negative → lt x (num 0) ≡ true
  unfolding sign_of
  sign_of-negative x h = ground arith

  negative_of_less : (x : F) → lt x (num 0) ≡ true → sign_of floats reading x ≡ negative
  unfolding sign_of
  negative_of_less x h = rw h refl

  module _ (laws : SignLaws floats reading) where
    scaled-sign :
        (asc : Bool) (a b : F)
        → IsFinite a
        → IsFinite b
        → lt (mul (sub a b) (dir_modifier floats reading asc)) (num 0)
          ≡ (if asc then lt a b else lt b a)
    unfolding dir_modifier
    scaled-sign true a b h k = rw (laws.mul_one (sub a b)) (laws.below_sign a b h k)
    scaled-sign false a b h k = laws.minus_sign a b h k ∙ laws.above_sign a b h k

    numbers-first :
        (column : ℕ) (asc : Bool) (x y : Row)
        → IsReadable true column x
        → IsReadable true column y
        → compare_rows floats reading true column asc x y ≡ negative
        → MayPrecede true column asc x y
    unfolding compare_rows compare_numbers
    numbers-first column true x y (_, h) (_, k) e =
        less-asym _ _ (sym (scaled-sign true _ _ h k) ∙ sign_of-negative _ e)
    numbers-first column false x y (_, h) (_, k) e =
        less-asym _ _ (sym (scaled-sign false _ _ h k) ∙ sign_of-negative _ e)

    not_less_of :
        (asc : Bool) (a b : F)
        → IsFinite a
        → IsFinite b
        → sign_of floats reading (mul (sub a b) (dir_modifier floats reading asc)) ≢ negative
        → (if asc then lt a b else lt b a) ≡ false
    not_less_of asc a b h k n = elim (Bool-cases (if asc then lt a b else lt b a)) [
      | inl less ↦ absurd (n (negative_of_less _ (scaled-sign asc a b h k ∙ less)))
      | inr e ↦ e
    ]

    numbers-second :
        (column : ℕ) (asc : Bool) (x y : Row)
        → IsReadable true column x
        → IsReadable true column y
        → compare_rows floats reading true column asc x y ≢ negative
        → MayPrecede true column asc y x
    unfolding compare_rows compare_numbers
    numbers-second column true x y (_, h) (_, k) n = not_less_of true _ _ h k n
    numbers-second column false x y (_, h) (_, k) n = not_less_of false _ _ h k n

    numbers_trans :
        (column : ℕ) (asc : Bool) (x y z : Row)
        → IsReadable true column x
        → IsReadable true column y
        → IsReadable true column z
        → MayPrecede true column asc x y
        → MayPrecede true column asc y z
        → MayPrecede true column asc x z
    numbers_trans column true x y z (_, h) (_, k) (_, l) r s = laws.not_less _ _ _ l k h s r
    numbers_trans column false x y z (_, h) (_, k) (_, l) r s = laws.not_less _ _ _ h k l r s

  texts-first :
      (column : ℕ) (asc : Bool) (x y : Row)
      → compare_rows floats reading false column asc x y ≡ negative
      → MayPrecede false column asc x y
  unfolding compare_rows compare_texts
  texts-first column true x y e = ground arith
  texts-first column false x y e = text_less_asym _ _ (ground arith)

  texts-second :
      (column : ℕ) (asc : Bool) (x y : Row)
      → compare_rows floats reading false column asc x y ≢ negative
      → MayPrecede false column asc y x
  unfolding compare_rows compare_texts
  texts-second column true x y n = text_less_asym _ _ (ground arith)
  texts-second column false x y n = ground arith

  texts_trans :
      (column : ℕ) (asc : Bool) (x y z : Row)
      → MayPrecede false column asc x y
      → MayPrecede false column asc y z
      → MayPrecede false column asc x z
  texts_trans column true x y z r s = not_less_trans _ _ _ s r
  texts_trans column false x y z r s = not_less_trans _ _ _ r s

  pub rows-Orders :
      SignLaws floats reading
      → (numeric : Bool) (column : ℕ) (asc : Bool)
      → Orders
          (compare_rows floats reading numeric column asc)
          (IsReadable numeric column)
          (MayPrecede numeric column asc)
  rows-Orders laws true column asc = record {
    first = numbers-first laws column asc;
    second = numbers-second laws column asc;
    trans = numbers_trans laws column asc;
  }
  rows-Orders laws false column asc = record {
    first = λ x y h k. texts-first column asc x y;
    second = λ x y h k. texts-second column asc x y;
    trans = λ x y z h k l. texts_trans column asc x y z;
  }
