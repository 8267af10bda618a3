-- ===== src/Js/Floats.antt =====
-- The numbers that the map scripts compute with, as a parameter: the operations of `Number` and
-- `Math` that they use, and what IEEE arithmetic says of them.
use simply_transport.Common.{ℕ, ◌≡◌, Bool, true, false}

pub record Floats : Type 1 where
  pub F : Type 0
  pub num : ℕ → F  -- a whole literal
  pub tiny : ℕ → F  -- `1e-k`
  pub pi : F
  pub infinity : F
  pub add : F → F → F
  pub sub : F → F → F
  pub mul : F → F → F
  pub div : F → F → F
  pub rem : F → F → F  -- `%`
  pub lt : F → F → Bool  -- `<`, false where a side is NaN
  pub min : F → F → F
  pub max : F → F → F
  pub sin : F → F
  pub cos : F → F
  pub atan2 : F → F → F
  -- Neither NaN nor an infinity.
  pub IsFinite : F → Type 0
  -- `<` is a strict order, and what is below something is below Infinity.
  pub lt_irrefl : (a : F) → lt a a ≡ false
  pub lt_trans : (a b c : F) → lt a b ≡ true → lt b c ≡ true → lt a c ≡ true
  pub lt_infinity : (a b : F) → lt a b ≡ true → lt a infinity ≡ true
  -- The remainder of a finite number by 360 lies between -360 and 360, and has the number's sign.
  pub rem_below : (a : F) → IsFinite a → lt (rem a (num 360)) (num 360) ≡ true
  pub rem_sign : (a : F) → IsFinite a → lt a (num 0) ≡ false → lt (rem a (num 360)) (num 0) ≡ false
  pub rem_shift : (a : F) → IsFinite a → lt (add (rem a (num 360)) (num 360)) (num 0) ≡ false
  pub shift_finite : (a : F) → IsFinite a → IsFinite (add (rem a (num 360)) (num 360))
  pub turn_finite : (a : F) → IsFinite a → IsFinite (sub (rem a (num 360)) (num 90))
  pub zero_below : lt (num 0) (num 360) ≡ true
