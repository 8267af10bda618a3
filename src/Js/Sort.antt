-- ===== src/Js/Sort.antt =====
-- `Array.prototype.sort` with a comparator, and `<` on strings. The sort is by insertion; for a comparator that orders
-- the items, every stable sort gives the same list.
pub mod Laws
use simply_transport.Common.{
  ℕ, Text, Bool, true, false, ◌||◌, ◌&&◌, List, [], ◌∷◌, ltb, ◌==◌, if◌then◌else◌,
}

-- The sign of what a comparator returns; NaN counts as zero.
pub data Sign : Type 0 where
  negative zero positive : Sign

module _ {A : Type 0} (compare : A → A → Sign) where
  -- An item goes before the first one that it is less than.
  unfoldable pub insert : A → List A → List A
  insert x [] = x ∷ []
  insert x (y ∷ ys) =
      let rest = insert x ys in elim (compare x y) [ negative ↦ x ∷ y ∷ ys | _ ↦ y ∷ rest ]

  unfoldable pub insert_all : List A → List A → List A
  insert_all [] out = out
  insert_all (x ∷ xs) out = insert_all xs (insert x out)

  unfoldable pub sort : List A → List A
  unfolding insert_all insert
  sort xs = insert_all xs []

-- `s < t`, by code units.
unfoldable pub text_less : Text → Text → Bool
text_less [] [] = false
text_less [] (b ∷ t) = true
text_less (a ∷ s) [] = false
text_less (a ∷ s) (b ∷ t) = ltb a b || ((a == b) && text_less s t)
