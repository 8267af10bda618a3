-- ===== src/Js/Strings.antt =====
-- `replace` with a global pattern that matches one code unit, and `trim`.
use mathlib.Core.List.{reverse}
use simply_transport.Common.{
  ℕ, ◌≡◌, refl, Text, Bool, ◌||◌, ◌&&◌, [], ◌∷◌, ◌++◌, append_assoc, leb, ◌==◌, if◌then◌else◌,
  Option, none, some,
}

-- `s.replace(/c/g, r)`: every unit `c` gives way to the text `r`.
unfoldable pub replace_all : ℕ → Text → Text → Text
replace_all c r [] = []
replace_all c r (a ∷ s) = (if a == c then r else a ∷ []) ++ replace_all c r s

pub replace_all-append :
    (c : ℕ) (r s t : Text) → replace_all c r (s ++ t) ≡ replace_all c r s ++ replace_all c r t
unfolding replace_all
replace_all-append c r [] t = refl
replace_all-append c r (a ∷ s) t = simp (replace_all-append c r s t, append_assoc)

-- White space and line terminators, which `trim` removes.
unfoldable pub is_space : ℕ → Bool
is_space c =
    (leb 9 c && leb c 13)
    || c == 32
    || c == 0xa0
    || c == 0x1680
    || (leb 0x2000 c && leb c 0x200a)
    || c == 0x2028
    || c == 0x2029
    || c == 0x202f
    || c == 0x205f
    || c == 0x3000
    || c == 0xfeff

unfoldable pub trim_start : Text → Text
unfolding is_space
trim_start [] = []
trim_start (c ∷ s) = let rest = trim_start s in if is_space c then rest else c ∷ s

-- `s.trim()`
unfoldable pub trim : Text → Text
unfolding trim_start
trim s = reverse (trim_start (reverse (trim_start s)))

-- The text after a prefix.
unfoldable pub strip_prefix : Text → Text → Option Text
strip_prefix [] s = some s
strip_prefix (p ∷ ps) [] = none
strip_prefix (p ∷ ps) (c ∷ s) = if c == p then strip_prefix ps s else none
