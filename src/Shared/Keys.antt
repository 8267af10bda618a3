-- ===== src/Shared/Keys.antt =====
-- `sanitizeRouteIdForImageKey` and `sanitizeColorForImageKey`.
use simply_transport.Common.{
  ℕ, ◌≡◌, refl, Text, units, Bool, true, ◌||◌, [], ◌∷◌, ◌==◌, length, if◌then◌else◌, arith, All,
  Bool-cases, inl, inr, ◌↔◌,
}
use simply_transport.Js.Values.{Field, undefined, null, str, to_string}
use simply_transport.Js.Uri.{is_alphanumeric}

-- `[a-zA-Z0-9_-]`
unfoldable pub is_key_unit : ℕ → Bool
is_key_unit c = is_alphanumeric c || c == b'_' || c == b'-'

-- `.replace(/[^a-zA-Z0-9_-]/g, "_")`
unfoldable pub sanitize : Text → Text
sanitize [] = []
sanitize (c ∷ s) = (if is_key_unit c then c else b'_') ∷ sanitize s

unfoldable pub sanitize_route_id_for_image_key : Field → Text
unfolding sanitize
sanitize_route_id_for_image_key route_id = sanitize (to_string route_id)

unfoldable pub sanitize_color_for_image_key : Field → Text
unfolding sanitize
sanitize_color_for_image_key undefined = sanitize (units "default")
sanitize_color_for_image_key null = sanitize (units "default")
sanitize_color_for_image_key (str []) = sanitize (units "default")
sanitize_color_for_image_key (str (c ∷ s)) = sanitize (c ∷ s)

abbrev pub IsKey : Text → Type 0
IsKey = All (λ c. is_key_unit c ≡ true)

underscore_key : is_key_unit b'_' ≡ true
unfolding is_key_unit is_alphanumeric
underscore_key = refl

kept-unit : (c : ℕ) → is_key_unit (if is_key_unit c then c else b'_') ≡ true
kept-unit c = elim (Bool-cases (is_key_unit c)) [
  | inl key ↦ rw key key
  | inr other ↦ rw other underscore_key
]

pub sanitize-IsKey : (s : Text) → IsKey (sanitize s)
unfolding sanitize
sanitize-IsKey [] = tt
sanitize-IsKey (c ∷ s) = (kept-unit c, sanitize-IsKey s)

pub sanitize_of_IsKey : (s : Text) → IsKey s → sanitize s ≡ s
unfolding sanitize
sanitize_of_IsKey [] h = refl
sanitize_of_IsKey (c ∷ s) (h, hs) = rw (h, sanitize_of_IsKey s hs) refl

pub length-sanitize : (s : Text) → length (sanitize s) ≡ length s
unfolding sanitize
length-sanitize [] = refl
length-sanitize (c ∷ s) = omega (arith, length-sanitize s)

-- A sanitised route id consists of letters, digits, `_` and `-`, is as long as the id's text, and is
-- the text itself exactly where that has no other unit.
pub sanitize_route_id :
    (id : Field)
    → let key = sanitize_route_id_for_image_key id in
      IsKey key × (length key ≡ length (to_string id)) × (key ≡ to_string id ↔ IsKey (to_string id))
unfolding sanitize_route_id_for_image_key
sanitize_route_id id =
    let s = to_string id in
    (sanitize-IsKey s, length-sanitize s, ((λ e. rw e at (sanitize-IsKey s)), sanitize_of_IsKey s))
