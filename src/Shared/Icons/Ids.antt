-- ===== src/Shared/Icons/Ids.antt =====
-- The ids of vehicle icons: two that are equal come from one colour.
use simply_transport.Common.{
  ◌≡◌, refl, ap, Text, units, false, [], ◌∷◌, ◌++◌, length, length-append, append_cancel_left,
  arith,
}
use simply_transport.Js.Values.{Field, str}
use simply_transport.Shared.Keys.{
  IsKey, sanitize_of_IsKey, sanitize_route_id_for_image_key, sanitize_color_for_image_key,
  is_key_unit,
}
use simply_transport.Js.Uri.{is_alphanumeric}
use simply_transport.Shared.Icons.{icon_id}

-- `#` and six letters or digits, as the API gives colours.
pub record IsHex (color : Field) : Type 0 where
  pub digits : Text
  pub shape : color ≡ str (b'#' ∷ digits)
  pub key : IsKey digits
  pub six : length digits ≡ 6

append_cancel_right : (p q s t : Text) → length s ≡ length t → p ++ s ≡ q ++ t → s ≡ t
append_cancel_right [] [] s t l e = e
append_cancel_right [] (y ∷ q) s t l e = absurd (omega (arith, ap length e, length-append q t))
append_cancel_right (x ∷ p) [] s t l e = absurd (omega (arith, ap length e, length-append p s))
append_cancel_right (x ∷ p) (y ∷ q) s t l e = append_cancel_right p q s t l (cc)

hash_replaced : (is_key_unit b'#') ≡ false
unfolding is_key_unit is_alphanumeric
hash_replaced = refl

color_key : (c : Field) (h : IsHex c) → sanitize_color_for_image_key c ≡ b'_' ∷ h.digits
unfolding sanitize_color_for_image_key
color_key c h = rw (h.shape, hash_replaced, sanitize_of_IsKey h.digits h.key) refl

-- Equal ids come from equal colours.
pub icon_id-color :
    (r q : Field) (c d : Field) → IsHex c → IsHex d → icon_id r c ≡ icon_id q d → c ≡ d
unfolding icon_id
icon_id-color r q c d h k e =
    let tails = append_cancel_left (units "vehicle-icon-") _ _ e in
    let keys =
      append_cancel_right (sanitize_route_id_for_image_key r) (sanitize_route_id_for_image_key q)
        (b'-' ∷ sanitize_color_for_image_key c) (b'-' ∷ sanitize_color_for_image_key d)
        (rw (color_key c h, color_key d k) (omega (arith, h.six, k.six))) tails in
    let ec = color_key c h in
    let ed = color_key d k in let es : h.digits ≡ k.digits = cc in rw (h.shape, k.shape, es) refl
