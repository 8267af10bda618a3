-- ===== src/Popup/Escape.antt =====
-- `escapeHtml`: the four replacements, in the source's order.
pub mod Decoding
pub mod Markup
use simply_transport.Common.{
  ℕ, ◌≡◌, refl, Text, units, [], ◌∷◌, ◌++◌, ◌==◌, if◌then◌else◌, append_assoc, arith,
}
use simply_transport.Js.Values.{Field, undefined, null, str, to_string}
use simply_transport.Js.Strings.{replace_all, replace_all-append}

unfoldable pub escape_text : Text → Text
escape_text s = replace_all b'"' (units "&quot;") (
    replace_all b'>' (units "&gt;")
      (replace_all b'<' (units "&lt;") (replace_all b'&' (units "&amp;") s)))

unfoldable pub escape_html : Field → Text
unfolding escape_text
escape_html undefined = []
escape_html null = []
escape_html (str s) = escape_text (to_string (str s))

-- What becomes of one unit: the replacements do not touch what an earlier one put in.
pub escape_unit : ℕ → Text
escape_unit c =
    if c == b'&'
    then units "&amp;"
    else if c == b'<'
    then units "&lt;"
    else if c == b'>'
    then units "&gt;"
    else if c == b'"'
    then units "&quot;"
    else c ∷ []

escape_text-single : (c : ℕ) → escape_text (c ∷ []) ≡ escape_unit c
unfolding escape_text escape_unit replace_all units
escape_text-single c = ground arith

escape_text-append : (s t : Text) → escape_text (s ++ t) ≡ escape_text s ++ escape_text t
unfolding escape_text
escape_text-append s t = simp replace_all-append

pub escape_text-cons : (c : ℕ) (s : Text) → escape_text (c ∷ s) ≡ escape_unit c ++ escape_text s
escape_text-cons c s = rw (← escape_text-single c) (escape_text-append (c ∷ []) s)

pub escape_text-nil : escape_text [] ≡ []
unfolding escape_text replace_all
escape_text-nil = refl
