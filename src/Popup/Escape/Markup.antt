-- ===== src/Popup/Escape/Markup.antt =====
-- The units of a text by which HTML tells tags and attribute values from text.
use simply_transport.Common.{
  ℕ, ◌≡◌, refl, Text, units, Bool, ◌||◌, [], ◌∷◌, ◌++◌, ◌==◌, if◌then◌else◌, append_assoc, arith,
}
use simply_transport.Js.Values.{Field, undefined, null, str, to_string}
use simply_transport.Popup.Escape.{
  escape_text, escape_html, escape_unit, escape_text-cons, escape_text-nil,
}

abbrev pub is_markup : ℕ → Bool
is_markup c = c == b'<' || c == b'>' || c == b'"'

-- The text with everything but `<`, `>` and `"` left out.
unfoldable pub markup : Text → Text
markup [] = []
markup (c ∷ s) = (if is_markup c then c ∷ [] else []) ++ markup s

pub markup-append : (s t : Text) → markup (s ++ t) ≡ markup s ++ markup t
unfolding markup
markup-append [] t = refl
markup-append (c ∷ s) t = simp (markup-append s t, append_assoc)

markup-escape_unit : (c : ℕ) → markup (escape_unit c) ≡ []
unfolding markup escape_unit units
markup-escape_unit c = ground arith

pub markup-escape_text : (s : Text) → markup (escape_text s) ≡ []
markup-escape_text [] = rw escape_text-nil (unfold markup in refl)
markup-escape_text (c ∷ s) =
    rw (escape_text-cons c s, markup-append, markup-escape_unit, markup-escape_text s) refl

-- An escaped value holds no unit that could end a tag, an attribute value or the text around it.
pub markup-escape_html : (v : Field) → markup (escape_html v) ≡ []
unfolding escape_html markup
markup-escape_html undefined = refl
markup-escape_html null = refl
markup-escape_html (str s) = unfold to_string in markup-escape_text s
