-- ===== src/Popup/Escape/Decoding.antt =====
-- Escaped text, decoded as a browser decodes character references, is the original text.
use simply_transport.Common.{
  ℕ, zero, suc, ◌≤◌, ◌≡◌, refl, ap, Text, units, [], ◌∷◌, ◌++◌, length, arith, none, some,
}
use simply_transport.Js.Values.{str, to_string}
use simply_transport.Js.Strings.{strip_prefix}
use simply_transport.Popup.Escape.{
  escape_text, escape_html, escape_unit, escape_text-cons, escape_text-nil,
}

-- Decode the four named character references; any other unit stands for itself.
unfoldable pub decode_html : ℕ → Text → Text
decode_html zero s = []
decode_html (suc f) [] = []
decode_html (suc f) (c ∷ s) = elim (strip_prefix (units "&amp;") (c ∷ s)) [
  | some r ↦ b'&' ∷ decode_html f r
  | none ↦ elim (strip_prefix (units "&lt;") (c ∷ s)) [
    | some r ↦ b'<' ∷ decode_html f r
    | none ↦ elim (strip_prefix (units "&gt;") (c ∷ s)) [
      | some r ↦ b'>' ∷ decode_html f r
      | none ↦ elim (strip_prefix (units "&quot;") (c ∷ s)) [
        | some r ↦ b'"' ∷ decode_html f r
        | none ↦ c ∷ decode_html f s
      ]
    ]
  ]
]

decode_html-escape_unit :
    (f c : ℕ) (s : Text) → decode_html (suc f) (escape_unit c ++ s) ≡ c ∷ decode_html f s
unfolding decode_html escape_unit strip_prefix units
decode_html-escape_unit f c s = ground arith

decode_html-escape_text :
    (f : ℕ) (s : Text) → length s ≤ f → decode_html (suc f) (escape_text s) ≡ s
decode_html-escape_text f [] h = rw escape_text-nil (unfold decode_html in refl)
decode_html-escape_text zero (c ∷ s) h = elim h [ ]
decode_html-escape_text (suc f) (c ∷ s) h =
    rw (escape_text-cons c s, decode_html-escape_unit)
      (ap (λ (t : Text). c ∷ t) (decode_html-escape_text f s (omega arith)))

-- A browser that decodes the escaped form of a string shows that string, whatever it holds; one
-- round of the decoder for each unit of the string, and one more, are enough.
pub decode_html-escape_html :
    (f : ℕ) (s : Text) → length s ≤ f → decode_html (suc f) (escape_html (str s)) ≡ s
unfolding escape_html to_string
decode_html-escape_html f s h = decode_html-escape_text f s h
