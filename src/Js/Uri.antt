-- ===== src/Js/Uri.antt =====
-- `encodeURIComponent`: unreserved units stand, every other code point gives its UTF-8 bytes as
-- `%XX`; a surrogate without its partner throws a URIError, which is `none`.
use simply_transport.Common.{
  ℕ, ◌+◌, ◌-◌, ◌*◌, ◌/◌, ◌%◌, Text, Bool, ◌||◌, ◌&&◌, [], ◌∷◌, ◌++◌, leb, ltb, ◌==◌, if◌then◌else◌,
  Option, none, some,
}

-- A–Z a–z 0–9
unfoldable pub is_alphanumeric : ℕ → Bool
is_alphanumeric c =
    (leb b'a' c && leb c b'z') || (leb b'A' c && leb c b'Z') || (leb b'0' c && leb c b'9')

-- - _ . ! ~ * ' ( )
unfoldable pub is_mark : ℕ → Bool
is_mark c =
    c == b'-'
    || c == b'_'
    || c == b'.'
    || c == b'!'
    || c == b'~'
    || c == b'*'
    || c == 0x27
    || c == b'('
    || c == b')'

unfoldable pub hex_digit : ℕ → ℕ
hex_digit n = if ltb n 10 then b'0' + n else b'A' + (n - 10)

unfoldable pub percent : ℕ → Text
unfolding hex_digit
percent b = b'%' ∷ hex_digit (b / 16 % 16) ∷ hex_digit (b % 16) ∷ []

-- The UTF-8 bytes of a code point, each written `%XX`.
unfoldable pub encode_point : ℕ → Text
encode_point c =
    if ltb c 0x80
    then percent c
    else if ltb c 0x800
    then percent (0xc0 + c / 64) ++ percent (0x80 + c % 64)
    else if ltb c 0x10000
    then percent (0xe0 + c / 4096) ++ percent (0x80 + c / 64 % 64) ++ percent (0x80 + c % 64)
    else percent (0xf0 + c / 262144)
      ++ percent (0x80 + c / 4096 % 64)
      ++ percent (0x80 + c / 64 % 64)
      ++ percent (0x80 + c % 64)

abbrev pub is_high : ℕ → Bool
is_high c = leb 0xd800 c && leb c 0xdbff

abbrev pub is_low : ℕ → Bool
is_low c = leb 0xdc00 c && leb c 0xdfff

-- Put the encoded text in front of the rest, if the rest has one.
abbrev pub prepend : Text → Option Text → Option Text
prepend s none = none
prepend s (some t) = some (s ++ t)

unfoldable pub encode_uri_component : Text → Option Text
encode_uri_component [] = some []
encode_uri_component (c ∷ []) =
    if is_alphanumeric c || is_mark c
    then some (c ∷ [])
    else if is_high c || is_low c
    then none
    else some (encode_point c)
encode_uri_component (c ∷ d ∷ s) =
    let single = encode_uri_component (d ∷ s) in
    let pair = encode_uri_component s in
    if is_alphanumeric c || is_mark c
    then prepend (c ∷ []) single
    else if is_low c
    then none
    else if is_high c
    then (if is_low d
        then prepend (encode_point ((c - 0xd800) * 1024 + (d - 0xdc00) + 0x10000)) pair
        else none)
    else prepend (encode_point c) single

-- `URLSearchParams`, which writes a space as `+`, and of other units lets letters, digits and `*` `-` `.` `_` stand;
-- here for ASCII.
unfoldable pub form_encode : Text → Text
form_encode [] = []
form_encode (c ∷ s) =
    let rest = form_encode s in
    if is_alphanumeric c || c == b'*' || c == b'-' || c == b'.' || c == b'_'
    then c ∷ rest
    else if c == b' '
    then b'+' ∷ rest
    else percent c ++ rest
