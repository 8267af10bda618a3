-- ===== src/Js/Values.antt =====
-- A field of a parsed JSON object that holds a string, and the conversions and tests on it.
use simply_transport.Common.{Text, units, Bool, true, false, [], ◌∷◌}

-- `undefined` where the object has no such field.
pub data Field : Type 0 where
  undefined : Field
  null : Field
  str : Text → Field

-- `String(x)`, and `${x}` in a template.
unfoldable pub to_string : Field → Text
to_string undefined = units "undefined"
to_string null = units "null"
to_string (str s) = s

-- `x ? … : …`, where the empty string is falsy; on strings `x != null && x !== ""` is the same.
abbrev pub truthy : Field → Bool
truthy undefined = false
truthy null = false
truthy (str []) = false
truthy (str (c ∷ s)) = true

-- `x || d`
abbrev pub or_else : Field → Text → Text
or_else undefined d = d
or_else null d = d
or_else (str []) d = d
or_else (str (c ∷ s)) d = c ∷ s
