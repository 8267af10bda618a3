-- ===== src/Table.antt =====
-- static/static/tablesort.js: `sortTableByColumn`, and the listeners that the script adds to the heads of the tables
-- it finds. A table has its `th` cells in one row of heads, and rows of `td` cells below, each by its text.
pub mod Ordered
pub mod Sorted
pub mod Marks
pub mod Clicked
pub mod Truthful
pub mod Bound
use simply_transport.Common.{
  ℕ, zero, suc, Text, units, Bool, true, false, not, ◌&&◌, List, [], ◌∷◌, map, any, length,
  get_elem?, if◌then◌else◌, Option, none, some, ltb, text_eq,
}
use simply_transport.Js.Values.{Field, or_else}
use simply_transport.Js.Floats.{Floats}
use simply_transport.Js.Strings.{trim}
use simply_transport.Js.Sort.{Sign, negative, positive, sort, text_less}

-- What a text is as a number: `parseFloat`, and whether `Number` makes NaN of it; and -1.
pub record Reading (floats : Floats) : Type 0 where
  pub parse_float : Text → floats.F
  pub is_nan : Text → Bool
  pub minus_one : floats.F

-- A `th`: its `data-type`, and its two classes.
pub record Head : Type 0 where
  pub data_type : Field
  pub sort_asc : Bool
  pub sort_desc : Bool

-- The `textContent` of a row's `td` cells.
abbrev pub Row : Type 0
Row = List Text

pub record Table : Type 0 where
  pub heads : List Head
  pub rows : List Row

-- The value of a cell.
pub data Value (F : Type 0) : Type 0 where
  number : F → Value F
  text : Text → Value F

-- Whether `row.querySelector("td:nth-child(…)")` finds nothing.
abbrev pub lacks : ℕ → Row → Bool
lacks column row = elim (get_elem? row column) [ none ↦ true | some t ↦ false ]

-- The trimmed text of the cell, where there is one.
unfoldable pub text_at : ℕ → Row → Text
text_at column row = elim (get_elem? row column) [ none ↦ [] | some t ↦ trim t ]

-- The heads after the sort: no class but that of the column.
unfoldable pub unmark_all : List Head → List Head
unmark_all [] = []
unmark_all (h ∷ heads) = record h { sort_asc = false; sort_desc = false } ∷ unmark_all heads

unfoldable pub toggle_at : ℕ → Bool → List Head → List Head
toggle_at column asc [] = []
toggle_at zero asc (h ∷ heads) = record h { sort_asc = asc; sort_desc = not asc } ∷ heads
toggle_at (suc column) asc (h ∷ heads) = h ∷ toggle_at column asc heads

module _ (floats : Floats) (reading : Reading floats) where
  open floats use {F, num, sub, mul, lt}

  -- The `if` for `aColValue` and for `bColValue`.
  unfoldable pub cell_value : Text → Value F
  cell_value [] = number (num 0)
  cell_value (c ∷ s) =
      if reading.is_nan (c ∷ s) then text (c ∷ s) else number (reading.parse_float (c ∷ s))

  -- `parseFloat` of a value; of a number it is the number.
  unfoldable pub parse_value : Value F → F
  parse_value (number x) = x
  parse_value (text t) = reading.parse_float t

  -- What an engine makes of a comparator's result.
  unfoldable pub sign_of : F → Sign
  sign_of x = if lt x (num 0) then negative else if lt (num 0) x then positive else Sign.zero

  unfoldable pub dir_modifier : Bool → F
  dir_modifier asc = if asc then num 1 else reading.minus_one

  unfoldable pub compare_numbers : Bool → Text → Text → Sign
  compare_numbers asc a b =
      sign_of
        (mul (sub (parse_value (cell_value a)) (parse_value (cell_value b))) (dir_modifier asc))

  -- `aColText > bColText ? 1 * dirModifier : -1 * dirModifier`
  unfoldable pub compare_texts : Bool → Text → Text → Sign
  compare_texts true a b = if text_less b a then positive else negative
  compare_texts false a b = if text_less b a then negative else positive

  -- `data-type`, or "string"
  unfoldable pub is_number_type : Head → Bool
  is_number_type head = text_eq (or_else head.data_type (units "string")) (units "number")

  unfoldable pub compare_rows : Bool → ℕ → Bool → Row → Row → Sign
  compare_rows numeric column asc a b =
      if numeric
      then compare_numbers asc (text_at column a) (text_at column b)
      else compare_texts asc (text_at column a) (text_at column b)

  -- `none` where it throws, which leaves the table as it was: without the column's head, or where the comparator,
  -- which is called from two rows on and then with every row, meets a row without the cell.
  unfoldable pub sort_table_by_column : Table → ℕ → Bool → Option Table
  sort_table_by_column table column asc = elim (get_elem? table.heads column) [
    | none ↦ none
    | some head ↦
        if ltb 1 (length table.rows) && any (lacks column) table.rows
        then none
        else some (record {
          heads = toggle_at column asc (unmark_all table.heads);
          rows = sort (compare_rows (is_number_type head) column asc) table.rows;
        })
  ]

  -- The listener of a head.
  unfoldable pub on_click : ℕ → Table → Option Table
  on_click column table = elim (get_elem? table.heads column) [
    | none ↦ none
    | some head ↦ sort_table_by_column table column (not head.sort_asc)
  ]

  -- A click on a head to which the script has added its listener `n` times, by running `n` times while the table
  -- was there. A listener that throws does not keep the next from running.
  unfoldable pub click : ℕ → ℕ → Table → Table
  click zero column table = table
  click (suc n) column table =
      click n column (elim (on_click column table) [ none ↦ table | some sorted ↦ sorted ])

  unfoldable pub click_all : ℕ → List ℕ → Table → Table
  click_all n [] table = table
  click_all n (column ∷ columns) table = click_all n columns (click n column table)
