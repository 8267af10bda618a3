-- ===== src/Table/Sorted.antt =====
-- A sorted column is in order, by number or by text, and no row is lost.
use mathlib.Core.List.{Perm}
use simply_transport.Common.{
  ℕ, ◌≡◌, refl, Bool, true, false, List, [], ◌∷◌, any, get_elem?, some, All, arith,
}
use simply_transport.Js.Floats.{Floats}
use simply_transport.Js.Sort.{sort}
use simply_transport.Js.Sort.Laws.{InOrder, sort-perm, sort-InOrder}
use simply_transport.Table.{
  Reading, Head, Row, Table, lacks, is_number_type, toggle_at, unmark_all, compare_rows,
  sort_table_by_column,
}
use simply_transport.Table.Ordered.{SignLaws, IsReadable, MayPrecede, rows-Orders}

module _ (floats : Floats) (reading : Reading floats) where
  pub none_lacking :
      (numeric : Bool) (column : ℕ) (rows : List Row)
      → All (IsReadable floats reading numeric column) rows
      → any (lacks column) rows ≡ false
  none_lacking numeric column [] hs = refl
  none_lacking true column (row ∷ rows) ((h, _), hs) = rw h (none_lacking true column rows hs)
  none_lacking false column (row ∷ rows) (h, hs) = rw h (none_lacking false column rows hs)

  pub sort_table_by_column-eq :
      (table : Table) (column : ℕ) (asc : Bool) (head : Head)
      → get_elem? table.heads column ≡ some head
      → any (lacks column) table.rows ≡ false
      → sort_table_by_column floats reading table column asc
        ≡ some (record {
          heads = toggle_at column asc (unmark_all table.heads);
          rows =
              sort
                (compare_rows floats reading (is_number_type floats reading head) column asc)
                table.rows;
        })
  unfolding sort_table_by_column
  sort_table_by_column-eq table column asc head found complete =
      rw (found, complete, sort_table_by_column) (ground arith)

-- Where the column has a head, and every row has a cell in it that a column of numbers can read as a finite number:
-- sorting gives a table with the same rows, each of which may stand before all that come after it, by the numbers or
-- by the texts of the column, in the direction asked for.
pub sort_table_by_column-InOrder :
    (floats : Floats) (reading : Reading floats)
    → SignLaws floats reading
    → (table : Table) (column : ℕ) (asc : Bool) (head : Head)
    → get_elem? table.heads column ≡ some head
    → let numeric = is_number_type floats reading head in
      All (IsReadable floats reading numeric column) table.rows
      → (sorted : Table) × (sort_table_by_column floats reading table column asc ≡ some sorted)
        × Perm sorted.rows table.rows
        × InOrder (MayPrecede floats reading numeric column asc) sorted.rows
sort_table_by_column-InOrder floats reading laws table column asc head found readable =
    let numeric = is_number_type floats reading head in
    let compare = compare_rows floats reading numeric column asc in
    (
      record {
        heads = toggle_at column asc (unmark_all table.heads);
        rows = sort compare table.rows;
      },
      sort_table_by_column-eq floats reading table column asc head found
          (none_lacking floats reading numeric column table.rows readable),
      sort-perm compare table.rows,
      sort-InOrder compare (IsReadable floats reading numeric column)
          (MayPrecede floats reading numeric column asc)
          (rows-Orders floats reading laws numeric column asc) table.rows readable,
    )
