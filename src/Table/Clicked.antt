-- ===== src/Table/Clicked.antt =====
-- What clicks on the heads of a table come to.
use mathlib.Core.List.{Perm}
use mathlib.Core.List.Perm
use simply_transport.Common.{
  ℕ, zero, suc, ◌<◌, ◌≡◌, refl, ◌∙◌, false, not, List, [], ◌∷◌, length, some, All, arith,
}
use simply_transport.Js.Floats.{Floats}
use simply_transport.Js.Sort.{sort}
use simply_transport.Js.Sort.Laws.{sort-perm, sort-All}
use simply_transport.Table.{
  Reading, Row, Table, lacks, unmark_all, toggle_at, compare_rows, is_number_type, on_click, click,
  click_all,
}
use simply_transport.Table.Sorted.{sort_table_by_column-eq}
use simply_transport.Table.Marks.{
  Sorting, next, next_times, next_all, Shows, IsComplete, length-toggle_at, head_at, All-of_any,
  any-All, marks-next,
}

module _ (floats : Floats) (reading : Reading floats) where
  -- The table after the click on a head, seen from the table before.
  pub record Clicked (c : ℕ) (s : Sorting) (before after : Table) : Type 0 where
    pub shows : Shows after (next c s)
    pub width : length after.heads ≡ length before.heads
    pub complete : IsComplete after
    pub rows : Perm after.rows before.rows

  on_click-Clicked :
      (c : ℕ) (s : Sorting) (table : Table)
      → c < length table.heads
      → IsComplete table
      → Shows table s
      → (after : Table) × (on_click floats reading c table ≡ some after) × Clicked c s table after
  unfolding on_click
  on_click-Clicked c s table inside complete shows =
      let (h, found) = head_at table.heads c inside in
      let asc = not h.sort_asc in
      let compare = compare_rows floats reading (is_number_type floats reading h) c asc in
      let after : Table = record {
        heads = toggle_at c asc (unmark_all table.heads);
        rows = sort compare table.rows;
      } in
      (
        after,
        rw (found, on_click)
            (sort_table_by_column-eq floats reading table c asc h found (complete c inside)),
        record {
          shows = marks-next table s c h found shows;
          width = length-toggle_at c asc table.heads;
          complete = λ d below. any-All d (sort compare table.rows) (
              sort-All compare (λ (r : Row). lacks d r ≡ false) table.rows
                (All-of_any d table.rows
                  (complete d rw (length-toggle_at c asc table.heads) at below)));
          rows = sort-perm compare table.rows;
        },
      )

  -- The same after any number of sorts.
  pub record Reached (s : Sorting) (before after : Table) : Type 0 where
    pub shows : Shows after s
    pub width : length after.heads ≡ length before.heads
    pub complete : IsComplete after
    pub rows : Perm after.rows before.rows

  click-Reached :
      (n c : ℕ) (s : Sorting) (table : Table)
      → c < length table.heads
      → IsComplete table
      → Shows table s
      → Reached (next_times n c s) table (click floats reading n c table)
  unfolding click
  click-Reached zero c s table inside complete shows = record {
    shows = shows;
    width = refl;
    complete = complete;
    rows = Perm.rfl;
  }
  click-Reached (suc n) c s table inside complete shows =
      let (after, e, k) = on_click-Clicked c s table inside complete shows in
      let r = click-Reached n c (next c s) after (omega (arith, k.width)) k.complete k.shows in
      rw e (record {
        shows = r.shows;
        width = r.width ∙ k.width;
        complete = r.complete;
        rows = Perm.trans r.rows k.rows;
      })

  -- On a table whose rows have a cell for each head and whose heads show how it is sorted, whatever heads are clicked,
  -- and however often the script has added its listeners: no sort throws, the table keeps its rows, and its heads show
  -- that it is sorted by the column clicked last, where each sort by a column ascends unless that column ascended.
  pub click_all-Reached :
      (n : ℕ) (cs : List ℕ) (s : Sorting) (table : Table)
      → All (λ c. c < length table.heads) cs
      → IsComplete table
      → Shows table s
      → Reached (next_all n cs s) table (click_all floats reading n cs table)
  unfolding click_all
  click_all-Reached n [] s table inside complete shows = record {
    shows = shows;
    width = refl;
    complete = complete;
    rows = Perm.rfl;
  }
  click_all-Reached n (c ∷ cs) s table (inside, insides) complete shows =
      let k = click-Reached n c s table inside complete shows in
      let r =
        click_all-Reached n cs (next_times n c s) (click floats reading n c table)
          (rw k.width insides) k.complete k.shows in
      record {
        shows = r.shows;
        width = r.width ∙ k.width;
        complete = r.complete;
        rows = Perm.trans r.rows k.rows;
      }
