-- ===== src/Table/Truthful.antt =====
-- What the heads of a table show of its rows is so.
use mathlib.Core.List.{Perm}
use mathlib.Core.List.Perm
use simply_transport.Common.{
  ℕ, zero, suc, ◌<◌, ◌≡◌, refl, sym, ap, ◌∙◌, Bool, not, List, [], ◌∷◌, length, get_elem?, some,
  All, arith,
}
use simply_transport.Js.Floats.{Floats}
use simply_transport.Js.Sort.{sort}
use simply_transport.Js.Sort.Laws.{InOrder, sort-perm, sort-All, sort-InOrder}
use simply_transport.Table.{
  Reading, Head, Table, unmark_all, toggle_at, is_number_type, compare_rows, on_click, click,
  click_all,
}
use simply_transport.Table.Ordered.{SignLaws, IsReadable, MayPrecede, rows-Orders}
use simply_transport.Table.Sorted.{sort_table_by_column-eq, none_lacking}
use simply_transport.Table.Marks.{
  Sorting, unsorted, by, next, next_times, next_all, Shows, length-toggle_at, head_at, marks-next,
  next-eq, asc-ascends,
}

-- Marking keeps the heads at their places, with their types.
unmark_all-at :
    (heads : List Head) (d : ℕ) (h : Head)
    → get_elem? (unmark_all heads) d ≡ some h
    → (k : Head) × (get_elem? heads d ≡ some k) × (h.data_type ≡ k.data_type)
unfolding unmark_all
unmark_all-at [] d h e = absurd (cc)
unmark_all-at (k ∷ heads) zero h e = (k, refl, cc)
unmark_all-at (k ∷ heads) (suc d) h e = unmark_all-at heads d h e

toggle_at-at :
    (c : ℕ) (asc : Bool) (heads : List Head) (d : ℕ) (h : Head)
    → get_elem? (toggle_at c asc heads) d ≡ some h
    → (k : Head) × (get_elem? heads d ≡ some k) × (h.data_type ≡ k.data_type)
unfolding toggle_at
toggle_at-at c asc [] d h e = absurd (cc)
toggle_at-at zero asc (k ∷ heads) zero h e = (k, refl, cc)
toggle_at-at zero asc (k ∷ heads) (suc d) h e = (h, e, refl)
toggle_at-at (suc c) asc (k ∷ heads) zero h e = (k, refl, cc)
toggle_at-at (suc c) asc (k ∷ heads) (suc d) h e = toggle_at-at c asc heads d h e

marked-at :
    (c : ℕ) (asc : Bool) (heads : List Head) (d : ℕ) (h : Head)
    → get_elem? (toggle_at c asc (unmark_all heads)) d ≡ some h
    → (k : Head) × (get_elem? heads d ≡ some k) × (h.data_type ≡ k.data_type)
marked-at c asc heads d h e =
    let (k, f, t) = toggle_at-at c asc (unmark_all heads) d h e in
    let (l, g, u) = unmark_all-at heads d k f in (l, g, t ∙ u)

module _ (floats : Floats) (reading : Reading floats) where
  number_type-eq :
      (h k : Head)
      → h.data_type ≡ k.data_type
      → is_number_type floats reading h ≡ is_number_type floats reading k
  unfolding is_number_type
  number_type-eq h k e = rw e refl

  -- Every row has a cell for each head, one that can be read as a finite number where the head has that type.
  abbrev pub AreReadable : Table → Type 0
  AreReadable table =
      (c : ℕ) (h : Head)
      → get_elem? table.heads c ≡ some h
      → All (IsReadable floats reading (is_number_type floats reading h) c) table.rows

  -- The rows are in the order of the column.
  abbrev pub IsSortedBy : Sorting → Table → Type 0
  IsSortedBy unsorted table = Unit
  IsSortedBy (by c asc) table =
      (h : Head) × (get_elem? table.heads c ≡ some h)
      × InOrder (MayPrecede floats reading (is_number_type floats reading h) c asc) table.rows

  pub record IsTruthful (s : Sorting) (table : Table) : Type 0 where
    pub readable : AreReadable table
    pub shows : Shows table s
    pub sorted : IsSortedBy s table

  module _ (laws : SignLaws floats reading) where
    sorted_table : Table → ℕ → Head → Table
    sorted_table table c h = record {
      heads = toggle_at c (not h.sort_asc) (unmark_all table.heads);
      rows =
          sort (compare_rows floats reading (is_number_type floats reading h) c (not h.sort_asc))
            table.rows;
    }

    on_click-eq :
        (table : Table) (c : ℕ) (h : Head)
        → get_elem? table.heads c ≡ some h
        → AreReadable table
        → on_click floats reading c table ≡ some (sorted_table table c h)
    unfolding on_click sorted_table
    on_click-eq table c h found readable =
        rw (found, on_click)
          (sort_table_by_column-eq floats reading table c (not h.sort_asc) h found (
            none_lacking floats reading (is_number_type floats reading h) c table.rows
              (readable c h found)))

    sorted_table-AreReadable :
        (table : Table) (c : ℕ) (h : Head)
        → AreReadable table
        → AreReadable (sorted_table table c h)
    unfolding sorted_table
    sorted_table-AreReadable table c h readable d k e =
        let (l, found, same) = marked-at c (not h.sort_asc) table.heads d k e in
        rw (number_type-eq k l same) (sort-All _ _ table.rows (readable d l found))

    sorted_table-IsSortedBy :
        (table : Table) (c : ℕ) (h : Head)
        → get_elem? table.heads c ≡ some h
        → c < length table.heads
        → AreReadable table
        → IsSortedBy (by c (not h.sort_asc)) (sorted_table table c h)
    unfolding sorted_table
    sorted_table-IsSortedBy table c h found inside readable =
        let (k, at) =
          head_at (toggle_at c (not h.sort_asc) (unmark_all table.heads)) c
            (rw (length-toggle_at c (not h.sort_asc) table.heads) inside) in
        let (l, f, same) = marked-at c (not h.sort_asc) table.heads c k at in
        let type =
          number_type-eq k h
            (same ∙ (let one : l ≡ h = cc in ap (λ (h : Head). h.data_type) one)) in
        (
          k,
          at,
          rw type (
              sort-InOrder _ _ _
                (rows-Orders floats reading laws (is_number_type floats reading h) c
                  (not h.sort_asc))
                table.rows (readable c h found)),
        )

    -- One listener: it does not throw, and what the heads show is so again.
    on_click-IsTruthful :
        (c : ℕ) (s : Sorting) (table : Table)
        → c < length table.heads
        → IsTruthful s table
        → (after : Table) × (on_click floats reading c table ≡ some after)
          × IsTruthful (next c s) after
          × (length after.heads ≡ length table.heads)
          × Perm after.rows table.rows
    unfolding sorted_table
    on_click-IsTruthful c s table inside t =
        let (h, found) = head_at table.heads c inside in
        let asc : next c s ≡ by c (not h.sort_asc) =
          next-eq c s ∙ ap (λ b. by c (not b)) (sym (asc-ascends table s c h found t.shows)) in
        (
          sorted_table table c h,
          on_click-eq table c h found t.readable,
          record {
            readable = sorted_table-AreReadable table c h t.readable;
            shows = marks-next table s c h found t.shows;
            sorted = rw asc (sorted_table-IsSortedBy table c h found inside t.readable);
          },
          length-toggle_at c (not h.sort_asc) table.heads,
          sort-perm _ table.rows,
        )

    click-none : (c : ℕ) (table : Table) → click floats reading zero c table ≡ table
    unfolding click
    click-none c table = refl

    click-more :
        (n c : ℕ) (table mid : Table)
        → on_click floats reading c table ≡ some mid
        → click floats reading (suc n) c table ≡ click floats reading n c mid
    unfolding click
    click-more n c table mid e = rw e refl

    click-IsTruthful :
        (n c : ℕ) (s : Sorting) (table : Table)
        → c < length table.heads
        → IsTruthful s table
        → let after = click floats reading n c table in
          IsTruthful (next_times n c s) after
          × (length after.heads ≡ length table.heads)
          × Perm after.rows table.rows
    click-IsTruthful zero c s table inside t = rw (click-none c table) (t, refl, Perm.rfl)
    click-IsTruthful (suc n) c s table inside t =
        let (mid, e, m, w, p) = on_click-IsTruthful c s table inside t in
        let (u, v, q) = click-IsTruthful n c (next c s) mid (omega (arith, w)) m in
        rw (click-more n c table mid e) (u, v ∙ w, Perm.trans q p)

    click_all-IsTruthful :
        (n : ℕ) (cs : List ℕ) (s : Sorting) (table : Table)
        → All (λ c. c < length table.heads) cs
        → IsTruthful s table
        → let after = click_all floats reading n cs table in
          IsTruthful (next_all n cs s) after × Perm after.rows table.rows
    unfolding click_all
    click_all-IsTruthful n [] s table inside t = (t, Perm.rfl)
    click_all-IsTruthful n (c ∷ cs) s table (inside, insides) t =
        let (m, w, p) = click-IsTruthful n c s table inside t in
        let (u, q) =
          click_all-IsTruthful n cs (next_times n c s) (click floats reading n c table)
            (rw w insides) m in
        (u, Perm.trans q p)

-- On a table whose rows have a cell for each head, which in a column of numbers can be read as a finite number, and
-- what whose heads show is so: whatever heads are clicked, and however often the script has added its listeners, the
-- table keeps its rows; its heads show that it is sorted by the column clicked last, where each sort by a column
-- ascends unless that column ascended; and its rows are in that order.
pub clicked_table-IsTruthful :
    (floats : Floats) (reading : Reading floats)
    → SignLaws floats reading
    → (n : ℕ) (cs : List ℕ) (s : Sorting) (table : Table) → All (λ c. c < length table.heads) cs
    → IsTruthful floats reading s table
    → let after = click_all floats reading n cs table in
      IsTruthful floats reading (next_all n cs s) after × Perm after.rows table.rows
clicked_table-IsTruthful floats reading laws n cs s table inside t =
    click_all-IsTruthful floats reading laws n cs s table inside t
