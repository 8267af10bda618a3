-- ===== src/Tests/Tables.antt =====
-- A table of bus routes and their counts.
use mathlib.Core.List.{Perm}
use simply_transport.Common.{
  zero, suc, ◌≡◌, refl, Text, units, text_eq, Bool, true, false, not, ◌&&◌, [], ◌∷◌, any, leb, some,
  All, arith, if◌then◌else◌,
}
use simply_transport.Js.Values.{undefined, str}
use simply_transport.Js.Decimal.{read_from}
use simply_transport.Js.Strings.{trim}
use simply_transport.Js.Sort.{sort, text_less}
use simply_transport.Js.Sort.Laws.{InOrder}
use simply_transport.Table.{
  Reading, Head, Table, is_number_type, sort_table_by_column, text_at, cell_value, parse_value,
  compare_rows, compare_numbers, compare_texts, dir_modifier, sign_of, unmark_all, toggle_at,
  click_all,
}
use simply_transport.Table.Ordered.{SignLaws, IsReadable, MayPrecede}
use simply_transport.Table.Sorted.{sort_table_by_column-InOrder}
use simply_transport.Table.Marks.{unsorted, IsComplete, next_all}
use simply_transport.Table.Truthful.{AreReadable, IsTruthful, clicked_table-IsTruthful}
use simply_transport.Table.Bound.{twice, NoneAscends, click_all_evenly}
use simply_transport.Tests.Numbers.{
  Number, plus, minus, top, whole_numbers, below, plus_of, opposite, times, IsWhole,
}

abbrev has_other : Text → Bool
has_other = any (λ c. not (leb b'0' c && leb c b'9'))

-- Texts of digits are numbers, and all others are not.
abbrev digits : Reading whole_numbers
digits = record {
  parse_float = λ t. if has_other t then top else plus (read_from 0 t);
  is_nan = has_other;
  minus_one = minus 0;
}

times-one : (x : Number) → times x (plus 1) ≡ x
times-one (plus a) = ground arith
times-one (minus a) = ground arith
times-one top = refl

minus_sign :
    (a b : Number)
    → IsWhole a
    → IsWhole b
    → below (times (plus_of a (opposite b)) (minus 0)) (plus 0)
      ≡ below (plus 0) (plus_of a (opposite b))
minus_sign (plus a) (plus b) h k = ground arith
minus_sign (plus a) (minus b) h k = ground arith
minus_sign (minus a) (plus b) h k = ground arith
minus_sign (minus a) (minus b) h k = ground arith
minus_sign top b h k = absurd h
minus_sign a top h k = absurd k

below_sign :
    (a b : Number) → IsWhole a → IsWhole b → below (plus_of a (opposite b)) (plus 0) ≡ below a b
below_sign (plus a) (plus b) h k = ground arith
below_sign (plus a) (minus b) h k = ground arith
below_sign (minus a) (plus b) h k = ground arith
below_sign (minus a) (minus b) h k = ground arith
below_sign top b h k = absurd h
below_sign a top h k = absurd k

above_sign :
    (a b : Number) → IsWhole a → IsWhole b → below (plus 0) (plus_of a (opposite b)) ≡ below b a
above_sign (plus a) (plus b) h k = ground arith
above_sign (plus a) (minus b) h k = ground arith
above_sign (minus a) (plus b) h k = ground arith
above_sign (minus a) (minus b) h k = ground arith
above_sign top b h k = absurd h
above_sign a top h k = absurd k

not_less :
    (a b c : Number)
    → IsWhole a
    → IsWhole b
    → IsWhole c
    → below a b ≡ false
    → below b c ≡ false
    → below a c ≡ false
not_less (plus a) (plus b) (plus c) h k l r s = ground arith
not_less (plus a) (plus b) (minus c) h k l r s = ground arith
not_less (plus a) (minus b) (plus c) h k l r s = ground arith
not_less (plus a) (minus b) (minus c) h k l r s = ground arith
not_less (minus a) (plus b) (plus c) h k l r s = ground arith
not_less (minus a) (plus b) (minus c) h k l r s = ground arith
not_less (minus a) (minus b) (plus c) h k l r s = ground arith
not_less (minus a) (minus b) (minus c) h k l r s = ground arith
not_less top b c h k l r s = absurd h
not_less a top c h k l r s = absurd k
not_less a b top h k l r s = absurd l

digits-SignLaws : SignLaws whole_numbers digits
digits-SignLaws = record {
  mul_one = times-one;
  minus_sign = minus_sign;
  below_sign = below_sign;
  above_sign = above_sign;
  not_less = not_less;
}

abbrev names_head : Head
names_head = record { data_type = undefined; sort_asc = false; sort_desc = false }

abbrev counts_head : Head
counts_head = record { data_type = str (units "number"); sort_asc = false; sort_desc = false }

abbrev routes_table : Table
routes_table = record {
  heads = names_head ∷ counts_head ∷ [];
  rows =
      (units "39A" ∷ units " 12 " ∷ [])
      ∷ (units "155" ∷ units "7" ∷ [])
      ∷ (units "46A" ∷ [] ∷ [])
      ∷ [];
}

abbrev counts_ascend : Table
counts_ascend = record {
  heads = names_head ∷ record counts_head { sort_asc = true } ∷ [];
  rows =
      (units "46A" ∷ [] ∷ [])
      ∷ (units "155" ∷ units "7" ∷ [])
      ∷ (units "39A" ∷ units " 12 " ∷ [])
      ∷ [];
}

counts_sorted : sort_table_by_column whole_numbers digits routes_table 1 true ≡ some counts_ascend
unfolding sort_table_by_column is_number_type compare_rows compare_numbers text_at cell_value
    parse_value sign_of dir_modifier unmark_all toggle_at sort trim read_from text_eq units
counts_sorted = refl

names_sorted_down :
    sort_table_by_column whole_numbers digits routes_table 0 false
    ≡ some (record {
      heads = record names_head { sort_desc = true } ∷ counts_head ∷ [];
      rows =
          (units "46A" ∷ [] ∷ [])
          ∷ (units "39A" ∷ units " 12 " ∷ [])
          ∷ (units "155" ∷ units "7" ∷ [])
          ∷ [];
    })
unfolding sort_table_by_column is_number_type compare_rows compare_texts text_at text_less
    unmark_all toggle_at sort trim text_eq units
names_sorted_down = refl

routes_table-IsComplete : IsComplete routes_table
routes_table-IsComplete zero h = refl
routes_table-IsComplete (suc zero) h = refl
routes_table-IsComplete (suc (suc c)) h = absurd (omega arith)

-- Three clicks on the counts, with the listeners added twice.
click_all_evenly_example :
    NoneAscends (click_all whole_numbers digits (twice 1) (1 ∷ 1 ∷ 1 ∷ []) routes_table).heads
click_all_evenly_example =
    click_all_evenly whole_numbers digits 1 (1 ∷ 1 ∷ 1 ∷ []) routes_table
      (ground arith, (ground arith, (ground arith, tt))) routes_table-IsComplete refl

counts-IsReadable : All (IsReadable whole_numbers digits true 1) routes_table.rows
unfolding cell_value parse_value text_at trim read_from units
counts-IsReadable = ((refl, tt), ((refl, tt), ((refl, tt), tt)))

counts_numeric : is_number_type whole_numbers digits counts_head ≡ true
unfolding is_number_type text_eq units
counts_numeric = refl

sort_table_by_column-InOrder_example :
    (sorted : Table) × (sort_table_by_column whole_numbers digits routes_table 1 true ≡ some sorted)
    × Perm sorted.rows routes_table.rows
    × InOrder
        (MayPrecede whole_numbers digits (is_number_type whole_numbers digits counts_head) 1 true)
        sorted.rows
sort_table_by_column-InOrder_example =
    sort_table_by_column-InOrder whole_numbers digits digits-SignLaws routes_table 1 true
      counts_head refl (rw counts_numeric counts-IsReadable)

names-IsReadable :
    (h : Head)
    → h ≡ names_head
    → All
        (IsReadable whole_numbers digits (is_number_type whole_numbers digits h) 0)
        routes_table.rows
unfolding is_number_type text_eq units
names-IsReadable h e = rw e (refl, (refl, (refl, tt)))

numbers-IsReadable :
    (h : Head)
    → h ≡ counts_head
    → All
        (IsReadable whole_numbers digits (is_number_type whole_numbers digits h) 1)
        routes_table.rows
numbers-IsReadable h e = rw (e, counts_numeric) counts-IsReadable

routes-AreReadable : AreReadable whole_numbers digits routes_table
routes-AreReadable zero h e = names-IsReadable h (cc)
routes-AreReadable (suc zero) h e = numbers-IsReadable h (cc)
routes-AreReadable (suc (suc c)) h e = absurd (cc)

routes-IsTruthful : IsTruthful whole_numbers digits unsorted routes_table
routes-IsTruthful = record { readable = routes-AreReadable; shows = refl; sorted = tt }

clicked_table-IsTruthful_example :
    let after = click_all whole_numbers digits 1 (0 ∷ 1 ∷ 1 ∷ []) routes_table in
    IsTruthful whole_numbers digits (next_all 1 (0 ∷ 1 ∷ 1 ∷ []) unsorted) after
    × Perm after.rows routes_table.rows
clicked_table-IsTruthful_example =
    clicked_table-IsTruthful whole_numbers digits digits-SignLaws 1 (0 ∷ 1 ∷ 1 ∷ []) unsorted
      routes_table (ground arith, (ground arith, (ground arith, tt))) routes-IsTruthful
