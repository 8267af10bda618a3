-- ===== src/Table/Bound.antt =====
-- What comes of a script that has run several times, and has added its listeners as often.
use simply_transport.Common.{
  ℕ, zero, suc, ◌<◌, ◌≡◌, true, false, List, [], ◌∷◌, length, replicate, All, arith,
}
use simply_transport.Js.Floats.{Floats}
use simply_transport.Table.{Reading, Head, Table, click_all}
use simply_transport.Table.Marks.{
  Sorting, unsorted, by, next, next_times, next_all, marked, marks, Shows, IsComplete,
}
use simply_transport.Table.Clicked.{click_all-Reached}

-- `2 * k`
abbrev pub twice : ℕ → ℕ
twice zero = zero
twice (suc k) = suc (suc (twice k))

-- Sorted by no column, or by one in descending order.
abbrev IsDown : Sorting → Type 0
IsDown unsorted = Unit
IsDown (by c asc) = asc ≡ false

next-IsDown : (c : ℕ) (s : Sorting) → IsDown s → IsDown (next c (next c s))
next-IsDown c unsorted h = ground arith
next-IsDown c (by d asc) h = ground arith

next_times-IsDown : (k c : ℕ) (s : Sorting) → IsDown s → IsDown (next_times (twice k) c s)
next_times-IsDown zero c s h = h
next_times-IsDown (suc k) c s h = next_times-IsDown k c (next c (next c s)) (next-IsDown c s h)

next_all-IsDown : (k : ℕ) (cs : List ℕ) (s : Sorting) → IsDown s → IsDown (next_all (twice k) cs s)
next_all-IsDown k [] s h = h
next_all-IsDown k (c ∷ cs) s h =
    next_all-IsDown k cs (next_times (twice k) c s) (next_times-IsDown k c s h)

-- No head has the class `th-sort-asc`.
abbrev pub NoneAscends : List Head → Type 0
NoneAscends heads = All (λ (h : Head). h.sort_asc ≡ false) heads

plain-NoneAscends :
    (heads : List Head) → marks heads ≡ replicate (length heads) (false, false) → NoneAscends heads
plain-NoneAscends [] e = tt
plain-NoneAscends (h ∷ heads) e = (cc, plain-NoneAscends heads (cc))

marked-NoneAscends :
    (c : ℕ) (heads : List Head) → marks heads ≡ marked (length heads) c false → NoneAscends heads
marked-NoneAscends c [] e = tt
marked-NoneAscends zero (h ∷ heads) e = (cc, plain-NoneAscends heads (cc))
marked-NoneAscends (suc c) (h ∷ heads) e = (cc, marked-NoneAscends c heads (cc))

Shows-NoneAscends :
    (table : Table) (s : Sorting) → IsDown s → Shows table s → NoneAscends table.heads
Shows-NoneAscends table unsorted h e = plain-NoneAscends table.heads e
Shows-NoneAscends table (by c true) h e = absurd (ground arith)
Shows-NoneAscends table (by c false) h e = marked-NoneAscends c table.heads e

-- If the script has run an even number of times while an unsorted table was there, whose rows have a cell for each
-- head, then no clicks on its heads bring it into ascending order: no head ever has the class that says so.
pub click_all_evenly :
    (floats : Floats) (reading : Reading floats) (k : ℕ) (cs : List ℕ) (table : Table)
    → All (λ c. c < length table.heads) cs
    → IsComplete table
    → Shows table unsorted
    → NoneAscends (click_all floats reading (twice k) cs table).heads
click_all_evenly floats reading k cs table inside complete shows =
    let r = click_all-Reached floats reading (twice k) cs unsorted table inside complete shows in
    Shows-NoneAscends (click_all floats reading (twice k) cs table) (next_all (twice k) cs unsorted)
      (next_all-IsDown k cs unsorted tt) r.shows
