-- ===== src/Table/Marks.antt =====
-- What the classes of the heads tell: the column that was sorted last, and its direction.
use simply_transport.Common.{
  ℕ, zero, suc, ◌<◌, ◌≡◌, refl, ap, ◌∙◌, Bool, true, false, not, ◌&&◌, List, [], ◌∷◌, any, length,
  get_elem?, replicate, some, ◌==◌, All, arith,
}
use simply_transport.Table.{Head, Row, Table, lacks, unmark_all, toggle_at}

-- How a table is sorted, as a reader sees it.
pub data Sorting : Type 0 where
  unsorted : Sorting
  by : ℕ → Bool → Sorting  -- the column, and whether it ascends

-- One sort more: the column ascends unless it did.
abbrev pub next : ℕ → Sorting → Sorting
next c unsorted = by c true
next c (by d asc) = by c (not ((d == c) && asc))

abbrev pub next_times : ℕ → ℕ → Sorting → Sorting
next_times zero c s = s
next_times (suc n) c s = next_times n c (next c s)

abbrev pub next_all : ℕ → List ℕ → Sorting → Sorting
next_all n [] s = s
next_all n (c ∷ cs) s = next_all n cs (next_times n c s)

-- The classes that `n` heads have for it: `th-sort-asc` and `th-sort-desc`.
abbrev pub marked : ℕ → ℕ → Bool → List (Bool × Bool)
marked zero c asc = []
marked (suc n) zero asc = (asc, not asc) ∷ replicate n (false, false)
marked (suc n) (suc c) asc = (false, false) ∷ marked n c asc

abbrev pub marks_for : ℕ → Sorting → List (Bool × Bool)
marks_for n unsorted = replicate n (false, false)
marks_for n (by c asc) = marked n c asc

abbrev pub marks : List Head → List (Bool × Bool)
marks [] = []
marks (h ∷ heads) = (h.sort_asc, h.sort_desc) ∷ marks heads

-- The table's heads show how it is sorted.
abbrev pub Shows : Table → Sorting → Type 0
Shows table s = marks table.heads ≡ marks_for (length table.heads) s

-- Every row has a cell for each head.
abbrev pub IsComplete : Table → Type 0
IsComplete table = (c : ℕ) → c < length table.heads → any (lacks c) table.rows ≡ false

marks-unmark_all :
    (heads : List Head) → marks (unmark_all heads) ≡ replicate (length heads) (false, false)
unfolding unmark_all
marks-unmark_all [] = refl
marks-unmark_all (h ∷ heads) =
    ap (λ (ms : List (Bool × Bool)). (false, false) ∷ ms) (marks-unmark_all heads)

marks-toggle_at :
    (c : ℕ) (asc : Bool) (heads : List Head)
    → marks (toggle_at c asc (unmark_all heads)) ≡ marked (length heads) c asc
unfolding toggle_at unmark_all
marks-toggle_at c asc [] = refl
marks-toggle_at zero asc (h ∷ heads) =
    ap (λ (ms : List (Bool × Bool)). (asc, not asc) ∷ ms) (marks-unmark_all heads)
marks-toggle_at (suc c) asc (h ∷ heads) =
    ap (λ (ms : List (Bool × Bool)). (false, false) ∷ ms) (marks-toggle_at c asc heads)

pub length-toggle_at :
    (c : ℕ) (asc : Bool) (heads : List Head)
    → length (toggle_at c asc (unmark_all heads)) ≡ length heads
unfolding toggle_at unmark_all
length-toggle_at c asc [] = refl
length-toggle_at zero asc (h ∷ heads) = ap suc (plain heads)
  where
    plain : (heads : List Head) → length (unmark_all heads) ≡ length heads
    plain [] = refl
    plain (h ∷ heads) = ap suc (plain heads)
length-toggle_at (suc c) asc (h ∷ heads) = ap suc (length-toggle_at c asc heads)

-- The column of a head that ascends is the one sorted last, in ascending order.
abbrev pub ascends : ℕ → Sorting → Bool
ascends c unsorted = false
ascends c (by d asc) = (d == c) && asc

asc-plain :
    (heads : List Head) (c : ℕ) (h : Head)
    → get_elem? heads c ≡ some h
    → marks heads ≡ replicate (length heads) (false, false)
    → h.sort_asc ≡ false
asc-plain [] c h e m = absurd (cc)
asc-plain (k ∷ heads) zero h e m = cc
asc-plain (k ∷ heads) (suc c) h e m = asc-plain heads c h e (cc)

asc-marked :
    (heads : List Head) (c d : ℕ) (asc : Bool) (h : Head)
    → get_elem? heads c ≡ some h
    → marks heads ≡ marked (length heads) d asc
    → h.sort_asc ≡ ((d == c) && asc)
asc-marked [] c d asc h e m = absurd (cc)
asc-marked (k ∷ heads) zero zero asc h e m = cc
asc-marked (k ∷ heads) zero (suc d) asc h e m = ground arith
asc-marked (k ∷ heads) (suc c) zero asc h e m = asc-plain heads c h e (cc) ∙ ground arith
asc-marked (k ∷ heads) (suc c) (suc d) asc h e m = asc-marked heads c d asc h e (cc) ∙ ground arith

pub asc-ascends :
    (table : Table) (s : Sorting) (c : ℕ) (h : Head)
    → get_elem? table.heads c ≡ some h
    → Shows table s
    → h.sort_asc ≡ ascends c s
asc-ascends table unsorted c h e m = asc-plain table.heads c h e m
asc-ascends table (by d asc) c h e m = asc-marked table.heads c d asc h e m

pub next-eq : (c : ℕ) (s : Sorting) → next c s ≡ by c (not (ascends c s))
next-eq c unsorted = refl
next-eq c (by d asc) = refl

pub head_at :
    (heads : List Head) (c : ℕ) → c < length heads → (h : Head) × (get_elem? heads c ≡ some h)
head_at [] c h = absurd (omega arith)
head_at (k ∷ heads) zero h = (k, refl)
head_at (k ∷ heads) (suc c) h = head_at heads c (omega arith)

pub All-of_any :
    (c : ℕ) (rows : List Row)
    → any (lacks c) rows ≡ false
    → All (λ (r : Row). lacks c r ≡ false) rows
All-of_any c [] h = tt
All-of_any c (r ∷ rows) h = (ground arith, All-of_any c rows (ground arith))

pub any-All :
    (c : ℕ) (rows : List Row)
    → All (λ (r : Row). lacks c r ≡ false) rows
    → any (lacks c) rows ≡ false
any-All c [] h = refl
any-All c (r ∷ rows) (h, hs) = rw h (any-All c rows hs)

pub marks-next :
    (table : Table) (s : Sorting) (c : ℕ) (h : Head)
    → get_elem? table.heads c ≡ some h
    → Shows table s
    → let heads = toggle_at c (not h.sort_asc) (unmark_all table.heads) in
      marks heads ≡ marks_for (length heads) (next c s)
marks-next table s c h found shows =
    rw
      (
        length-toggle_at c (not h.sort_asc) table.heads,
        next-eq c s,
        ← asc-ascends table s c h found shows,
      )
      (marks-toggle_at c (not h.sort_asc) table.heads)
