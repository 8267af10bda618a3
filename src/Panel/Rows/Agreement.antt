-- ===== src/Panel/Rows/Agreement.antt =====
-- Rows whose boxes tell which layers are visible.
use mathlib.Core.Path.{subst}
use simply_transport.Common.{
  ℕ, zero, suc, ◌≡◌, refl, Text, Bool, true, List, [], ◌∷◌, if◌then◌else◌, none, some, text_eq,
  text_eq_iff, arith, All, get_elem?, Option-cases, inl, inr,
}
use simply_transport.Shared.Visibility.{Layers, set_all}
use simply_transport.Shared.Visibility.Agree.{
  Agree, Agree-set_self, Agree-set_apart, Agree-set_same, Apart,
}
use simply_transport.Panel.Rows.{
  RouteLayers, LayerState, get, put, fill, row_layers, layer_list, set_box, set_boxes,
  checked_boxes, show_row, show_rows, show_row_at,
}

get-put :
    (id j : Text) (st : RouteLayers) (state : LayerState)
    → get j (put id st state) ≡ (if text_eq id j then some st else get j state)
unfolding get put
get-put id j st [] = refl
get-put id j st ((k, old) ∷ rest) =
    ground (arith, text_eq_iff k id, text_eq_iff k j, text_eq_iff id j, get-put id j st rest)

get-fill_kept :
    (layers : Text → RouteLayers) (ids : List Text) (id : Text) (state : LayerState)
    → get id state ≡ some (layers id)
    → get id (fill layers ids state) ≡ some (layers id)
unfolding fill
get-fill_kept layers [] id state h = h
get-fill_kept layers (j ∷ ids) id state h =
    get-fill_kept layers ids id (put j (layers j) state)
      (ground (arith, get-put j id (layers j) state, text_eq_iff j id))

-- Every route of the payload has its layers in the state, also where an id comes twice.
pub get-fill :
    (layers : Text → RouteLayers) (ids : List Text) (state : LayerState)
    → All (λ id. get id (fill layers ids state) ≡ some (layers id)) ids
unfolding fill
get-fill layers [] state = tt
get-fill layers (id ∷ ids) state = (
  get-fill_kept layers ids id (put id (layers id) state)
      (ground (arith, get-put id id (layers id) state, text_eq_iff id id)),
  get-fill layers ids (put id (layers id) state),
)

pub row_layers_of_get :
    (state : LayerState) (id : Text) (st : RouteLayers)
    → get id state ≡ some st
    → row_layers state id ≡ layer_list st
unfolding row_layers
row_layers_of_get state id st e = rw (e, row_layers) refl

module _ (lib : Layers) (ids_of : Text → List Text) where
  open lib use {Map}

  -- Box by box, the layers of the row are visible exactly if it is checked.
  abbrev pub RowsAgree : Map → List Text → List Bool → Type 0
  RowsAgree m [] [] = Unit
  RowsAgree m (id ∷ ids) (b ∷ bs) = Agree lib m b (ids_of id) × RowsAgree m ids bs
  RowsAgree m _ _ = ⊥

  -- No two rows share a layer.
  abbrev pub RowsApart : List Text → Type 0
  RowsApart [] = Unit
  RowsApart (id ∷ ids) =
      All (λ j. Apart (ids_of j) (ids_of id) × Apart (ids_of id) (ids_of j)) ids × RowsApart ids

  -- No row shares a layer with the list.
  abbrev pub RowsApartFrom : List Text → List Text → Type 0
  RowsApartFrom big = All (λ id. Apart (ids_of id) big × Apart big (ids_of id))

  pub rows-kept :
      (m : Map) (big ids : List Text) (bs : List Bool) (v : Bool)
      → RowsApartFrom big ids
      → RowsAgree m ids bs
      → RowsAgree (set_all lib m big v) ids bs
  rows-kept m big [] [] v h a = tt
  rows-kept m big [] (b ∷ bs) v h a = a
  rows-kept m big (id ∷ ids) [] v h a = a
  rows-kept m big (id ∷ ids) (b ∷ bs) v (h, hs) (a, as') =
      (Agree-set_apart lib m v b (ids_of id) big h.0 a, rows-kept m big ids bs v hs as')

  pub All-at :
      (P : Text → Type 0) (ids : List Text) (i : ℕ) (id : Text)
      → All P ids
      → get_elem? ids i ≡ some id
      → P id
  All-at P [] i id h e = absurd (cc)
  All-at P (j ∷ ids) zero id (h, hs) e = let same : j ≡ id = cc in subst P same h
  All-at P (j ∷ ids) (suc i) id (h, hs) e = All-at P ids i id hs e

  -- A change of one row's layers with its box.
  pub rows-set :
      (m : Map) (ids : List Text) (bs : List Bool) (i : ℕ) (id : Text) (v : Bool)
      → RowsApart ids
      → get_elem? ids i ≡ some id
      → RowsAgree m ids bs
      → RowsAgree (set_all lib m (ids_of id) v) ids (set_box bs i v)
  unfolding set_box
  rows-set m [] bs i id v h e a = absurd (cc)
  rows-set m (j ∷ ids) [] i id v h e a = a
  rows-set m (j ∷ ids) (b ∷ bs) zero id v (h, hs) e (a, as') =
      let same : j ≡ id = cc in
      subst (λ k. RowsAgree (set_all lib m (ids_of k) v) (j ∷ ids) (v ∷ bs)) same
        (Agree-set_self lib m v (ids_of j), rows-kept m (ids_of j) ids bs v h as')
  rows-set m (j ∷ ids) (b ∷ bs) (suc i) id v (h, hs) e (a, as') =
      let apart =
        All-at (λ k. Apart (ids_of k) (ids_of j) × Apart (ids_of j) (ids_of k)) ids i id h e in
      (
        Agree-set_apart lib m v b (ids_of j) (ids_of id) apart.1 a,
        rows-set m ids bs i id v hs e as',
      )

  -- A row that is not there.
  pub rows-set_none :
      (m : Map) (ids : List Text) (bs : List Bool) (i : ℕ) (v : Bool)
      → get_elem? ids i ≡ none
      → RowsAgree m ids bs
      → RowsAgree m ids (set_box bs i v)
  unfolding set_box
  rows-set_none m [] [] i v e a = a
  rows-set_none m [] (b ∷ bs) i v e a = absurd a
  rows-set_none m (j ∷ ids) [] i v e a = a
  rows-set_none m (j ∷ ids) (b ∷ bs) zero v e a = absurd (cc)
  rows-set_none m (j ∷ ids) (b ∷ bs) (suc i) v e (a, as') = (a, rows-set_none m ids bs i v e as')

  pub rows-start :
      (m : Map) (ids : List Text)
      → All (λ id. Agree lib m true (ids_of id)) ids
      → RowsAgree m ids (checked_boxes ids)
  unfolding checked_boxes
  rows-start m [] h = tt
  rows-start m (id ∷ ids) (h, hs) = (h, rows-start m ids hs)

module _ (lib : Layers) (ids_of : Text → List Text) (state : LayerState) where
  open lib use {Map}

  -- The state has the rows' layers.
  abbrev pub Knows : List Text → Type 0
  Knows = All (λ id. row_layers state id ≡ ids_of id)

  show_rows-Agree :
      (m : Map) (ids big : List Text) (v : Bool)
      → Agree lib m v big
      → Agree lib (show_rows lib state m ids v) v big
  unfolding show_rows
  show_rows-Agree m [] big v a = a
  show_rows-Agree m (id ∷ ids) big v a =
      show_rows-Agree (show_row lib state m id v) ids big v
        (Agree-set_same lib m v big (row_layers state id) a)

  -- A change of all rows makes every one agree, whichever layers they share.
  pub rows-toggled :
      (m m' : Map) (ids : List Text) (bs : List Bool) (v : Bool)
      → Knows ids
      → RowsAgree lib ids_of m' ids bs
      → RowsAgree lib ids_of (show_rows lib state m ids v) ids (set_boxes bs v)
  unfolding show_rows set_boxes
  rows-toggled m m' [] [] v k a = tt
  rows-toggled m m' [] (b ∷ bs) v k a = a
  rows-toggled m m' (id ∷ ids) [] v k a = a
  rows-toggled m m' (id ∷ ids) (b ∷ bs) v (k, ks) (a, as') = (
    show_rows-Agree (show_row lib state m id v) ids (ids_of id) v
        (rw k (Agree-set_self lib m v (ids_of id))),
    rows-toggled (show_row lib state m id v) m' ids bs v ks as',
  )

  -- A change of the row at an index, with its box.
  pub rows-set_at :
      (m : Map) (ids : List Text) (bs : List Bool) (i : ℕ) (v : Bool)
      → Knows ids
      → RowsApart lib ids_of ids
      → RowsAgree lib ids_of m ids bs
      → RowsAgree lib ids_of (show_row_at lib state m (get_elem? ids i) v) ids (set_box bs i v)
  unfolding show_row_at
  rows-set_at m ids bs i v k h a = elim (Option-cases (get_elem? ids i)) [
    | inl e ↦ rw e (rows-set_none lib ids_of m ids bs i v e a)
    | inr (id, e) ↦
        let same = All-at lib ids_of (λ j. row_layers state j ≡ ids_of j) ids i id k e in
        rw (e, same) (rows-set lib ids_of m ids bs i id v h e a)
  ]

  -- What is apart from the rows is not touched by a change of one,
  pub Agree-set_at :
      (m : Map) (ids big : List Text) (i : ℕ) (v b : Bool)
      → Knows ids
      → RowsApartFrom lib ids_of big ids
      → Agree lib m b big
      → Agree lib (show_row_at lib state m (get_elem? ids i) v) b big
  unfolding show_row_at
  Agree-set_at m ids big i v b k h a = elim (Option-cases (get_elem? ids i)) [
    | inl e ↦ rw e a
    | inr (id, e) ↦
        let same = All-at lib ids_of (λ j. row_layers state j ≡ ids_of j) ids i id k e in
        let apart =
          All-at lib ids_of (λ j. Apart (ids_of j) big × Apart big (ids_of j)) ids i id h e in
        rw (e, same) (Agree-set_apart lib m v b big (ids_of id) apart.1 a)
  ]
