-- ===== src/Panel/Rows.antt =====
-- What the layer panels of the stop map and the agency map share: `layerState.routes`, and one row with
-- a box for each route of the payload.
pub mod Agreement
use simply_transport.Common.{
  ℕ, zero, suc, Text, Bool, List, [], ◌∷◌, ◌++◌, if◌then◌else◌, Option, none, some, text_eq,
}
use simply_transport.Shared.Visibility.{Layers, set_all}

-- The layers of one route; an agency map has the line alone.
pub record RouteLayers : Type 0 where
  pub line : Text
  pub vehicle : Option Text
  pub vehicle_pulse : Option Text
  pub vehicle_label : Option Text

abbrev pub opt_list : Option Text → List Text
opt_list none = []
opt_list (some id) = id ∷ []

-- The calls that a listener makes for one route, in order.
unfoldable pub layer_list : RouteLayers → List Text
layer_list st =
    st.line ∷ (opt_list st.vehicle ++ (opt_list st.vehicle_pulse ++ opt_list st.vehicle_label))

-- An object with a property for each route id.
abbrev pub LayerState : Type 0
LayerState = List (Text × RouteLayers)

-- `routes[id]`
unfoldable pub get : Text → LayerState → Option RouteLayers
get id [] = none
get id ((j, st) ∷ rest) = if text_eq j id then some st else get id rest

-- `routes[id] = st`
unfoldable pub put : Text → RouteLayers → LayerState → LayerState
put id st [] = (id, st) ∷ []
put id st ((j, old) ∷ rest) = if text_eq j id then (j, st) ∷ rest else (j, old) ∷ put id st rest

-- The entries made while the routes are drawn, in the payload's order.
unfoldable pub fill : (Text → RouteLayers) → List Text → LayerState → LayerState
fill layers [] state = state
fill layers (id ∷ ids) state = fill layers ids (put id (layers id) state)

-- `const st = layerState.routes[id]; if (st) { … }`
unfoldable pub row_layers : LayerState → Text → List Text
row_layers state id = elim (get id state) [ none ↦ [] | some st ↦ layer_list st ]

-- The `checked` of the i-th row's box.
unfoldable pub set_box : List Bool → ℕ → Bool → List Bool
set_box [] i v = []
set_box (b ∷ bs) zero v = v ∷ bs
set_box (b ∷ bs) (suc i) v = b ∷ set_box bs i v

-- The same `checked` for every box.
unfoldable pub set_boxes : List Bool → Bool → List Bool
set_boxes [] v = []
set_boxes (b ∷ bs) v = v ∷ set_boxes bs v

-- A box for each row, checked at first.
unfoldable pub checked_boxes : List Text → List Bool
checked_boxes [] = []
checked_boxes (id ∷ ids) = Bool.true ∷ checked_boxes ids

module _ (lib : Layers) where
  open lib use {Map}

  unfoldable pub show_row : LayerState → Map → Text → Bool → Map
  show_row state m id v = set_all lib m (row_layers state id) v

  unfoldable pub show_rows : LayerState → Map → List Text → Bool → Map
  unfolding show_row
  show_rows state m [] v = m
  show_rows state m (id ∷ ids) v = show_rows state (show_row state m id v) ids v

  -- The row's route, if there is such a row.
  unfoldable pub show_row_at : LayerState → Map → Option Text → Bool → Map
  unfolding show_row
  show_row_at state m none v = m
  show_row_at state m (some id) v = show_row state m id v
