-- ===== src/Load/Loaded.antt =====
-- The map that `load` has drawn.
use simply_transport.Common.{
  Text, true, false, ◌||◌, List, [], ◌∷◌, ◌≡◌, ◌∙◌, if◌then◌else◌, text_eq, All, arith, Bool-cases,
  inl, inr,
}
use simply_transport.Shared.Visibility.{Layers, listed}
use simply_transport.Shared.Visibility.Agree.{Agree}
use simply_transport.Load.{Payload, load, layer_ids, panel_ids}
use simply_transport.Load.Panels.{Added}

-- `addLayer` on a map: the layer is there and visible, and the others stay as they are.
pub record Adding (lib : Layers) : Type 0 where
  pub empty : lib.Map
  pub add : lib.Map → Text → lib.Map
  pub none_at_first : (j : Text) → lib.has_layer empty j ≡ false
  pub has_layer-add :
      (m : lib.Map) (id j : Text) → lib.has_layer (add m id) j ≡ (text_eq id j || lib.has_layer m j)
  pub visible-add :
      (m : lib.Map) (id j : Text)
      → lib.visible (add m id) j ≡ (if text_eq id j then true else lib.visible m j)

module _ (lib : Layers) (adding : Adding lib) where
  open lib use {Map, has_layer, visible}
  open adding use {empty, add, none_at_first, has_layer-add, visible-add}

  unfoldable pub add_all : Map → List Text → Map
  add_all m [] = m
  add_all m (id ∷ ids) = add_all (add m id) ids

  -- The map with the layers of its payload.
  unfoldable pub loaded_map : Payload → Map
  loaded_map payload = add_all empty (layer_ids (load payload))

  add_all-keeps :
      (ids : List Text) (m : Map) (j : Text)
      → has_layer m j ≡ true
      → has_layer (add_all m ids) j ≡ true
  unfolding add_all
  add_all-keeps [] m j h = h
  add_all-keeps (id ∷ ids) m j h =
      add_all-keeps ids (add m id) j (let e = has_layer-add m id j in ground arith)

  add_all-has :
      (ids : List Text) (m : Map) (j : Text)
      → listed j ids ≡ true
      → has_layer (add_all m ids) j ≡ true
  unfolding add_all
  add_all-has [] m j h = absurd (ground arith)
  add_all-has (id ∷ ids) m j h = elim (Bool-cases (text_eq id j)) [
    | inl same ↦ add_all-keeps ids (add m id) j (let e = has_layer-add m id j in ground arith)
    | inr differs ↦ add_all-has ids (add m id) j (ground arith)
  ]

  -- Every layer that the map has is visible.
  abbrev pub AllShown : Map → Type 0
  AllShown m = (j : Text) → has_layer m j ≡ true → visible m j ≡ true

  add-AllShown : (m : Map) (id : Text) → AllShown m → AllShown (add m id)
  add-AllShown m id h j there =
      let e = has_layer-add m id j in
      let f = visible-add m id j in
      elim (Bool-cases (text_eq id j)) [
        | inl same ↦ ground arith
        | inr differs ↦ let k = h j (ground arith) in ground arith
      ]

  add_all-AllShown : (ids : List Text) (m : Map) → AllShown m → AllShown (add_all m ids)
  unfolding add_all
  add_all-AllShown [] m h = h
  add_all-AllShown (id ∷ ids) m h = add_all-AllShown ids (add m id) (add-AllShown m id h)

  pub loaded_map-AllShown : (payload : Payload) → AllShown (loaded_map payload)
  unfolding loaded_map
  loaded_map-AllShown payload =
      add_all-AllShown (layer_ids (load payload)) empty
        (λ j h. absurd (let e = none_at_first j in ground arith))

  pub shown-Agree : (m : Map) → AllShown m → (ids : List Text) → Agree lib m true ids
  shown-Agree m h [] = tt
  shown-Agree m h (j ∷ ids) = (h j, shown-Agree m h ids)

  pub shown_rows :
      (m : Map)
      → AllShown m
      → (ids_of : Text → List Text) (ids : List Text) → All (λ id. Agree lib m true (ids_of id)) ids
  shown_rows m h ids_of [] = tt
  shown_rows m h ids_of (id ∷ ids) = (shown-Agree m h (ids_of id), shown_rows m h ids_of ids)

  -- The layers behind the panel's boxes are there.
  abbrev pub AllThere : Map → Payload → Type 0
  AllThere m payload = All (λ j. has_layer m j ≡ true) (panel_ids payload)

  pub there :
      (payload : Payload) (m : Map)
      → ((j : Text) → has_layer m j ≡ has_layer (loaded_map payload) j)
      → (ids : List Text) → All (Added (load payload)) ids
      → All (λ j. has_layer m j ≡ true) ids
  unfolding loaded_map
  there payload m same [] h = tt
  there payload m same (j ∷ ids) (h, hs) =
      (same j ∙ add_all-has (layer_ids (load payload)) empty j h, there payload m same ids hs)
