-- ===== src/Shared/Visibility.antt =====
-- `setLayerVisibility`, over the layers of a MapLibre map, which are a parameter.
pub mod Agree
use simply_transport.Common.{
  ◌≡◌, refl, sym, ◌∙◌, Text, Bool, true, false, not, ◌&&◌, ◌||◌, List, [], ◌∷◌, ◌++◌, if◌then◌else◌,
  text_eq, text_eq_iff, arith, Bool-cases, inl, inr, any, All, ◌≢◌,
}

-- `getLayer`, the layout property `visibility` of a layer, and its assignment.
pub record Layers : Type 1 where
  pub Map : Type 0
  pub has_layer : Map → Text → Bool
  pub visible : Map → Text → Bool
  pub set_visibility : Map → Text → Bool → Map
  -- The assignment neither makes nor removes a layer,
  pub has_layer-set_visibility :
      (m : Map) (id : Text) (v : Bool) (j : Text)
      → has_layer (set_visibility m id v) j ≡ has_layer m j
  -- and changes the visibility of its layer alone.
  pub visible-set_visibility :
      (m : Map) (id : Text) (v : Bool) (j : Text)
      → has_layer m id ≡ true
      → visible (set_visibility m id v) j ≡ (if text_eq id j then v else visible m j)

-- `j` is one of the ids.
abbrev pub listed : Text → List Text → Bool
listed j = any (λ id. text_eq id j)

module _ (lib : Layers) where
  open lib use {
    Map, has_layer, visible, set_visibility, has_layer-set_visibility, visible-set_visibility,
  }

  unfoldable pub set_layer_visibility : Map → Text → Bool → Map
  set_layer_visibility m id v = if not (has_layer m id) then m else set_visibility m id v

  -- Calls for several layers, one after another.
  unfoldable pub set_all : Map → List Text → Bool → Map
  set_all m [] v = m
  set_all m (id ∷ ids) v = set_all (set_layer_visibility m id v) ids v

  pub has_layer-set_layer_visibility :
      (m : Map) (id : Text) (v : Bool) (j : Text)
      → has_layer (set_layer_visibility m id v) j ≡ has_layer m j
  unfolding set_layer_visibility
  has_layer-set_layer_visibility m id v j = elim (Bool-cases (has_layer m id)) [
    | inl there ↦ rw there (has_layer-set_visibility m id v j)
    | inr absent ↦ rw absent refl
  ]

  pub visible-set_layer_visibility :
      (m : Map) (id : Text) (v : Bool) (j : Text)
      → has_layer m j ≡ true
      → visible (set_layer_visibility m id v) j ≡ (if text_eq id j then v else visible m j)
  unfolding set_layer_visibility
  visible-set_layer_visibility m id v j h = elim (Bool-cases (has_layer m id)) [
    | inl there ↦ rw there (visible-set_visibility m id v j there)
    | inr absent ↦ elim (Bool-cases (text_eq id j)) [
      | inl same ↦ let e = (text_eq_iff id j).0 same in absurd (cc)
      | inr other ↦ rw (absent, other) refl
    ]
  ]

  pub has_layer-set_all :
      (m : Map) (ids : List Text) (v : Bool) (j : Text)
      → has_layer (set_all m ids v) j ≡ has_layer m j
  unfolding set_all
  has_layer-set_all m [] v j = refl
  has_layer-set_all m (id ∷ ids) v j =
      has_layer-set_all (set_layer_visibility m id v) ids v j
      ∙ has_layer-set_layer_visibility m id v j

  pub visible-set_all :
      (m : Map) (ids : List Text) (v : Bool) (j : Text)
      → has_layer m j ≡ true
      → visible (set_all m ids v) j ≡ (if listed j ids then v else visible m j)
  unfolding set_all
  visible-set_all m [] v j h = refl
  visible-set_all m (id ∷ ids) v j h =
      let k = has_layer-set_layer_visibility m id v j ∙ h in
      ground (
        arith,
        visible-set_all (set_layer_visibility m id v) ids v j k,
        visible-set_layer_visibility m id v j h,
      )
