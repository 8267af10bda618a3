-- ===== src/Tests/Instances.antt =====
-- Concrete functions for what the program takes from MapLibre and the browser.
use simply_transport.Common.{
  ℕ, ◌≡◌, refl, Text, units, Bool, true, false, List, [], ◌∷◌, if◌then◌else◌, Option, none, some,
  text_eq, text_eq_iff, arith, Bool-cases, inl, inr,
}
use simply_transport.Shared.Icons.{Image, Images, is_some}
use simply_transport.Shared.Visibility.{Layers}
use simply_transport.Popup.Dates.{Dates}

abbrev pub find {ℓ} : {A : Type ℓ} → List (Text × A) → Text → Option A
find [] id = none
find ((j, a) ∷ m) id = if text_eq j id then some a else find m id

-- The images of a map, the newest first.
abbrev pub list_images : Images
list_images = record {
  Map = List (Text × Image);
  image = find;
  has_image = λ m id. is_some (find m id);
  add_image = λ m id i. (id, i) ∷ m;
  has_image_lem = λ m id. refl;
  image-add_image = λ m id i j h. refl;
}

-- Layers with their visibility; an assignment reaches every entry of the id.
abbrev pub assign : List (Text × Bool) → Text → Bool → List (Text × Bool)
assign [] id v = []
assign ((j, b) ∷ m) id v = (j, if text_eq j id then v else b) ∷ assign m id v

abbrev pub or_false : Option Bool → Bool
or_false none = false
or_false (some b) = b

pub find-assign_some :
    (m : List (Text × Bool)) (id : Text) (v : Bool) (j : Text)
    → is_some (find (assign m id v) j) ≡ is_some (find m j)
find-assign_some [] id v j = refl
find-assign_some ((k, b) ∷ m) id v j = ground (arith, find-assign_some m id v j)

pub find-assign :
    (m : List (Text × Bool)) (id : Text) (v : Bool) (j : Text)
    → is_some (find m id) ≡ true
    → or_false (find (assign m id v) j) ≡ (if text_eq id j then v else or_false (find m j))
find-assign m id v j h = elim (Bool-cases (text_eq id j)) [
  | inl same ↦ let e = (text_eq_iff id j).0 same in rw same (hit m id v j e h)
  | inr other ↦ rw other (miss m id v j other)
]
  where
    hit :
        (m : List (Text × Bool)) (id : Text) (v : Bool) (j : Text)
        → id ≡ j
        → is_some (find m id) ≡ true
        → or_false (find (assign m id v) j) ≡ v
    hit [] id v j e h = absurd (cc)
    hit ((k, b) ∷ m) id v j e h = ground (arith, hit m id v j e)

    miss :
        (m : List (Text × Bool)) (id : Text) (v : Bool) (j : Text)
        → text_eq id j ≡ false
        → or_false (find (assign m id v) j) ≡ or_false (find m j)
    miss [] id v j e = refl
    miss ((k, b) ∷ m) id v j e =
        ground (arith, miss m id v j e, text_eq_iff k id, text_eq_iff k j, text_eq_iff id j)

abbrev pub list_layers : Layers
list_layers = record {
  Map = List (Text × Bool);
  has_layer = λ m id. is_some (find m id);
  visible = λ m id. or_false (find m id);
  set_visibility = assign;
  has_layer-set_visibility = find-assign_some;
  visible-set_visibility = find-assign;
}

-- A clock that reads every text as minute ten, at a given time.
abbrev pub at_time : ℕ → Dates
at_time now = record { parse = λ s. some 600000; now = now; to_locale = λ ms. units "today" }
