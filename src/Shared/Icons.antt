-- ===== src/Shared/Icons.antt =====
-- `createVehicleChevronImageData` and `registerVehicleIconForRoute`. The canvas is what its calls
-- draw; the images of a MapLibre map are a parameter.
pub mod Ids
pub mod Colors
pub mod Payload
use simply_transport.Common.{
  ℕ, ◌+◌, ◌-◌, ◌≡◌, Text, units, Bool, true, false, List, [], ◌∷◌, ◌++◌, if◌then◌else◌, Option,
  none, some, text_eq,
}
use simply_transport.Js.Values.{Field, str, to_string}
use simply_transport.Shared.Keys.{sanitize_route_id_for_image_key, sanitize_color_for_image_key}

-- The calls on the 2d context that leave a trace on the bitmap.
pub data Draw : Type 0 where
  clear_rect : ℕ → ℕ → ℕ → ℕ → Draw
  begin_path close_path fill stroke : Draw
  round_rect : ℕ → ℕ → ℕ → ℕ → ℕ → Draw
  rect : ℕ → ℕ → ℕ → ℕ → Draw
  move_to line_to : ℕ → ℕ → Draw
  fill_style stroke_style line_join line_cap : Text → Draw
  line_width_tenths : ℕ → Draw

abbrev pub Image : Type 0
Image = List Draw

abbrev body_x : ℕ
body_x = 4

abbrev body_y : ℕ
body_y = 16

abbrev body_w : ℕ
body_w = 52

abbrev body_h : ℕ
body_h = 30

-- `fillRoundBody`; `rounds`: the context has `roundRect`.
unfoldable pub fill_round_body : Bool → Image
fill_round_body rounds =
    begin_path
    ∷ (if rounds
        then round_rect body_x body_y body_w body_h 6
        else rect body_x body_y body_w body_h)
    ∷ []

-- The drawing of a chevron, 64 units a side; without a 2d context the source throws.
unfoldable pub create_vehicle_chevron_image_data : Bool → Bool → Text → Option Image
unfolding fill_round_body
create_vehicle_chevron_image_data has_context rounds fill_color =
    let size : ℕ = 64 in
    let tip_x : ℕ = 65 in
    let mid_y : ℕ = 32 in
    let base_left = body_x + body_w in
    let tri_inset : ℕ = 5 in
    if has_context
    then some (
        clear_rect 0 0 size size
        ∷ fill_style fill_color
        ∷ (fill_round_body rounds
            ++ fill
              ∷ begin_path
              ∷ move_to base_left (body_y + tri_inset)
              ∷ line_to tip_x mid_y
              ∷ line_to base_left (body_y + body_h - tri_inset)
              ∷ close_path
              ∷ fill
              ∷ stroke_style (units "#ffffff")
              ∷ line_width_tenths 25
              ∷ line_join (units "round")
              ∷ line_cap (units "round")
              ∷ (fill_round_body rounds
                  ++ stroke
                    ∷ begin_path
                    ∷ move_to base_left (body_y + tri_inset)
                    ∷ line_to tip_x mid_y
                    ∷ line_to base_left (body_y + body_h - tri_inset)
                    ∷ stroke
                    ∷ [])))
    else none

abbrev pub is_some {ℓ} : {A : Type ℓ} → Option A → Bool
is_some none = false
is_some (some a) = true

-- The images of a MapLibre map: `hasImage`, `addImage`, and what is drawn for an id.
pub record Images : Type 1 where
  pub Map : Type 0
  pub image : Map → Text → Option Image
  pub has_image : Map → Text → Bool
  pub add_image : Map → Text → Image → Map
  -- `hasImage` tells whether the id has an image.
  pub has_image_lem : (m : Map) (id : Text) → has_image m id ≡ is_some (image m id)
  -- `addImage` under a new id gives the id that image, and leaves the others as they were.
  pub image-add_image :
      (m : Map) (id : Text) (i : Image) (j : Text)
      → has_image m id ≡ false
      → image (add_image m id i) j ≡ (if text_eq id j then some i else image m j)

-- `vehicle-icon-{rid}-{cid}`
unfoldable pub icon_id : Field → Field → Text
icon_id route_id color =
    units "vehicle-icon-"
    ++ (sanitize_route_id_for_image_key route_id ++ b'-' ∷ sanitize_color_for_image_key color)

module _ (lib : Images) (has_context rounds : Bool) where
  open lib use {Map, has_image, add_image}

  -- The map and the id; `none` where the drawing throws.
  unfoldable pub register_vehicle_icon_for_route : Map → Field → Field → Option (Map × Text)
  register_vehicle_icon_for_route m route_id color =
      let id = icon_id route_id color in
      if has_image m id
      then some (m, id)
      else elim (create_vehicle_chevron_image_data has_context rounds (to_string color)) [
        | none ↦ none
        | some image_data ↦ some (add_image m id image_data, id)
      ]

  -- The calls for the routes of a payload, in order; a route is its id and its colour.
  unfoldable pub register_all : Map → List (Field × Field) → Option Map
  register_all m [] = some m
  register_all m ((route_id, color) ∷ routes) =
      elim (register_vehicle_icon_for_route m route_id color) [
        | none ↦ none
        | some (m', id) ↦ register_all m' routes
      ]
