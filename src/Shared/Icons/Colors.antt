-- ===== src/Shared/Icons/Colors.antt =====
-- What registering one icon does to the images of a map.
use mathlib.Core.Path.{subst}
use mathlib.Core.Option
use simply_transport.Common.{
  ◌≡◌, refl, sym, ap, ◌∙◌, Text, Bool, true, false, Option, none, some, text_eq, text_eq_iff,
  Bool-cases, inl, inr, Option-cases, ◌⊎◌, ◌≢◌,
}
use simply_transport.Js.Values.{Field, to_string}
use simply_transport.Shared.Icons.{
  Image, Images, is_some, icon_id, create_vehicle_chevron_image_data,
  register_vehicle_icon_for_route,
}
use simply_transport.Shared.Icons.Ids.{IsHex, icon_id-color}

module _ (lib : Images) (has_context rounds : Bool) where
  open lib use {Map, image, has_image, add_image, has_image_lem, image-add_image}

  abbrev pub drawn : Field → Option Image
  drawn c = create_vehicle_chevron_image_data has_context rounds (to_string c)

  -- The origin of an image: a route and a colour in which it was drawn.
  pub record Origin (id : Text) (i : Image) : Type 0 where
    pub route_id : Field
    pub color : Field
    pub hex : IsHex color
    pub named : id ≡ icon_id route_id color
    pub made : drawn color ≡ some i

  abbrev pub AllDrawn : Map → Type 0
  AllDrawn m = (id : Text) (i : Image) → image m id ≡ some i → Origin id i

  -- What one registration does.
  pub record Registered (m : Map) (r c : Field) (m' : Map) : Type 0 where
    pub shown : (i : Image) × (image m' (icon_id r c) ≡ some i) × (drawn c ≡ some i)
    pub kept : (id : Text) (i : Image) → image m id ≡ some i → image m' id ≡ some i
    pub origins : AllDrawn m'

  old-Registered :
      (m : Map) (r c : Field) (i : Image)
      → IsHex c
      → AllDrawn m
      → image m (icon_id r c) ≡ some i
      → Registered m r c m
  old-Registered m r c i h all e =
      let o = all (icon_id r c) i e in
      let same : c ≡ o.color = icon_id-color r o.route_id c o.color h o.hex o.named in
      record { shown = (i, e, ap drawn same ∙ o.made); kept = λ id j k. k; origins = all }

  -- The image for an id after one was added under a new id.
  image-added :
      (m : Map) (id : Text) (i : Image) (j : Text)
      → has_image m id ≡ false
      → ((id ≡ j) × (image (add_image m id i) j ≡ some i))
        ⊎ ((id ≢ j) × (image (add_image m id i) j ≡ image m j))
  image-added m id i j absent = elim (Bool-cases (text_eq id j)) [
    | inl same ↦ inl ((text_eq_iff id j).0 same, rw (image-add_image m id i j absent, same) refl)
    | inr other ↦
        inr ((λ e. cc ((text_eq_iff id j).1 e)), rw (image-add_image m id i j absent, other) refl)
  ]

  absent-image :
      (m : Map) (id : Text) (i : Image) → has_image m id ≡ false → image m id ≡ some i → ⊥
  absent-image m id i absent e = let h = has_image_lem m id in cc (ap is_some e)

  new-Registered :
      (m : Map) (r c : Field) (i : Image)
      → IsHex c
      → AllDrawn m
      → has_image m (icon_id r c) ≡ false
      → drawn c ≡ some i
      → Registered m r c (add_image m (icon_id r c) i)
  new-Registered m r c i h all absent made = record {
    shown = elim (image-added m id i id absent) [
      | inl (e, now) ↦ (i, now, made)
      | inr (ne, was) ↦ absurd (ne refl)
    ];
    kept = λ j k old. elim (image-added m id i j absent) [
      | inl (e, now) ↦ absurd (absent-image m id k absent (rw e old))
      | inr (ne, was) ↦ was ∙ old
    ];
    origins = λ j k new. elim (image-added m id i j absent) [
      | inl (e, now) ↦ record {
        route_id = r;
        color = c;
        hex = h;
        named = sym e;
        made = made ∙ sym now ∙ new;
      }
      | inr (ne, was) ↦ all j k (sym was ∙ new)
    ];
  }
    where
      id : Text
      id = icon_id r c

  pub register_there :
      (m : Map) (r c : Field)
      → has_image m (icon_id r c) ≡ true
      → register_vehicle_icon_for_route lib has_context rounds m r c ≡ some (m, icon_id r c)
  unfolding register_vehicle_icon_for_route
  register_there m r c there = rw there refl

  pub register_absent :
      (m : Map) (r c : Field) (o : Option Image)
      → has_image m (icon_id r c) ≡ false
      → drawn c ≡ o
      → register_vehicle_icon_for_route lib has_context rounds m r c
        ≡ Option.map (λ i. (add_image m (icon_id r c) i, icon_id r c)) o
  unfolding register_vehicle_icon_for_route
  register_absent m r c none absent e = rw (absent, e) refl
  register_absent m r c (some i) absent e = rw (absent, e) refl

  map-eq_of_some :
      {m m' : Map} {id id' : Text}
      → ◌≡◌ {A = Option (Map × Text)} (some (m, id)) (some (m', id'))
      → m ≡ m'
  map-eq_of_some e = cc

  there-image : (m : Map) (id : Text) → has_image m id ≡ true → (i : Image) × (image m id ≡ some i)
  there-image m id there = elim (Option-cases (image m id)) [
    | inl empty ↦ let h = has_image_lem m id in absurd (cc (ap is_some empty))
    | inr found ↦ found
  ]

  pub register-Registered :
      (m m' : Map) (r c : Field) (id : Text)
      → IsHex c
      → AllDrawn m
      → register_vehicle_icon_for_route lib has_context rounds m r c ≡ some (m', id)
      → Registered m r c m'
  register-Registered m m' r c id h all e = elim (Bool-cases (has_image m (icon_id r c))) [
    | inl there ↦
        let (i, found) = there-image m (icon_id r c) there in
        subst (Registered m r c) (map-eq_of_some (sym (register_there m r c there) ∙ e))
          (old-Registered m r c i h all found)
    | inr absent ↦ elim (Option-cases (drawn c)) [
      | inl throws ↦ absurd (cc (register_absent m r c none absent throws))
      | inr (i, made) ↦
          subst (Registered m r c)
            (map-eq_of_some (sym (register_absent m r c (some i) absent made) ∙ e))
            (new-Registered m r c i h all absent made)
    ]
  ]
