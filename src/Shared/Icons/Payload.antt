-- ===== src/Shared/Icons/Payload.antt =====
-- A registered icon has its route's colour, whichever routes and colours were registered before.
use mathlib.Core.Path.{subst}
use simply_transport.Common.{
  ◌≡◌, refl, Text, Bool, true, List, [], ◌∷◌, some, arith, Bool-cases, inl, inr, Option-cases,
}
use simply_transport.Js.Values.{Field}
use simply_transport.Shared.Icons.{
  Image, Images, icon_id, create_vehicle_chevron_image_data, register_vehicle_icon_for_route,
  register_all,
}
use simply_transport.Shared.Icons.Ids.{IsHex}
use simply_transport.Shared.Icons.Colors.{
  drawn, AllDrawn, Registered, register_there, register_absent, register-Registered,
}

module _ (lib : Images) (has_context rounds : Bool) where
  open lib use {Map, image, has_image, add_image, has_image_lem, image-add_image}

  -- The routes have colours of the form `#` and six digits.
  abbrev pub AllHex : List (Field × Field) → Type 0
  AllHex [] = Unit
  AllHex ((r, c) ∷ routes) = IsHex c × AllHex routes

  -- Each route's icon shows the chevron in the route's colour.
  abbrev pub AllShown : Map → List (Field × Field) → Type 0
  AllShown m [] = Unit
  AllShown m ((r, c) ∷ routes) =
      ((i : Image) × (image m (icon_id r c) ≡ some i) × (drawn lib has_context rounds c ≡ some i))
      × AllShown m routes

  record AllRegistered (m : Map) (routes : List (Field × Field)) (m' : Map) : Type 0 where
    shown : AllShown m' routes
    kept : (id : Text) (i : Image) → image m id ≡ some i → image m' id ≡ some i
    origins : AllDrawn lib has_context rounds m'

  cons-AllRegistered :
      (m m₁ m' : Map) (r c : Field) (routes : List (Field × Field))
      → Registered lib has_context rounds m r c m₁
      → AllRegistered m₁ routes m'
      → AllRegistered m ((r, c) ∷ routes) m'
  cons-AllRegistered m m₁ m' r c routes one rest =
      let (i, there, made) = one.shown in
      record {
        shown = ((i, rest.kept _ i there, made), rest.shown);
        kept = λ id j old. rest.kept id j (one.kept id j old);
        origins = rest.origins;
      }

  register_all-AllRegistered :
      (m m' : Map) (routes : List (Field × Field))
      → AllHex routes
      → AllDrawn lib has_context rounds m
      → register_all lib has_context rounds m routes ≡ some m'
      → AllRegistered m routes m'
  unfolding register_all
  register_all-AllRegistered m m' [] h all e =
      let same : m ≡ m' = cc in
      subst (AllRegistered m []) same (record { shown = tt; kept = λ id i k. k; origins = all })
  register_all-AllRegistered m m' ((r, c) ∷ routes) (h, hs) all e =
      elim (Option-cases (register_vehicle_icon_for_route lib has_context rounds m r c)) [
        | inl throws ↦ absurd (cc (rw (throws, register_all) at e))
        | inr ((m₁, id), done) ↦
            let one = register-Registered lib has_context rounds m m₁ r c id h all done in
            cons-AllRegistered m m₁ m' r c routes one (
              register_all-AllRegistered m₁ m' routes hs one.origins (rw (done, register_all) at e))
      ]

  drawn_total :
      (c : Field) → has_context ≡ true → (i : Image) × (drawn lib has_context rounds c ≡ some i)
  drawn_total c ctx = elim (Option-cases (drawn lib has_context rounds c)) [
    | inl throws ↦ absurd (unfold create_vehicle_chevron_image_data in ground arith)
    | inr made ↦ made
  ]

  register_total :
      (m : Map) (r c : Field)
      → has_context ≡ true
      → (m' : Map) × (id : Text) × (register_vehicle_icon_for_route lib has_context rounds m r c
          ≡ some (m', id))
  register_total m r c ctx = elim (Bool-cases (has_image m (icon_id r c))) [
    | inl there ↦ (m, icon_id r c, register_there lib has_context rounds m r c there)
    | inr absent ↦
        let (i, made) = drawn_total c ctx in
        (
          add_image m (icon_id r c) i,
          icon_id r c,
          register_absent lib has_context rounds m r c (some i) absent made,
        )
  ]

  register_all_total :
      (m : Map) (routes : List (Field × Field))
      → has_context ≡ true
      → (m' : Map) × (register_all lib has_context rounds m routes ≡ some m')
  unfolding register_all
  register_all_total m [] ctx = (m, refl)
  register_all_total m ((r, c) ∷ routes) ctx =
      let (m₁, id, done) = register_total m r c ctx in
      let (m', e) = register_all_total m₁ routes ctx in (m', rw (done, register_all) e)

  -- Where a 2d context is there, the registrations for a payload succeed, and the map then has under
  -- each route's id an image, the chevron drawn lib has_context rounds in that route's colour, whatever the ids are, if the
  -- map's images were such chevrons before and the colours are `#` and six letters or digits.
  pub register_all_shows :
      (m : Map) (routes : List (Field × Field))
      → has_context ≡ true
      → AllHex routes
      → AllDrawn lib has_context rounds m
      → (m' : Map) × (register_all lib has_context rounds m routes ≡ some m') × AllShown m' routes
  register_all_shows m routes ctx h all =
      let (m', e) = register_all_total m routes ctx in
      (m', e, (register_all-AllRegistered m m' routes h all e).shown)
