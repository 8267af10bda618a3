-- ===== src/Popup/Vehicle/Inert.antt =====
-- The links and the tags of a vehicle's popup.
use simply_transport.Common.{
  ℕ, ◌≡◌, refl, Text, units, Bool, true, false, [], ◌∷◌, ◌++◌, ◌||◌, if◌then◌else◌, Option, none,
  some, arith, Bool-cases, inl, inr,
}
use simply_transport.Js.Values.{Field, truthy, to_string}
use simply_transport.Js.Uri.{
  encode_uri_component, encode_point, percent, is_alphanumeric, is_mark, is_high, is_low, prepend,
}
use simply_transport.Popup.Escape.Markup.{markup, markup-append, markup-escape_html}
use simply_transport.Popup.Dates.{Dates}
use simply_transport.Popup.Vehicle.{
  ◌>>=◌, VehicleProps, title_inner, last_updated_line, route_href, vehicle_html,
  build_vehicle_popup_html, direction_or_default,
}

abbrev IsPlain : Text → Type 0
IsPlain s = markup s ≡ []

IsPlain-append : (s t : Text) → IsPlain s → IsPlain t → IsPlain (s ++ t)
IsPlain-append s t p q = rw (markup-append, p, q) refl

IsPlain-if : (b : Bool) (s t : Text) → IsPlain s → IsPlain t → IsPlain (if b then s else t)
IsPlain-if true s t p q = p
IsPlain-if false s t p q = q

percent-IsPlain : (b : ℕ) → IsPlain (percent b)
unfolding markup percent
percent-IsPlain b = ground arith

encode_point-IsPlain : (c : ℕ) → IsPlain (encode_point c)
unfolding encode_point
encode_point-IsPlain c = search (IsPlain-if, IsPlain-append, percent-IsPlain) depth 9

unreserved-IsPlain : (c : ℕ) → (is_alphanumeric c || is_mark c) ≡ true → IsPlain (c ∷ [])
unfolding markup is_alphanumeric is_mark
unreserved-IsPlain c h = ground arith

-- What an encoder gives holds no markup, if it gives anything.
abbrev AllPlain : Option Text → Type 0
AllPlain none = Unit
AllPlain (some s) = IsPlain s

AllPlain-prepend : (s : Text) (o : Option Text) → IsPlain s → AllPlain o → AllPlain (prepend s o)
AllPlain-prepend s none p q = tt
AllPlain-prepend s (some t) p q = IsPlain-append s t p q

AllPlain-if :
    (b : Bool) (o o' : Option Text)
    → (b ≡ true → AllPlain o)
    → AllPlain o'
    → AllPlain (if b then o else o')
AllPlain-if true o o' p q = p refl
AllPlain-if false o o' p q = q

encode_uri_component-AllPlain : (s : Text) → AllPlain (encode_uri_component s)
unfolding encode_uri_component
encode_uri_component-AllPlain [] = unfold markup in refl
encode_uri_component-AllPlain (c ∷ []) = AllPlain-if _ _ _ (unreserved-IsPlain c) (
    AllPlain-if (is_high c || is_low c) none (some (encode_point c)) (λ h. tt)
      (encode_point-IsPlain c))
encode_uri_component-AllPlain (c ∷ d ∷ s) =
    AllPlain-if _ (prepend (c ∷ []) (encode_uri_component (d ∷ s))) _
      (λ h. AllPlain-prepend _ _ (unreserved-IsPlain c h) (encode_uri_component-AllPlain (d ∷ s)))
      (AllPlain-if (is_low c) none _ (λ h. tt)
        (AllPlain-if (is_high c) _ _
          (λ h.
            AllPlain-if (is_low d) _ none
              (λ k. AllPlain-prepend _ _ (encode_point-IsPlain _) (encode_uri_component-AllPlain s))
              tt)
          (AllPlain-prepend _ _ (encode_point-IsPlain c) (encode_uri_component-AllPlain (d ∷ s)))))

IsPlain-of_encode : (s : Text) {r : Text} → encode_uri_component s ≡ some r → IsPlain r
IsPlain-of_encode s e = rw e at (encode_uri_component-AllPlain s)

-- The tags of the heading and of the date line depend on whether there are a route and a date.
markup-title_inner :
    (h k : Text) (p q : VehicleProps)
    → IsPlain h
    → IsPlain k
    → truthy p.route_id ≡ truthy q.route_id
    → markup (title_inner h p) ≡ markup (title_inner k q)
unfolding title_inner
markup-title_inner h k p q a b e = elim (Bool-cases (truthy q.route_id)) [
  | inl link ↦ rw (e, link) (simp (markup-append, markup-escape_html, a, b))
  | inr plain ↦ rw (e, plain) (simp markup-escape_html)
]

markup-last_updated_line :
    (d : Dates) (u v : Field)
    → truthy u ≡ truthy v
    → markup (last_updated_line d u) ≡ markup (last_updated_line d v)
unfolding last_updated_line
markup-last_updated_line d u v e = elim (Bool-cases (truthy v)) [
  | inl dated ↦ rw (e, dated) (simp (markup-append, markup-escape_html))
  | inr undated ↦ rw (e, undated) refl
]

>>=-eq-some :
    (o : Option Text) (k : Text → Option Text) {t : Text}
    → (o >>= k) ≡ some t
    → (s : Text) × (o ≡ some s) × (k s ≡ some t)
>>=-eq-some none k e = cc
>>=-eq-some (some s) k e = (s, refl, e)

route-IsPlain : IsPlain (units "/realtime/route/")
unfolding markup units
route-IsPlain = refl

slash-IsPlain : IsPlain (units "/")
unfolding markup units
slash-IsPlain = refl

route_href-IsPlain : (id dir : Text) → IsPlain id → IsPlain dir → IsPlain (route_href id dir)
unfolding route_href
route_href-IsPlain id dir p q = search (IsPlain-append, route-IsPlain, slash-IsPlain)

build_vehicle_popup_html-eq-some :
    (d : Dates) (p : VehicleProps) {s : Text}
    → build_vehicle_popup_html d p ≡ some s
    → (href : Text) × IsPlain href × (vehicle_html d p href ≡ s)
unfolding build_vehicle_popup_html
build_vehicle_popup_html-eq-some d p e =
    let (id, got, rest) = >>=-eq-some (encode_uri_component (to_string p.route_id)) _ e in
    let (dir, got', shown) =
      >>=-eq-some (encode_uri_component (direction_or_default p.map_direction))
        (λ dir. some (vehicle_html d p (route_href id dir))) rest in
    (
      route_href id dir,
      route_href-IsPlain id dir (IsPlain-of_encode _ got) (IsPlain-of_encode _ got'),
      cc,
    )

-- Two vehicles that both have or both lack a route, and both have or both lack a time, get popups with
-- the same tags and quotes in the same order, where the popups can be built.
pub vehicle_popup_inert :
    (d : Dates) (p q : VehicleProps) (s t : Text)
    → truthy p.route_id ≡ truthy q.route_id
    → truthy p.time_of_update ≡ truthy q.time_of_update
    → build_vehicle_popup_html d p ≡ some s
    → build_vehicle_popup_html d q ≡ some t
    → markup s ≡ markup t
unfolding vehicle_html
vehicle_popup_inert d p q s t same_link same_date built built' =
    let (h, plain, e) = build_vehicle_popup_html-eq-some d p built in
    let (k, plain', e') = build_vehicle_popup_html-eq-some d q built' in
    rw (← e, ← e')
      (simp (
        markup-append,
        markup-title_inner h k p q plain plain' same_link,
        markup-last_updated_line d p.time_of_update q.time_of_update same_date,
      ))
