-- ===== src/Shared/Visibility/Agree.antt =====
-- Groups of layers that are all shown or all hidden.
use simply_transport.Common.{
  ◌≡◌, refl, ◌∙◌, sym, Text, Bool, true, false, List, [], ◌∷◌, ◌++◌, text_eq_iff, arith, All,
}
use simply_transport.Shared.Visibility.{Layers, set_all, listed, has_layer-set_all, visible-set_all}

-- Every id of the first list is, or is not, in the second.
abbrev pub Inside : List Text → List Text → Type 0
Inside ids big = All (λ j. listed j big ≡ true) ids

abbrev pub Apart : List Text → List Text → Type 0
Apart ids big = All (λ j. listed j big ≡ false) ids

pub listed-cons : (j k : Text) (big : List Text) → listed j big ≡ true → listed j (k ∷ big) ≡ true
listed-cons j k big h = ground arith

Inside-cons : (k : Text) (ids big : List Text) → Inside ids big → Inside ids (k ∷ big)
Inside-cons k [] big h = tt
Inside-cons k (j ∷ ids) big (h, hs) = (listed-cons j k big h, Inside-cons k ids big hs)

pub Inside-refl : (ids : List Text) → Inside ids ids
Inside-refl [] = tt
Inside-refl (j ∷ ids) =
    (let e = (text_eq_iff j j).1 refl in ground arith, Inside-cons j ids ids (Inside-refl ids))

pub listed-append_left :
    (j : Text) (xs ys : List Text) → listed j xs ≡ true → listed j (xs ++ ys) ≡ true
listed-append_left j [] ys h = absurd (let e : false ≡ true = h in cc)
listed-append_left j (x ∷ xs) ys h = ground (arith, listed-append_left j xs ys)

pub listed-append_right :
    (j : Text) (xs ys : List Text) → listed j ys ≡ true → listed j (xs ++ ys) ≡ true
listed-append_right j [] ys h = h
listed-append_right j (x ∷ xs) ys h = ground (arith, listed-append_right j xs ys h)

pub Inside-append_left : (ids xs ys : List Text) → Inside ids xs → Inside ids (xs ++ ys)
Inside-append_left [] xs ys h = tt
Inside-append_left (j ∷ ids) xs ys (h, hs) =
    (listed-append_left j xs ys h, Inside-append_left ids xs ys hs)

pub Inside-append_right : (ids xs ys : List Text) → Inside ids ys → Inside ids (xs ++ ys)
Inside-append_right [] xs ys h = tt
Inside-append_right (j ∷ ids) xs ys (h, hs) =
    (listed-append_right j xs ys h, Inside-append_right ids xs ys hs)

module _ (lib : Layers) where
  open lib use {Map, has_layer, visible}

  -- Every layer of the list that the map has is visible exactly if `v`.
  abbrev pub Agree : Map → Bool → List Text → Type 0
  Agree m v = All (λ j. has_layer m j ≡ true → visible m j ≡ v)

  pub Agree-set_inside :
      (m : Map) (v : Bool) (ids big : List Text)
      → Inside ids big
      → Agree (set_all lib m big v) v ids
  Agree-set_inside m v [] big h = tt
  Agree-set_inside m v (j ∷ ids) big (h, hs) = (
    λ there.
        let k = sym (has_layer-set_all lib m big v j) ∙ there in
        rw (visible-set_all lib m big v j k, h) refl,
    Agree-set_inside m v ids big hs,
  )

  pub Agree-set_apart :
      (m : Map) (v b : Bool) (ids big : List Text)
      → Apart ids big
      → Agree m b ids
      → Agree (set_all lib m big v) b ids
  Agree-set_apart m v b [] big h a = tt
  Agree-set_apart m v b (j ∷ ids) big (h, hs) (a, as') = (
    λ there.
        let k = sym (has_layer-set_all lib m big v j) ∙ there in
        rw (visible-set_all lib m big v j k, h) (a k),
    Agree-set_apart m v b ids big hs as',
  )

  pub Agree-set_self : (m : Map) (v : Bool) (ids : List Text) → Agree (set_all lib m ids v) v ids
  Agree-set_self m v ids = Agree-set_inside m v ids ids (Inside-refl ids)

  -- A change to the value that the layers have already.
  pub Agree-set_same :
      (m : Map) (v : Bool) (ids big : List Text) → Agree m v ids → Agree (set_all lib m big v) v ids
  Agree-set_same m v [] big a = tt
  Agree-set_same m v (j ∷ ids) big (a, as') = (
    λ there.
        let k = sym (has_layer-set_all lib m big v j) ∙ there in
        let e = a k in ground (arith, visible-set_all lib m big v j k),
    Agree-set_same m v ids big as',
  )
