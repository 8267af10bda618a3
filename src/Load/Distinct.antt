-- ===== src/Load/Distinct.antt =====
-- Lists of ids that differ.
use simply_transport.Common.{
  Text, units, Bool, List, [], ◌∷◌, ◌++◌, map, true, false, not, ◌&&◌, ◌≡◌, ◌≢◌, sym, text_eq,
  text_eq_iff, All, All-append, append_cancel_left, arith,
}
use simply_transport.Shared.Visibility.{listed}
use simply_transport.Panel.Agency.Consistent.{Distinct}

pub differ : (s t : Text) → text_eq s t ≡ false → t ≢ s
differ s t h e = let same = (text_eq_iff s t).1 (sym e) in absurd (cc)

pub Distinct-append :
    (xs ys : List Text)
    → Distinct xs
    → Distinct ys
    → All (λ x. All (λ y. y ≢ x) ys) xs
    → Distinct (xs ++ ys)
Distinct-append [] ys h k ds = k
Distinct-append (x ∷ xs) ys (h, hs) k (d, ds) =
    (All-append (λ y. y ≢ x) xs ys h d, Distinct-append xs ys hs k ds)

module _ (P : Text → Type 0) where
  pub All-map : (f : Text → Text) (ids : List Text) → All (λ id. P (f id)) ids → All P (map f ids)
  All-map f [] h = tt
  All-map f (id ∷ ids) (h, hs) = (h, All-map f ids hs)

module _ {P Q : Text → Type 0} where
  pub All-with : ((id : Text) → P id → Q id) → (ids : List Text) → All P ids → All Q ids
  All-with f [] h = tt
  All-with f (id ∷ ids) (h, hs) = (f id h, All-with f ids hs)

pub All-any : (P : Text → Type 0) → ((id : Text) → P id) → (ids : List Text) → All P ids
All-any P f [] = tt
All-any P f (id ∷ ids) = (f id, All-any P f ids)

pub prefixed-Distinct :
    (p : Text) (ids : List Text) → Distinct ids → Distinct (map (λ id. p ++ id) ids)
prefixed-Distinct p [] h = tt
prefixed-Distinct p (id ∷ ids) (h, hs) = (
  All-map (λ j. j ≢ p ++ id) (λ id. p ++ id) ids
      (All-with (λ j n e. n (append_cancel_left p j id e)) ids h),
  prefixed-Distinct p ids hs,
)

pub prefixed-osm :
    (p : Text) (ids : List Text)
    → ((id : Text) → text_eq (units "osm") (p ++ id) ≡ false)
    → Distinct ids
    → Distinct (units "osm" ∷ map (λ id. p ++ id) ids)
prefixed-osm p ids h d =
    (All-map _ _ ids (All-any _ (λ id. differ _ _ (h id)) ids), prefixed-Distinct p ids d)

-- The test of `Distinct`.
unfoldable pub are_distinct : List Text → Bool
are_distinct [] = true
are_distinct (id ∷ ids) = not (listed id ids) && are_distinct ids

unlisted : (id : Text) (ids : List Text) → listed id ids ≡ false → All (λ j. j ≢ id) ids
unlisted id [] h = tt
unlisted id (j ∷ ids) h = (λ e. differ j id (ground arith) (sym e), unlisted id ids (ground arith))

pub are_distinct-Distinct : (ids : List Text) → are_distinct ids ≡ true → Distinct ids
unfolding are_distinct
are_distinct-Distinct [] h = tt
are_distinct-Distinct (id ∷ ids) h =
    (unlisted id ids (ground arith), are_distinct-Distinct ids (ground arith))
