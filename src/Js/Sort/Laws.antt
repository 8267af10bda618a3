-- ===== src/Js/Sort/Laws.antt =====
-- What sorting does: the items stay, and they are in order if the comparator orders them.
use mathlib.Core.List.{Perm, perm_middle}
use mathlib.Core.List.Perm
use simply_transport.Common.{
  ◌≡◌, ◌≢◌, refl, ◌⊎◌, inl, inr, Text, true, false, List, [], ◌∷◌, ◌++◌, All, append-nil, arith,
}
use simply_transport.Js.Sort.{Sign, negative, zero, positive, insert, insert_all, sort, text_less}

-- Everything stands in the relation to all that comes after it.
abbrev pub InOrder : {A : Type 0} → (A → A → Type 0) → List A → Type 0
InOrder R [] = Unit
InOrder R (x ∷ xs) = All (R x) xs × InOrder R xs

Sign-cases : (s : Sign) → (s ≡ negative) ⊎ (s ≢ negative)
Sign-cases negative = inl refl
Sign-cases zero = inr (λ e. cc)
Sign-cases positive = inr (λ e. cc)

module _ {A : Type 0} (compare : A → A → Sign) where
  insert_before :
      (x y : A) (ys : List A) → compare x y ≡ negative → insert compare x (y ∷ ys) ≡ x ∷ y ∷ ys
  unfolding insert
  insert_before x y ys e = rw (e, insert) refl

  insert_after :
      (x y : A) (ys : List A)
      → compare x y ≢ negative
      → insert compare x (y ∷ ys) ≡ y ∷ insert compare x ys
  unfolding insert
  insert_after x y ys h = go (compare x y) h
    where
      go :
          (s : Sign)
          → s ≢ negative
          → (elim s [ negative ↦ x ∷ y ∷ ys | _ ↦ y ∷ insert compare x ys ])
            ≡ y ∷ insert compare x ys
      go negative h = absurd (h refl)
      go zero h = refl
      go positive h = refl

  insert-perm : (x : A) (ys : List A) → Perm (insert compare x ys) (x ∷ ys)
  insert-perm x [] = unfold insert in Perm.rfl
  insert-perm x (y ∷ ys) = elim (Sign-cases (compare x y)) [
    | inl e ↦ rw (insert_before x y ys e) Perm.rfl
    | inr h ↦
        rw (insert_after x y ys h) (Perm.trans (Perm.cons y (insert-perm x ys)) (Perm.swap x y ys))
  ]

  insert_all-perm : (xs out : List A) → Perm (insert_all compare xs out) (xs ++ out)
  unfolding insert_all
  insert_all-perm [] out = Perm.rfl
  insert_all-perm (x ∷ xs) out =
      Perm.trans (insert_all-perm xs (insert compare x out))
        (Perm.trans (Perm.append_left xs (insert-perm x out)) (perm_middle xs out))

  pub sort-perm : (xs : List A) → Perm (sort compare xs) xs
  unfolding sort
  sort-perm xs = rw append-nil at (insert_all-perm xs [])

  insert-All : (P : A → Type 0) (x : A) (ys : List A) → P x → All P ys → All P (insert compare x ys)
  insert-All P x [] p hs = unfold insert in (p, tt)
  insert-All P x (y ∷ ys) p (h, hs) = elim (Sign-cases (compare x y)) [
    | inl e ↦ rw (insert_before x y ys e) (p, (h, hs))
    | inr n ↦ rw (insert_after x y ys n) (h, insert-All P x ys p hs)
  ]

  insert_all-All :
      (P : A → Type 0) (xs out : List A) → All P xs → All P out → All P (insert_all compare xs out)
  unfolding insert_all
  insert_all-All P [] out hs ks = ks
  insert_all-All P (x ∷ xs) out (h, hs) ks =
      insert_all-All P xs (insert compare x out) hs (insert-All P x out h ks)

  pub sort-All : (P : A → Type 0) (xs : List A) → All P xs → All P (sort compare xs)
  unfolding sort
  sort-All P xs hs = insert_all-All P xs [] hs tt

  -- On items of `P`, a negative sign tells that the first may come first, and any other that the second may.
  pub record Orders (P : A → Type 0) (R : A → A → Type 0) : Type 0 where
    pub first : (x y : A) → P x → P y → compare x y ≡ negative → R x y
    pub second : (x y : A) → P x → P y → compare x y ≢ negative → R y x
    pub trans : (x y z : A) → P x → P y → P z → R x y → R y z → R x z

  module _ (P : A → Type 0) (R : A → A → Type 0) (o : Orders P R) where
    All-trans : (x y : A) (zs : List A) → P x → P y → All P zs → R x y → All (R y) zs → All (R x) zs
    All-trans x y [] p q hs r rs = tt
    All-trans x y (z ∷ zs) p q (h, hs) r (s, ss) =
        (o.trans x y z p q h r s, All-trans x y zs p q hs r ss)

    insert-InOrder :
        (x : A) (ys : List A) → P x → All P ys → InOrder R ys → InOrder R (insert compare x ys)
    insert-InOrder x [] p hs s = unfold insert in (tt, tt)
    insert-InOrder x (y ∷ ys) p (h, hs) (below, s) = elim (Sign-cases (compare x y)) [
      | inl e ↦
          let r = o.first x y p h e in
          rw (insert_before x y ys e) ((r, All-trans x y ys p h hs r below), (below, s))
      | inr n ↦
          rw (insert_after x y ys n)
            (insert-All (R y) x ys (o.second x y p h n) below, insert-InOrder x ys p hs s)
    ]

    insert_all-InOrder :
        (xs out : List A)
        → All P xs
        → All P out
        → InOrder R out
        → InOrder R (insert_all compare xs out)
    unfolding insert_all
    insert_all-InOrder [] out hs ks s = s
    insert_all-InOrder (x ∷ xs) out (h, hs) ks s =
        insert_all-InOrder xs (insert compare x out) hs (insert-All P x out h ks)
          (insert-InOrder x out h ks s)

    pub sort-InOrder : (xs : List A) → All P xs → InOrder R (sort compare xs)
    unfolding sort
    sort-InOrder xs hs = insert_all-InOrder xs [] hs tt tt

pub text_less_irrefl : (s : Text) → text_less s s ≡ false
unfolding text_less
text_less_irrefl [] = refl
text_less_irrefl (a ∷ s) = ground (arith, text_less_irrefl s)

pub text_less_asym : (s t : Text) → text_less s t ≡ true → text_less t s ≡ false
unfolding text_less
text_less_asym [] [] h = refl
text_less_asym [] (b ∷ t) h = refl
text_less_asym (a ∷ s) [] h = absurd (ground arith)
text_less_asym (a ∷ s) (b ∷ t) h = ground (arith, text_less_asym s t)

-- "Not less" is transitive.
pub not_less_trans :
    (s t u : Text) → text_less s t ≡ false → text_less t u ≡ false → text_less s u ≡ false
unfolding text_less
not_less_trans [] [] [] h k = refl
not_less_trans [] [] (c ∷ u) h k = absurd (ground arith)
not_less_trans [] (b ∷ t) u h k = absurd (ground arith)
not_less_trans (a ∷ s) t [] h k = refl
not_less_trans (a ∷ s) [] (c ∷ u) h k = absurd (ground arith)
not_less_trans (a ∷ s) (b ∷ t) (c ∷ u) h k = ground (arith, not_less_trans s t u)
