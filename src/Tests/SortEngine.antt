-- ===== src/Tests/SortEngine.antt =====
-- An engine whose `ORDER BY … DESC` is an insertion sort.
use mathlib.Core.List.{Perm}
use mathlib.Core.List.Perm
use team_x.Base.{
  ◌≡◌, true, false, inl, inr, List, [], ◌∷◌, Text, text_le, text_le_trans, text_le_total,
  if◌then◌else◌, All, Bool-cases, arith,
}
use team_x.Store.Engine.{Engine, IsSortedDesc}

module _ {A : Type 0} (key : A → Text) where
  abbrev pub insert_desc : A → List A → List A
  insert_desc x [] = x ∷ []
  insert_desc x (y ∷ ys) = if text_le (key y) (key x) then x ∷ y ∷ ys else y ∷ insert_desc x ys

  abbrev pub sort_desc : List A → List A
  sort_desc [] = []
  sort_desc (x ∷ xs) = insert_desc x (sort_desc xs)

  insert_desc-perm : (x : A) (ys : List A) → Perm (insert_desc x ys) (x ∷ ys)
  insert_desc-perm x [] = Perm.rfl
  insert_desc-perm x (y ∷ ys) = elim (Bool-cases (text_le (key y) (key x))) [
    | inl h ↦ rw h Perm.rfl
    | inr h ↦ rw h (Perm.trans (Perm.cons y (insert_desc-perm x ys)) (Perm.swap x y ys))
  ]

  pub sort_desc-perm : (xs : List A) → Perm (sort_desc xs) xs
  sort_desc-perm [] = Perm.nil
  sort_desc-perm (x ∷ xs) =
      Perm.trans (insert_desc-perm x (sort_desc xs)) (Perm.cons x (sort_desc-perm xs))

  abbrev Below : A → A → Type 0
  Below x y = text_le (key y) (key x) ≡ true

  Below-All : (x y : A) (zs : List A) → Below x y → All (Below y) zs → All (Below x) zs
  Below-All x y [] h k = tt
  Below-All x y (z ∷ zs) h k = (text_le_trans (key z) (key y) (key x) k.0 h, Below-All x y zs h k.1)

  Below-insert_desc :
      (y x : A) (zs : List A) → Below y x → All (Below y) zs → All (Below y) (insert_desc x zs)
  Below-insert_desc y x [] h k = (h, tt)
  Below-insert_desc y x (z ∷ zs) h k = elim (Bool-cases (text_le (key z) (key x))) [
    | inl e ↦ rw e (h, k)
    | inr e ↦ rw e (k.0, Below-insert_desc y x zs h k.1)
  ]

  Below-total : (x y : A) → text_le (key y) (key x) ≡ false → Below y x
  Below-total x y h = ground (arith, text_le_total (key x) (key y))

  insert_desc-IsSortedDesc :
      (x : A) (ys : List A) → IsSortedDesc key ys → IsSortedDesc key (insert_desc x ys)
  insert_desc-IsSortedDesc x [] s = (tt, tt)
  insert_desc-IsSortedDesc x (y ∷ ys) s = elim (Bool-cases (text_le (key y) (key x))) [
    | inl h ↦ rw h ((h, Below-All x y ys h s.0), s)
    | inr h ↦
        rw h (Below-insert_desc y x ys (Below-total x y h) s.0, insert_desc-IsSortedDesc x ys s.1)
  ]

  pub sort_desc-IsSortedDesc : (xs : List A) → IsSortedDesc key (sort_desc xs)
  sort_desc-IsSortedDesc [] = tt
  sort_desc-IsSortedDesc (x ∷ xs) =
      insert_desc-IsSortedDesc x (sort_desc xs) (sort_desc-IsSortedDesc xs)

abbrev pub sort_engine : Engine
sort_engine = record {
  order_desc = λ A key xs. sort_desc key xs;
  order_desc-perm = λ A key xs. sort_desc-perm key xs;
  order_desc-IsSortedDesc = λ A key xs. sort_desc-IsSortedDesc key xs;
}
