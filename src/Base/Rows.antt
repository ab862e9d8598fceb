-- ===== src/Base/Rows.antt =====
-- How the reads of a table (`find`, `any`, `where_`) see an `UPDATE … WHERE`.
use mathlib.Core.Path.{◌≡◌, refl}
use mathlib.Core.Bool.{Bool, true, false, ◌||◌}
use mathlib.Core.List.{List, [], ◌∷◌, ◌++◌}
use mathlib.Core.Option.{Option, none, some}
use mathlib.Core.Logic.{inl, inr}
use native.Mathlib.Omega.{arith}
use team_x.Base.Tests.{if◌then◌else◌, ltb, Bool-cases}
use team_x.Base.Lists.{where_, update_where, find, any, length}

module _ {ℓ} {A : Type ℓ} where
  abbrev pub after_update : (A → Bool) → (A → A) → Option A → Option A
  after_update p f none = none
  after_update p f (some x) = some (if p x then f x else x)

  -- A test that the update does not touch finds the same row, updated if it is to be.
  pub find-update_where :
      (q p : A → Bool) (f : A → A) (xs : List A)
      → ((x : A) → q (f x) ≡ q x)
      → find q (update_where p f xs) ≡ after_update p f (find q xs)
  find-update_where q p f [] h = refl
  find-update_where q p f (x ∷ xs) h = ground (arith, h x, find-update_where q p f xs h)

  -- An update of other rows than those that the test finds changes nothing that it finds.
  pub find-update_other :
      (q p : A → Bool) (f : A → A) (xs : List A)
      → ((x : A) → q (f x) ≡ q x)
      → ((x : A) → p x ≡ true → q x ≡ false)
      → find q (update_where p f xs) ≡ find q xs
  find-update_other q p f [] h d = refl
  find-update_other q p f (x ∷ xs) h d = ground (arith, h x, d x, find-update_other q p f xs h d)

  pub any-update_where :
      (q p : A → Bool) (f : A → A) (xs : List A)
      → ((x : A) → q (f x) ≡ q x)
      → any q (update_where p f xs) ≡ any q xs
  any-update_where q p f [] h = refl
  any-update_where q p f (x ∷ xs) h = ground (arith, h x, any-update_where q p f xs h)

  pub find-append :
      (q : A → Bool) (xs ys : List A) → any q xs ≡ false → find q (xs ++ ys) ≡ find q ys
  find-append q [] ys h = refl
  find-append q (x ∷ xs) ys h = ground (arith, find-append q xs ys)

  pub find-append_other :
      (q : A → Bool) (xs : List A) (y : A) → q y ≡ false → find q (xs ++ y ∷ []) ≡ find q xs
  find-append_other q [] y h = ground arith
  find-append_other q (x ∷ xs) y h = ground (arith, find-append_other q xs y h)

  pub any-append : (q : A → Bool) (xs ys : List A) → any q (xs ++ ys) ≡ any q xs || any q ys
  any-append q [] ys = refl
  any-append q (x ∷ xs) ys = ground (arith, any-append q xs ys)

  pub find-none : (q : A → Bool) (xs : List A) → any q xs ≡ false → find q xs ≡ none
  find-none q [] h = refl
  find-none q (x ∷ xs) h = ground (arith, find-none q xs)

  pub any-find-none : (q : A → Bool) (xs : List A) → find q xs ≡ none → any q xs ≡ false
  any-find-none q [] h = refl
  any-find-none q (x ∷ xs) h = ground (arith, any-find-none q xs)

  pub find-passes : (q : A → Bool) (xs : List A) (x : A) → find q xs ≡ some x → q x ≡ true
  find-passes q [] x h = ground arith
  find-passes q (y ∷ xs) x h = ground (arith, find-passes q xs x)

  pub find-some : (q : A → Bool) (xs : List A) → any q xs ≡ true → (x : A) × (find q xs ≡ some x)
  find-some q [] h = ground arith
  find-some q (x ∷ xs) h = elim (Bool-cases (q x)) [
    | inl hit ↦ (x, rw hit)
    | inr miss ↦ rw miss (find-some q xs (ground arith))
  ]

  -- The same rows pass before and after, up to the update.
  pub length-where-update :
      (q p : A → Bool) (f : A → A) (xs : List A)
      → ((x : A) → q (if p x then f x else x) ≡ q x)
      → length (where_ q (update_where p f xs)) ≡ length (where_ q xs)
  length-where-update q p f [] h = refl
  length-where-update q p f (x ∷ xs) h = ground (arith, h x, length-where-update q p f xs h)

  pub length-where-pos : (q : A → Bool) (xs : List A) → ltb 0 (length (where_ q xs)) ≡ any q xs
  length-where-pos q [] = ground arith
  length-where-pos q (x ∷ xs) = ground (arith, length-where-pos q xs)

  pub where-none : (q : A → Bool) (xs : List A) → any q xs ≡ false → where_ q xs ≡ []
  where-none q [] h = refl
  where-none q (x ∷ xs) h = ground (arith, where-none q xs)

  pub any-ext : (p q : A → Bool) (xs : List A) → ((x : A) → p x ≡ q x) → any p xs ≡ any q xs
  any-ext p q [] h = refl
  any-ext p q (x ∷ xs) h = ground (arith, h x, any-ext p q xs h)
