-- ===== src/Store/Engine.antt =====
-- What the queries rely on in SQLite's `ORDER BY … DESC`: the rows come in another order, the
-- largest key first in the byte order of texts. Which of two rows with one key comes first is not
-- fixed.
pub mod Latest
use mathlib.Core.List.{Perm}
use team_x.Base.{◌≡◌, true, List, [], ◌∷◌, Text, text_le, All}

abbrev pub IsSortedDesc : {A : Type 0} → (A → Text) → List A → Type 0
IsSortedDesc key [] = Unit
IsSortedDesc key (x ∷ xs) = All (λ y. text_le (key y) (key x) ≡ true) xs × IsSortedDesc key xs

pub record Engine : Type 1 where
  pub order_desc : (A : Type 0) → (A → Text) → List A → List A
  pub order_desc-perm : (A : Type 0) (key : A → Text) (xs : List A) → Perm (order_desc A key xs) xs
  pub order_desc-IsSortedDesc :
      (A : Type 0) (key : A → Text) (xs : List A) → IsSortedDesc key (order_desc A key xs)
