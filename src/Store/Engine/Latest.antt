-- ===== src/Store/Engine/Latest.antt =====
-- The first row of `ORDER BY … DESC`, where one row has a larger key than all the others.

use mathlib.Core.List.{
  Perm, Mem, mem-cons, mem-append, mem-append_right, mem-cons_self, not-mem-nil, mem-singleton,
}
use mathlib.Core.List.Perm
use mathlib.Core.Logic.Or
use team_x.Base.{
  ◌≡◌, ap, ◌∙◌, subst, Bool, true, false, some, List, [], ◌∷◌, ◌++◌, Text, text_le, text_le_refl,
  head?, All,
}
use team_x.Store.Sql.{ReportRow, TerminalRow}
use team_x.Store.Engine.{Engine, IsSortedDesc}

pub ReportRow-set : IsSet ReportRow
ReportRow-set = hlevel

pub TerminalRow-set : IsSet TerminalRow
TerminalRow-set = hlevel

module _ {A : Type 0} (is_set : IsSet A) (key : A → Text) where
  at_member :
      (f : A → Bool) (b : Bool) (a : A) (xs : List A) → All (λ x. f x ≡ b) xs → Mem a xs → f a ≡ b
  at_member f b a [] h m = absurd (not-mem-nil m)
  at_member f b a (x ∷ xs) h m =
      Or.elim (hlevel) (mem-cons.0 m) (λ e. ap f e ∙ h.0) (at_member f b a xs h.1)

  module _ (r : A) (rows : List A) (older : All (λ y. text_le (key r) (key y) ≡ false) rows) where
    head_is_new : (x : A) (xs : List A) → Mem r (x ∷ xs) → IsSortedDesc key (x ∷ xs) → ¬ Mem x rows
    head_is_new x xs m s old =
        let before = at_member (λ y. text_le (key r) (key y)) false x rows older old in
        Or.elim (hlevel) (mem-cons.0 m)
          (λ e. cc (subst (λ y. text_le (key r) (key y) ≡ true) e (text_le_refl (key r))))
          (λ later. cc (at_member (λ y. text_le (key y) (key x)) true r xs s.0 later))

    head?-top : (l : List A) → Perm l (rows ++ r ∷ []) → IsSortedDesc key l → head? l ≡ some r
    head?-top [] p s =
        absurd (not-mem-nil ((Perm.mem_iff p).1 (mem-append_right rows (mem-cons_self))))
    head?-top (x ∷ xs) p s =
        let mine = (Perm.mem_iff p).1 (mem-append_right rows (mem-cons_self)) in
        ap some (
          Or.elim (is_set x r) (mem-append.0 ((Perm.mem_iff p).0 (mem-cons_self)))
            (λ old. absurd (head_is_new x xs mine s old)) (λ last. (mem-singleton is_set).0 last))

    -- A query for the latest row finds it, wherever the engine puts the others.
    pub head?-order_desc :
        (engine : Engine) → head? (engine.order_desc A key (rows ++ r ∷ [])) ≡ some r
    head?-order_desc engine =
        head?-top (engine.order_desc A key (rows ++ r ∷ []))
          (engine.order_desc-perm A key (rows ++ r ∷ []))
          (engine.order_desc-IsSortedDesc A key (rows ++ r ∷ []))
