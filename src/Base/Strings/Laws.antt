-- ===== src/Base/Strings/Laws.antt =====
-- Laws of the functions on texts: what is joined is taken apart again, and decimal numbers.
use Prim.Native.Nat.{ℕ, zero, suc, ◌+◌, ◌-◌, ◌*◌, ◌/◌, ◌%◌, ◌^◌, ◌<◌}
use mathlib.Core.Path.{◌≡◌, refl, ap, ◌∙◌}
use mathlib.Core.Logic.{inl, inr}
use mathlib.Core.Bool.{true, false}
use mathlib.Core.Option.{some}
use mathlib.Core.List.{[], ◌∷◌, ◌++◌, append_assoc}
use native.Mathlib.Omega.{arith}
use team_x.Base.Tests.{◌==◌, Bool-cases}
use team_x.Base.Texts.{codes, text_eq, Text, text_eq_refl}
use team_x.Base.Lists.{
  drop, length, any, All, length-append, take-length-append, drop-length-append,
}
use team_x.Base.Strings.{
  is_space, trim_start, trim_end, trim_space, trim_suffix, split, cut, is_digit, number_from,
  parse_uint, digits,
}

-- The byte does not occur.
abbrev pub Lacks : ℕ → Text → Type 0
Lacks b s = any (λ c. c == b) s ≡ false

pub split-append :
    (s rest : Text) (sep : ℕ) → Lacks sep s → split (s ++ sep ∷ rest) sep ≡ s ∷ split rest sep
unfolding split
split-append [] rest sep h = ground arith
split-append (c ∷ s) rest sep h = ground (arith, split-append s rest sep)

pub cut-append :
    (s rest : Text) (sep : ℕ) → Lacks sep s → cut (s ++ sep ∷ rest) sep ≡ some (s, rest)
unfolding cut
cut-append [] rest sep h = ground arith
cut-append (c ∷ s) rest sep h = ground (arith, cut-append s rest sep)

unfoldable pub spaces : ℕ → Text
spaces zero = []
spaces (suc n) = b' ' ∷ spaces n

trim_start-spaces : (n : ℕ) (s : Text) → trim_start (spaces n ++ s) ≡ trim_start s
unfolding trim_start spaces
trim_start-spaces zero s = refl
trim_start-spaces (suc n) s = trim_start-spaces n s

trim_end-concat : (s : Text) (c : ℕ) → is_space c ≡ false → trim_end (s ++ c ∷ []) ≡ s ++ c ∷ []
unfolding trim_end text_eq
trim_end-concat [] c h = ground arith
trim_end-concat (d ∷ []) c h = ground (arith, trim_end-concat [] c h)
trim_end-concat (d ∷ (e ∷ s)) c h = ground (arith, trim_end-concat (e ∷ s) c h)

-- The spaces in front of a text that begins and ends with none are trimmed.
pub trim_space-spaces :
    (n b : ℕ) (s : Text) (c : ℕ)
    → is_space b ≡ false
    → is_space c ≡ false
    → trim_space (spaces n ++ b ∷ (s ++ c ∷ [])) ≡ b ∷ (s ++ c ∷ [])
unfolding trim_space trim_start
trim_space-spaces n b s c h k =
    ap trim_end (trim_start-spaces n (b ∷ (s ++ c ∷ []))) ∙ rw h (trim_end-concat (b ∷ s) c k)

pub trim_suffix-append : (s p : Text) → trim_suffix (s ++ p) p ≡ s
unfolding trim_suffix
trim_suffix-append s p =
    let cut_at : length (s ++ p) - length p ≡ length s = omega (arith, length-append s p) in
    rw cut_at (
      rw (drop-length-append s p)
        (rw (take-length-append s p) (ground (arith, text_eq_refl p, length-append s p))))

-- ---- decimal numbers

digit_value :
    (n : ℕ) (out : Text) → number_from 0 ((b'0' + n % 10) ∷ out) ≡ number_from (n % 10) out
unfolding number_from
digit_value n out = ground arith

digit_step : (n : ℕ) (out : Text) → number_from (n / 10) ((b'0' + n % 10) ∷ out) ≡ number_from n out
unfolding number_from
digit_step n out =
    let whole : n / 10 * 10 + (b'0' + n % 10 - b'0') ≡ n = omega arith in
    let digit : is_digit (b'0' + n % 10) ≡ true = ground arith in
    rw digit (ap (λ k. number_from k out) whole)

lt_tenth : (fuel n : ℕ) → n < 10 ^ suc fuel → n / 10 < 10 ^ fuel
lt_tenth fuel n h = let step : 10 ^ suc fuel ≡ 10 * 10 ^ fuel = omega arith in omega (arith, step)

last_digit : (n : ℕ) → (n / 10 == 0) ≡ true → n % 10 ≡ n
last_digit n h = ground arith

number_from-digits :
    (fuel n : ℕ) (out : Text)
    → n < 10 ^ fuel
    → number_from 0 (digits fuel n out) ≡ number_from n out
unfolding digits
number_from-digits zero n out h =
    let none_left : 0 ≡ n = omega arith in ap (λ k. number_from k out) none_left
number_from-digits (suc fuel) n out h = elim (Bool-cases (n / 10 == 0)) [
  | inl small ↦ rw small (digit_value n out ∙ ap (λ k. number_from k out) (last_digit n small))
  | inr more ↦ rw more (
      number_from-digits fuel (n / 10) ((b'0' + n % 10) ∷ out) (lt_tenth fuel n h)
      ∙ digit_step n out)
]

-- Digits stand in front of what was there.
digits-cons :
    (fuel n : ℕ) (out : Text)
    → All (λ c. is_digit c ≡ true) out
    → (c : ℕ) × (s : Text) × (digits (suc fuel) n out ≡ c ∷ s)
      × All (λ d. is_digit d ≡ true) (c ∷ s)
unfolding digits
digits-cons zero n out h = (b'0' + n % 10, out, ground arith, (ground arith, h))
digits-cons (suc fuel) n out h = elim (Bool-cases (n / 10 == 0)) [
  | inl small ↦ (b'0' + n % 10, out, rw small refl, (ground arith, h))
  | inr more ↦
      let (c, s, e, d) = digits-cons fuel (n / 10) ((b'0' + n % 10) ∷ out) (ground arith, h) in
      (c, s, rw more e, d)
]

-- `strconv.ParseUint` reads what `%d` writes of a uint64.
pub parse_uint-digits : (n : ℕ) → n < 2 ^ 64 → parse_uint (digits 20 n []) ≡ some n
unfolding parse_uint number_from
parse_uint-digits n h =
    let (c, s, e, d) = digits-cons 19 n [] tt in
    let value : number_from 0 (c ∷ s) ≡ some n =
      rw e at (number_from-digits 20 n [] (omega arith)) in
    rw e (rw value (ground arith))

is_space_digit : (c : ℕ) → is_digit c ≡ true → is_space c ≡ false
is_space_digit c h = ground arith

-- A number with spaces in front and a suffix behind is found by trimming.
pub trim_padded :
    (pad n : ℕ) (unit : Text) (last : ℕ)
    → is_space last ≡ false
    → trim_suffix
        (trim_space (spaces pad ++ (digits 20 n [] ++ (unit ++ last ∷ []))))
        (unit ++ last ∷ [])
      ≡ digits 20 n []
trim_padded pad n unit last h =
    let (c, s, e, d) = digits-cons 19 n [] tt in
    let grouped : s ++ (unit ++ last ∷ []) ≡ (s ++ unit) ++ last ∷ [] = rw append_assoc refl in
    rw e (
      rw grouped (
        rw (trim_space-spaces pad c (s ++ unit) last (is_space_digit c d.0) h)
          (rw (← grouped) (trim_suffix-append (c ∷ s) (unit ++ last ∷ [])))))

-- ---- a number with nothing behind it

abbrev AllDigits : Text → Type 0
AllDigits s = All (λ c. is_digit c ≡ true) s

trim_end-digits : (s : Text) → AllDigits s → trim_end s ≡ s
unfolding trim_end
trim_end-digits [] h = refl
trim_end-digits (c ∷ s) h = rw (is_space_digit c h.0) (ap (λ t. c ∷ t) (trim_end-digits s h.1))

digits_have_no_unit : (n : ℕ) (s : Text) → AllDigits s → text_eq (drop n s) (codes " kB") ≡ false
unfolding text_eq
digits_have_no_unit zero [] h = refl
digits_have_no_unit zero (c ∷ s) h = ground arith
digits_have_no_unit (suc n) [] h = refl
digits_have_no_unit (suc n) (c ∷ s) h = digits_have_no_unit n s h.1

trim_suffix-digits : (s : Text) → AllDigits s → trim_suffix s (codes " kB") ≡ s
unfolding trim_suffix
trim_suffix-digits s h = ground (arith, digits_have_no_unit (length s - 3) s h)

-- A number with spaces in front and nothing behind is found by trimming.
pub trim_bare :
    (pad n : ℕ)
    → trim_suffix (trim_space (spaces pad ++ digits 20 n [])) (codes " kB") ≡ digits 20 n []
unfolding trim_space trim_start
trim_bare pad n =
    let (c, s, e, d) = digits-cons 19 n [] tt in
    let trimmed : trim_space (spaces pad ++ c ∷ s) ≡ c ∷ s =
      ap trim_end (trim_start-spaces pad (c ∷ s))
      ∙ rw (is_space_digit c d.0) (trim_end-digits (c ∷ s) d) in
    rw e (ap (λ t. trim_suffix t (codes " kB")) trimmed ∙ trim_suffix-digits (c ∷ s) d)
