-- ===== src/Admin/Format.antt =====
-- cmd/admin/output.go: how the command line shows values. `%.1f` of a quotient of two uint64 is
-- the argument `one_digit` of what formats sizes.
pub mod Scale
use team_x.Base.{
  ℕ, zero, suc, ◌+◌, ◌-◌, ◌*◌, ◌/◌, ◌%◌, ◌^◌, Bool, true, false, Option, none, some, List, [], ◌∷◌,
  ◌++◌, Text, codes, digits, if◌then◌else◌, ltb, leb, length, take,
}

-- A length below 3 with a longer text would be a panic; the callers pass 16, 25 and 36.
unfoldable pub truncate : Text → ℕ → Text
truncate s max_len = if leb (length s) max_len then s else take (max_len - 3) s ++ codes "..."

unfoldable pub na : Text → Text
na [] = codes "-"
na (c ∷ s) = c ∷ s

-- The loop of formatBytes: `div` and `exp` when it ends. A uint64 needs no more than 64 rounds.
unfoldable pub scale_loop : ℕ → ℕ → ℕ → ℕ → ℕ × ℕ
scale_loop zero n div exp = (div, exp)
scale_loop (suc fuel) n div exp =
    let rest = scale_loop fuel (n / 1024) (div * 1024 % 2 ^ 64) (exp + 1) in
    if leb 1024 n then rest else (div, exp)

unfoldable pub scale : ℕ → ℕ × ℕ
scale b = scale_loop 64 (b / 1024) 1024 0

abbrev letter_at : ℕ → Text → Option ℕ
letter_at i [] = none
letter_at zero (c ∷ s) = some c
letter_at (suc i) (c ∷ s) = letter_at i s

-- The byte of "KMGTPE" at an index; `none` is a panic.
unfoldable pub unit_letter : ℕ → Option ℕ
unit_letter exp = letter_at exp (codes "KMGTPE")

unfoldable pub format_bytes : (ℕ → ℕ → Text) → ℕ → Option Text
format_bytes one_digit b =
    if ltb b 1024 then some (digits 20 b [] ++ codes " B") else elim (unit_letter (scale b).1) [
      | none ↦ none
      | some letter ↦ some (one_digit b (scale b).0 ++ b' ' ∷ letter ∷ b'B' ∷ [])
    ]
