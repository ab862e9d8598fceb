-- ===== src/Admin/Format/Scale.antt =====
-- formatBytes finds its unit for every uint64.
use team_x.Base.{
  ℕ, zero, suc, ◌+◌, ◌*◌, ◌/◌, ◌%◌, ◌^◌, ◌<◌, ◌≤◌, ◌≡◌, refl, true, false, some, [], ◌∷◌, ◌++◌,
  Text, ltb, leb, arith, Bool-cases, inl, inr,
}
use team_x.Admin.Format.{scale_loop, scale, unit_letter, format_bytes}

-- The unit divides the number into a value from 1 to below 1024.
pub record Scaled (b div exp : ℕ) : Type 0 where
  pub power : div ≡ 1024 ^ suc exp
  pub at_least_one : div ≤ b
  pub below_next : b < 1024 * div
  pub small : exp < 6

-- One round: the loop ends here, or goes on with the next unit.
round_cases :
    (P : ℕ × ℕ → Type 0) (fuel n div exp : ℕ)
    → (leb 1024 n ≡ false → P (div, exp))
    → (leb 1024 n ≡ true → P (scale_loop fuel (n / 1024) (div * 1024 % 2 ^ 64) (exp + 1)))
    → P (scale_loop (suc fuel) n div exp)
unfolding scale_loop
round_cases P fuel n div exp stop more = elim (Bool-cases (leb 1024 n)) [
  | inl h ↦ rw h (more h)
  | inr h ↦ rw h (stop h)
]

module _ (b : ℕ) (at_least : 1024 ≤ b) (in_range : b < 2 ^ 64) where
  abbrev Good : ℕ × ℕ → Type 0
  Good p = Scaled b p.0 p.1

  scale-Scaled : Good (scale b)
  unfolding scale
  scale-Scaled =
      round_cases Good 63 (b / 1024) (1024 ^ 1) 0
        (λ h. record {
          power = refl;
          at_least_one = ground arith;
          below_next = ground arith;
          small = omega arith;
        })
        λ h0.
          round_cases Good 62 (b / 1024 / 1024) (1024 ^ 2) 1
            (λ h. record {
              power = refl;
              at_least_one = ground arith;
              below_next = ground arith;
              small = omega arith;
            })
            λ h1.
              round_cases Good 61 (b / 1024 / 1024 / 1024) (1024 ^ 3) 2
                (λ h. record {
                  power = refl;
                  at_least_one = ground arith;
                  below_next = ground arith;
                  small = omega arith;
                })
                λ h2.
                  round_cases Good 60 (b / 1024 / 1024 / 1024 / 1024) (1024 ^ 4) 3
                    (λ h. record {
                      power = refl;
                      at_least_one = ground arith;
                      below_next = ground arith;
                      small = omega arith;
                    })
                    λ h3.
                      round_cases Good 59 (b / 1024 / 1024 / 1024 / 1024 / 1024) (1024 ^ 5) 4
                        (λ h. record {
                          power = refl;
                          at_least_one = ground arith;
                          below_next = ground arith;
                          small = omega arith;
                        })
                        λ h4.
                          round_cases Good 58 (b / 1024 / 1024 / 1024 / 1024 / 1024 / 1024)
                            (1024 ^ 6) 5
                            (λ h. record {
                              power = refl;
                              at_least_one = ground arith;
                              below_next = ground arith;
                              small = omega arith;
                            })
                            λ h5. absurd (ground arith)

-- The letters are enough.
letter_for : (exp : ℕ) → exp < 6 → (letter : ℕ) × (unit_letter exp ≡ some letter)
unfolding unit_letter
letter_for zero h = (b'K', refl)
letter_for (suc zero) h = (b'M', refl)
letter_for (suc (suc zero)) h = (b'G', refl)
letter_for (suc (suc (suc zero))) h = (b'T', refl)
letter_for (suc (suc (suc (suc zero)))) h = (b'P', refl)
letter_for (suc (suc (suc (suc (suc zero))))) h = (b'E', refl)
letter_for (suc (suc (suc (suc (suc (suc e)))))) h = absurd (omega arith)

-- For every uint64 of 1024 or more formatBytes ends, does not overflow its divisor and does not index
-- "KMGTPE" out of range: the divisor is 1024 to the power of one more than the index, the number is at
-- least the divisor and below 1024 times the divisor, and the text is the quotient with the letter.
pub format_bytes_lem :
    (one_digit : ℕ → ℕ → Text) (b : ℕ)
    → 1024 ≤ b
    → b < 2 ^ 64
    → (div : ℕ) × (exp : ℕ) × (letter : ℕ) × Scaled b div exp
      × (unit_letter exp ≡ some letter)
      × (format_bytes one_digit b ≡ some (one_digit b div ++ b' ' ∷ letter ∷ b'B' ∷ []))
unfolding format_bytes
format_bytes_lem one_digit b at_least in_range =
    let good = scale-Scaled b at_least in_range in
    let (letter, found) = letter_for (scale b).1 good.small in
    let large : ltb b 1024 ≡ false = ground arith in
    ((scale b).0, (scale b).1, letter, good, found, rw large (rw found refl))
