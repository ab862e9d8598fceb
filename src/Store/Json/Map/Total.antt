-- ===== src/Store/Json/Map/Total.antt =====
-- The loop of `unmarshalJSONMap` ends.
use team_x.Base.{
  ℕ, zero, suc, ◌+◌, ◌-◌, ◌<◌, ◌≤◌, ◌≡◌, ◌≢◌, some, [], ◌∷◌, arith, Text, length, length-drop, drop,
  inl, inr, Option-cases, Bool-cases, ltb,
}
use team_x.Store.Json.Scan.{slice}
use team_x.Store.Json.Map.{
  Entries, Reading, out_of_fuel, index_quote, insert, trim_left, read_quoted, read_value,
  unmarshal_from, unmarshal_json_map,
}

length-trim_left-le : (s : Text) → length (trim_left s) ≤ length s
unfolding trim_left
length-trim_left-le [] = omega arith
length-trim_left-le (c ∷ s) = ground (arith, length-trim_left-le s)

-- What is left after a quoted text is shorter than what was read.
length-read_quoted-lt :
    (s key rest : Text) → read_quoted s ≡ some (key, rest) → 1 ≤ length s → length rest < length s
unfolding read_quoted
length-read_quoted-lt s key rest e h = elim (Option-cases (index_quote (drop 1 s))) [
  | inl missing ↦ ground arith
  | inr (k, found) ↦ ground (arith, length-drop (k + 2) s)
]

-- Where the rest of the loop ends at shorter texts, so does the reading of a value.
read_value-ends :
    (again : Text → Entries → Reading) (key s : Text) (m : Entries)
    → ((r : Text) (n : Entries) → length r < length s → again r n ≢ out_of_fuel)
    → read_value again key s m ≢ out_of_fuel
unfolding read_value
read_value-ends again key [] m h = ground arith
read_value-ends again key (c ∷ s) m h = elim (Option-cases (read_quoted (c ∷ s))) [
  | inl missing ↦ ground arith
  | inr (r, found) ↦
      ground (
        arith,
        h r.1 (insert key r.0 m) (length-read_quoted-lt (c ∷ s) r.0 r.1 found (omega arith)),
      )
]

unmarshal_from-ends :
    (fuel : ℕ) (s : Text) (m : Entries) → length s < fuel → unmarshal_from fuel s m ≢ out_of_fuel
unfolding unmarshal_from
unmarshal_from-ends zero s m h = absurd (omega arith)
unmarshal_from-ends (suc fuel) [] m h = ground arith
unmarshal_from-ends (suc fuel) (c ∷ s) m h = elim (Option-cases (read_quoted (trim_left (c ∷ s)))) [
  | inl missing ↦ ground arith
  | inr (r, found) ↦ elim (Bool-cases (ltb (length (trim_left (c ∷ s))) 4)) [
    | inl short ↦ rw short (ground arith)
    | inr long ↦
        let rest : length r.1 < length (trim_left (c ∷ s)) =
          length-read_quoted-lt (trim_left (c ∷ s)) r.0 r.1 found (ground arith) in
        let step =
          read_value-ends (unmarshal_from fuel) r.0 r.1 m
            (λ q n l. unmarshal_from-ends fuel q n (omega (arith, length-trim_left-le (c ∷ s)))) in
        rw (long, found) (ground (arith, step))
  ]
]

-- Every text is read in full: the reader returns a map or panics, and its loop always ends.
pub unmarshal_json_map-ends : (s : Text) → unmarshal_json_map s ≢ out_of_fuel
unfolding unmarshal_json_map
unmarshal_json_map-ends s = elim (Option-cases (slice s 1 (length s - 1))) [
  | inl missing ↦ ground arith
  | inr (inside, found) ↦
      ground (arith, unmarshal_from-ends (suc (length inside)) inside [] (omega arith))
]
