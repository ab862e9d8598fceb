-- ===== src/Store/Json/Map.antt =====
-- `marshalJSONMap` and `unmarshalJSONMap` (command.go). A Go map is the list of its entries, in
-- the order in which the iteration meets them.
pub mod Loss
pub mod Total
use team_x.Base.{
  ℕ, zero, suc, ◌+◌, ◌-◌, ◌≡◌, refl, Bool, true, false, not, ◌&&◌, ◌||◌, Option, none, some, List,
  [], ◌∷◌, ◌++◌, if◌then◌else◌, ◌==◌, leb, ltb, Text, codes, text_eq, length, take, drop, head?,
}
use team_x.Utf8.{runes, encode_rune}
use team_x.Store.Json.Scan.{
  quote, backslash, comma, slice, is_byte, unescape_json, unescape_bytes, inner,
}

abbrev pub Entries : Type 0
Entries = List (Text × Text)

-- m[k] = v
unfoldable pub insert : Text → Text → Entries → Entries
insert k v [] = (k, v) ∷ []
insert k v ((j, w) ∷ m) = if text_eq j k then (k, v) ∷ m else (j, w) ∷ insert k v m

unfoldable pub escape_rune : ℕ → Text
escape_rune ch =
    if ch == quote
    then backslash ∷ quote ∷ []
    else if ch == backslash
    then backslash ∷ backslash ∷ []
    else encode_rune ch

unfoldable pub escape_runes : List ℕ → Text
escape_runes [] = []
escape_runes (ch ∷ s) = escape_rune ch ++ escape_runes s

-- One entry: "key":"value".
unfoldable pub member : Text → Text → Text
member k v =
    quote ∷ escape_runes (runes k) ++ quote ∷ b':' ∷ quote ∷ escape_runes (runes v) ++ quote ∷ []

unfoldable pub members_rest : Entries → Text
members_rest [] = b'}' ∷ []
members_rest ((k, v) ∷ m) = comma ∷ member k v ++ members_rest m

unfoldable pub marshal_json_map : Entries → Text
marshal_json_map [] = codes "{}"
marshal_json_map ((k, v) ∷ m) = b'{' ∷ member k v ++ members_rest m

-- The reader returns a map, or panics on a slice out of range. `out_of_fuel` is no result of the
-- program: the fuel of `unmarshal_json_map` is never used up.
pub data Reading : Type 0 where
  done : Entries → Reading
  panicked out_of_fuel : Reading

is_space_or_comma : ℕ → Bool
is_space_or_comma c = c == b' ' || c == 9 || c == 13 || c == 10 || c == comma

-- strings.TrimLeft(s, " \t\r\n,")
unfoldable pub trim_left : Text → Text
unfolding is_space_or_comma
trim_left [] = []
trim_left (c ∷ s) = let rest = trim_left s in if is_space_or_comma c then rest else c ∷ s

-- strings.IndexByte, for the quote
unfoldable pub index_quote : Text → Option ℕ
index_quote [] = none
index_quote (c ∷ s) =
    let later : Option ℕ = elim (index_quote s) [ none ↦ none | some k ↦ some (suc k) ] in
    if c == quote then some 0 else later

-- At a text whose first byte is a quote: what stands before the next quote, unescaped, and what
-- follows that quote. `none` is the panic of `s[1:0]`, where there is no next quote.
unfoldable pub read_quoted : Text → Option (Text × Text)
read_quoted s = elim (index_quote (drop 1 s)) [
  | none ↦ none
  | some k ↦ some (unescape_json (take k (drop 1 s)), drop (k + 2) s)
]

abbrev pub starts_quote : Text → Bool
starts_quote s = is_byte quote (head? s)

-- The value and the rest of the loop, after a key.
unfoldable pub read_value : (Text → Entries → Reading) → Text → Text → Entries → Reading
read_value again key s m =
    let value : Reading = elim (read_quoted s) [
      | none ↦ panicked
      | some (val, rest) ↦ again rest (insert key val m)
    ] in
    if starts_quote s then value else done m

-- The loop of `unmarshalJSONMap`.
unfoldable pub unmarshal_from : ℕ → Text → Entries → Reading
unmarshal_from zero s m = out_of_fuel
unmarshal_from (suc fuel) [] m = done m
unmarshal_from (suc fuel) (c ∷ s) m =
    let t = trim_left (c ∷ s) in
    let entry : Reading = elim (read_quoted t) [
      | none ↦ panicked
      | some (key, rest) ↦ read_value (unmarshal_from fuel) key rest m
    ] in
    if ltb (length t) 4 || not (starts_quote t) then done m else entry

unfoldable pub unmarshal_json_map : Text → Reading
unmarshal_json_map s =
    if text_eq s (codes "{}") || text_eq s [] then done [] else elim (slice s 1 (length s - 1)) [
      | none ↦ panicked
      | some inside ↦ unmarshal_from (suc (length inside)) inside []
    ]

-- A colon between key and value is what the reader does not expect.
read_without_colon : unmarshal_json_map (codes "{\"a\"\"b\"}") ≡ done ((codes "a", codes "b") ∷ [])
unfolding unmarshal_json_map unmarshal_from read_value read_quoted trim_left index_quote slice
    insert unescape_json unescape_bytes text_eq
read_without_colon = refl
