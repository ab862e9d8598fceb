-- ===== src/Store/Json/Array.antt =====
-- `marshalJSONArray` (store.go), `splitJSON` and `parseJSONStringArray` (hardware.go).
pub mod RoundTrip
pub mod Loss
use team_x.Base.{
  ℕ, suc, ◌+◌, ◌-◌, ◌%◌, ◌≡◌, refl, Bool, true, false, not, ◌&&◌, ◌||◌, Option, none, some, List,
  [], ◌∷◌, ◌++◌, map, if◌then◌else◌, ◌==◌, leb, Text, codes, text_eq, length,
}
use team_x.Utf8.{runes}
use team_x.Store.Json.Scan.{
  quote, backslash, comma, slice, is_byte, inner, unescape_bytes, unescape_json,
}

-- What the inner loop appends for one rune; `byte(ch)` keeps the low eight bits.
unfoldable pub escape_byte : ℕ → Text
escape_byte ch =
    if ch == quote
    then backslash ∷ quote ∷ []
    else if ch == backslash
    then backslash ∷ backslash ∷ []
    else ch % 256 ∷ []

unfoldable pub escape_bytes : List ℕ → Text
escape_bytes [] = []
escape_bytes (ch ∷ s) = escape_byte ch ++ escape_bytes s

unfoldable pub quoted : Text → Text
quoted s = quote ∷ escape_bytes (runes s) ++ quote ∷ []

-- The items after the first, each behind a comma.
unfoldable pub marshal_rest : List Text → Text
marshal_rest [] = b']' ∷ []
marshal_rest (s ∷ items) = comma ∷ quoted s ++ marshal_rest items

unfoldable pub marshal_json_array : List Text → Text
marshal_json_array [] = codes "[]"
marshal_json_array (s ∷ items) = b'[' ∷ quoted s ++ marshal_rest items

-- A quote counts unless the byte before it is a backslash.
abbrev pub toggles : Option ℕ → ℕ → Bool
toggles before c = c == quote && not (is_byte backslash before)

-- The loop of `splitJSON` over the bytes left: the byte before them, `inStr`, and `s[start:i]`.
unfoldable pub split_from : Option ℕ → Bool → Text → Text → List Text
split_from before in_str seg [] = []
split_from before in_str seg (c ∷ s) =
    let closed = (seg ++ c ∷ []) ∷ split_from (some c) false (seg ++ c ∷ []) s in
    let opened = split_from (some c) true (c ∷ []) s in
    let kept = split_from (some c) in_str (seg ++ c ∷ []) s in
    if toggles before c then (if in_str then closed else opened) else kept

unfoldable pub split_json : Text → List Text
split_json s = split_from none false [] s

unfoldable pub parse_inner : Text → List Text
parse_inner [] = []
parse_inner (c ∷ s) = map unescape_json (split_json (c ∷ s))

-- `none` is the panic of `s[1 : len(s)-1]` on a text of one byte; Go's `nil` is the empty list.
unfoldable pub parse_json_string_array : Text → Option (List Text)
parse_json_string_array s =
    if text_eq s [] || text_eq s (codes "[]")
    then some []
    else if leb 1 (length s)
    then elim (slice s 1 (length s - 1)) [ none ↦ none | some inside ↦ some (parse_inner inside) ]
    else none

two_items : marshal_json_array (codes "a\"b" ∷ codes "" ∷ []) ≡ codes "[\"a\\\"b\",\"\"]"
unfolding marshal_json_array marshal_rest quoted escape_bytes escape_byte runes
two_items = refl

read_two : parse_json_string_array (codes "[\"a\\\"b\",\"\"]") ≡ some (codes "a\"b" ∷ codes "" ∷ [])
unfolding parse_json_string_array parse_inner slice split_json split_from unescape_json
    unescape_bytes inner text_eq
read_two = refl
