-- ===== src/Store/Json/Array/Loss.antt =====
-- Where the reader of JSON arrays fails: a text that ends with a backslash.
use team_x.Base.{
  ℕ, ◌≡◌, refl, sym, ap, ◌∙◌, true, false, Option, none, some, [], ◌∷◌, ◌++◌, append-nil, Text,
}
use team_x.Utf8.{IsAscii, runes-IsAscii}
use team_x.Store.Json.Scan.{quote, backslash, is_byte, last_byte}
use team_x.Store.Json.Array.{
  escape_bytes, quoted, marshal_rest, marshal_json_array, split_from, split_json,
  parse_json_string_array,
}
use team_x.Store.Json.Array.RoundTrip.{split_from-escape_bytes, parse_bracketed, parse_inner-quoted}

last_byte-backslash :
    (p : Option ℕ) (s : Text)
    → is_byte backslash (last_byte none s) ≡ true
    → is_byte backslash (last_byte p s) ≡ true
last_byte-backslash none [] h = h
last_byte-backslash (some c) [] h = cc
last_byte-backslash p (c ∷ s) h = h

split_json-unclosed :
    (s : Text)
    → IsAscii s
    → is_byte backslash (last_byte none s) ≡ true
    → split_json (quoted s) ≡ []
unfolding split_json quoted
split_json-unclosed s a h = rw (runes-IsAscii s a) (
    opens
    ∙ split_from-escape_bytes (some quote) (quote ∷ []) s (quote ∷ []) a
    ∙ stays (last_byte-backslash (some quote) s h))
  where
    opens :
        split_from none false [] (quote ∷ escape_bytes s ++ quote ∷ [])
        ≡ split_from (some quote) true (quote ∷ []) (escape_bytes s ++ quote ∷ [])
    opens = unfold split_from in refl

    stays :
        is_byte backslash (last_byte (some quote) s) ≡ true
        → split_from (last_byte (some quote) s) true (quote ∷ escape_bytes s) (quote ∷ []) ≡ []
    stays e = unfold split_from in rw e

-- An ASCII text that ends with a backslash, alone in its list, is lost: the list is read back empty.
pub parse-marshal_lost :
    (s : Text)
    → IsAscii s
    → is_byte backslash (last_byte none s) ≡ true
    → parse_json_string_array (marshal_json_array (s ∷ [])) ≡ some []
unfolding marshal_json_array marshal_rest
parse-marshal_lost s a h =
    ap (λ t. parse_json_string_array (b'[' ∷ t ++ b']' ∷ [])) (sym (append-nil (quoted s)))
    ∙ parse_bracketed s []
    ∙ ap some (parse_inner-quoted s [] ∙ rw (append-nil, split_json-unclosed s a h))
