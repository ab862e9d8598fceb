-- ===== src/Store/Json/Array/RoundTrip.antt =====
-- What `marshalJSONArray` writes, `parseJSONStringArray` reads back.
use team_x.Base.{
  ℕ, ◌-◌, ◌<◌, ◌≡◌, refl, ap, ◌∙◌, true, false, Option, none, some, List, [], ◌∷◌, ◌++◌, map,
  append-nil, append_assoc, arith, Text, codes, text_eq, length, All, length-append,
  take-length-append,
}
use team_x.Utf8.{IsAscii, runes-IsAscii}
use team_x.Store.Json.Scan.{
  quote, backslash, comma, is_byte, last_byte, unescape_bytes, unescape_json, inner, slice_inside,
}
use team_x.Store.Json.Array.{
  escape_byte, escape_bytes, quoted, marshal_rest, marshal_json_array, split_from, split_json,
  parse_inner, parse_json_string_array,
}

-- The text does not end with a backslash.
abbrev pub EndsPlain : Option ℕ → Text → Type 0
EndsPlain p s = is_byte backslash (last_byte p s) ≡ false

abbrev pub IsPlain : Text → Type 0
IsPlain s = IsAscii s × EndsPlain none s

-- Inside a string, an escaped byte is passed over.
split_from-escape_byte :
    (p : Option ℕ) (seg : Text) (c : ℕ) (t : Text)
    → c < 128
    → split_from p true seg (escape_byte c ++ t) ≡ split_from (some c) true (seg ++ escape_byte c) t
unfolding split_from escape_byte
split_from-escape_byte p seg c t h = ground (arith, append_assoc seg (backslash ∷ []) (c ∷ []))

pub split_from-escape_bytes :
    (p : Option ℕ) (seg s t : Text)
    → IsAscii s
    → split_from p true seg (escape_bytes s ++ t)
      ≡ split_from (last_byte p s) true (seg ++ escape_bytes s) t
unfolding escape_bytes
split_from-escape_bytes p seg [] t h = rw append-nil
split_from-escape_bytes p seg (c ∷ s) t h = rw append_assoc (
    split_from-escape_byte p seg c (escape_bytes s ++ t) h.0
    ∙ split_from-escape_bytes (some c) (seg ++ escape_byte c) s t h.1
    ∙ rw append_assoc)

unescape_bytes-escape_byte :
    (c : ℕ) (t : Text) → c < 128 → unescape_bytes (escape_byte c ++ t) ≡ c ∷ unescape_bytes t
unfolding unescape_bytes escape_byte
unescape_bytes-escape_byte c [] h = ground arith
unescape_bytes-escape_byte c (d ∷ t) h = ground arith

unescape_bytes-escape_bytes : (s : Text) → IsAscii s → unescape_bytes (escape_bytes s) ≡ s
unfolding escape_bytes
unescape_bytes-escape_bytes [] h = unfold unescape_bytes in refl
unescape_bytes-escape_bytes (c ∷ s) h =
    unescape_bytes-escape_byte c (escape_bytes s) h.0
    ∙ ap (λ t. c ∷ t) (unescape_bytes-escape_bytes s h.1)

last_byte-append : (p : Option ℕ) (s : Text) (c : ℕ) → last_byte p (s ++ c ∷ []) ≡ some c
last_byte-append p [] c = refl
last_byte-append p (d ∷ s) c = last_byte-append (some d) s c

inner_lem : (c d : ℕ) (s : Text) → inner (c ∷ s ++ d ∷ []) ≡ s
unfolding inner
inner_lem c d s =
    let e : length (c ∷ s ++ d ∷ []) - 2 ≡ length s = omega (arith, length-append s (d ∷ [])) in
    rw e (take-length-append s (d ∷ []))

unescape_json_quotes : (t : Text) → unescape_json (quote ∷ t ++ quote ∷ []) ≡ unescape_bytes t
unfolding unescape_json
unescape_json_quotes t =
    rw (inner_lem quote quote t, last_byte-append (some quote) t quote)
      (ground (arith, length-append t (quote ∷ [])))

unescape_json-quoted : (s : Text) → IsAscii s → unescape_json (quoted s) ≡ s
unfolding quoted
unescape_json-quoted s h =
    rw (runes-IsAscii s h) (unescape_json_quotes (escape_bytes s) ∙ unescape_bytes-escape_bytes s h)

-- `marshal_rest` without its closing bracket.
body_rest : List Text → Text
body_rest [] = []
body_rest (s ∷ items) = comma ∷ quoted s ++ body_rest items

marshal_rest-body_rest : (items : List Text) → marshal_rest items ≡ body_rest items ++ b']' ∷ []
unfolding marshal_rest body_rest
marshal_rest-body_rest [] = refl
marshal_rest-body_rest (s ∷ items) = simp (marshal_rest-body_rest items, append_assoc)

last_byte-EndsPlain :
    (p : Option ℕ) (s : Text) → is_byte backslash p ≡ false → EndsPlain none s → EndsPlain p s
last_byte-EndsPlain p [] h e = h
last_byte-EndsPlain p (c ∷ s) h e = e

-- A quoted plain text is one part, whatever follows.
split_from-quoted :
    (p : Option ℕ) (seg s t : Text)
    → IsPlain s
    → is_byte backslash p ≡ false
    → split_from p false seg (quoted s ++ t) ≡ quoted s ∷ split_from (some quote) false (quoted s) t
unfolding quoted
split_from-quoted p seg s t h k =
    rw (runes-IsAscii s h.0, append_assoc)
      (opens
        ∙ split_from-escape_bytes (some quote) (quote ∷ []) s (quote ∷ t) h.0
        ∙ closes (last_byte-EndsPlain (some quote) s refl h.1))
  where
    opens :
        split_from p false seg (quote ∷ escape_bytes s ++ quote ∷ t)
        ≡ split_from (some quote) true (quote ∷ []) (escape_bytes s ++ quote ∷ t)
    opens = unfold split_from in rw k

    closes :
        EndsPlain (some quote) s
        → split_from (last_byte (some quote) s) true (quote ∷ escape_bytes s) (quote ∷ t)
          ≡ (quote ∷ escape_bytes s ++ quote ∷ [])
            ∷ split_from (some quote) false (quote ∷ escape_bytes s ++ quote ∷ []) t
    closes e = unfold split_from in rw e

split_from-comma :
    (seg t : Text)
    → split_from (some quote) false seg (comma ∷ t)
      ≡ split_from (some comma) false (seg ++ comma ∷ []) t
unfolding split_from
split_from-comma seg t = refl

split_from-body_rest :
    (seg : Text) (items : List Text)
    → All IsPlain items
    → split_from (some quote) false seg (body_rest items) ≡ map quoted items
unfolding body_rest
split_from-body_rest seg [] h = unfold split_from in refl
split_from-body_rest seg (s ∷ items) h =
    split_from-comma seg (quoted s ++ body_rest items)
    ∙ split_from-quoted (some comma) (seg ++ comma ∷ []) s (body_rest items) h.0 refl
    ∙ ap (λ r. quoted s ∷ r) (split_from-body_rest (quoted s) items h.1)

map-unescape_json :
    (items : List Text) → All IsPlain items → map unescape_json (map quoted items) ≡ items
map-unescape_json [] h = refl
map-unescape_json (s ∷ items) h = cc (unescape_json-quoted s h.0.0, map-unescape_json items h.1)

split_json-body :
    (s : Text) (items : List Text)
    → IsPlain s
    → All IsPlain items
    → split_json (quoted s ++ body_rest items) ≡ map quoted (s ∷ items)
unfolding split_json
split_json-body s items h k =
    split_from-quoted none [] s (body_rest items) h refl
    ∙ ap (λ r. quoted s ∷ r) (split_from-body_rest (quoted s) items k)

pub parse_inner-quoted :
    (s t : Text) → parse_inner (quoted s ++ t) ≡ map unescape_json (split_json (quoted s ++ t))
unfolding parse_inner quoted
parse_inner-quoted s t = refl

-- A text that starts with a bracket and a quote, and ends with one byte more, is read from inside.
pub parse_bracketed :
    (s t : Text)
    → parse_json_string_array (b'[' ∷ (quoted s ++ t) ++ b']' ∷ [])
      ≡ some (parse_inner (quoted s ++ t))
unfolding parse_json_string_array
parse_bracketed s t = rw (not_nil, not_empty, slice_inside b'[' b']' (quoted s ++ t)) (ground arith)
  where
    not_nil : text_eq (b'[' ∷ (quoted s ++ t) ++ b']' ∷ []) [] ≡ false
    not_nil = unfold text_eq in refl

    not_empty : text_eq (b'[' ∷ (quoted s ++ t) ++ b']' ∷ []) (codes "[]") ≡ false
    not_empty = unfold quoted text_eq in refl

-- Reading what `marshalJSONArray` wrote gives the list that was written, whenever each text is
-- ASCII and does not end with a backslash.
pub parse-marshal_json_array :
    (items : List Text)
    → All IsPlain items
    → parse_json_string_array (marshal_json_array items) ≡ some items
unfolding marshal_json_array
parse-marshal_json_array [] h = unfold parse_json_string_array text_eq in refl
parse-marshal_json_array (s ∷ items) h =
    rw (marshal_rest-body_rest items, ← append_assoc)
      (parse_bracketed s (body_rest items)
        ∙ ap some (
            parse_inner-quoted s (body_rest items)
            ∙ ap (map unescape_json) (split_json-body s items h.0 h.1)
            ∙ map-unescape_json (s ∷ items) h))
