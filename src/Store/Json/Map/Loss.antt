-- ===== src/Store/Json/Map/Loss.antt =====
-- What `unmarshalJSONMap` makes of a map that `marshalJSONMap` wrote.
use team_x.Base.{
  ℕ, suc, ◌+◌, ◌≡◌, ◌≢◌, refl, ap, ◌∙◌, false, some, List, [], ◌∷◌, ◌++◌, append_assoc, arith, Text,
  codes, All, All-append, length, length-append, text_eq, ◌≤◌, take-length-append,
  drop-suc-length-append,
}
use team_x.Utf8.{runes, encode_rune}
use team_x.Store.Json.Scan.{quote, comma, slice_inside, unescape_json}
use team_x.Store.Json.Map.{
  Entries, escape_rune, escape_runes, member, members_rest, marshal_json_map, done, trim_left,
  index_quote, read_quoted, read_value, unmarshal_from, unmarshal_json_map,
}

index_quote-append :
    (s t : Text) → All (λ c. c ≢ quote) s → index_quote (s ++ quote ∷ t) ≡ some (length s)
unfolding index_quote
index_quote-append [] t h = refl
index_quote-append (c ∷ s) t h = ground (arith, index_quote-append s t h.1)

encode_rune-no_quote : (r : ℕ) → r ≢ quote → All (λ c. c ≢ quote) (encode_rune r)
unfolding encode_rune
encode_rune-no_quote r h = ground arith

escape_rune-no_quote : (r : ℕ) → r ≢ quote → All (λ c. c ≢ quote) (escape_rune r)
unfolding escape_rune
escape_rune-no_quote r h = ground (arith, encode_rune-no_quote r h)

escape_runes-no_quote :
    (s : List ℕ) → All (λ c. c ≢ quote) s → All (λ c. c ≢ quote) (escape_runes s)
unfolding escape_runes
escape_runes-no_quote [] h = tt
escape_runes-no_quote (r ∷ s) h =
    All-append _ (escape_rune r) (escape_runes s) (escape_rune-no_quote r h.0)
      (escape_runes-no_quote s h.1)

read_quoted-no_quote :
    (s t : Text)
    → All (λ c. c ≢ quote) s
    → read_quoted (quote ∷ s ++ quote ∷ t) ≡ some (unescape_json s, t)
unfolding read_quoted
read_quoted-no_quote s t h =
    let e : length s + 2 ≡ suc (suc (length s)) = omega arith in
    rw
      (
        (index_quote-append s t h),
        read_quoted,
        take-length-append s (quote ∷ t),
        e,
        drop-suc-length-append s quote t,
      )
      refl

-- One round of the loop: after the key it meets the colon, and leaves the loop.
unmarshal_from-no_quote :
    (fuel : ℕ) (s t : Text) (m : Entries)
    → All (λ c. c ≢ quote) s
    → 1 ≤ length t
    → unmarshal_from (suc fuel) (quote ∷ s ++ quote ∷ b':' ∷ t) m ≡ done m
unfolding unmarshal_from trim_left read_value
unmarshal_from-no_quote fuel s t m h k =
    rw (read_quoted-no_quote s (b':' ∷ t) h) (ground (arith, length-append s (quote ∷ b':' ∷ t)))

-- `members_rest` without its closing brace.
members_body : Entries → Text
members_body [] = []
members_body ((k, v) ∷ m) = comma ∷ member k v ++ members_body m

members_rest-members_body : (m : Entries) → members_rest m ≡ members_body m ++ b'}' ∷ []
unfolding members_rest members_body
members_rest-members_body [] = refl
members_rest-members_body ((k, v) ∷ m) = simp (members_rest-members_body m, append_assoc)

-- A text in braces is read from inside, unless it is `{}`.
unmarshal_braced :
    (c : ℕ) (s : Text)
    → unmarshal_json_map (b'{' ∷ (c ∷ s) ++ b'}' ∷ [])
      ≡ unmarshal_from (suc (length (c ∷ s))) (c ∷ s) []
unfolding unmarshal_json_map
unmarshal_braced c s = rw (not_nil, not_empty s, slice_inside b'{' b'}' (c ∷ s)) refl
  where
    not_nil : text_eq (b'{' ∷ (c ∷ s) ++ b'}' ∷ []) [] ≡ false
    not_nil = unfold text_eq in refl

    not_empty : (r : Text) → text_eq (b'{' ∷ (c ∷ r) ++ b'}' ∷ []) (codes "{}") ≡ false
    not_empty [] = unfold text_eq in ground arith
    not_empty (d ∷ r) = unfold text_eq in ground arith

-- A map whose first key holds no quote is read back empty: every entry is lost.
pub unmarshal-marshal_json_map :
    (k v : Text) (m : Entries)
    → All (λ c. c ≢ quote) (runes k)
    → unmarshal_json_map (marshal_json_map ((k, v) ∷ m)) ≡ done []
unfolding marshal_json_map member
unmarshal-marshal_json_map k v m h = rw (members_rest-members_body m) (
    ap unmarshal_json_map regroup
    ∙ unmarshal_braced quote (escape_runes (runes k) ++ quote ∷ b':' ∷ rest)
    ∙ unmarshal_from-no_quote _ (escape_runes (runes k)) rest [] (escape_runes-no_quote (runes k) h)
        (omega arith))
  where
    rest : Text
    rest = quote ∷ escape_runes (runes v) ++ quote ∷ members_body m

    regroup :
        b'{' ∷ member k v ++ (members_body m ++ b'}' ∷ [])
        ≡ b'{' ∷ (quote ∷ escape_runes (runes k) ++ quote ∷ b':' ∷ rest) ++ b'}' ∷ []
    regroup = unfold member in simp append_assoc
