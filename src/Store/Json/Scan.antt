-- ===== src/Store/Json/Scan.antt =====
-- Bytes, slices and the unescaping that both readers use (hardware.go).
use team_x.Base.{
  ℕ, ◌-◌, Bool, false, ◌&&◌, Option, none, some, [], ◌∷◌, arith, leb, ◌==◌, if◌then◌else◌, Text,
  length, take, drop, head?, suc, ◌+◌, ◌≡◌, ◌++◌, length-append, take-length-append,
}

abbrev pub quote : ℕ
quote = b'"'

abbrev pub backslash : ℕ
backslash = b'\\'

abbrev pub comma : ℕ
comma = b','

-- `s[i:j]` with `i ≤ j ≤ len(s)`; `none` is the panic of a slice that is out of range.
unfoldable pub slice : Text → ℕ → ℕ → Option Text
slice s i j = if leb i j && leb j (length s) then some (take (j - i) (drop i s)) else none

-- The last byte, or the byte before the text.
abbrev pub last_byte : Option ℕ → Text → Option ℕ
last_byte p [] = p
last_byte p (c ∷ s) = last_byte (some c) s

abbrev pub is_byte : ℕ → Option ℕ → Bool
is_byte b none = false
is_byte b (some c) = c == b

-- A backslash stands for the byte after it; one at the end stands for itself.
unfoldable pub unescape_bytes : Text → Text
unescape_bytes [] = []
unescape_bytes (c ∷ []) = c ∷ []
unescape_bytes (c ∷ d ∷ s) =
    let escaped = d ∷ unescape_bytes s in
    let plain = c ∷ unescape_bytes (d ∷ s) in if c == backslash then escaped else plain

-- The bytes between the first and the last.
unfoldable pub inner : Text → Text
inner s = take (length s - 2) (drop 1 s)

-- Surrounding quotes are stripped first.
unfoldable pub unescape_json : Text → Text
unescape_json s =
    if leb 2 (length s) && is_byte quote (head? s) && is_byte quote (last_byte none s)
    then unescape_bytes (inner s)
    else unescape_bytes s

-- Between the first byte and the last.
pub slice_inside :
    (c d : ℕ) (s : Text) → slice (c ∷ s ++ d ∷ []) 1 (length (c ∷ s ++ d ∷ []) - 1) ≡ some s
unfolding slice
slice_inside c d s =
    let e : suc (length (s ++ d ∷ [])) - 1 ≡ length s + 1 =
      omega (arith, length-append s (d ∷ [])) in
    let i : length s + 1 - 1 ≡ length s = omega arith in
    rw (e, i, take-length-append s (d ∷ [])) (ground (arith, length-append s (d ∷ [])))
