-- ===== src/Utf8.antt =====
-- Go's `for _, ch := range s` over a string and `WriteRune`: the runes of a byte sequence, with
-- U+FFFD for each byte that starts no valid sequence, and the bytes of a rune.
use team_x.Base.{
  ℕ, zero, suc, ◌+◌, ◌-◌, ◌*◌, ◌/◌, ◌%◌, ◌<◌, ◌≡◌, refl, Bool, ◌&&◌, ◌||◌, List, [], ◌∷◌, arith,
  ltb, leb, if◌then◌else◌, Text, All,
}

-- U+FFFD, of width 1: the rune and the number of further bytes that it takes.
abbrev bad : ℕ × ℕ
bad = (0xFFFD, 0)

is_cont : ℕ → Bool
is_cont d = leb 0x80 d && leb d 0xBF

decode_two : ℕ → Text → ℕ × ℕ
unfolding is_cont
decode_two c [] = bad
decode_two c (d ∷ s) = if is_cont d then ((c - 0xC0) * 64 + (d - 0x80), 1) else bad

decode_three : ℕ → ℕ → ℕ → Text → ℕ × ℕ
unfolding is_cont
decode_three lo hi c (d ∷ e ∷ s) =
    if leb lo d && leb d hi && is_cont e
    then ((c - 0xE0) * 4096 + (d - 0x80) * 64 + (e - 0x80), 2)
    else bad
decode_three lo hi c s = bad

decode_four : ℕ → ℕ → ℕ → Text → ℕ × ℕ
unfolding is_cont
decode_four lo hi c (d ∷ e ∷ f ∷ s) =
    if leb lo d && leb d hi && is_cont e && is_cont f
    then ((c - 0xF0) * 262144 + (d - 0x80) * 4096 + (e - 0x80) * 64 + (f - 0x80), 3)
    else bad
decode_four lo hi c s = bad

-- The rune at a byte and the bytes after it; the ranges exclude overlong forms and surrogates.
decode : ℕ → Text → ℕ × ℕ
unfolding decode_two decode_three decode_four
decode c s =
    if ltb c 0x80
    then (c, 0)
    else if ltb c 0xC2
    then bad
    else if ltb c 0xE0
    then decode_two c s
    else if ltb c 0xE1
    then decode_three 0xA0 0xBF c s
    else if leb 0xED c && leb c 0xED
    then decode_three 0x80 0x9F c s
    else if ltb c 0xF0
    then decode_three 0x80 0xBF c s
    else if ltb c 0xF1
    then decode_four 0x90 0xBF c s
    else if ltb c 0xF4
    then decode_four 0x80 0xBF c s
    else if ltb c 0xF5
    then decode_four 0x80 0x8F c s
    else bad

-- The first argument counts the bytes that belong to the last rune.
runes_after : ℕ → Text → List ℕ
unfolding decode
runes_after skip [] = []
runes_after (suc skip) (c ∷ s) = runes_after skip s
runes_after zero (c ∷ s) = let (r, width) = decode c s in r ∷ runes_after width s

unfoldable pub runes : Text → List ℕ
unfolding runes_after
runes s = runes_after 0 s

-- `utf8.AppendRune`: surrogates and what is above U+10FFFF become U+FFFD.
unfoldable pub encode_rune : ℕ → Text
encode_rune r =
    if ltb r 0x80
    then r ∷ []
    else if ltb r 0x800
    then (0xC0 + r / 64) ∷ (0x80 + r % 64) ∷ []
    else if (leb 0xD800 r && leb r 0xDFFF) || ltb 0x10FFFF r
    then 0xEF ∷ 0xBF ∷ 0xBD ∷ []
    else if ltb r 0x10000
    then (0xE0 + r / 4096) ∷ (0x80 + r / 64 % 64) ∷ (0x80 + r % 64) ∷ []
    else (0xF0 + r / 262144) ∷ (0x80 + r / 4096 % 64) ∷ (0x80 + r / 64 % 64) ∷ (0x80 + r % 64) ∷ []

abbrev pub IsAscii : Text → Type 0
IsAscii = All (λ c. c < 128)

runes_after-IsAscii : (s : Text) → IsAscii s → runes_after 0 s ≡ s
unfolding runes_after
runes_after-IsAscii [] h = refl
runes_after-IsAscii (c ∷ s) h = ground (arith, runes_after-IsAscii s h.1)

pub runes-IsAscii : (s : Text) → IsAscii s → runes s ≡ s
unfolding runes
runes-IsAscii s h = runes_after-IsAscii s h

two_bytes : runes (0xC3 ∷ 0xA9 ∷ b'x' ∷ []) ≡ 0xE9 ∷ b'x' ∷ []
unfolding runes
two_bytes = refl

three_bytes : runes (0xE2 ∷ 0x88 ∷ 0xA2 ∷ 0xE2 ∷ []) ≡ 0x2222 ∷ 0xFFFD ∷ []
unfolding runes
three_bytes = refl
