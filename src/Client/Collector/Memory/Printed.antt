-- ===== src/Client/Collector/Memory/Printed.antt =====
-- What collectMemory reads from a file that is printed as the kernel prints /proc/meminfo.
use team_x.Base.{
  ℕ, ◌-◌, ◌*◌, ◌^◌, ◌<◌, ◌≤◌, ◌≡◌, refl, ap, ◌∙◌, Bool, true, false, ◌&&◌, Option, none, some, List,
  [], ◌∷◌, ◌++◌, Text, codes, text_eq, text_eq_iff, if◌then◌else◌, ltb, All, find, split, cut,
  trim_space, trim_suffix, parse_uint, digits, arith,
}
use team_x.Base.Strings.Laws.{
  Lacks, spaces, split-append, cut-append, trim_padded, trim_bare, parse_uint-digits,
}
use team_x.Client.Collector.Sources.{Readings}
use team_x.Client.Collector.Memory.{mem_line, set_if, mem_loop, memory_info, collect_memory}

pub record MeminfoLine : Type 0 where
  pub key : Text
  pub pad : ℕ
  pub kilobytes : ℕ
  pub has_unit : Bool

abbrev pub written : Bool → ℕ → Text
written true n = digits 20 n [] ++ codes " kB"
written false n = digits 20 n []

-- `MemTotal:        8000 kB`, or `HugePages_Total:       0`
unfoldable pub line : MeminfoLine → Text
line e = e.key ++ (b':' ∷ (spaces e.pad ++ written e.has_unit e.kilobytes))

unfoldable pub print : List MeminfoLine → Text
print [] = []
print (e ∷ es) = line e ++ (b'\n' ∷ print es)

-- The key holds no colon and no line feed, and no spaces around it; the number is a uint64.
pub record IsMeminfoLine (e : MeminfoLine) : Type 0 where
  pub no_colon : Lacks b':' e.key
  pub no_newline : Lacks b'\n' (line e)
  pub trimmed : trim_space e.key ≡ e.key
  pub is_uint64 : e.kilobytes < 2 ^ 64

mem_line-parts :
    (l key val : Text) (n : ℕ)
    → cut l b':' ≡ some (key, val)
    → parse_uint (trim_suffix (trim_space val) (codes " kB")) ≡ some n
    → mem_line l ≡ some (trim_space key, n)
unfolding mem_line
mem_line-parts l key val n e v = rw (e, mem_line) (rw v refl)

parse_uint-written :
    (unit : Bool) (pad n : ℕ)
    → n < 2 ^ 64
    → parse_uint (trim_suffix (trim_space (spaces pad ++ written unit n)) (codes " kB")) ≡ some n
parse_uint-written true pad n h =
    rw (trim_padded pad n (codes " k") b'B' refl) (parse_uint-digits n h)
parse_uint-written false pad n h = rw (trim_bare pad n) (parse_uint-digits n h)

mem_line-line : (e : MeminfoLine) → IsMeminfoLine e → mem_line (line e) ≡ some (e.key, e.kilobytes)
unfolding line
mem_line-line e h =
    let val = spaces e.pad ++ written e.has_unit e.kilobytes in
    mem_line-parts (line e) e.key val e.kilobytes (cut-append e.key val b':' h.no_colon)
      (parse_uint-written e.has_unit e.pad e.kilobytes h.is_uint64)
    ∙ ap (λ k. some (k, e.kilobytes)) h.trimmed

abbrev pub is_key : Text → MeminfoLine → Bool
is_key k e = text_eq e.key k

abbrev pub value_or : ℕ → Option MeminfoLine → ℕ
value_or old none = old
value_or old (some e) = e.kilobytes

-- No two entries have the key.
abbrev pub IsUnique : Text → List MeminfoLine → Type 0
IsUnique k [] = Unit {0}
IsUnique k (e ∷ es) = (is_key k e ≡ true → find (is_key k) es ≡ none) × IsUnique k es

abbrev total_key : Text
total_key = codes "MemTotal"

abbrev avail_key : Text
avail_key = codes "MemAvailable"

other_key : (e : MeminfoLine) → is_key total_key e ≡ true → is_key avail_key e ≡ false
unfolding text_eq
other_key e h = ground (arith, text_eq_iff e.key total_key, text_eq_iff e.key avail_key)

mem_loop-some :
    (t a n : ℕ) (l key : Text) (ls : List Text)
    → mem_line l ≡ some (key, n)
    → mem_loop t a (l ∷ ls) ≡ (
        if ltb 0 (set_if total_key key n t) && ltb 0 (set_if avail_key key n a)
        then (set_if total_key key n t, set_if avail_key key n a)
        else mem_loop (set_if total_key key n t) (set_if avail_key key n a) ls)
unfolding mem_loop
mem_loop-some t a n l key ls e = rw (e, mem_loop) refl

mem_loop_lem :
    (t a : ℕ) (es : List MeminfoLine)
    → All IsMeminfoLine es
    → IsUnique total_key es
    → IsUnique avail_key es
    → (0 < t → find (is_key total_key) es ≡ none)
    → (0 < a → find (is_key avail_key) es ≡ none)
    → mem_loop t a (split (print es) b'\n')
      ≡ (value_or t (find (is_key total_key) es), value_or a (find (is_key avail_key) es))
unfolding print
mem_loop_lem t a [] h ut ua ft fa = unfold mem_loop split mem_line cut in refl
mem_loop_lem t a (e ∷ es) h ut ua ft fa =
    rw (split-append (line e) (print es) b'\n' h.0.no_newline) (
      mem_loop-some t a e.kilobytes (line e) e.key (split (print es) b'\n') (mem_line-line e h.0)
      ∙ ground (
        arith,
        other_key e,
        ut.0,
        ua.0,
        mem_loop_lem (set_if total_key e.key e.kilobytes t) (set_if avail_key e.key e.kilobytes a)
            es h.1 ut.1 ua.1,
      ))

abbrev pub amount : Text → List MeminfoLine → ℕ
amount k es = value_or 0 (find (is_key k) es)

memory_info_lem :
    (total avail : ℕ)
    → avail ≤ total
    → total < 2 ^ 54
    → memory_info (total, avail) ≡ record {
      total_bytes = total * 1024;
      available_bytes = avail * 1024;
      used_bytes = (total - avail) * 1024;
    }
memory_info_lem total avail h k = ground arith

-- From a /proc/meminfo of lines `key: number kB` and `key: number`, in which no two lines are of MemTotal and no two
-- of MemAvailable, collectMemory reports the two numbers in bytes, 0 for one that has no line, and
-- as used bytes their difference, wherever in the file they stand; provided that MemAvailable is not
-- above MemTotal and MemTotal is below 2^54 kilobytes.
pub collect_memory-print :
    (r : Readings) (es : List MeminfoLine)
    → r.meminfo ≡ some (print es)
    → All IsMeminfoLine es
    → IsUnique (codes "MemTotal") es
    → IsUnique (codes "MemAvailable") es
    → amount (codes "MemAvailable") es ≤ amount (codes "MemTotal") es
    → amount (codes "MemTotal") es < 2 ^ 54
    → collect_memory r ≡ record {
      total_bytes = amount (codes "MemTotal") es * 1024;
      available_bytes = amount (codes "MemAvailable") es * 1024;
      used_bytes = (amount (codes "MemTotal") es - amount (codes "MemAvailable") es) * 1024;
    }
unfolding collect_memory
collect_memory-print r es content entries ut ua le lt = rw content (
    ap memory_info
      (mem_loop_lem 0 0 es entries ut ua (λ h. absurd (omega arith)) (λ h. absurd (omega arith)))
    ∙ memory_info_lem (amount total_key es) (amount avail_key es) le lt)
