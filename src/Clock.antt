-- ===== src/Clock.antt =====
-- `time.Unix(n, 0).UTC().Format(time.RFC3339)` for n ≥ 0, and `formatUnixTime` of
-- internal/server/command.go. The calendar counts years from March, in eras of 400 years.
use team_x.Base.{
  digits, ℕ, zero, suc, ◌+◌, ◌-◌, ◌*◌, ◌/◌, ◌%◌, ◌≡◌, refl, [], ◌∷◌, ◌++◌, Text, codes,
  if◌then◌else◌, ltb, leb, ℤ, pos, negsuc,
}

two_digits : ℕ → Text
two_digits n = (b'0' + n / 10) ∷ (b'0' + n % 10) ∷ []

-- A year of less than four digits is padded.
year_text : ℕ → Text
year_text y =
    if ltb y 10
    then codes "000" ++ digits 19 y []
    else if ltb y 100
    then codes "00" ++ digits 19 y []
    else if ltb y 1000
    then codes "0" ++ digits 19 y []
    else digits 19 y []

-- Day of the era to year, month and day, with March as month 0.
date_text : ℕ → Text
unfolding two_digits year_text
date_text days =
    let z = days + 719468 in
    let doe = z % 146097 in
    let yoe = (doe - doe / 1460 + doe / 36524 - doe / 146096) / 365 in
    let doy = doe - (365 * yoe + yoe / 4 - yoe / 100) in
    let mp = (5 * doy + 2) / 153 in
    let day = doy - (153 * mp + 2) / 5 + 1 in
    let month = if ltb mp 10 then mp + 3 else mp - 9 in
    let year = yoe + z / 146097 * 400 + (if leb month 2 then 1 else 0) in
    year_text year ++ codes "-" ++ two_digits month ++ codes "-" ++ two_digits day

unfoldable pub rfc3339 : ℕ → Text
unfolding date_text two_digits
rfc3339 unix =
    let secs = unix % 86400 in
    date_text (unix / 86400)
    ++ codes "T"
    ++ two_digits (secs / 3600)
    ++ codes ":"
    ++ two_digits (secs / 60 % 60)
    ++ codes ":"
    ++ two_digits (secs % 60)
    ++ codes "Z"

-- Zero and negative times are the empty text.
unfoldable pub format_unix_time : ℤ → Text
format_unix_time (pos zero) = []
format_unix_time (pos (suc n)) = rfc3339 (suc n)
format_unix_time (negsuc n) = []

november : rfc3339 1700000000 ≡ codes "2023-11-14T22:13:20Z"
unfolding rfc3339 digits
november = refl

leap_day : rfc3339 1709210096 ≡ codes "2024-02-29T12:34:56Z"
unfolding rfc3339 digits
leap_day = refl

epoch_and_after : rfc3339 1 ≡ codes "1970-01-01T00:00:01Z"
unfolding rfc3339 digits
epoch_and_after = refl
