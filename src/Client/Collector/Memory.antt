-- ===== src/Client/Collector/Memory.antt =====
-- collectMemory of internal/client/collector/hardware_linux.go: /proc/meminfo.
pub mod Printed
use team_x.Base.{
  ℕ, ◌*◌, ◌%◌, ◌^◌, ◌&&◌, Option, none, some, List, [], ◌∷◌, Text, codes, text_eq, if◌then◌else◌,
  ltb, trim_space, trim_suffix, split, cut, parse_uint,
}
use team_x.Proto.Messages.{MemoryInfo}
use team_x.Client.Collector.Sources.{Readings, minus}

-- The key and the number of a line; `none` is `continue`.
unfoldable pub mem_line : Text → Option (Text × ℕ)
mem_line line = elim (cut line b':') [
  | none ↦ none
  | some (key, val) ↦ elim (parse_uint (trim_suffix (trim_space val) (codes " kB"))) [
    | none ↦ none
    | some n ↦ some (trim_space key, n)
  ]
]

abbrev pub set_if : Text → Text → ℕ → ℕ → ℕ
set_if wanted key n old = if text_eq key wanted then n else old

-- Total and available kilobytes. The loop ends when both are positive.
unfoldable pub mem_loop : ℕ → ℕ → List Text → ℕ × ℕ
mem_loop total avail [] = (total, avail)
mem_loop total avail (line ∷ lines) = elim (mem_line line) [
  | none ↦ mem_loop total avail lines
  | some (key, n) ↦
      let total' = set_if (codes "MemTotal") key n total in
      let avail' = set_if (codes "MemAvailable") key n avail in
      let rest = mem_loop total' avail' lines in
      if ltb 0 total' && ltb 0 avail' then (total', avail') else rest
]

abbrev pub memory_info : ℕ × ℕ → MemoryInfo
memory_info (total, avail) = record {
  total_bytes = total * 1024 % 2 ^ 64;
  available_bytes = avail * 1024 % 2 ^ 64;
  used_bytes = minus (total * 1024 % 2 ^ 64) (avail * 1024 % 2 ^ 64);
}

unfoldable pub collect_memory : Readings → MemoryInfo
collect_memory r = elim r.meminfo [
  | none ↦ record { total_bytes = 0; available_bytes = 0; used_bytes = 0 }
  | some content ↦ memory_info (mem_loop 0 0 (split content b'\n'))
]
