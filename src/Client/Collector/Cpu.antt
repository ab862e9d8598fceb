-- ===== src/Client/Collector/Cpu.antt =====
-- collectCPU of internal/client/collector/hardware_linux.go: /proc/cpuinfo.
use team_x.Base.{
  to_int32, Bool, ◌&&◌, not, none, some, List, [], ◌∷◌, Text, codes, text_eq, if◌then◌else◌, ℤ, pos,
  leb_zero, is_zero, trim_space, split, cut, atoi,
}
use team_x.Proto.Messages.{CpuInfo}
use team_x.Client.Collector.Sources.{Readings}

pub record Cpu : Type 0 where
  pub model : Text
  pub cores : ℤ
  pub threads : ℤ

-- A number that is 0 is read; a text that is no number leaves it.
abbrev pub read_number : ℤ → Text → ℤ
read_number old val =
    if is_zero old then elim (atoi val) [ none ↦ old | some n ↦ to_int32 n ] else old

unfoldable pub cpu_field : Text → Text → Cpu → Cpu
cpu_field key val c =
    if text_eq key (codes "model name")
    then record c { model = if text_eq c.model [] then val else c.model }
    else if text_eq key (codes "cpu cores")
    then record c { cores = read_number c.cores val }
    else if text_eq key (codes "siblings")
    then record c { threads = read_number c.threads val }
    else c

unfoldable pub cpu_line : Text → Cpu → Cpu
cpu_line line c = elim (cut line b':') [
  | none ↦ c
  | some (key, val) ↦ cpu_field (trim_space key) (trim_space val) c
]

abbrev pub is_complete : Cpu → Bool
is_complete c = not (text_eq c.model []) && not (leb_zero c.cores)

-- An empty line ends the loop once the model and the cores are known.
unfoldable pub cpu_loop : Cpu → List Text → Cpu
cpu_loop c [] = c
cpu_loop c (line ∷ lines) =
    let rest = cpu_loop (cpu_line (trim_space line) c) lines in
    if text_eq (trim_space line) [] && is_complete c then c else rest

abbrev pub no_cpu : Cpu
no_cpu = record { model = []; cores = pos 0; threads = pos 0 }

abbrev cpu_info : Text → Cpu → CpuInfo
cpu_info arch c = record {
  model = c.model;
  cores = c.cores;
  threads = c.threads;
  architecture = arch;
}

unfoldable pub collect_cpu : Readings → CpuInfo
collect_cpu r = elim r.cpuinfo [
  | none ↦ cpu_info r.goarch no_cpu
  | some content ↦ cpu_info r.goarch (cpu_loop no_cpu (split content b'\n'))
]
