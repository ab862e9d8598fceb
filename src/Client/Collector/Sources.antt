-- ===== src/Client/Collector/Sources.antt =====
-- What the collection reads: the files of /proc and /sys, statfs and the package net.
use team_x.Base.{ℕ, ◌+◌, ◌-◌, ◌%◌, ◌^◌, Bool, Option, none, some, List, ◌∷◌, Text, ℤ}

pub record Statfs : Type 0 where
  pub bsize : ℤ
  pub blocks : ℕ
  pub bfree : ℕ

-- An interface of the package net: `none` is an error of `Addrs`.
pub record Iface : Type 0 where
  pub name : Text
  pub addrs : Option (List Text)
  pub hardware_addr : Text
  pub is_loopback : Bool

-- A file that cannot be read is `none`. `parse_cidr` and `parse_ip` give the text of the address
-- that they found.
pub record Readings : Type 0 where
  pub goarch : Text
  pub cpuinfo : Option Text
  pub meminfo : Option Text
  pub mounts : Option Text
  pub statfs : Text → Option Statfs
  pub interfaces : Option (List Iface)
  pub parse_cidr : Text → Option Text
  pub parse_ip : Text → Option Text
  pub dmi : Text → Option Text

-- `a - b` on uint64.
abbrev pub minus : ℕ → ℕ → ℕ
minus a b = (a + 2 ^ 64 - b) % 2 ^ 64

abbrev pub prepend_some : {A : Type 0} → Option A → List A → List A
prepend_some none xs = xs
prepend_some (some x) xs = x ∷ xs
