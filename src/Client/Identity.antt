-- ===== src/Client/Identity.antt =====
-- internal/client/fingerprint.go, fingerprint_linux.go: the device identifier. SHA-256 is not part of
-- the repository; what the files of /sys and /proc hold is an argument.
use team_x.Base.{
  ℕ, ◌≡◌, refl, ◌∙◌, Bool, true, false, not, ◌&&◌, ◌||◌, Option, none, some, List, [], ◌∷◌, ◌++◌,
  arith, Text, codes, text_eq, text_eq_iff, trim_space, to_upper, join, has_prefix, if◌then◌else◌,
  ◌==◌, length, any, find,
}
use team_x.Client.Cache.{Hashing}

-- ---- fingerprint_linux.go

-- `readFile`: `none` is a file that cannot be read.
unfoldable pub read_file : Option Text → Text
read_file none = []
read_file (some s) = trim_space s

-- An entry of /sys/class/net: its address file, and whether it has a device link.
pub record Interface : Type 0 where
  pub name : Text
  pub address : Option Text
  pub has_device : Bool

unfoldable pub is_virtual : Text → Bool
is_virtual name =
    text_eq name (codes "lo")
    || has_prefix name (codes "docker")
    || has_prefix name (codes "veth")
    || has_prefix name (codes "virbr")
    || has_prefix name (codes "br-")
    || has_prefix name (codes "wg")

-- The loop of `primaryMAC`: the first physical address, or else the first address.
unfoldable pub mac_from : Text → List Interface → Text
mac_from fallback [] = fallback
mac_from fallback (i ∷ is) =
    let addr = read_file i.address in
    let first = mac_from (if text_eq fallback [] then addr else fallback) is in
    let same = mac_from fallback is in
    if is_virtual i.name
    then same
    else if text_eq addr []
    then same
    else if i.has_device
    then addr
    else first

unfoldable pub primary_mac : Option (List Interface) → Text
primary_mac none = []
primary_mac (some is) = mac_from [] is

-- `systemDiskSerial`, given the serial files of sda, vda, nvme0n1 and hda.
unfoldable pub first_serial : List (Option Text) → Text
first_serial [] = []
first_serial (f ∷ fs) =
    let rest = first_serial fs in if text_eq (read_file f) [] then rest else read_file f

-- What the operating system has to say.
pub record System : Type 0 where
  pub cached : Option Text
  pub product_uuid : Option Text
  pub machine_id : Option Text
  pub interfaces : Option (List Interface)
  pub serials : List (Option Text)
  pub hostname : Option Text
  pub version : Option Text
  pub can_write : Bool

unfoldable pub collect_hardware_sources : System → List Text
collect_hardware_sources sys =
    read_file sys.product_uuid
    ∷ read_file sys.machine_id
    ∷ primary_mac sys.interfaces
    ∷ first_serial sys.serials
    ∷ []

abbrev pub or_unknown : Text → Text
or_unknown [] = codes "unknown"
or_unknown (c ∷ s) = c ∷ s

abbrev pub host_or_unknown : Option Text → Text
host_or_unknown none = codes "unknown"
host_or_unknown (some s) = s

unfoldable pub hostname_kernel_fallback : System → Text
hostname_kernel_fallback sys =
    host_or_unknown sys.hostname ++ (b'|' ∷ or_unknown (read_file sys.version))

-- ---- fingerprint.go

unfoldable pub all_are : ℕ → Text → Bool
all_are ch [] = true
all_are ch (c ∷ s) = c == ch && all_are ch s

unfoldable pub is_all : Text → ℕ → Bool
is_all s ch = all_are ch s && not (text_eq s [])

abbrev pub fillers : List Text
fillers =
    codes "NOT SPECIFIED"
    ∷ codes "TO BE FILLED BY O.E.M."
    ∷ codes "TO BE FILLED BY OEM"
    ∷ codes "NONE"
    ∷ codes "UNKNOWN"
    ∷ codes "DEFAULT STRING"
    ∷ codes "00000000-0000-0000-0000-000000000000"
    ∷ []

unfoldable pub is_invalid_device_source : Text → Bool
is_invalid_device_source s =
    is_all (to_upper s) b'0' || is_all (to_upper s) b'F' || any (text_eq (to_upper s)) fillers

unfoldable pub valid_sources : List Text → List Text
valid_sources [] = []
valid_sources (s ∷ ss) =
    if text_eq (trim_space s) [] || is_invalid_device_source (trim_space s)
    then valid_sources ss
    else trim_space s ∷ valid_sources ss

abbrev pub is_empty : List Text → Bool
is_empty [] = true
is_empty (s ∷ ss) = false

module _ (h : Hashing) where
  -- What the sources hash to, or the fallback where none is left.
  unfoldable pub fresh_id : System → Text
  fresh_id sys =
      let valid = valid_sources (collect_hardware_sources sys) in
      if is_empty valid
      then h.digest (hostname_kernel_fallback sys)
      else h.digest (join (codes "|") valid)

  abbrev keep : Text → System → Text × System
  keep id sys = (id, if sys.can_write then record sys { cached = some id } else sys)

  abbrev from_cache : Option Text → System → Text × System
  from_cache none sys = keep (fresh_id sys) sys
  from_cache (some id) sys = if length id == 64 then (id, sys) else keep (fresh_id sys) sys

  -- `GenerateDeviceID`, with the cache file after it.
  unfoldable pub generate_device_id : System → Text × System
  generate_device_id sys = from_cache sys.cached sys

  length-fresh_id : (sys : System) → length (fresh_id sys) ≡ 64
  unfolding fresh_id
  length-fresh_id sys = ground (
    arith,
    h.length-digest (hostname_kernel_fallback sys),
    h.length-digest (join (codes "|") (valid_sources (collect_hardware_sources sys))),
  )

  from_cache_lem :
      (c : Option Text) (sys : System)
      → sys.cached ≡ c
      → (length (from_cache c sys).0 ≡ 64)
        × ((from_cache c sys).1.cached
            ≡ (if sys.can_write then some (from_cache c sys).0 else sys.cached))
  from_cache_lem none sys e = ground (arith, length-fresh_id sys)
  from_cache_lem (some id) sys e = ground (arith, length-fresh_id sys)

  from_cache_hit :
      (c : Option Text) (id : Text) (sys : System)
      → c ≡ some id
      → length id ≡ 64
      → from_cache c sys ≡ (id, sys)
  from_cache_hit c id sys e long = ground arith

  -- The identifier has 64 bytes. The cache file holds it afterwards where it can be written, and else
  -- what it held before; and every later call that finds it there returns it and changes nothing,
  -- whatever the hardware says by then.
  pub generate_device_id_lem :
      (sys later : System)
      → later.cached ≡ some (generate_device_id sys).0
      → (length (generate_device_id sys).0 ≡ 64)
        × ((generate_device_id sys).1.cached
            ≡ (if sys.can_write then some (generate_device_id sys).0 else sys.cached))
        × (generate_device_id later ≡ ((generate_device_id sys).0, later))
  unfolding generate_device_id
  generate_device_id_lem sys later e =
      let known = from_cache_lem sys.cached sys refl in
      (known.0, known.1, from_cache_hit later.cached (from_cache sys.cached sys).0 later e known.0)

-- ---- what `primaryMAC` chooses

abbrev pub is_usable : Interface → Bool
is_usable i = not (is_virtual i.name) && not (text_eq (read_file i.address) [])

abbrev pub is_physical : Interface → Bool
is_physical i = is_usable i && i.has_device

abbrev pub address_or : Text → Option Interface → Text
address_or d none = d
address_or d (some i) = read_file i.address

mac_from_lem :
    (f : Text) (is : List Interface)
    → mac_from f is
      ≡ address_or
          (if text_eq f [] then address_or [] (find is_usable is) else f)
          (find is_physical is)
unfolding mac_from
mac_from_lem f [] = ground (arith, text_eq_iff f [])
mac_from_lem f (i ∷ is) = ground (
  arith,
  mac_from_lem f is,
  mac_from_lem (read_file i.address) is,
  text_eq_iff f [],
  text_eq_iff (read_file i.address) [],
)

-- The address of the first interface that is not virtual, has an address and is a device; with no
-- such one, of the first that is not virtual and has an address; or else nothing.
pub primary_mac_lem :
    (is : List Interface)
    → primary_mac (some is) ≡ address_or (address_or [] (find is_usable is)) (find is_physical is)
unfolding primary_mac
primary_mac_lem is = mac_from_lem [] is ∙ (unfold text_eq in refl)
