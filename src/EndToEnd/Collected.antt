-- ===== src/EndToEnd/Collected.antt =====
-- The hardware that a terminal collects, as the administrator sees it.
use team_x.Base.{
  ℕ, ◌^◌, ◌<◌, ◌≡◌, false, Option, none, some, List, [], ◌∷◌, Text, codes, text_le, where_, All,
  Option-cases, Bool-cases, inl, inr, arith, split, trim_suffix,
}
use team_x.Proto.Messages.{MemoryInfo, report_request}
use team_x.Store.Engine.{Engine}
use team_x.Store.Json.Array.RoundTrip.{IsPlain}
use team_x.Store.Sql.{IsUp, ok}
use team_x.Store.Hardware.{get_latest_hardware, of_device}
use team_x.Store.Hardware.Saved.{IsFresh}
use team_x.Store.Hardware.Latest.{InRange, IsReadable, get_latest-save}
use team_x.Server.Service.{Server}
use team_x.Server.Dispatch.{receive, message, handle_payload, handle_report}
use team_x.Client.Cache.{as_report}
use team_x.Client.Collector.Sources.{Readings, Statfs, Iface, prepend_some}
use team_x.Client.Collector.Memory.{collect_memory, memory_info, mem_loop}
use team_x.Client.Collector.Disks.{disk_of, is_real_fs, mount_disk, disks_of, collect_disks}
use team_x.Client.Collector.{ip_of, ips_of, net_of, nets_of, collect_network, collect_hardware}

-- `net.IP.String` writes ASCII with no backslash.
pub record WritesPlain (r : Readings) : Type 0 where
  pub cidr : (addr ip : Text) → r.parse_cidr addr ≡ some ip → IsPlain ip
  pub bare : (addr ip : Text) → r.parse_ip addr ≡ some ip → IsPlain ip

-- What holds of the value, if there is one.
abbrev AllSome : {A : Type 0} → (A → Type 0) → Option A → Type 0
AllSome P none = Unit
AllSome P (some a) = P a

All-prepend_some :
    {A : Type 0} (P : A → Type 0) (o : Option A) (xs : List A)
    → AllSome P o
    → All P xs
    → All P (prepend_some o xs)
All-prepend_some P none xs h k = k
All-prepend_some P (some a) xs h k = (h, k)

disk_of-InRange : (d m f : Text) (st : Statfs) → InRange (disk_of d m f st)
disk_of-InRange d m f st = omega arith

abbrev Bounded : MemoryInfo → Type 0
Bounded m = (m.total_bytes < 2 ^ 64) × (m.available_bytes < 2 ^ 64) × (m.used_bytes < 2 ^ 64)

memory_info-Bounded : (total avail : ℕ) → Bounded (memory_info (total, avail))
memory_info-Bounded total avail = omega arith

module _ (r : Readings) where
  collect_memory-Bounded : Bounded (collect_memory r)
  unfolding collect_memory
  collect_memory-Bounded = elim (Option-cases r.meminfo) [
    | inl e ↦ rw e (omega arith)
    | inr (content, e) ↦ rw e (
        memory_info-Bounded (mem_loop 0 0 (split content b'\n')).0
          (mem_loop 0 0 (split content b'\n')).1)
  ]

  mount_disk-InRange : (fs : List Text) → AllSome InRange (mount_disk r fs)
  unfolding mount_disk
  mount_disk-InRange [] = tt
  mount_disk-InRange (d ∷ []) = tt
  mount_disk-InRange (d ∷ m ∷ []) = tt
  mount_disk-InRange (d ∷ m ∷ f ∷ rest) = elim (Bool-cases (is_real_fs f)) [
    | inr virtual ↦ rw virtual tt
    | inl real ↦ rw real (elim (Option-cases (r.statfs m)) [
      | inl e ↦ rw e tt
      | inr (st, e) ↦ rw e (disk_of-InRange d m f st)
    ])
  ]

  disks_of-InRange : (lines : List Text) → All InRange (disks_of r lines)
  unfolding disks_of
  disks_of-InRange [] = tt
  disks_of-InRange (l ∷ lines) =
      All-prepend_some InRange _ (disks_of r lines) (mount_disk-InRange _) (disks_of-InRange lines)

  module _ (plain : WritesPlain r) where
    ip_of-IsPlain : (addr : Text) → AllSome IsPlain (ip_of r addr)
    unfolding ip_of
    ip_of-IsPlain addr = elim (Option-cases (r.parse_cidr addr)) [
      | inr (ip, e) ↦ rw (e, ip_of) (plain.cidr addr ip e)
      | inl masked ↦
          rw (masked, ip_of)
            (elim (Option-cases (r.parse_ip (trim_suffix addr (codes "/32")))) [
              | inl e ↦ rw e tt
              | inr (ip, e) ↦ rw e (plain.bare (trim_suffix addr (codes "/32")) ip e)
            ])
    ]

    ips_of-IsPlain : (addrs : List Text) → All IsPlain (ips_of r addrs)
    unfolding ips_of
    ips_of-IsPlain [] = tt
    ips_of-IsPlain (a ∷ addrs) =
        All-prepend_some IsPlain (ip_of r a) (ips_of r addrs) (ip_of-IsPlain a)
          (ips_of-IsPlain addrs)

    net_of-IsPlain : (i : Iface) → AllSome (λ n. All IsPlain n.ip_addrs) (net_of r i)
    unfolding net_of
    net_of-IsPlain i = elim (Option-cases i.addrs) [
      | inl e ↦ rw e tt
      | inr (addrs, e) ↦ rw e (ips_of-IsPlain addrs)
    ]

    nets_of-IsPlain : (is : List Iface) → All (λ n. All IsPlain n.ip_addrs) (nets_of r is)
    unfolding nets_of
    nets_of-IsPlain [] = tt
    nets_of-IsPlain (i ∷ is) =
        All-prepend_some (λ n. All IsPlain n.ip_addrs) (net_of r i) (nets_of r is)
          (net_of-IsPlain i) (nets_of-IsPlain is)

    collect_hardware-IsReadable : IsReadable (collect_hardware r)
    unfolding collect_hardware collect_disks collect_network disks_of mount_disk nets_of net_of
        ips_of ip_of
    collect_hardware-IsReadable = record {
      total = (collect_memory-Bounded).0;
      available = (collect_memory-Bounded).1;
      used = (collect_memory-Bounded).2;
      disks = elim (Option-cases r.mounts) [
        | inl e ↦ rw e tt
        | inr (content, e) ↦ rw e (disks_of-InRange (split content b'\n'))
      ];
      nets = elim (Option-cases r.interfaces) [
        | inl e ↦ rw e tt
        | inr (is, e) ↦ rw e (nets_of-IsPlain is)
      ];
    }

-- On an engine that does not fail, and with a report identifier that no row has, a report of the
-- collected hardware that the server receives later than all others of its device is exactly what
-- GetLatestHardware returns afterwards, whatever the files of the terminal hold and whichever of them
-- cannot be read. The package net is taken to write addresses in ASCII with no backslash.
pub get_latest-collect_hardware :
    (engine : Engine) (r : Readings) (id dev sid stamp : Text) (now seq : ℕ) (s : Server)
    → WritesPlain r
    → IsUp s.db
    → IsFresh id s.db.tables
    → All (λ row. text_le stamp row.created_at ≡ false) (where_ (of_device dev) s.db.reports)
    → (get_latest_hardware engine dev
        (receive sid dev now stamp
          (message
            (record { seq = seq; payload = report_request (as_report id (collect_hardware r)) }))
          s).1.db).0
      ≡ ok (some (collect_hardware r))
unfolding receive handle_payload handle_report collect_hardware
get_latest-collect_hardware engine r id dev sid stamp now seq s plain up fresh older =
    get_latest-save engine id dev sid stamp (collect_hardware r) s.db up fresh
      (collect_hardware-IsReadable r plain) older
