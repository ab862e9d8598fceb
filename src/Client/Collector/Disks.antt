-- ===== src/Client/Collector/Disks.antt =====
-- collectDisks of internal/client/collector/hardware_linux.go: /proc/mounts and statfs.
use team_x.Base.{
  ℕ, ◌*◌, ◌%◌, ◌^◌, Bool, Option, none, some, List, [], ◌∷◌, Text, codes, text_eq, if◌then◌else◌,
  to_uint64, any, trim_space, split, fields,
}
use team_x.Proto.Messages.{DiskInfo}
use team_x.Client.Collector.Sources.{Statfs, Readings, minus, prepend_some}

abbrev pub real_fs_types : List Text
real_fs_types =
    codes "ext2"
    ∷ codes "ext3"
    ∷ codes "ext4"
    ∷ codes "xfs"
    ∷ codes "btrfs"
    ∷ codes "zfs"
    ∷ codes "ntfs"
    ∷ codes "ntfs-3g"
    ∷ codes "vfat"
    ∷ codes "msdos"
    ∷ codes "fat"
    ∷ codes "exfat"
    ∷ codes "f2fs"
    ∷ codes "jfs"
    ∷ codes "reiserfs"
    ∷ codes "nfs"
    ∷ codes "nfs4"
    ∷ codes "cifs"
    ∷ codes "smbfs"
    ∷ codes "hfs"
    ∷ codes "hfsplus"
    ∷ codes "apfs"
    ∷ []

unfoldable pub is_real_fs : Text → Bool
is_real_fs fs = any (text_eq fs) real_fs_types

abbrev pub capacity : Statfs → ℕ
capacity st = st.blocks * to_uint64 st.bsize % 2 ^ 64

abbrev pub free_space : Statfs → ℕ
free_space st = st.bfree * to_uint64 st.bsize % 2 ^ 64

abbrev pub disk_of : Text → Text → Text → Statfs → DiskInfo
disk_of device mount fs st = record {
  device = device;
  mount_point = mount;
  fs_type = fs;
  total_bytes = capacity st;
  used_bytes = minus (capacity st) (free_space st);
  free_bytes = free_space st;
}

-- The disk of the fields of a line; `none` is `continue`.
unfoldable pub mount_disk : Readings → List Text → Option DiskInfo
mount_disk r (device ∷ mount ∷ fs ∷ rest) =
    if is_real_fs fs
    then elim (r.statfs mount) [ none ↦ none | some st ↦ some (disk_of device mount fs st) ]
    else none
mount_disk r [] = none
mount_disk r (device ∷ []) = none
mount_disk r (device ∷ mount ∷ []) = none

unfoldable pub disks_of : Readings → List Text → List DiskInfo
disks_of r [] = []
disks_of r (line ∷ lines) =
    prepend_some (mount_disk r (fields (trim_space line))) (disks_of r lines)

unfoldable pub collect_disks : Readings → List DiskInfo
collect_disks r = elim r.mounts [ none ↦ [] | some content ↦ disks_of r (split content b'\n') ]
