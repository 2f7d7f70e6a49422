-- ===== src/Mount/Samples.antt =====
-- Runs of the mounter with mounts kept in memory.
use union_csi.Base.{
  false, some, none, List, [], ◌∷◌, ◌≡◌, refl, ◌==◌, string_eq, option_eq, if◌then◌else◌,
}
use union_csi.Failure.{ok}
use union_csi.Mount.{
  PublishOptions, publish, publish_refs, publish_target, target_error, make_and_mount, fits,
  all_mount_options,
}
use union_csi.Mount.Memory.{Mounts, mount_memory, mounts_of}
use union_csi.Mount.Refs.{MountPoint, device_of, refs_loop, get_device_name_and_mounts}

abbrev merged : Mounts
merged = record {
  paths = "/merged" ∷ [];
  device = λ p. if p == "/merged" then some "mergerfs" else none;
}

abbrev options : PublishOptions
options = record { fs_type = ""; read_only = false; mount_options = [] }

published : (publish mount_memory "/merged" "/target" (some options) merged).0 ≡ ok tt
unfolding publish publish_refs publish_target target_error make_and_mount fits all_mount_options
    mounts_of string_eq option_eq
published = refl

abbrev mount_table : List MountPoint
mount_table =
    record { device = "/dev/a"; path = "/x" }
    ∷ record { device = "/dev/b"; path = "/y" }
    ∷ record { device = "/dev/a"; path = "/z" }
    ∷ []

mount_table_read :
    get_device_name_and_mounts ("/x", none) (mount_table, none) ≡ ok ("/dev/a", "/z" ∷ [])
unfolding get_device_name_and_mounts device_of refs_loop string_eq
mount_table_read = refl
