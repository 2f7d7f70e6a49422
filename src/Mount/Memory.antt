-- ===== src/Mount/Memory.antt =====
-- Mounts kept as a function, in which the documented behaviour holds and the theorems run.
use union_csi.Base.{
  String, true, false, not, ◌&&◌, Option, none, some, List, [], ◌∷◌, ◌≡◌, refl, arith, ◌==◌,
  ==_refl, string_eq, option_eq, contains, is_some, if◌then◌else◌,
}
use union_csi.Failure.{Err, foreign}
use union_csi.Mount.{MountUtils}
use union_csi.Mount.Publishing.{IsMountTable}
use union_csi.Mount.Unpublishing.{IsCleaning}

pub record Mounts : Type 0 where
  pub paths : List String
  pub device : String → Option String

-- The other paths that have the device of a path.
references : String → Mounts → List String → List String
references s w [] = []
references s w (p ∷ ps) =
    let rest = references s w ps in
    if w.device p == w.device s && not (p == s) then p ∷ rest else rest

unfoldable pub mounts_of : String → Mounts → List String × Option Err
unfolding references
mounts_of s w =
    if is_some (w.device s)
    then (references s w w.paths, none)
    else ([], some (foreign "no mount entry"))

abbrev pub bind : String → String → Mounts → Mounts
bind s t w = record { paths = t ∷ w.paths; device = λ p. if p == t then w.device s else w.device p }

-- A mount that is no bind mount puts a new device at its target.
abbrev attach : String → String → List String → Mounts → Mounts
attach s t os w =
    if contains os "bind"
    then bind s t w
    else record { paths = t ∷ w.paths; device = λ p. if p == t then some s else w.device p }

abbrev pub mount_memory : MountUtils
mount_memory = record {
  World = Mounts;
  path_exists = λ p w. (true, none);
  is_corrupted_mnt = λ e. false;
  get_mount_refs = mounts_of;
  is_mount_point = λ p w. (is_some (w.device p), none);
  mkdir_all = λ p w. (none, w);
  mount = λ s t f os w. (none, attach s t os w);
  cleanup_mount_point =
      λ t w. (none, record w { device = λ p. if p == t then none else w.device p });
  error_text = λ e. "";
}

abbrev pub memory_device : Mounts → String → Option String
memory_device w = w.device

device-references :
    (s t : String) (w : Mounts) (ps : List String)
    → contains (references s w ps) t ≡ true
    → w.device t ≡ w.device s
unfolding references
device-references s t w [] h = absurd (ground arith)
device-references s t w (p ∷ ps) h = ground (arith, device-references s t w ps)

pub mount_memory-IsMountTable : IsMountTable mount_memory memory_device
unfolding mounts_of
mount_memory-IsMountTable = record {
  refs = λ s t w h k. ground (arith, device-references s t w w.paths);
  not_mounted = λ t w h. ground arith;
  absent = λ t w h k. absurd (ground arith);
  mkdir_all-device = λ t w. refl;
  mount_other = λ s t f os w p h. ground arith;
  bind_done = λ s t f os w b h. ground (arith, b, ==_refl t);
}

pub mount_memory-IsCleaning : IsCleaning mount_memory memory_device
mount_memory-IsCleaning = record {
  cleaned = λ t w h. ground (arith, ==_refl t);
  not_mounted = λ t w h k. absurd (ground arith);
  other = λ t w p away. ground arith;
}
