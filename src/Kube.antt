-- ===== src/Kube.antt =====
-- The objects that the driver exchanges with Kubernetes: the VolumeSplit resource of
-- pkg/k8s/apis/union/v1alpha1/types.go, and of the core types the fields that the driver uses.
pub mod Cluster
pub mod DeepCopy
pub mod Clientset
use union_csi.Base.{String, ℕ, List, [], ◌∷◌, Option, Bool, ◌==◌, string_eq, if◌then◌else◌}
use union_csi.Base.Int.{ℤ, pos}

-- `v1.PersistentVolumeAccessMode` is a string.
abbrev pub AccessMode : Type 0
AccessMode = String

-- A quantity as `resource.NewQuantity` makes it: an int64 and a format.
pub record Quantity : Type 0 where
  pub value : ℤ
  pub format : String

-- A Go map from resource names to quantities.
abbrev pub ResourceList : Type 0
ResourceList = List (String × Quantity)

-- `v1.ResourceStorage`
abbrev pub resource_storage : String
resource_storage = "storage"

-- `resources[name]`, the zero quantity where the name is missing.
unfoldable pub quantity_of : ResourceList → String → Quantity
quantity_of [] name = record { value = pos 0; format = "" }
quantity_of ((k, q) ∷ rest) name = if k == name then q else quantity_of rest name

pub record ResourceRequirements : Type 0 where
  pub requests : ResourceList

pub record PersistentVolumeClaimSplit : Type 0 where
  pub claim_name : String
  pub resources : ResourceRequirements

pub record VolumeSplitSpec : Type 0 where
  pub volume_name : String
  pub capacity_total : ResourceList
  pub access_modes : List AccessMode
  pub namespace : String
  pub storage_class_name : Option String
  pub splits : List PersistentVolumeClaimSplit

pub record VolumeSplit : Type 0 where
  pub name : String
  pub spec : VolumeSplitSpec

pub record PersistentVolumeClaim : Type 0 where
  pub name : String
  pub namespace : String
  pub access_modes : List AccessMode
  pub resources : ResourceRequirements
  pub storage_class_name : Option String

pub data VolumeSource : Type 0 where
  persistent_volume_claim : String → VolumeSource
  -- path and type
  host_path : String → String → VolumeSource

pub record PodVolume : Type 0 where
  pub name : String
  pub source : VolumeSource

pub record VolumeMount : Type 0 where
  pub name : String
  pub mount_path : String
  pub mount_propagation : Option String

pub record Container : Type 0 where
  pub name : String
  pub image : String
  pub image_pull_policy : String
  pub privileged : Option Bool
  pub command : List String
  pub args : List String
  pub volume_mounts : List VolumeMount

pub record PodSpec : Type 0 where
  pub containers : List Container
  pub volumes : List PodVolume
  pub node_selector : List (String × String)
  pub node_name : String

pub record Pod : Type 0 where
  pub name : String
  pub namespace : String
  pub deletion_timestamp : Option ℕ
  pub spec : PodSpec
  -- `Status.Phase`, a string
  pub phase : String
