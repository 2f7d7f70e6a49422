-- ===== src/Union.antt =====
-- pkg/union/types.go: what the union package's operations take and return.
pub mod AccessModes
pub mod Splitter
pub mod Splits
pub mod Lower
pub mod Pod
pub mod Attacher
pub mod Samples
use union_csi.Base.{String, Option, List, map}
use union_csi.Base.Int.{ℤ}
use union_csi.Csi.{Mode}
use union_csi.Kube.{AccessMode, VolumeSplit, quantity_of, resource_storage}

pub record CreateLowerOptions : Type 0 where
  pub capacity_bytes : ℤ
  pub lower_namespace : String
  pub lower_storage_class_name : Option String
  pub csi_access_modes : List Mode

pub record Volume : Type 0 where
  pub volume_id : String
  pub capacity_bytes : ℤ
  pub access_modes : List AccessMode
  pub namespace : String
  pub claim_names : List String
  pub storage_class_name : Option String

pub record VolumeAttachment : Type 0 where
  pub volume_id : String
  pub node_id : String
  pub host_path : String

unfoldable pub new_volume_from_volume_split : VolumeSplit → Volume
unfolding quantity_of
new_volume_from_volume_split split = record {
  volume_id = split.spec.volume_name;
  capacity_bytes = (quantity_of split.spec.capacity_total resource_storage).value;
  access_modes = split.spec.access_modes;
  namespace = split.spec.namespace;
  claim_names = map (λ s. s.claim_name) split.spec.splits;
  storage_class_name = split.spec.storage_class_name;
}
