-- ===== src/Csi.antt =====
-- The messages of the Container Storage Interface that the driver handles. A pointer is an option
-- (none for nil), and a Go map is a list of its entries in the order of one iteration.
pub mod Status
pub mod Validation
pub mod Validators
pub mod Controller
pub mod Node
pub mod Identity
pub mod Driver
mod Samples
use native.Mathlib.Decide.{ℕ_discrete}
use union_csi.Base.{String, Bool, Option, List, Eq}
use union_csi.Base.Int.{ℤ}

-- `VolumeCapability_AccessMode_Mode`, an int32: the named values, and any other number.
pub data Mode : Type 0 where
  unknown single_node_writer single_node_reader_only multi_node_reader_only : Mode
  multi_node_single_writer multi_node_multi_writer single_node_single_writer : Mode
  single_node_multi_writer : Mode
  other : ℤ → Mode

unfoldable pub Mode-discrete : Discrete Mode
Mode-discrete = hlevel ℕ_discrete

instance unfoldable pub mode_eq : Eq Mode
unfolding Mode-discrete
mode_eq = record { dec = Mode-discrete }

-- `ControllerServiceCapability_RPC_Type`, an int32.
pub data ControllerCapType : Type 0 where
  unknown create_delete_volume publish_unpublish_volume list_volumes : ControllerCapType
  get_capacity create_delete_snapshot list_snapshots clone_volume : ControllerCapType
  publish_readonly expand_volume list_volumes_published_nodes : ControllerCapType
  volume_condition get_volume single_node_multi_writer : ControllerCapType
  other : ℤ → ControllerCapType

-- `NodeServiceCapability_RPC_Type`, an int32.
pub data NodeCapType : Type 0 where
  unknown stage_unstage_volume get_volume_stats expand_volume volume_condition : NodeCapType
  single_node_multi_writer volume_mount_group : NodeCapType
  other : ℤ → NodeCapType

unfoldable pub ControllerCapType-discrete : Discrete ControllerCapType
ControllerCapType-discrete = hlevel ℕ_discrete

instance unfoldable pub controller_cap_type_eq : Eq ControllerCapType
unfolding ControllerCapType-discrete
controller_cap_type_eq = record { dec = ControllerCapType-discrete }

unfoldable pub NodeCapType-discrete : Discrete NodeCapType
NodeCapType-discrete = hlevel ℕ_discrete

instance unfoldable pub node_cap_type_eq : Eq NodeCapType
unfolding NodeCapType-discrete
node_cap_type_eq = record { dec = NodeCapType-discrete }

pub record MountVolume : Type 0 where
  pub fs_type : String
  pub mount_flags : List String

-- The interface value `AccessType`: nil, a typed nil, a wrapper whose pointer may be nil, or a
-- type from elsewhere.
pub data AccessType : Type 0 where
  nil : AccessType
  nil_block nil_mount : AccessType
  block : Option (Unit {0}) → AccessType
  mount : Option MountVolume → AccessType
  foreign_type : AccessType

-- `access_mode` is the pointer to the message that holds the mode.
pub record VolumeCapability : Type 0 where
  pub access_type : AccessType
  pub access_mode : Option Mode

pub record CapacityRange : Type 0 where
  pub required_bytes : ℤ
  pub limit_bytes : ℤ

-- The interface value `Type` of a content source, with the identifier in its message.
pub data SourceType : Type 0 where
  nil : SourceType
  nil_snapshot nil_volume : SourceType
  snapshot : Option String → SourceType
  volume : Option String → SourceType
  foreign_type : SourceType

pub record VolumeContentSource : Type 0 where
  pub source_type : SourceType

abbrev pub Segments : Type 0
Segments = List (String × String)

pub record Topology : Type 0 where
  pub segments : Segments

pub record TopologyRequirement : Type 0 where
  pub requisite : List (Option Topology)
  pub preferred : List (Option Topology)

pub record CreateVolumeRequest : Type 0 where
  pub name : String
  pub capacity_range : Option CapacityRange
  pub volume_capabilities : List (Option VolumeCapability)
  pub parameters : List (String × String)
  pub volume_content_source : Option VolumeContentSource
  pub accessibility_requirements : Option TopologyRequirement

pub record DeleteVolumeRequest : Type 0 where
  pub volume_id : String

pub record ControllerPublishVolumeRequest : Type 0 where
  pub volume_id : String
  pub node_id : String
  pub volume_capability : Option VolumeCapability
  pub readonly : Bool

pub record ControllerUnpublishVolumeRequest : Type 0 where
  pub volume_id : String
  pub node_id : String

pub record NodePublishVolumeRequest : Type 0 where
  pub volume_id : String
  pub publish_context : List (String × String)
  pub staging_target_path : String
  pub target_path : String
  pub volume_capability : Option VolumeCapability
  pub readonly : Bool

pub record NodeUnpublishVolumeRequest : Type 0 where
  pub volume_id : String
  pub target_path : String
