-- ===== src/Csi/Validation.antt =====
-- pkg/csi/validation/validation.go: the errors that a request's fields have. Of an error its kind
-- and its path are kept. The field paths are those that the calls of the library
-- k8s.io/apimachinery/pkg/util/validation/field build, and its checks are parameters.
pub mod Correct
pub mod Requests
use union_csi.Base.{
  ℕ, suc, String, Bool, true, false, not, ◌&&◌, Option, none, some, List, [], ◌∷◌, ◌++◌, ◌==◌,
  string_eq, is_empty, if◌then◌else◌,
}
use union_csi.Base.Int.{ℤ, pos, ltb_ℤ, int_eq}
use union_csi.Base.Text.{is_abs}
use union_csi.Csi.{
  Mode, unknown, single_node_writer, single_node_reader_only, multi_node_reader_only,
  multi_node_single_writer, multi_node_multi_writer, single_node_single_writer,
  single_node_multi_writer, other, AccessType, nil, nil_block, nil_mount, block, mount,
  foreign_type, VolumeCapability, CapacityRange, SourceType, nil_snapshot, nil_volume, snapshot,
  volume, VolumeContentSource, Segments, Topology, TopologyRequirement, CreateVolumeRequest,
  DeleteVolumeRequest, ControllerPublishVolumeRequest, ControllerUnpublishVolumeRequest,
  NodePublishVolumeRequest, NodeUnpublishVolumeRequest,
}

-- `field.NewPath`, `Child` and `Index`
pub data FieldPath : Type 0 where
  new_path : String → FieldPath
  child : FieldPath → String → FieldPath
  index : FieldPath → ℕ → FieldPath

pub data FieldError : Type 0 where
  required forbidden invalid type_invalid not_supported : FieldPath → FieldError
  -- an error that a check of the library reports
  reported : String → FieldPath → FieldError

abbrev pub ErrorList : Type 0
ErrorList = List FieldError

-- `apimachineryvalidation.ValidateNonnegativeField` and `metav1validation.ValidateLabels`
pub record FieldLibrary : Type 0 where
  pub validate_nonnegative_field : ℤ → FieldPath → ErrorList
  pub validate_labels : Segments → FieldPath → ErrorList

-- `if len(value) == 0 { allErrs = append(allErrs, field.Required(path, "")) }`
abbrev pub require : String → FieldPath → ErrorList
require value path = if value == "" then required path ∷ [] else []

unfoldable pub validate_mode : Mode → FieldPath → ErrorList
validate_mode unknown path = required path ∷ []
validate_mode single_node_writer path = []
validate_mode single_node_reader_only path = []
validate_mode multi_node_reader_only path = []
validate_mode multi_node_single_writer path = []
validate_mode multi_node_multi_writer path = []
validate_mode single_node_single_writer path = []
validate_mode single_node_multi_writer path = []
validate_mode (other n) path = not_supported path ∷ []

-- The part of `validateVolumeCapability` on the access mode.
unfoldable pub validate_access_mode : Option Mode → FieldPath → ErrorList
unfolding validate_mode
validate_access_mode none path = required path ∷ []
validate_access_mode (some mode) path = validate_mode mode (child path "mode")

-- The part on the access type, and the part that follows it. A typed nil returns at once.
unfoldable pub validate_access_type : AccessType → FieldPath → ErrorList → ErrorList
validate_access_type nil path rest = required path ∷ rest
validate_access_type nil_block path rest = required path ∷ []
validate_access_type nil_mount path rest = required path ∷ []
validate_access_type (block none) path rest = required (child path "block") ∷ rest
validate_access_type (block (some _)) path rest = rest
validate_access_type (mount none) path rest = required (child path "mount") ∷ rest
validate_access_type (mount (some _)) path rest = rest
validate_access_type foreign_type path rest = type_invalid path ∷ rest

unfoldable pub validate_volume_capability : Option VolumeCapability → FieldPath → ErrorList
unfolding validate_access_type validate_access_mode
validate_volume_capability none path = required path ∷ []
validate_volume_capability (some c) path =
    validate_access_type c.access_type (child path "accessType")
      (validate_access_mode c.access_mode (child path "accessMode"))

unfoldable pub validate_volume_capabilities_loop :
    ℕ → List (Option VolumeCapability) → FieldPath → ErrorList
unfolding validate_volume_capability
validate_volume_capabilities_loop i [] path = []
validate_volume_capabilities_loop i (c ∷ cs) path =
    validate_volume_capability c (index path i) ++ validate_volume_capabilities_loop (suc i) cs path

unfoldable pub validate_volume_capabilities : List (Option VolumeCapability) → FieldPath → ErrorList
unfolding validate_volume_capabilities_loop
validate_volume_capabilities cs path =
    if is_empty cs then required path ∷ [] else validate_volume_capabilities_loop 0 cs path

unfoldable pub validate_source_type : SourceType → FieldPath → ErrorList
validate_source_type nil path = required path ∷ []
validate_source_type nil_snapshot path = required path ∷ []
validate_source_type nil_volume path = required path ∷ []
validate_source_type (snapshot none) path = required (child path "snapshot") ∷ []
validate_source_type (snapshot (some id)) path =
    require id (child (child path "snapshot") "snapshotId")
validate_source_type (volume none) path = required (child path "volume") ∷ []
validate_source_type (volume (some id)) path = require id (child (child path "volume") "volumeId")
validate_source_type foreign_type path = type_invalid path ∷ []

unfoldable pub validate_volume_content_source : Option VolumeContentSource → FieldPath → ErrorList
unfolding validate_source_type
validate_volume_content_source none path = []
validate_volume_content_source (some s) path =
    validate_source_type s.source_type (child path "type")

module _ (F : FieldLibrary) where
  unfoldable pub validate_capacity_range : Option CapacityRange → FieldPath → ErrorList
  validate_capacity_range none path = []
  validate_capacity_range (some r) path =
      if r.required_bytes == pos 0 && r.limit_bytes == pos 0
      then required (child path "requiredBytes") ∷ []
      else F.validate_nonnegative_field r.required_bytes (child path "requiredBytes")
        ++ (F.validate_nonnegative_field r.limit_bytes (child path "limitBytes")
            ++ (if ltb_ℤ r.limit_bytes r.required_bytes && ltb_ℤ (pos 0) r.limit_bytes
                then forbidden (child path "requiredBytes") ∷ []
                else []))

  unfoldable pub validate_topology : Option Topology → FieldPath → ErrorList
  validate_topology none path = required path ∷ []
  validate_topology (some t) path =
      if is_empty t.segments
      then required (child path "segments") ∷ []
      else F.validate_labels t.segments (child path "segments")

  unfoldable pub validate_topologies : ℕ → List (Option Topology) → FieldPath → ErrorList
  unfolding validate_topology
  validate_topologies i [] path = []
  validate_topologies i (t ∷ ts) path =
      validate_topology t (index path i) ++ validate_topologies (suc i) ts path

  unfoldable pub validate_accessibility_requirements :
      Option TopologyRequirement → FieldPath → ErrorList
  unfolding validate_topologies
  validate_accessibility_requirements none path = []
  validate_accessibility_requirements (some r) path =
      if is_empty r.requisite && is_empty r.preferred
      then required (child path "requisite") ∷ []
      else validate_topologies 0 r.requisite (child path "requisite")
        ++ validate_topologies 0 r.preferred (child path "preferred")

  unfoldable pub validate_create_volume_request : CreateVolumeRequest → ErrorList
  validate_create_volume_request req =
      require req.name (new_path "name")
      ++ (validate_capacity_range req.capacity_range (new_path "capacityRange")
          ++ (validate_volume_capabilities req.volume_capabilities (new_path "volumeCapabilities")
              ++ (validate_volume_content_source req.volume_content_source
                    (new_path "volumeContentSource")
                  ++ validate_accessibility_requirements req.accessibility_requirements
                      (new_path "accessibilityRequirements"))))

unfoldable pub validate_delete_volume_request : DeleteVolumeRequest → ErrorList
validate_delete_volume_request req = require req.volume_id (new_path "volumeId")

unfoldable pub validate_controller_publish_volume_request :
    ControllerPublishVolumeRequest → ErrorList
validate_controller_publish_volume_request req =
    require req.volume_id (new_path "volumeId")
    ++ (require req.node_id (new_path "nodeId")
        ++ validate_volume_capability req.volume_capability (new_path "volumeCapability"))

unfoldable pub validate_controller_unpublish_volume_request :
    ControllerUnpublishVolumeRequest → ErrorList
validate_controller_unpublish_volume_request req = require req.volume_id (new_path "volumeId")

unfoldable pub validate_target_path : String → FieldPath → ErrorList
validate_target_path target_path path =
    if target_path == ""
    then required path ∷ []
    else if not (is_abs target_path)
    then invalid path ∷ []
    else []

unfoldable pub validate_node_publish_volume_request : NodePublishVolumeRequest → ErrorList
validate_node_publish_volume_request req =
    require req.volume_id (new_path "volumeId")
    ++ ((if not (req.staging_target_path == "")
          then validate_target_path req.staging_target_path (new_path "stagingTargetPath")
          else [])
        ++ (validate_target_path req.target_path (new_path "targetPath")
            ++ validate_volume_capability req.volume_capability (new_path "volumeCapability")))

unfoldable pub validate_node_unpublish_volume_request : NodeUnpublishVolumeRequest → ErrorList
validate_node_unpublish_volume_request req =
    require req.volume_id (new_path "volumeId")
    ++ validate_target_path req.target_path (new_path "targetPath")
