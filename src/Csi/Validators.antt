-- ===== src/Csi/Validators.antt =====
-- pkg/csi/validation: the validators of volume_validator.go, controller_validator.go and
-- node_validator.go. A set of capabilities is a list, read by `contains`.
pub mod Getters
pub mod Modes
pub mod Node
use mathlib.Core.Option
use union_csi.Base.{
  String, Bool, true, false, not, ◌&&◌, Option, none, some, List, [], ◌∷◌, ◌==◌, contains, is_empty,
  Eq, string_eq, if◌then◌else◌,
}
use union_csi.Csi.{
  Mode, mode_eq, unknown, single_node_writer, single_node_reader_only, multi_node_reader_only,
  multi_node_single_writer, multi_node_multi_writer, single_node_single_writer,
  single_node_multi_writer, ControllerCapType, controller_cap_type_eq, NodeCapType,
  node_cap_type_eq, create_delete_volume, publish_unpublish_volume, list_volumes, get_capacity,
  create_delete_snapshot, list_snapshots, clone_volume, publish_readonly, expand_volume,
  list_volumes_published_nodes, volume_condition, get_volume, stage_unstage_volume,
  get_volume_stats, volume_mount_group, VolumeCapability, CreateVolumeRequest, DeleteVolumeRequest,
  ControllerPublishVolumeRequest, ControllerUnpublishVolumeRequest, NodePublishVolumeRequest,
  NodeUnpublishVolumeRequest,
}
use union_csi.Csi.Status.{Code, invalid_argument, Reply, replied, status, crash}
use union_csi.Csi.Validation.{
  ErrorList, FieldLibrary, validate_create_volume_request, validate_delete_volume_request,
  validate_controller_publish_volume_request, validate_controller_unpublish_volume_request,
  validate_node_publish_volume_request, validate_node_unpublish_volume_request,
}
use union_csi.Failure.{Result, ok, err, panic, errorf, capability_unknown, capability_unsupported}

abbrev pub valid_volume_cap_types : List Mode
valid_volume_cap_types =
    single_node_writer ∷ single_node_reader_only ∷ multi_node_reader_only ∷ multi_node_single_writer
    ∷ multi_node_multi_writer ∷ single_node_single_writer ∷ single_node_multi_writer ∷ []

abbrev pub valid_controller_cap_types : List ControllerCapType
valid_controller_cap_types =
    create_delete_volume ∷ publish_unpublish_volume ∷ list_volumes ∷ get_capacity
    ∷ create_delete_snapshot ∷ list_snapshots ∷ clone_volume ∷ publish_readonly ∷ expand_volume
    ∷ list_volumes_published_nodes ∷ volume_condition ∷ get_volume ∷ single_node_multi_writer ∷ []

abbrev pub valid_node_cap_types : List NodeCapType
valid_node_cap_types =
    stage_unstage_volume ∷ get_volume_stats ∷ expand_volume ∷ volume_condition
    ∷ single_node_multi_writer ∷ volume_mount_group ∷ []

-- The loop with which each constructor checks the capabilities that it is given.
unfoldable pub check_caps : {A : Type 0} → ⦃e : Eq A⦄ → A → List A → List A → Result (Unit {0})
check_caps unset valid [] = ok tt
check_caps unset valid (k ∷ ks) =
    let rest = check_caps unset valid ks in
    if k == unset
    then err (errorf capability_unknown)
    else if not (contains valid k)
    then err (errorf capability_unsupported)
    else rest

pub record VolumeValidator : Type 0 where
  pub volume_cap_modes_set : List Mode

pub record ControllerValidator : Type 0 where
  pub controller_cap_types_set : List ControllerCapType
  pub volume_validator : VolumeValidator

pub record NodeValidator : Type 0 where
  pub node_cap_types_set : List NodeCapType
  pub volume_validator : VolumeValidator

-- `if err != nil { return nil, err }`
abbrev pub next : {A B : Type 0} → Result A → (A → Result B) → Result B
next (ok a) f = f a
next (err e) f = err e
next panic f = panic

unfoldable pub new_volume_validator : List Mode → Result VolumeValidator
unfolding check_caps
new_volume_validator modes =
    next (check_caps unknown valid_volume_cap_types modes)
      λ _. ok (record { volume_cap_modes_set = modes })

unfoldable pub new_controller_validator :
    List ControllerCapType → List Mode → Result ControllerValidator
unfolding check_caps new_volume_validator
new_controller_validator types modes =
    next (check_caps unknown valid_controller_cap_types types) λ _.
      next (new_volume_validator modes)
        λ v. ok (record { controller_cap_types_set = types; volume_validator = v })

unfoldable pub new_node_validator : List NodeCapType → List Mode → Result NodeValidator
unfolding check_caps new_volume_validator
new_node_validator types modes = next (check_caps unknown valid_node_cap_types types) λ _.
    next (new_volume_validator modes)
      λ v. ok (record { node_cap_types_set = types; volume_validator = v })

unfoldable pub has_volume_capability_mode : VolumeValidator → Mode → Bool
has_volume_capability_mode v k = contains v.volume_cap_modes_set k

unfoldable pub has_controller_capability_type : ControllerValidator → ControllerCapType → Bool
has_controller_capability_type v k = contains v.controller_cap_types_set k

unfoldable pub has_node_capability_type : NodeValidator → NodeCapType → Bool
has_node_capability_type v k = contains v.node_cap_types_set k

-- `return status.Errorf(codes.InvalidArgument, …)` where errors were found.
abbrev pub refuse_errors : ErrorList → Reply (Unit {0}) → Reply (Unit {0})
refuse_errors [] rest = rest
refuse_errors (x ∷ xs) rest = status invalid_argument

-- The test of `volumeCap.AccessMode.Mode`, which dereferences two pointers, before what follows it.
unfoldable pub check_mode :
    VolumeValidator → Option VolumeCapability → Reply (Unit {0}) → Reply (Unit {0})
check_mode v none rest = crash
check_mode v (some c) rest = elim c.access_mode [
  | none ↦ crash
  | some mode ↦ if not (has_volume_capability_mode v mode) then status invalid_argument else rest
]

unfoldable pub check_modes : VolumeValidator → List (Option VolumeCapability) → Reply (Unit {0})
check_modes v [] = replied tt
check_modes v (c ∷ cs) = check_mode v c (check_modes v cs)

unfoldable pub create_volume_request_validate :
    FieldLibrary → ControllerValidator → CreateVolumeRequest → Reply (Unit {0})
create_volume_request_validate F v req =
    refuse_errors (validate_create_volume_request F req)
      (check_modes v.volume_validator req.volume_capabilities)

unfoldable pub delete_volume_request_validate : DeleteVolumeRequest → Reply (Unit {0})
delete_volume_request_validate req = refuse_errors (validate_delete_volume_request req) (replied tt)

unfoldable pub controller_publish_volume_request_validate :
    ControllerValidator → ControllerPublishVolumeRequest → Reply (Unit {0})
controller_publish_volume_request_validate v req =
    refuse_errors (validate_controller_publish_volume_request req) (
      check_mode v.volume_validator req.volume_capability (
        if not (contains v.controller_cap_types_set publish_readonly) && req.readonly
        then status invalid_argument
        else replied tt))

unfoldable pub controller_unpublish_volume_request_validate :
    ControllerUnpublishVolumeRequest → Reply (Unit {0})
controller_unpublish_volume_request_validate req =
    refuse_errors (validate_controller_unpublish_volume_request req) (replied tt)

unfoldable pub node_publish_volume_request_validate :
    NodeValidator → NodePublishVolumeRequest → Reply (Unit {0})
node_publish_volume_request_validate v req =
    refuse_errors (validate_node_publish_volume_request req) (
      check_mode v.volume_validator req.volume_capability (
        if contains v.node_cap_types_set stage_unstage_volume && req.staging_target_path == ""
        then status invalid_argument
        else replied tt))

unfoldable pub node_unpublish_volume_request_validate :
    NodeUnpublishVolumeRequest → Reply (Unit {0})
node_unpublish_volume_request_validate req =
    refuse_errors (validate_node_unpublish_volume_request req) (replied tt)
