-- ===== src/Csi/Controller.antt =====
-- pkg/csi/driver/controller_server.go, with the parameter keys of const.go and the capabilities of
-- capabilities.go.
pub mod Parameters
pub mod Publish
pub mod Published
pub mod Unpublish
pub mod Deletion
pub mod Lifecycle
pub mod Request
pub mod Calls
pub mod Catalogue
mod Samples
use union_csi.Base.{
  String, Bool, true, false, not, ◌||◌, Option, none, some, List, [], ◌∷◌, ◌++◌, map, ◌==◌,
  string_eq, if◌then◌else◌,
}
use union_csi.Base.Int.{ℤ, pos}
use union_csi.Base.Text.{to_lower}
use union_csi.Csi.{
  Mode, unknown, single_node_writer, AccessType, nil, nil_block, nil_mount, block, mount,
  foreign_type, ControllerCapType, create_delete_volume, publish_unpublish_volume, VolumeCapability,
  CapacityRange, CreateVolumeRequest, DeleteVolumeRequest, ControllerPublishVolumeRequest,
  ControllerUnpublishVolumeRequest,
}
use union_csi.Csi.Status.{
  Code, invalid_argument, not_found, already_exists, failed_precondition, internal, Reply, replied,
  status, crash,
}
use union_csi.Csi.Validation.{FieldLibrary}
use union_csi.Csi.Validators.{
  ControllerValidator, new_controller_validator, create_volume_request_validate,
  delete_volume_request_validate, controller_publish_volume_request_validate,
  controller_unpublish_volume_request_validate,
}
use union_csi.Failure.{
  Err, idempotency_incompatible, volume_not_found, node_not_found, attachment_not_found,
  volume_in_use, is, Result, ok, err, panic,
}
use union_csi.Kube.Cluster.{Cluster}
use union_csi.Union.{CreateLowerOptions, Volume, VolumeAttachment}
use union_csi.Union.Splitter.{Splitter}
use union_csi.Union.Lower.{create_lower, delete_lower}
use union_csi.Union.Attacher.{Attached, attach_lower, detach_lower}

abbrev pub default_capacity_bytes : ℤ
default_capacity_bytes = pos 1024

abbrev pub lower_namespace_param_key : String
lower_namespace_param_key = "lowernamespace"

abbrev pub lower_storage_class_name_param_key : String
lower_storage_class_name_param_key = "lowerstorageclassname"

abbrev pub pvc_name_param_key : String
pvc_name_param_key = "csi.storage.k8s.io/pvc/name"

abbrev pub pvc_namespace_param_key : String
pvc_namespace_param_key = "csi.storage.k8s.io/pvc/namespace"

abbrev pub pv_name_param_key : String
pv_name_param_key = "csi.storage.k8s.io/pv/name"

abbrev pub path_publish_context_key : String
path_publish_context_key = "path"

abbrev pub controller_capabilities : List ControllerCapType
controller_capabilities = create_delete_volume ∷ publish_unpublish_volume ∷ []

abbrev pub volume_capabilities : List Mode
volume_capabilities = single_node_writer ∷ []

-- The server, with what its `union.Interface` is made from.
pub record ControllerServer : Type 0 where
  pub splitter : Splitter
  pub validator : ControllerValidator
  pub default_lower_namespace : String

-- A constructor that fails is a panic.
unfoldable pub new_controller_server : Splitter → String → Result ControllerServer
unfolding new_controller_validator
new_controller_server splitter namespace =
    elim (new_controller_validator controller_capabilities volume_capabilities) [
      | ok v ↦
          ok (record { splitter = splitter; validator = v; default_lower_namespace = namespace })
      | err e ↦ panic
      | panic ↦ panic
    ]

-- The options that `CreateVolume` starts from.
abbrev pub default_options : ControllerServer → CreateLowerOptions
default_options s = record {
  capacity_bytes = pos 0;
  lower_namespace = s.default_lower_namespace;
  lower_storage_class_name = none;
  csi_access_modes = [];
}

-- One round of the loop of `parseParameters`, for an entry of the map.
unfoldable pub parse_parameter : String → String → CreateLowerOptions → Reply CreateLowerOptions
parse_parameter k v options =
    let key = to_lower k in
    if key == lower_namespace_param_key
    then replied (record options { lower_namespace = v })
    else if key == lower_storage_class_name_param_key
    then if v == ""
      then status invalid_argument
      else replied (record options { lower_storage_class_name = some v })
    else if key == pvc_name_param_key
        || (key == pvc_namespace_param_key || key == pv_name_param_key)
    then replied options
    else status invalid_argument

-- `if err != nil { return nil, err }`
abbrev pub proceed : {A B : Type 0} → Reply A → (A → Reply B) → Reply B
proceed (replied a) f = f a
proceed (status c) f = status c
proceed crash f = crash

unfoldable pub parse_parameters :
    List (String × String) → CreateLowerOptions → Reply CreateLowerOptions
unfolding parse_parameter
parse_parameters [] options = replied options
parse_parameters ((k, v) ∷ params) options =
    proceed (parse_parameter k v options) (parse_parameters params)

unfoldable pub get_capacity_bytes : Option CapacityRange → ℤ
get_capacity_bytes none = default_capacity_bytes
get_capacity_bytes (some r) = r.required_bytes

-- `volumeCap.GetAccessType().(type)` is a block volume, which a typed nil is too.
unfoldable pub is_block : Option VolumeCapability → Bool
is_block none = false
is_block (some c) = elim c.access_type [
  | nil ↦ false
  | nil_block ↦ true
  | nil_mount ↦ false
  | block b ↦ true
  | mount m ↦ false
  | foreign_type ↦ false
]

unfoldable pub any_block : List (Option VolumeCapability) → Bool
any_block [] = false
any_block (c ∷ cs) = is_block c || any_block cs

-- `volumeCap.GetAccessMode().GetMode()`, where a nil pointer gives the zero mode.
unfoldable pub mode_of : Option VolumeCapability → Mode
mode_of none = unknown
mode_of (some c) = elim c.access_mode [ none ↦ unknown | some m ↦ m ]

-- What the controller makes of the errors of the union package.
unfoldable pub create_code : Err → Code
create_code e = if is e idempotency_incompatible then already_exists else internal

unfoldable pub publish_error : Option VolumeAttachment → Err → Reply (List (String × String))
publish_error attachment e =
    if is e volume_in_use
    then elim attachment [ none ↦ crash | some a ↦ status failed_precondition ]
    else if is e volume_not_found || is e node_not_found
    then status not_found
    else status internal

-- The publish context, of which the attachment's host path is the only entry.
unfoldable pub publish_reply : Result Attached → Reply (List (String × String))
publish_reply (ok (attachment, some e)) = publish_error attachment e
publish_reply (ok (some a, none)) = replied ((path_publish_context_key, a.host_path) ∷ [])
publish_reply (ok (none, none)) = crash
publish_reply (err e) = publish_error none e
publish_reply panic = crash

pub record CreateVolumeResponse : Type 0 where
  pub volume_id : String
  pub capacity_bytes : ℤ

unfoldable pub create_reply : Result Volume → Reply CreateVolumeResponse
create_reply (ok v) =
    replied (record { volume_id = v.volume_id; capacity_bytes = v.capacity_bytes })
create_reply (err e) = status (create_code e)
create_reply panic = crash

-- A volume that is not there counts as deleted.
unfoldable pub delete_reply : Result (Unit {0}) → Reply (Unit {0})
delete_reply (ok u) = replied tt
delete_reply (err e) = if is e volume_not_found then replied tt else status internal
delete_reply panic = crash

-- A volume that is not attached counts as detached.
unfoldable pub unpublish_reply : Result (Unit {0}) → Reply (Unit {0})
unpublish_reply (ok u) = replied tt
unpublish_reply (err e) =
    if is e attachment_not_found
    then replied tt
    else if is e volume_not_found || is e node_not_found
    then status not_found
    else status internal
unpublish_reply panic = crash

module _ (K : Cluster) where
  -- A step that does not touch the cluster, before one that may.
  abbrev pub before :
      {A B : Type 0} → Reply A → (A → K.World → Reply B × K.World) → K.World → Reply B × K.World
  before (replied a) f w = f a w
  before (status c) f w = (status c, w)
  before crash f w = (crash, w)

  unfoldable pub create_volume :
      FieldLibrary
      → ControllerServer
      → CreateVolumeRequest
      → K.World
      → Reply CreateVolumeResponse × K.World
  create_volume F s req = before (create_volume_request_validate F s.validator req) λ _.
      if any_block req.volume_capabilities
      then (λ w. (status invalid_argument, w))
      else before (parse_parameters req.parameters (default_options s)) λ options w.
        let filled : CreateLowerOptions = record options {
          capacity_bytes = get_capacity_bytes req.capacity_range;
          csi_access_modes = map mode_of req.volume_capabilities;
        } in
        let created = create_lower K s.splitter req.name filled w in
        (create_reply created.0, created.1)

  unfoldable pub delete_volume : DeleteVolumeRequest → K.World → Reply (Unit {0}) × K.World
  delete_volume req =
      before (delete_volume_request_validate req)
        λ _ w. let deleted = delete_lower K req.volume_id w in (delete_reply deleted.0, deleted.1)

  unfoldable pub controller_publish_volume :
      ControllerServer
      → ControllerPublishVolumeRequest
      → K.World
      → Reply (List (String × String)) × K.World
  controller_publish_volume s req =
      before (controller_publish_volume_request_validate s.validator req) λ _ w.
        let attached = attach_lower K req.volume_id req.node_id w in
        (publish_reply attached.0, attached.1)

  unfoldable pub controller_unpublish_volume :
      ControllerUnpublishVolumeRequest → K.World → Reply (Unit {0}) × K.World
  controller_unpublish_volume req = before (controller_unpublish_volume_request_validate req) λ _ w.
      if req.node_id == ""
      then (status invalid_argument, w)
      else let detached = detach_lower K req.volume_id req.node_id w in
        (unpublish_reply detached.0, detached.1)
