-- ===== src/Csi/Controller/Calls.antt =====
-- The rest of pkg/csi/driver/controller_server.go: the calls that are not implemented, the getter of
-- the capabilities with what it calls of pkg/csi/validation/controller_validator.go, and the service
-- as a whole.
pub mod Advertised
pub mod History
pub mod Samples
use union_csi.Base.{String, List, map}
use union_csi.Csi.{ControllerCapType}
use union_csi.Csi.Controller
use union_csi.Csi.Controller.Request.{Request}
use union_csi.Csi.Controller.{ControllerServer, CreateVolumeResponse}
use union_csi.Csi.Status.{Reply, replied, status, crash, unimplemented}
use union_csi.Csi.Validation.{FieldLibrary}
use union_csi.Csi.Validators.{ControllerValidator}
use union_csi.Kube.Cluster.{Cluster}

-- `ControllerServiceCapability`, of which the driver makes those of the type `Rpc`.
pub data ControllerServiceCapability : Type 0 where
  rpc : ControllerCapType → ControllerServiceCapability

-- What the methods answer to every request.
unfoldable pub validate_volume_capabilities : Reply (Unit {0})
validate_volume_capabilities = status unimplemented

unfoldable pub list_volumes : Reply (Unit {0})
list_volumes = status unimplemented

unfoldable pub get_capacity : Reply (Unit {0})
get_capacity = status unimplemented

unfoldable pub create_snapshot : Reply (Unit {0})
create_snapshot = status unimplemented

unfoldable pub delete_snapshot : Reply (Unit {0})
delete_snapshot = status unimplemented

unfoldable pub list_snapshots : Reply (Unit {0})
list_snapshots = status unimplemented

unfoldable pub controller_expand_volume : Reply (Unit {0})
controller_expand_volume = status unimplemented

unfoldable pub controller_get_volume : Reply (Unit {0})
controller_get_volume = status unimplemented

-- A response of the service.
pub data Response : Type 0 where
  created : CreateVolumeResponse → Response
  published : List (String × String) → Response
  capabilities : List ControllerServiceCapability → Response
  done : Response

abbrev pub answer : {A : Type 0} → (A → Response) → Reply A → Reply Response
answer f (replied a) = replied (f a)
answer f (status c) = status c
answer f crash = crash

-- `in_order` lists a Go set in the order of one iteration.
module _ (in_order : List ControllerCapType → List ControllerCapType) where
  -- `controllerCaps`, which the constructor of the validator makes from its set.
  unfoldable pub controller_caps : ControllerValidator → List ControllerServiceCapability
  controller_caps v = map rpc (in_order v.controller_cap_types_set)

  unfoldable pub get_controller_capabilities :
      ControllerValidator → List ControllerServiceCapability
  unfolding controller_caps
  get_controller_capabilities v = controller_caps v

  unfoldable pub controller_get_capabilities :
      ControllerServer → Reply (List ControllerServiceCapability)
  unfolding get_controller_capabilities
  controller_get_capabilities s = replied (get_controller_capabilities s.validator)

  -- `csi.ControllerServer`, method by method.
  module _ (K : Cluster) (F : FieldLibrary) (s : ControllerServer) where
    unfoldable pub serve : Request → K.World → Reply Response × K.World
    unfolding controller_get_capabilities
    serve (Request.create_volume req) w =
        let r = Controller.create_volume K F s req w in (answer created r.0, r.1)
    serve (Request.delete_volume req) w =
        let r = Controller.delete_volume K req w in (answer (λ _. done) r.0, r.1)
    serve (Request.controller_publish_volume req) w =
        let r = Controller.controller_publish_volume K s req w in (answer published r.0, r.1)
    serve (Request.controller_unpublish_volume req) w =
        let r = Controller.controller_unpublish_volume K req w in (answer (λ _. done) r.0, r.1)
    serve Request.validate_volume_capabilities w =
        (answer (λ _. done) validate_volume_capabilities, w)
    serve Request.list_volumes w = (answer (λ _. done) list_volumes, w)
    serve Request.get_capacity w = (answer (λ _. done) get_capacity, w)
    serve Request.controller_get_capabilities w =
        (answer capabilities (controller_get_capabilities s), w)
    serve Request.create_snapshot w = (answer (λ _. done) create_snapshot, w)
    serve Request.delete_snapshot w = (answer (λ _. done) delete_snapshot, w)
    serve Request.list_snapshots w = (answer (λ _. done) list_snapshots, w)
    serve Request.controller_expand_volume w = (answer (λ _. done) controller_expand_volume, w)
    serve Request.controller_get_volume w = (answer (λ _. done) controller_get_volume, w)
