-- ===== src/Csi/Validators/Getters.antt =====
-- The getters of the validators in volume_validator.go, controller_validator.go and
-- node_validator.go of pkg/csi/validation that the texts of their errors use.
use union_csi.Base.{Bool, List}
use union_csi.Csi.{Mode, ControllerCapType, NodeCapType}
use union_csi.Csi.Validators.{
  VolumeValidator, ControllerValidator, NodeValidator, has_volume_capability_mode,
}

-- `sorted` stands for `sets.List` of k8s.io/apimachinery/pkg/util/sets.
module _ (sorted : (A : Type 0) → List A → List A) where
  unfoldable pub get_volume_capability_modes : VolumeValidator → List Mode
  get_volume_capability_modes v = sorted Mode v.volume_cap_modes_set

  unfoldable pub get_controller_capability_types : ControllerValidator → List ControllerCapType
  get_controller_capability_types v = sorted ControllerCapType v.controller_cap_types_set

  unfoldable pub get_node_capability_types : NodeValidator → List NodeCapType
  get_node_capability_types v = sorted NodeCapType v.node_cap_types_set

  -- The validators of the services pass on what their validator of volumes answers.
  unfoldable pub get_controller_volume_modes : ControllerValidator → List Mode
  get_controller_volume_modes v = get_volume_capability_modes v.volume_validator

  unfoldable pub get_node_volume_modes : NodeValidator → List Mode
  get_node_volume_modes v = get_volume_capability_modes v.volume_validator

unfoldable pub has_controller_volume_mode : ControllerValidator → Mode → Bool
has_controller_volume_mode v k = has_volume_capability_mode v.volume_validator k

unfoldable pub has_node_volume_mode : NodeValidator → Mode → Bool
has_node_volume_mode v k = has_volume_capability_mode v.volume_validator k
