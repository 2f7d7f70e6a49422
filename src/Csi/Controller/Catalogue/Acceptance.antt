-- ===== src/Csi/Controller/Catalogue/Acceptance.antt =====
-- Which requests to create a volume come to `CreateLower`, and with which modes.
use union_csi.Base.{
  String, Bool, true, Option, List, [], ◌∷◌, map, ◌≡◌, ◌⊎◌, refl, sym, ap, ◌∙◌, arith, string_eq,
  Bool-cases, inl, inr, All, contains,
}
use union_csi.Csi.{
  mode_eq, Mode-discrete, single_node_writer, VolumeCapability, CreateVolumeRequest, Segments,
}
use union_csi.Csi.Controller.{
  ControllerServer, new_controller_server, volume_capabilities, mode_of, any_block, default_options,
  create_reply, create_volume,
}
use union_csi.Csi.Controller.Catalogue.{IsAcceptable}
use union_csi.Csi.Controller.Lifecycle.{filled}
use union_csi.Csi.Controller.Parameters.{
  with_parameters, parse_parameters-Parsed, taken as parsed, rejected,
}
use union_csi.Csi.Status.{status, invalid_argument}
use union_csi.Csi.Validation.{FieldLibrary}
use union_csi.Csi.Validation.Requests.{IsFieldLibrary}
use union_csi.Csi.Validators.{VolumeValidator, new_controller_validator, has_volume_capability_mode}
use union_csi.Csi.Validators.Modes.{
  Supports, supports, accepts, refuses, create_volume_request_validate-Verdict,
}
use union_csi.Failure.{ok}
use union_csi.Kube.{AccessMode}
use union_csi.Kube.Cluster.{Cluster}
use union_csi.Union.{CreateLowerOptions}
use union_csi.Union.AccessModes.{csi_to_k8s_access_mode, read_write_once}
use union_csi.Union.Lower.{create_lower}
use union_csi.Union.Splitter.{Splitter}

-- The options of an acceptable request.
abbrev pub options_of : ControllerServer → CreateVolumeRequest → CreateLowerOptions
options_of s req = filled req (with_parameters req.parameters (default_options s))

-- A request is acceptable and comes to `CreateLower`, or it is not and is refused.
pub create_volume-cases :
    (K : Cluster) (F : FieldLibrary) (labels : Segments → Bool)
    → IsFieldLibrary F labels
    → (s : ControllerServer) (req : CreateVolumeRequest) (w : K.World)
    → (IsAcceptable labels s req
        × (create_volume K F s req w ≡ (
          create_reply (create_lower K s.splitter req.name (options_of s req) w).0,
          (create_lower K s.splitter req.name (options_of s req) w).1,
        )))
      ⊎ ((¬ IsAcceptable labels s req) × (create_volume K F s req w ≡ (status invalid_argument, w)))
unfolding create_volume
create_volume-cases K F labels L s req w =
    elim (create_volume_request_validate-Verdict F labels L s.validator req) [
      | refuses n e ↦ inr (λ h. n (h.0, h.1), ground (arith, e))
      | accepts good e ↦ elim (Bool-cases (any_block req.volume_capabilities)) [
        | inl blocks ↦ inr (λ h. ground (arith, h.2), ground (arith, e, blocks))
        | inr mounts ↦ elim (parse_parameters-Parsed req.parameters (default_options s)) [
          | rejected n e' ↦ inr (λ h. n h.3, ground (arith, e, mounts, e'))
          | parsed params e' ↦ inl ((good.0, good.1, mounts, params), rw (e, mounts) (rw e' refl))
        ]
      ]
    ]

-- Every mode that the driver's own server supports has a counterpart in Kubernetes.
supported_mode :
    (v : VolumeValidator) (c : Option VolumeCapability)
    → v.volume_cap_modes_set ≡ volume_capabilities
    → Supports v c
    → (a : AccessMode) × (csi_to_k8s_access_mode (mode_of c) ≡ ok a)
unfolding mode_of has_volume_capability_mode csi_to_k8s_access_mode mode_eq Mode-discrete
supported_mode v c only (supports {a = a} {m = m} has) =
    let in_set : contains volume_capabilities m ≡ true =
      sym (ap (λ ks. contains ks m) only) ∙ has in
    let is_it : m ≡ single_node_writer = ground (arith, in_set) in (read_write_once, rw is_it refl)

pub supported_modes :
    (v : VolumeValidator) (cs : List (Option VolumeCapability))
    → v.volume_cap_modes_set ≡ volume_capabilities
    → All (Supports v) cs
    → All (λ m. (a : AccessMode) × (csi_to_k8s_access_mode m ≡ ok a)) (map mode_of cs)
supported_modes v [] only h = tt
supported_modes v (c ∷ cs) only (h, hs) = (supported_mode v c only h, supported_modes v cs only hs)

pub new_controller_server-modes :
    (splitter : Splitter) (ns : String) {s : ControllerServer}
    → new_controller_server splitter ns ≡ ok s
    → s.validator.volume_validator.volume_cap_modes_set ≡ volume_capabilities
unfolding new_controller_server new_controller_validator
new_controller_server-modes splitter ns h = ground arith
